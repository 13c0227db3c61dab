-- ===== src/Offers/Lines.antt =====
-- The lines of a session description: `split(/\r\n/)` and `join('\r\n')` of
-- apps/server/src/sdp-candidates.mjs.
use vidvnc.Base.{ℕ, Bool, true, false, ◌&&◌, List, [], ◌∷◌, Text, ◌==◌, join, if◌then◌else◌}

abbrev pub crlf : Text
crlf = 13 ∷ 10 ∷ []

abbrev pub starts_lf : Text → Bool
starts_lf [] = false
starts_lf (c ∷ s) = c == 10

-- A first character of the first line
abbrev pub onto : ℕ → List Text → List Text
onto c [] = (c ∷ []) ∷ []
onto c (l ∷ ls) = (c ∷ l) ∷ ls

-- The line feed that begins the first line ends the line before it.
abbrev pub end_line : List Text → List Text
end_line [] = []
end_line ([] ∷ ls) = [] ∷ [] ∷ ls
end_line ((c ∷ l) ∷ ls) = [] ∷ l ∷ ls

unfoldable pub split_lines : Text → List Text
split_lines [] = [] ∷ []
split_lines (c ∷ s) =
    let rest = split_lines s in if c == 13 && starts_lf s then end_line rest else onto c rest

abbrev pub join_lines : List Text → Text
join_lines ls = join crlf ls

-- `line.startsWith(prefix)`
unfoldable pub begins_with : (prefix line : Text) → Bool
begins_with [] line = true
begins_with (p ∷ ps) [] = false
begins_with (p ∷ ps) (c ∷ line) = p == c && begins_with ps line
