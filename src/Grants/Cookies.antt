-- ===== src/Grants/Cookies.antt =====
-- apps/server/src/viewer-asset-grants.mjs: peers and the cookie of a viewer.
use vidvnc.Base.{
  ℕ, ◌-◌, Bool, false, ◌&&◌, ◌||◌, Option, none, some, List, [], ◌∷◌, Text, codes, same, leb, ◌==◌,
  split_on, length, drop, all, if◌then◌else◌, trim,
}
use vidvnc.Sessions.Device.{starts_with}

abbrev between : ℕ → ℕ → ℕ → Bool
between lo hi c = leb lo c && leb c hi

abbrev is_digit : ℕ → Bool
is_digit = between b'0' b'9'

-- Groups of digits with so many dots between them; `seen` says whether the group has a digit.
unfoldable pub is_dotted : (dots : ℕ) (seen : Bool) → Text → Bool
is_dotted dots seen [] = seen && dots == 0
is_dotted dots seen (c ∷ s) =
    (is_digit c || (c == b'.' && seen && leb 1 dots))
    && is_dotted (if is_digit c then dots else dots - 1) (is_digit c) s

-- `normalizePeer`: an IPv4 address that is mapped into IPv6 is the IPv4 address.
unfoldable pub normalize_peer : Text → Text
unfolding starts_with is_dotted
normalize_peer peer =
    if starts_with (codes "::ffff:") peer && is_dotted 3 false (drop 7 peer)
    then drop 7 peer
    else peer

-- What stands before and after the first `=`.
unfoldable pub entry : Text → Option (Text × Text)
entry [] = none
entry (c ∷ s) = elim (entry s) [
  | none ↦ if c == b'=' then some ([], s) else none
  | some (name, value) ↦ if c == b'=' then some ([], s) else some (c ∷ name, value)
]

abbrev pub viewer_value : Text → Option Text
viewer_value piece = elim (entry (trim piece)) [
  | none ↦ none
  | some (name, value) ↦ if same name (codes "vidvnc-viewer") then some value else none
]

-- The loop of `readViewerCookie`: a second value makes the header worthless.
unfoldable pub only_value : Option Text → List Text → Option Text
unfolding entry trim
only_value value [] = value
only_value value (p ∷ ps) = elim (viewer_value p) [
  | none ↦ only_value value ps
  | some v ↦ elim value [ none ↦ only_value (some v) ps | some w ↦ none ]
]

-- /^[A-Za-z0-9_-]{43}$/
abbrev pub is_token : Text → Bool
is_token v =
    length v == 43
    && all (λ c. between b'A' b'Z' c || between b'a' b'z' c || is_digit c || c == b'_' || c == b'-')
        v

unfoldable pub read_viewer_cookie : Text → Option Text
unfolding split_on only_value
read_viewer_cookie header =
    if leb 4097 (length header) then none else (elim (only_value none (split_on b';' header)) [
      | none ↦ none
      | some v ↦ if is_token v then some v else none
    ])
