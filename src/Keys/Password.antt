-- ===== src/Keys/Password.antt =====
-- The form of a connection key: normalizePassword of apps/web-client/src/password-entry.js and
-- isValidPasswordFormat of apps/server/src/session-store.mjs.
use vidvnc.Base.{
  ℕ, ◌-◌, Bool, ◌&&◌, ◌||◌, Option, none, some, [], ◌∷◌, ◌++◌, Text, codes, leb, ◌==◌, any, all,
  take, drop, length, if◌then◌else◌, trim,
}

-- 23456789ABCDEFGHJKMNPQRSTUVWXYZ, which leaves out what is easily mistaken.
abbrev pub code_symbols : Text
code_symbols = codes "23456789ABCDEFGHJKMNPQRSTUVWXYZ"

unfoldable pub is_symbol : ℕ → Bool
is_symbol c = any (λ s. c == s) code_symbols

-- `toUpperCase` of one code unit, as far as its result is ASCII. Every other code unit whose upper
-- case is another holds a unit above 127 after it as before, which no code has.
unfoldable pub upper : ℕ → Text
upper c =
    if leb b'a' c && leb c b'z'
    then (c - 32) ∷ []
    else if c == 223
    then codes "SS"
    else if c == 305
    then codes "I"
    else if c == 383
    then codes "S"
    else if c == 64256
    then codes "FF"
    else if c == 64257
    then codes "FI"
    else if c == 64258
    then codes "FL"
    else if c == 64259
    then codes "FFI"
    else if c == 64260
    then codes "FFL"
    else if c == 64261 || c == 64262
    then codes "ST"
    else c ∷ []

unfoldable pub to_upper : Text → Text
unfolding upper
to_upper [] = []
to_upper (c ∷ s) = upper c ++ to_upper s

abbrev pub four_symbols : Text → Bool
four_symbols s = length s == 4 && all is_symbol s

abbrev pub skip_dash : Text → Text
skip_dash [] = []
skip_dash (c ∷ s) = if c == b'-' then s else c ∷ s

-- /^[…]{4}-?[…]{4}$/, over the symbols
unfoldable pub is_code : Text → Bool
unfolding is_symbol
is_code s = four_symbols (take 4 s) && four_symbols (skip_dash (drop 4 s))

-- /^[…]{4}-[…]{4}$/: `isValidPasswordFormat`
unfoldable pub is_valid_password_format : Text → Bool
unfolding is_symbol
is_valid_password_format s =
    four_symbols (take 4 s) && any (λ c. c == b'-') (take 1 (drop 4 s)) && four_symbols (drop 5 s)

-- `text.replace('-', '')` removes the first dash.
abbrev pub drop_dash : Text → Text
drop_dash [] = []
drop_dash (c ∷ s) = if c == b'-' then s else c ∷ drop_dash s

unfoldable pub normalize_password : Text → Option Text
unfolding to_upper is_code trim
normalize_password value =
    let text = to_upper (trim value) in
    let symbols = drop_dash text in
    if is_code text then some (take 4 symbols ++ b'-' ∷ drop 4 symbols) else none
