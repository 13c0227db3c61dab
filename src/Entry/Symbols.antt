-- ===== src/Entry/Symbols.antt =====
-- apps/web-client/src/password-entry.js: what a field shows of what is typed, and where its caret stands.
use vidvnc.Base.{
  ℕ, ◌+◌, ◌-◌, min, max, Bool, ◌&&◌, ◌||◌, ◌++◌, Text, codes, leb, ltb, length, keep, map, take,
  drop, if◌then◌else◌,
}

-- MAX_SYMBOLS
abbrev pub max_symbols : ℕ
max_symbols = 8

abbrev pub is_symbol : ℕ → Bool
is_symbol c =
    (leb b'a' c && leb c b'z') || ((leb b'A' c && leb c b'Z') || (leb b'0' c && leb c b'9'))

-- `toUpperCase` on ASCII
abbrev pub upper : ℕ → ℕ
upper c = if leb b'a' c && leb c b'z' then c - 32 else c

-- `symbolsIn`
unfoldable pub symbols_in : Text → Text
symbols_in t = map upper (keep is_symbol t)

-- `count`
abbrev pub count : Text → ℕ → ℕ
count value index = length (symbols_in (take index value))

-- What `acceptSymbols` knows.
pub record Accepted : Type 0 where
  pub kept : Text
  pub end : ℕ
  pub cut : ℕ

unfoldable pub accept : (value : Text) → (anchor : ℕ) → Accepted
accept value anchor =
    let symbols = symbols_in value in
    let end = count value anchor in
    let cut = min (length symbols - max_symbols) end in
    record {
      kept = take max_symbols (take (end - cut) symbols ++ drop end symbols);
      end = end;
      cut = cut;
    }

-- The value that is shown
abbrev pub shown : Text → Text
shown kept = if ltb 4 (length kept) then take 4 kept ++ (codes "-" ++ drop 4 kept) else kept

-- `caret`
abbrev pub caret_of : (value : Text) → Accepted → ℕ → ℕ
caret_of value a index =
    let n = count value index in
    let mapped =
      min (length a.kept) (if leb n (a.end - a.cut) then n else max (a.end - a.cut) (n - a.cut)) in
    mapped + (if ltb 4 mapped then 1 else 0)

-- `formatPasswordEntry`
unfoldable pub format_password_entry : Text → ℕ → Text × ℕ
format_password_entry value caret =
    let entry = accept value caret in (shown entry.kept, caret_of value entry caret)

-- `formatSegmentedPasswordEntry`
unfoldable pub format_segmented_password_entry : Text → (start end : ℕ) → Text × ℕ × ℕ
format_segmented_password_entry value start end =
    let entry = accept value end in
    (shown entry.kept, caret_of value entry start, caret_of value entry end)
