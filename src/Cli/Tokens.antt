-- ===== src/Cli/Tokens.antt =====
-- apps/server/src/cli/tokenize.mjs: the words of a command line.
use vidvnc.Base.{
  ℕ, Bool, true, false, not, ◌&&◌, ◌||◌, List, [], ◌∷◌, ◌++◌, Text, ltb, ◌==◌, length, is_space,
  if◌then◌else◌, Result, ok, err,
}

-- MAX_LINE
abbrev pub max_line : ℕ
max_line = 1024

abbrev pub quote_mark : ℕ
quote_mark = 0x22

abbrev pub backslash : ℕ
backslash = 0x5c

abbrev pub is_special : ℕ → Bool
is_special c = c == quote_mark || c == backslash

-- The variables of the loop.
pub record Scan : Type 0 where
  pub tokens : List Text
  pub current : Text
  pub started : Bool
  pub quoted : Bool

abbrev pub add_character : ℕ → Scan → Scan
add_character c s = record s { current = s.current ++ c ∷ [] }

-- A character that does not begin an escape.
unfoldable pub read : ℕ → Scan → Scan
read c s =
    if c == quote_mark
    then record s { quoted = not s.quoted; started = true }
    else if not s.quoted && is_space c
    then record s {
      tokens = if s.started then s.tokens ++ s.current ∷ [] else s.tokens;
      current = [];
      started = false;
    }
    else record s { current = s.current ++ c ∷ []; started = true }

-- The loop over the characters.
unfoldable pub scan : Text → Scan → Scan
unfolding read
scan [] s = s
scan (c ∷ []) s = read c s
scan (c ∷ d ∷ rest) s = elim (s.quoted && c == backslash && is_special d) [
  | true ↦ scan rest (add_character d s)
  | false ↦ scan (d ∷ rest) (read c s)
]

pub data TokenError : Type 0 where
  too_long unterminated_quote : TokenError

abbrev pub start : List Text → Scan
start tokens = record { tokens = tokens; current = []; started = false; quoted = false }

unfoldable pub tokenize : Text → Result TokenError (List Text)
unfolding scan
tokenize line =
    let s = scan line (start []) in
    if ltb max_line (length line)
    then err too_long
    else if s.quoted
    then err unterminated_quote
    else ok (if s.started then s.tokens ++ s.current ∷ [] else s.tokens)
