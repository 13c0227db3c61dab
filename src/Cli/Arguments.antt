-- ===== src/Cli/Arguments.antt =====
-- apps/server/src/cli/arguments.mjs: the options and the values of a command. `true` under an option's
-- name says that it is a switch, without a value.
use vidvnc.Base.{
  ℕ, ◌+◌, ◌-◌, ◌*◌, ◌%◌, Bool, true, false, not, ◌&&◌, ◌||◌, Option, none, some, List, [], ◌∷◌,
  ◌++◌, Text, codes, same, leb, ltb, ◌==◌, length, drop, all, any, before, if◌then◌else◌, Result,
  ok, err,
}
use vidvnc.Base.Table.{Table, get, has, set}

-- What the functions throw.
pub data ArgumentError : Type 0 where
  unknown_option given_twice takes_no_value needs_value : Text → ArgumentError
  wrong_number not_on_or_off not_a_size odd_size : ArgumentError
  not_whole not_a_choice : (label : Text) → ArgumentError

pub data Flag : Type 0 where
  switched : Flag
  given : Text → Flag

pub record Parsed : Type 0 where
  pub positionals : List Text
  pub flags : Table Flag

-- What a token is.
pub data Token : Type 0 where
  positional : Token
  wants_value : (name : Text) → Token
  complete : (name : Text) → Flag → Token

-- The part after the first `=`, where there is one.
unfoldable pub after_equals : Text → Option Text
after_equals [] = none
after_equals (c ∷ s) = if c == b'=' then some s else after_equals s

-- `token.startsWith('--')`
abbrev pub is_option : Text → Bool
is_option [] = false
is_option (c ∷ []) = false
is_option (c ∷ d ∷ s) = c == b'-' && d == b'-'

-- The body of the loop of `parseFlags`.
unfoldable pub classify : Table Bool → Table Flag → Text → Result ArgumentError Token
unfolding before after_equals
classify allowed flags token =
    let name = before b'=' (drop 2 token) in
    if not (is_option token) then ok positional else (elim (get name allowed) [
      | none ↦ err (unknown_option name)
      | some is_switch ↦
          if has name flags then err (given_twice name) else (elim (after_equals (drop 2 token)) [
            | some value ↦
                if is_switch then err (takes_no_value name) else ok (complete name (given value))
            | none ↦ if is_switch then ok (complete name switched) else ok (wants_value name)
          ])
    ])

-- The loop; `some name` where the next token is the value of that option.
unfoldable pub parse_from :
    Table Bool → List Text → Table Flag → Option Text → List Text → Result ArgumentError Parsed
unfolding classify
parse_from allowed positionals flags none [] =
    ok (record { positionals = positionals; flags = flags })
parse_from allowed positionals flags (some name) [] = err (needs_value name)
parse_from allowed positionals flags (some name) (value ∷ tokens) =
    parse_from allowed positionals (set name (given value) flags) none tokens
parse_from allowed positionals flags none (token ∷ tokens) = elim (classify allowed flags token) [
  | err e ↦ err e
  | ok positional ↦ parse_from allowed (positionals ++ token ∷ []) flags none tokens
  | ok (wants_value name) ↦ parse_from allowed positionals flags (some name) tokens
  | ok (complete name flag) ↦ parse_from allowed positionals (set name flag flags) none tokens
]

-- `parseFlags`
abbrev pub parse_flags : List Text → Table Bool → Result ArgumentError Parsed
parse_flags tokens allowed = parse_from allowed [] [] none tokens

-- `expectArguments`
abbrev pub expect_arguments : List Text → (min max : ℕ) → Result ArgumentError (Unit {0})
expect_arguments positionals min max =
    if ltb (length positionals) min || ltb max (length positionals) then err wrong_number else ok tt

-- `onOff`
abbrev pub on_off : Text → Result ArgumentError Bool
on_off value =
    if same value (codes "on")
    then ok true
    else if same value (codes "off")
    then ok false
    else err not_on_or_off

abbrev is_digit : ℕ → Bool
is_digit c = leb b'0' c && leb c b'9'

-- Up to so many digits, and at least one.
abbrev is_number : ℕ → Text → Bool
is_number most s = leb 1 (length s) && leb (length s) most && all is_digit s

abbrev pub digits_value : ℕ → Text → ℕ
digits_value n [] = n
digits_value n (c ∷ s) = digits_value (n * 10 + (c - b'0')) s

-- The text before and after the first x.
unfoldable pub split_size : Text → Option (Text × Text)
split_size [] = none
split_size (c ∷ s) =
    let rest = split_size s in
    if c == b'x' || c == b'X'
    then some ([], s)
    else (elim rest [ none ↦ none | some (a, b) ↦ some (c ∷ a, b) ])

pub record Size : Type 0 where
  pub width : ℕ
  pub height : ℕ

-- `parseSize`
unfoldable pub parse_size : Text → Result ArgumentError Size
unfolding split_size
parse_size value = elim (split_size value) [
  | none ↦ err not_a_size
  | some (a, b) ↦
      if not (is_number 5 a && is_number 5 b)
      then err not_a_size
      else if digits_value 0 a % 2 == 0 && digits_value 0 b % 2 == 0
      then ok (record { width = digits_value 0 a; height = digits_value 0 b })
      else err odd_size
]

-- `parseWhole`
unfoldable pub parse_whole : Text → Text → Result ArgumentError ℕ
parse_whole value label =
    if is_number 9 value then ok (digits_value 0 value) else err (not_whole label)

-- `parseChoice`
unfoldable pub parse_choice : Text → List Text → Text → Result ArgumentError Text
parse_choice value choices label =
    if any (same value) choices then ok value else err (not_a_choice label)
