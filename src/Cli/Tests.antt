-- ===== src/Cli/Tests.antt =====
-- Command lines, and the theorems at them.
use vidvnc.Base.{
  ◌≤◌, ◌≡◌, refl, Bool, true, false, List, [], ◌∷◌, Text, codes, length, before, is_space, dec_text,
  ok, err, arith,
}
use vidvnc.Base.Table.{Table, get, set}
use vidvnc.Cli.Tokens.{read, scan, tokenize, max_line, unterminated_quote}
use vidvnc.Cli.Quotes.{write, tokenize-write}
use vidvnc.Cli.Arguments.{
  after_equals, classify, parse_from, parse_flags, split_size, parse_size, parse_whole, given,
  switched, odd_size, not_a_size, given_twice, needs_value,
}

runs : Unit {0}
unfolding dec_text before is_space get set read scan tokenize after_equals classify parse_from
    split_size parse_size parse_whole
runs = tt

desk :
    tokenize (codes "  profile add \"Office desk\"  --fps 60 ")
    ≡ ok (codes "profile" ∷ codes "add" ∷ codes "Office desk" ∷ codes "--fps" ∷ codes "60" ∷ [])
unfolding runs
desk = refl

empty_word : tokenize (codes "x \"\"") ≡ ok (codes "x" ∷ [] ∷ [])
unfolding runs
empty_word = refl

joined : tokenize (codes "a\"b c\"d") ≡ ok (codes "ab cd" ∷ [])
unfolding runs
joined = refl

unclosed : tokenize (codes "profile add \"Office") ≡ err unterminated_quote
unfolding runs
unclosed = refl

abbrev said : List Text
said = codes "name" ∷ codes "say \"hi\" \\ ok" ∷ [] ∷ []

short : length (write said) ≤ max_line
short = omega arith

tokenize-write_example : tokenize (write said) ≡ ok said
tokenize-write_example = tokenize-write said short

abbrev options : Table Bool
options = (codes "fps", false) ∷ (codes "quiet", true) ∷ []

flags :
    parse_flags (codes "add" ∷ codes "--fps" ∷ codes "60" ∷ codes "--quiet" ∷ []) options
    ≡ ok (record {
      positionals = codes "add" ∷ [];
      flags = (codes "fps", given (codes "60")) ∷ (codes "quiet", switched) ∷ [];
    })
unfolding runs
flags = refl

twice :
    parse_flags (codes "--fps=5" ∷ codes "--fps=6" ∷ []) options ≡ err (given_twice (codes "fps"))
unfolding runs
twice = refl

missing : parse_flags (codes "--fps" ∷ []) options ≡ err (needs_value (codes "fps"))
unfolding runs
missing = refl

size : parse_size (codes "1920X1080") ≡ ok (record { width = 1920; height = 1080 })
unfolding runs
size = refl

odd : parse_size (codes "1921x1080") ≡ err odd_size
unfolding runs
odd = refl

no_size : parse_size (codes "1920x1080x2") ≡ err not_a_size
unfolding runs
no_size = refl
