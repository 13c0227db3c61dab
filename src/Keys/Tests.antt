-- ===== src/Keys/Tests.antt =====
-- Concrete runs of the connection keys, and their theorems at them.
use vidvnc.Base.{ℕ, ◌≡◌, refl, true, false, none, some, List, [], ◌∷◌, codes, ok, dec_text}
use vidvnc.Base.Table.{get, set, delete}
use vidvnc.Keys.Password.{normalize_password, is_valid_password_format}
use vidvnc.Keys.Codes.{
  Keys, KeyRecord, session, once, multi_use, single_use, default_limits, alphabet_symbols,
}
use vidvnc.Keys.Registry.{
  create, rotate_session, create_setup, create_one_time_connection, open_keys, inspect, use_key,
  clear_purpose,
}
use vidvnc.Keys.Histories.{Call, creates_once, uses, clears, call, run, run-one_each}
use vidvnc.Keys.Spent.{draws, redraws, use_key-spent}
use vidvnc.Keys.Draws.{create-inspect}

runs : Unit {0}
unfolding normalize_password is_valid_password_format create rotate_session
    create_one_time_connection open_keys inspect use_key clear_purpose alphabet_symbols get set
    delete dec_text call run create_setup draws redraws
runs = tt

typed_small : normalize_password (codes " abcd2345 ") ≡ some (codes "ABCD-2345")
unfolding runs
typed_small = refl

-- I, L and O are no symbols, and are never guessed to be 1 or 0.
typed_wrong : normalize_password (codes "ABCI-2345") ≡ none
unfolding runs
typed_wrong = refl

abbrev bytes : List ℕ
bytes = 255 ∷ 0 ∷ 1 ∷ 2 ∷ 3 ∷ 8 ∷ 9 ∷ 10 ∷ 11 ∷ []

abbrev opened : Keys
opened = (open_keys (λ t. t) (codes "letters-digits") 100 bytes (codes "g0")).0

opened_key : opened.session_key ≡ some (codes "2345-ABCD")
unfolding runs
opened_key = refl

abbrev code_bytes : List ℕ
code_bytes = 8 ∷ 8 ∷ 8 ∷ 8 ∷ 9 ∷ 9 ∷ 9 ∷ 9 ∷ []

abbrev code_record : KeyRecord
code_record = record {
  purpose = once;
  usage = single_use;
  generation = codes "g1";
  limits = default_limits;
  alphabet = codes "letters-digits";
  created_at = 200;
  expires_at = some 1200;
}

abbrev session_record : KeyRecord
session_record = record {
  purpose = session;
  usage = multi_use;
  generation = codes "g0";
  limits = default_limits;
  alphabet = codes "letters-digits";
  created_at = 100;
  expires_at = none;
}

abbrev before : Keys
before = record {
  records = (codes "2345-ABCD", session_record) ∷ [];
  session_key = some (codes "2345-ABCD");
  ephemeral_key = none;
  alphabet = codes "letters-digits";
}

abbrev with_code : Keys
with_code = record before {
  records = (codes "2345-ABCD", session_record) ∷ (codes "AAAA-BBBB", code_record) ∷ [];
  ephemeral_key = some (codes "AAAA-BBBB");
}

creates_code :
    create
      (λ t. t)
      before
      once
      (some 1000)
      single_use
      (codes "letters-digits")
      default_limits
      200
      code_bytes
      (codes "g1")
    ≡ (with_code, ok (codes "AAAA-BBBB", code_record))
unfolding runs
creates_code = refl

uses_code : use_key (λ t. t) with_code (codes "aaaabbbb") once 300 ≡ (before, some code_record)
unfolding runs
uses_code = refl

abbrev other_bytes : List ℕ
other_bytes = 9 ∷ 9 ∷ 9 ∷ 9 ∷ 9 ∷ 9 ∷ 9 ∷ 9 ∷ []

-- Another code is made, the old one is tried again, and the standing key is cleared.
abbrev afterwards : List Call
afterwards =
    creates_once 1000 (codes "letters-digits") default_limits 301 other_bytes (codes "g2")
    ∷ uses (codes "AAAABBBB") once 302
    ∷ clears session 303
    ∷ []

typed_first : normalize_password (codes "aaaabbbb") ≡ some (codes "AAAA-BBBB")
unfolding runs
typed_first = refl

typed_again : normalize_password (codes "AAAA-BBBB") ≡ some (codes "AAAA-BBBB")
unfolding runs
typed_again = refl

not_redrawn : redraws (λ t. t) (codes "AAAA-BBBB") before afterwards ≡ false
unfolding runs
not_redrawn = refl

use_key-spent_example :
    (inspect (λ t. t) (run (λ t. t) before afterwards) (codes "AAAA-BBBB") 304).1 ≡ none
use_key-spent_example =
    use_key-spent (λ t. t) with_code before (codes "aaaabbbb") (codes "AAAA-BBBB")
      (codes "AAAA-BBBB") once 300 304 code_record afterwards typed_first typed_again uses_code refl
      not_redrawn

create-inspect_example :
    ((inspect (λ t. t) with_code (codes "AAAA-BBBB") 1199).1 ≡ some code_record)
    × (is_valid_password_format (codes "AAAA-BBBB") ≡ true)
    × (code_record.purpose ≡ once)
    × (code_record.usage ≡ single_use)
create-inspect_example =
    create-inspect (λ t. t) before with_code once (some 1000) single_use (codes "letters-digits")
      default_limits 200 code_bytes (codes "g1") (codes "AAAA-BBBB") code_record 1199 creates_code
      refl

abbrev history : List Call
history = creates_once 1000 (codes "letters-digits") default_limits 200 code_bytes (codes "g1") ∷ []

held_code :
    get
      (codes "AAAA-BBBB")
      (run
        (λ t. t)
        (open_keys (λ t. t) (codes "letters-digits") 100 bytes (codes "g0")).0
        history).records
    ≡ some code_record
unfolding runs
held_code = refl

run-one_each_example : codes "AAAA-BBBB" ≡ codes "AAAA-BBBB"
run-one_each_example =
    run-one_each (λ t. t) (codes "letters-digits") 100 bytes (codes "g0") history
      (codes "AAAA-BBBB") (codes "AAAA-BBBB") code_record code_record held_code held_code refl

letters : alphabet_symbols (codes "letters") ≡ some (codes "ABCDEFGHJKMNPQRSTUVWXYZ")
unfolding runs
letters = refl
