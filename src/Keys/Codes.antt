-- ===== src/Keys/Codes.antt =====
-- apps/server/src/connection-keys.mjs: the records of keys, and how codes are drawn. Random bytes are
-- what `randomBytes` gave.
use vidvnc.Base.{
  ℕ, zero, suc, ◌*◌, ◌/◌, ◌%◌, Bool, true, false, not, ◌&&◌, Option, none, some, List, [], ◌∷◌,
  ◌++◌, Text, codes, same, leb, ltb, get_elem?, take, drop, length, if◌then◌else◌, Result, ok, err,
}
use vidvnc.Base.Table.{Table}

pub data Purpose : Type 0 where
  session setup once : Purpose

pub data Usage : Type 0 where
  multi_use single_use : Usage

pub record AttemptLimits : Type 0 where
  pub global_limit : ℕ
  pub source_limit : ℕ

pub record KeyRecord : Type 0 where
  pub purpose : Purpose
  pub usage : Usage
  pub generation : Text
  pub limits : AttemptLimits
  pub alphabet : Text
  pub created_at : ℕ
  pub expires_at : Option ℕ

pub data KeyError : Type 0 where
  invalid_lifetime invalid_alphabet invalid_limits no_more_bytes : KeyError

-- The registry: its records by the digest of their keys.
pub record Keys : Type 0 where
  pub records : Table KeyRecord
  pub session_key : Option Text
  pub ephemeral_key : Option Text
  pub alphabet : Text

abbrev pub default_limits : AttemptLimits
default_limits = record { global_limit = 20; source_limit = 5 }

-- CODE_ALPHABETS
unfoldable pub alphabet_symbols : Text → Option Text
alphabet_symbols name =
    if same name (codes "letters-digits")
    then some (codes "23456789ABCDEFGHJKMNPQRSTUVWXYZ")
    else if same name (codes "letters")
    then some (codes "ABCDEFGHJKMNPQRSTUVWXYZ")
    else none

-- `randomIndex(limit)` on the bytes that are still to come: bytes from `accepted` on are skipped.
unfoldable pub random_index : ℕ → List ℕ → Option (ℕ × List ℕ)
random_index limit [] = none
random_index limit (value ∷ bytes) =
    let rest = random_index limit bytes in
    if ltb value (256 / limit * limit) then some (value % limit, bytes) else rest

-- So many random symbols.
unfoldable pub draw : ℕ → Text → List ℕ → Option (Text × List ℕ)
unfolding random_index
draw zero symbols bytes = some ([], bytes)
draw (suc n) symbols bytes = elim (random_index (length symbols) bytes) [
  | none ↦ none
  | some (i, bytes') ↦ elim (get_elem? symbols i) [
    | none ↦ none
    | some c ↦ elim (draw n symbols bytes') [
      | none ↦ none
      | some (raw, bytes'') ↦ some (c ∷ raw, bytes'')
    ]
  ]
]

-- `generate(alphabet)`
unfoldable pub generate : Text → List ℕ → Option (Text × List ℕ)
unfolding draw
generate symbols bytes = elim (draw 8 symbols bytes) [
  | none ↦ none
  | some (raw, bytes') ↦ some (take 4 raw ++ b'-' ∷ drop 4 raw, bytes')
]

abbrev pub valid_limits : AttemptLimits → Bool
valid_limits l =
    leb 1 l.global_limit
    && leb l.global_limit 20
    && leb 1 l.source_limit
    && leb l.source_limit 5
    && leb l.source_limit l.global_limit

abbrev pub is_session : Purpose → Bool
is_session session = true
is_session p = false

abbrev pub same_purpose : Purpose → Purpose → Bool
same_purpose session session = true
same_purpose setup setup = true
same_purpose once once = true
same_purpose p q = false

abbrev pub is_single : Usage → Bool
is_single single_use = true
is_single multi_use = false

-- `ttlMs !== null && (!Number.isSafeInteger(ttlMs) || ttlMs < 1)`
abbrev pub bad_lifetime : Option ℕ → Bool
bad_lifetime none = false
bad_lifetime (some n) = not (leb 1 n && leb n 9007199254740991)

abbrev pub is_key : Option Text → Text → Bool
is_key none key = false
is_key (some k) key = same k key

abbrev pub expired : ℕ → KeyRecord → Bool
expired now r = elim r.expires_at [ none ↦ false | some t ↦ leb t now ]

unfoldable pub delete_purpose : Purpose → Table KeyRecord → Table KeyRecord
delete_purpose p [] = []
delete_purpose p ((k, r) ∷ t) =
    if same_purpose r.purpose p then delete_purpose p t else (k, r) ∷ delete_purpose p t

-- The new standing key becomes the registry's, unless `#create` threw.
abbrev pub install : Keys × Result KeyError (Text × KeyRecord) → Keys × Result KeyError Text
install (next, err e) = (next, err e)
install (next, ok (key, r)) = (record next { session_key = some key }, ok key)
