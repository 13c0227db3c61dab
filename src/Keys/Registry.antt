-- ===== src/Keys/Registry.antt =====
-- apps/server/src/connection-keys.mjs: the calls of the registry of keys. `digest` is SHA-256 of
-- Node's crypto, and identifiers are what `randomUUID` gave.
use vidvnc.Base.{
  ℕ, zero, suc, ◌+◌, true, false, not, Option, none, some, List, [], Text, length, if◌then◌else◌,
  Result, ok, err, is_some,
}
use vidvnc.Base.Table.{Table, get, has, set, delete}
use vidvnc.Keys.Password.{normalize_password}
use vidvnc.Keys.Codes.{
  AttemptLimits, KeyError, KeyRecord, Keys, Purpose, Usage, alphabet_symbols, bad_lifetime,
  default_limits, delete_purpose, expired, generate, install, invalid_alphabet, invalid_lifetime,
  invalid_limits, is_key, is_session, is_single, multi_use, no_more_bytes, once, same_purpose,
  session, setup, single_use, valid_limits,
}

module _ (digest : Text → Text) where
  -- `do key = generate(…) while (records.has(digest(key)))`, with as many tries as are given.
  unfoldable pub unused_key : ℕ → Table KeyRecord → Text → List ℕ → Option Text
  unfolding generate
  unused_key zero t symbols bytes = none
  unused_key (suc n) t symbols bytes = elim (generate symbols bytes) [
    | none ↦ none
    | some (key, bytes') ↦ elim (has (digest key) t) [
      | true ↦ unused_key n t symbols bytes'
      | false ↦ some key
    ]
  ]

  -- `records.delete(digest(key))` of a key that may be null
  abbrev pub forget : Option Text → Table KeyRecord → Table KeyRecord
  forget none t = t
  forget (some key) t = delete (digest key) t

  -- `#create`: the registry, and the key with its record or what was thrown. Each byte serves one
  -- try at most, so there are enough tries.
  unfoldable pub create :
      Keys
      → Purpose
      → Option ℕ
      → Usage
      → Text
      → AttemptLimits
      → ℕ
      → List ℕ
      → Text
      → Keys × Result KeyError (Text × KeyRecord)
  unfolding alphabet_symbols unused_key
  create self purpose ttl usage alphabet limits now bytes generation =
      if bad_lifetime ttl then (self, err invalid_lifetime) else (elim (alphabet_symbols alphabet) [
        | none ↦ (self, err invalid_alphabet)
        | some symbols ↦
            if not (valid_limits limits)
            then (self, err invalid_limits)
            else (let records =
                  if is_single usage
                  then forget self.ephemeral_key self.records
                  else self.records in
                elim (unused_key (suc (length bytes)) records symbols bytes) [
                  | none ↦ (record self { records = records }, err no_more_bytes)
                  | some key ↦
                      let made : KeyRecord = record {
                        purpose = purpose;
                        usage = usage;
                        generation = generation;
                        limits = limits;
                        alphabet = alphabet;
                        created_at = now;
                        expires_at = elim ttl [ none ↦ none | some n ↦ some (now + n) ];
                      } in
                      (
                        record self {
                          records = set (digest key) made records;
                          ephemeral_key = if is_single usage then some key else self.ephemeral_key;
                        },
                        ok (key, made),
                      )
                ])
      ])

  unfoldable pub rotate_session :
      Keys → Text → AttemptLimits → ℕ → List ℕ → Text → Keys × Result KeyError Text
  rotate_session self alphabet limits now bytes generation =
      let cleared : Keys = record self { records = forget self.session_key self.records } in
      install (create cleared session none multi_use alphabet limits now bytes generation)

  unfoldable pub create_setup :
      Keys
      → ℕ
      → Text
      → AttemptLimits
      → ℕ
      → List ℕ
      → Text
      → Keys × Result KeyError (Text × KeyRecord)
  create_setup self ttl alphabet limits now bytes generation =
      create self setup (some ttl) single_use alphabet limits now bytes generation

  unfoldable pub create_one_time_connection :
      Keys
      → ℕ
      → Text
      → AttemptLimits
      → ℕ
      → List ℕ
      → Text
      → Keys × Result KeyError (Text × KeyRecord)
  create_one_time_connection self ttl alphabet limits now bytes generation =
      create self once (some ttl) single_use alphabet limits now bytes generation

  -- The constructor: `new ConnectionKeyRegistry({ clock, alphabet })`.
  unfoldable pub open_keys : Text → ℕ → List ℕ → Text → Keys × Result KeyError Text
  open_keys alphabet now bytes generation =
      let self : Keys = record {
        records = [];
        session_key = none;
        ephemeral_key = none;
        alphabet = alphabet;
      } in
      elim (alphabet_symbols alphabet) [
        | none ↦ (self, err invalid_alphabet)
        | some s ↦ rotate_session self alphabet default_limits now bytes generation
      ]

  -- A key that was looked up under its normal form.
  unfoldable pub inspect_key : Keys → Text → ℕ → Keys × Option KeyRecord
  inspect_key self key now = elim (get (digest key) self.records) [
    | none ↦ (self, none)
    | some r ↦
        if expired now r
        then (
          record self {
            records = delete (digest key) self.records;
            ephemeral_key = if is_key self.ephemeral_key key then none else self.ephemeral_key;
          },
          none,
        )
        else (self, some r)
  ]

  unfoldable pub inspect : Keys → Text → ℕ → Keys × Option KeyRecord
  unfolding inspect_key normalize_password
  inspect self value now = elim (normalize_password value) [
    | none ↦ (self, none)
    | some key ↦ inspect_key self key now
  ]

  -- `use(value, expectedPurpose)`. It inspects the normal form, which normalizes to itself.
  unfoldable pub use_key : Keys → Text → Purpose → ℕ → Keys × Option KeyRecord
  unfolding inspect
  use_key self value expected now = elim (normalize_password value) [
    | none ↦ (self, none)
    | some key ↦
        let (next, found) = inspect self key now in
        elim found [
          | none ↦ (next, none)
          | some r ↦
              if not (same_purpose r.purpose expected)
              then (next, none)
              else if is_single r.usage
              then (
                record next {
                  records = delete (digest key) next.records;
                  ephemeral_key =
                      if is_key next.ephemeral_key key then none else next.ephemeral_key;
                },
                some r,
              )
              else (next, some r)
        ]
  ]

  unfoldable pub clear_purpose : Keys → Purpose → ℕ → Keys
  unfolding delete_purpose inspect
  clear_purpose self purpose now =
      let next : Keys = record self { records = delete_purpose purpose self.records } in
      if is_session purpose then record next { session_key = none } else (elim next.ephemeral_key [
        | none ↦ next
        | some key ↦
            let (seen, found) = inspect next key now in
            if is_some found then seen else record seen { ephemeral_key = none }
      ])

  -- `activeEphemeral` and `activeSession`
  unfoldable pub active : Keys → Option Text → ℕ → Keys × Option KeyRecord
  unfolding inspect
  active self none now = (self, none)
  active self (some key) now = inspect self key now
