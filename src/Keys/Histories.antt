-- ===== src/Keys/Histories.antt =====
-- The histories of the registry of keys, and its lookups (apps/server/src/connection-keys.mjs).
use vidvnc.Base.{
  ℕ, ◌≡◌, ◌↔◌, refl, sym, ap, ◌∙◌, true, false, none, some, List, [], ◌∷◌, Text, arith, inl, inr,
  Bool-cases, Option-cases,
}
use vidvnc.Base.Table.{get, get-delete}
use vidvnc.Keys.Password.{normalize_password}
use vidvnc.Keys.Codes.{
  Keys, KeyRecord, Purpose, setup, once, single_use, AttemptLimits, is_single, same_purpose,
  alphabet_symbols, default_limits, expired,
}
use vidvnc.Keys.Registry.{
  rotate_session, create_setup, create_one_time_connection, open_keys, inspect_key, inspect,
  use_key, clear_purpose,
}
use vidvnc.Keys.Made.{create-Created}
use vidvnc.Keys.Records.{IsSound}
use vidvnc.Keys.Invariant.{
  inspect-IsSound, use_key-IsSound, rotate_session-IsSound, create_single-IsSound,
  clear_purpose-IsSound,
}

-- A call of the registry, with the time, the random bytes and the identifier that it gets.
pub data Call : Type 0 where
  rotates : (alphabet : Text) → AttemptLimits → ℕ → List ℕ → Text → Call
  creates_setup : (ttl : ℕ) (alphabet : Text) → AttemptLimits → ℕ → List ℕ → Text → Call
  creates_once : (ttl : ℕ) (alphabet : Text) → AttemptLimits → ℕ → List ℕ → Text → Call
  inspects : (value : Text) → ℕ → Call
  uses : (value : Text) → Purpose → ℕ → Call
  clears : Purpose → ℕ → Call

module _ (digest : Text → Text) where
  unfoldable pub call : Keys → Call → Keys
  call self (rotates a l now bytes g) = (rotate_session digest self a l now bytes g).0
  call self (creates_setup ttl a l now bytes g) = (create_setup digest self ttl a l now bytes g).0
  call self (creates_once ttl a l now bytes g) =
      (create_one_time_connection digest self ttl a l now bytes g).0
  call self (inspects value now) = (inspect digest self value now).0
  call self (uses value p now) = (use_key digest self value p now).0
  call self (clears p now) = clear_purpose digest self p now

  unfoldable pub run : Keys → List Call → Keys
  run self [] = self
  run self (c ∷ cs) = run (call self c) cs

  call-IsSound : (self : Keys) (c : Call) → IsSound digest self → IsSound digest (call self c)
  unfolding call create_setup create_one_time_connection
  call-IsSound self (rotates a l now bytes g) s =
      rotate_session-IsSound digest self a l now bytes g s
  call-IsSound self (creates_setup ttl a l now bytes g) s =
      create_single-IsSound digest self setup _ refl
        (create-Created digest self setup (some ttl) single_use a l now bytes g) s
  call-IsSound self (creates_once ttl a l now bytes g) s =
      create_single-IsSound digest self once _ refl
        (create-Created digest self once (some ttl) single_use a l now bytes g) s
  call-IsSound self (inspects value now) s = inspect-IsSound digest self value now s
  call-IsSound self (uses value p now) s = use_key-IsSound digest self value p now s
  call-IsSound self (clears p now) s = clear_purpose-IsSound digest self p now s

  pub run-IsSound :
      (self : Keys) (cs : List Call) → IsSound digest self → IsSound digest (run self cs)
  unfolding run
  run-IsSound self [] s = s
  run-IsSound self (c ∷ cs) s = run-IsSound (call self c) cs (call-IsSound self c s)

  empty-IsSound :
      (alphabet : Text)
      → IsSound digest
          (record { records = []; session_key = none; ephemeral_key = none; alphabet = alphabet })
  unfolding get
  empty-IsSound alphabet = record {
    single = λ l r h u. cc;
    multi = λ l r h u. cc;
    purposes = λ l r h. cc;
    distinct = tt;
    normal_session = λ k e. cc;
    normal_ephemeral = λ k e. cc;
  }

  open_keys-IsSound :
      (alphabet : Text) (now : ℕ) (bytes : List ℕ) (generation : Text)
      → IsSound digest (open_keys digest alphabet now bytes generation).0
  unfolding open_keys
  open_keys-IsSound alphabet now bytes generation =
      elim (Option-cases (alphabet_symbols alphabet)) [
        | inl e ↦ rw (e, open_keys) (empty-IsSound alphabet)
        | inr (symbols, e) ↦
            rw (e, open_keys)
              (rotate_session-IsSound digest _ alphabet default_limits now bytes generation
                (empty-IsSound alphabet))
      ]

  -- After any calls on a new registry, its records with the same usage are one: it holds one
  -- standing key and one short code at most.
  pub run-one_each :
      (alphabet : Text) (now : ℕ) (bytes : List ℕ) (generation : Text) (cs : List Call)
      (l l' : Text) (r r' : KeyRecord)
      → get l (run (open_keys digest alphabet now bytes generation).0 cs).records ≡ some r
      → get l' (run (open_keys digest alphabet now bytes generation).0 cs).records ≡ some r'
      → is_single r.usage ≡ is_single r'.usage
      → l ≡ l'
  run-one_each alphabet now bytes generation cs l l' r r' h h' u =
      let s =
        run-IsSound (open_keys digest alphabet now bytes generation).0 cs
          (open_keys-IsSound alphabet now bytes generation) in
      elim (Bool-cases (is_single r.usage)) [
        | inl e ↦
            let (k, ek, d) = s.single l r h e in
            let (k', ek', d') = s.single l' r' h' (sym u ∙ e) in
            let one : k ≡ k' = ground (arith, ek, ek') in sym d ∙ ap digest one ∙ d'
        | inr e ↦
            let (k, ek, d) = s.multi l r h e in
            let (k', ek', d') = s.multi l' r' h' (sym u ∙ e) in
            let one : k ≡ k' = ground (arith, ek, ek') in sym d ∙ ap digest one ∙ d'
      ]

  pub inspect-gone :
      (self : Keys) (value key : Text) (now : ℕ)
      → normalize_password value ≡ some key
      → get (digest key) self.records ≡ none
      → (inspect digest self value now).1 ≡ none
  unfolding inspect inspect_key
  inspect-gone self value key now n h = rw (n, inspect, h, inspect_key)

  -- The record of a single-use key goes when the key is used.
  pub use_key-deletes :
      (self next : Keys) (value key : Text) (p : Purpose) (now : ℕ) (r : KeyRecord)
      → normalize_password value ≡ some key
      → use_key digest self value p now ≡ (next, some r)
      → is_single r.usage ≡ true
      → get (digest key) next.records ≡ none
  unfolding use_key
  use_key-deletes self next value key p now r n h u =
      elim (Option-cases (inspect digest self key now).1) [
        | inl m ↦ absurd (ground arith)
        | inr (x, m) ↦ elim (Bool-cases (same_purpose x.purpose p)) [
          | inr q ↦ absurd (ground arith)
          | inl q ↦ elim (Bool-cases (is_single x.usage)) [
            | inr v ↦ absurd (ground arith)
            | inl v ↦ ground (
              arith,
              get-delete (digest key) (digest key) (inspect digest self key now).0.records,
            )
          ]
        ]
      ]

  -- `inspect` accepts exactly the values whose normal form has a record that has not expired, and
  -- returns that record.
  pub inspect-eq-some_iff :
      (self : Keys) (value : Text) (now : ℕ) (r : KeyRecord)
      → ((inspect digest self value now).1 ≡ some r) ↔ (
          (key : Text) × (normalize_password value ≡ some key)
          × (get (digest key) self.records ≡ some r)
          × (expired now r ≡ false))
  unfolding inspect inspect_key
  inspect-eq-some_iff self value now r = (there, λ (key, n, held, live). ground arith)
    where
      there :
          (inspect digest self value now).1 ≡ some r
          → (key : Text) × (normalize_password value ≡ some key)
            × (get (digest key) self.records ≡ some r)
            × (expired now r ≡ false)
      there h = elim (Option-cases (normalize_password value)) [
        | inl e ↦ absurd (ground arith)
        | inr (key, e) ↦ (key, e, ground arith, ground arith)
      ]
