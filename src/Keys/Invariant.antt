-- ===== src/Keys/Invariant.antt =====
-- The calls of the registry of keys and its invariant (apps/server/src/connection-keys.mjs).
use vidvnc.Base.{
  ℕ, ◌≡◌, refl, sym, subst, false, Option, none, some, List, Text, Result, arith, inl, inr,
  Bool-cases, Option-cases,
}
use vidvnc.Base.Table.{get, get-delete}
use vidvnc.Keys.Password.{normalize_password}
use vidvnc.Keys.Forms.{IsNormal, normalize_password_normal}
use vidvnc.Keys.Codes.{
  Keys, KeyRecord, KeyError, Purpose, session, multi_use, single_use, AttemptLimits, is_single,
  is_session, same_purpose, delete_purpose, expired,
}
use vidvnc.Keys.Registry.{forget, rotate_session, inspect_key, inspect, use_key, clear_purpose}
use vidvnc.Keys.Made.{Created, refused, starved, made, create-Created}
use vidvnc.Keys.Records.{
  IsSound, get-forget, forget-IsMap, fewer-IsSound, drop-IsSound, made_single-IsSound,
  made_multi-IsSound, get-delete_purpose, delete_purpose-IsMap, cleared-ephemeral,
}

module _ (digest : Text → Text) where
  pub inspect_key-IsSound :
      (self : Keys) (key : Text) (now : ℕ)
      → IsSound digest self
      → IsSound digest (inspect_key digest self key now).0
  unfolding inspect_key
  inspect_key-IsSound self key now s = elim (Option-cases (get (digest key) self.records)) [
    | inl g ↦ rw (g, inspect_key) s
    | inr (r, g) ↦ elim (Bool-cases (expired now r)) [
      | inl x ↦ rw (g, inspect_key, x) (drop-IsSound digest self key s)
      | inr x ↦ rw (g, inspect_key, x) s
    ]
  ]

  pub inspect-IsSound :
      (self : Keys) (value : Text) (now : ℕ)
      → IsSound digest self
      → IsSound digest (inspect digest self value now).0
  unfolding inspect
  inspect-IsSound self value now s = elim (Option-cases (normalize_password value)) [
    | inl e ↦ rw (e, inspect) s
    | inr (key, e) ↦ rw (e, inspect) (inspect_key-IsSound self key now s)
  ]

  pub use_key-IsSound :
      (self : Keys) (value : Text) (expected : Purpose) (now : ℕ)
      → IsSound digest self
      → IsSound digest (use_key digest self value expected now).0
  unfolding use_key
  use_key-IsSound self value expected now s = elim (Option-cases (normalize_password value)) [
    | inl e ↦ rw (e, use_key) s
    | inr (key, e) ↦
        let kept = inspect-IsSound self key now s in
        elim (Option-cases (inspect digest self key now).1) [
          | inl m ↦ rw (e, use_key, m) kept
          | inr (r, m) ↦ elim (Bool-cases (same_purpose r.purpose expected)) [
            | inr p ↦ rw (e, use_key, m, p) kept
            | inl p ↦ elim (Bool-cases (is_single r.usage)) [
              | inl u ↦
                  rw (e, use_key, m, p, u)
                    (drop-IsSound digest (inspect digest self key now).0 key kept)
              | inr u ↦ rw (e, use_key, m, p, u) kept
            ]
          ]
        ]
  ]

  pub forget-IsSound :
      (self : Keys) (key : Option Text)
      → IsSound digest self
      → IsSound digest (record self { records = forget digest key self.records })
  forget-IsSound self key s =
      fewer-IsSound digest self _ s (λ l r h. get-forget digest l key self.records r h)
        (forget-IsMap digest key self.records s.distinct) refl refl

  pub create_single-IsSound :
      (self : Keys) (purpose : Purpose) (out : Keys × Result KeyError (Text × KeyRecord))
      → is_session purpose ≡ false
      → Created digest self purpose single_use out
      → IsSound digest self
      → IsSound digest out.0
  create_single-IsSound self purpose out p (refused e h) s =
      subst (λ o. IsSound digest o.0) (sym h) s
  create_single-IsSound self purpose out p (starved h) s =
      subst (λ o. IsSound digest o.0) (sym h) (forget-IsSound self self.ephemeral_key s)
  create_single-IsSound self purpose out p (made key r h normal free (e, u)) s =
      subst (λ o. IsSound digest o.0) (sym h)
        (made_single-IsSound digest self key r s normal (ground arith) (cc))

  pub rotate_session-IsSound :
      (self : Keys) (alphabet : Text) (limits : AttemptLimits) (now : ℕ) (bytes : List ℕ)
      (generation : Text)
      → IsSound digest self
      → IsSound digest (rotate_session digest self alphabet limits now bytes generation).0
  unfolding rotate_session
  rotate_session-IsSound self alphabet limits now bytes generation s =
      let cleared : Keys = record self { records = forget digest self.session_key self.records } in
      let kept = forget-IsSound self self.session_key s in
      elim (create-Created digest cleared session none multi_use alphabet limits now bytes
        generation) [
          | refused e h ↦ rw (h, rotate_session) kept
          | starved h ↦ rw (h, rotate_session) kept
          | made key r h normal free (e, u) ↦
              rw (h, rotate_session)
                (made_multi-IsSound digest self key r s normal (ground arith) (cc))
        ]

  pub inspect-none :
      (self : Keys) (key : Text) (now : ℕ)
      → IsNormal key
      → (inspect digest self key now).1 ≡ none
      → get (digest key) (inspect digest self key now).0.records ≡ none
  unfolding inspect inspect_key
  inspect-none self key now n h =
      ground
        (arith, normalize_password_normal key n, get-delete (digest key) (digest key) self.records)

  pub inspect_key-ephemeral :
      (self : Keys) (key k : Text) (now : ℕ)
      → (inspect_key digest self key now).0.ephemeral_key ≡ some k
      → self.ephemeral_key ≡ some k
  unfolding inspect_key
  inspect_key-ephemeral self key k now h = elim (Option-cases (get (digest key) self.records)) [
    | inl g ↦ rw (g, inspect_key) at h
    | inr (r, g) ↦ elim (Bool-cases (expired now r)) [
      | inr x ↦ rw (g, inspect_key, x) at h
      | inl x ↦ cleared-ephemeral self.ephemeral_key key k (rw (g, inspect_key, x) at h)
    ]
  ]

  pub inspect-ephemeral :
      (self : Keys) (value k : Text) (now : ℕ)
      → (inspect digest self value now).0.ephemeral_key ≡ some k
      → self.ephemeral_key ≡ some k
  unfolding inspect
  inspect-ephemeral self value k now h = elim (Option-cases (normalize_password value)) [
    | inl e ↦ rw (e, inspect) at h
    | inr (key, e) ↦ inspect_key-ephemeral self key k now (rw (e, inspect) at h)
  ]

  pub clear_purpose-IsSound :
      (self : Keys) (purpose : Purpose) (now : ℕ)
      → IsSound digest self
      → IsSound digest (clear_purpose digest self purpose now)
  unfolding clear_purpose
  clear_purpose-IsSound self session now s = record {
    single = λ l r h u. s.single l r (get-delete_purpose session l self.records r s.distinct h).0 u;
    multi = λ l r h u.
        let (held, other) = get-delete_purpose session l self.records r s.distinct h in
        absurd (ground (arith, s.purposes l r held));
    purposes = λ l r h. s.purposes l r (get-delete_purpose session l self.records r s.distinct h).0;
    distinct = delete_purpose-IsMap session self.records s.distinct;
    normal_session = λ key e. cc;
    normal_ephemeral = s.normal_ephemeral;
  }
  clear_purpose-IsSound self purpose now s =
      let next : Keys = record self { records = delete_purpose purpose self.records } in
      let kept : IsSound digest next =
        fewer-IsSound digest self next s
          (λ l r h. (get-delete_purpose purpose l self.records r s.distinct h).0)
          (delete_purpose-IsMap purpose self.records s.distinct) refl refl in
      elim (Option-cases self.ephemeral_key) [
        | inl e ↦ rw (e, clear_purpose) kept
        | inr (key, e) ↦
            let seen = inspect-IsSound next key now kept in
            elim (Option-cases (inspect digest next key now).1) [
              | inr (r, m) ↦ rw (e, clear_purpose, m) seen
              | inl m ↦
                  rw (e, clear_purpose, m)
                    (record {
                      single = λ l r h u.
                          let (k, e', d) = seen.single l r h u in
                          absurd (
                            ground (
                              arith,
                              inspect-none next key now (s.normal_ephemeral key e) m,
                              inspect-ephemeral next key k now e',
                            ));
                      multi = seen.multi;
                      purposes = seen.purposes;
                      distinct = seen.distinct;
                      normal_session = seen.normal_session;
                      normal_ephemeral = λ k e'. cc;
                    })
            ]
      ]
