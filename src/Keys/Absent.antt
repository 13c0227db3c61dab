-- ===== src/Keys/Absent.antt =====
-- Records that are not there, and the calls that leave it so (apps/server/src/connection-keys.mjs).
use vidvnc.Base.{
  ℕ, ◌≡◌, refl, sym, ap, ◌∙◌, subst, Bool, false, Option, none, some, List, [], ◌∷◌, Text, same,
  Result, ok, err, arith, inl, inr, Bool-cases, Option-cases, if◌then◌else◌,
}
use vidvnc.Base.Table.{Table, get, get-set, get-delete}
use vidvnc.Keys.Password.{normalize_password}
use vidvnc.Keys.Codes.{
  Keys, KeyRecord, KeyError, Purpose, session, multi_use, AttemptLimits, Usage, is_single,
  is_session, same_purpose, delete_purpose, install,
}
use vidvnc.Keys.Registry.{
  forget, create, rotate_session, inspect_key, inspect, use_key, clear_purpose,
}
use vidvnc.Keys.Made.{refused, starved, made, create-Created}

get-delete_purpose-none :
    (p : Purpose) (l : Text) (t : Table KeyRecord)
    → get l t ≡ none
    → get l (delete_purpose p t) ≡ none
unfolding get delete_purpose
get-delete_purpose-none p l [] h = h
get-delete_purpose-none p l ((k, x) ∷ t) h = ground (arith, h, get-delete_purpose-none p l t)

module _ (digest : Text → Text) where
  -- No record stands under the digest.
  abbrev pub IsAbsent : Text → Keys → Type 0
  IsAbsent l self = get l self.records ≡ none

  get-forget-none :
      (l : Text) (key : Option Text) (t : Table KeyRecord)
      → get l t ≡ none
      → get l (forget digest key t) ≡ none
  get-forget-none l none t h = h
  get-forget-none l (some key) t h = ground (arith, h, get-delete l (digest key) t)

  inspect_key-IsAbsent :
      (self : Keys) (key l : Text) (now : ℕ)
      → IsAbsent l self
      → IsAbsent l (inspect_key digest self key now).0
  unfolding inspect_key
  inspect_key-IsAbsent self key l now h = ground (arith, h, get-delete l (digest key) self.records)

  pub inspect-IsAbsent :
      (self : Keys) (value l : Text) (now : ℕ)
      → IsAbsent l self
      → IsAbsent l (inspect digest self value now).0
  unfolding inspect
  inspect-IsAbsent self value l now h = elim (Option-cases (normalize_password value)) [
    | inl e ↦ rw (e, inspect) h
    | inr (key, e) ↦ rw (e, inspect) (inspect_key-IsAbsent self key l now h)
  ]

  pub use_key-IsAbsent :
      (self : Keys) (value l : Text) (expected : Purpose) (now : ℕ)
      → IsAbsent l self
      → IsAbsent l (use_key digest self value expected now).0
  unfolding use_key
  use_key-IsAbsent self value l expected now h = elim (Option-cases (normalize_password value)) [
    | inl e ↦ rw (e, use_key) h
    | inr (key, e) ↦
        let kept = inspect-IsAbsent self key l now h in
        elim (Option-cases (inspect digest self key now).1) [
          | inl m ↦ rw (e, use_key, m) kept
          | inr (r, m) ↦ elim (Bool-cases (same_purpose r.purpose expected)) [
            | inr p ↦ rw (e, use_key, m, p) kept
            | inl p ↦ elim (Bool-cases (is_single r.usage)) [
              | inr u ↦ rw (e, use_key, m, p, u) kept
              | inl u ↦
                  let law = get-delete l (digest key) (inspect digest self key now).0.records in
                  rw (e, use_key, m, p, u) (ground (arith, kept, law))
            ]
          ]
        ]
  ]

  pub clear_purpose-IsAbsent :
      (self : Keys) (purpose : Purpose) (l : Text) (now : ℕ)
      → IsAbsent l self
      → IsAbsent l (clear_purpose digest self purpose now)
  unfolding clear_purpose
  clear_purpose-IsAbsent self purpose l now h =
      let next : Keys = record self { records = delete_purpose purpose self.records } in
      let kept : IsAbsent l next = get-delete_purpose-none purpose l self.records h in
      elim (Bool-cases (is_session purpose)) [
        | inl q ↦ rw (q, clear_purpose) kept
        | inr q ↦ elim (Option-cases self.ephemeral_key) [
          | inl e ↦ rw (q, clear_purpose, e) kept
          | inr (key, e) ↦
              let seen = inspect-IsAbsent next key l now kept in
              elim (Option-cases (inspect digest next key now).1) [
                | inr (r, m) ↦ rw (q, clear_purpose, e, m) seen
                | inl m ↦ rw (q, clear_purpose, e, m) seen
              ]
        ]
      ]

  -- The key that a call has made up has the digest.
  abbrev pub is_drawn : Text → Result KeyError Text → Bool
  is_drawn l (err e) = false
  is_drawn l (ok key) = same (digest key) l

  abbrev pub is_made : Text → Result KeyError (Text × KeyRecord) → Bool
  is_made l (err e) = false
  is_made l (ok (key, r)) = same (digest key) l

  pub create-IsAbsent :
      (self : Keys) (purpose : Purpose) (ttl : Option ℕ) (usage : Usage) (alphabet l : Text)
      (limits : AttemptLimits) (now : ℕ) (bytes : List ℕ) (generation : Text)
      → is_made l (create digest self purpose ttl usage alphabet limits now bytes generation).1
        ≡ false
      → IsAbsent l self
      → IsAbsent l (create digest self purpose ttl usage alphabet limits now bytes generation).0
  create-IsAbsent self purpose ttl usage alphabet l limits now bytes generation other h =
      let base =
        if is_single usage then forget digest self.ephemeral_key self.records else self.records in
      let kept : get l base ≡ none =
        ground (arith, h, get-forget-none l self.ephemeral_key self.records) in
      elim (create-Created digest self purpose ttl usage alphabet limits now bytes generation) [
        | refused e q ↦
            ap (λ (o : Keys × Result KeyError (Text × KeyRecord)). get l o.0.records) q ∙ h
        | starved q ↦
            ap (λ (o : Keys × Result KeyError (Text × KeyRecord)). get l o.0.records) q ∙ kept
        | made key r q normal free same_kind ↦
            let apart : same (digest key) l ≡ false =
              subst (λ (o : Keys × Result KeyError (Text × KeyRecord)). is_made l o.1 ≡ false) q
                other in
            let law = get-set l (digest key) r base in
            ap (λ (o : Keys × Result KeyError (Text × KeyRecord)). get l o.0.records) q
            ∙ ground (arith, apart, law, kept)
      ]

  install-records :
      (out : Keys × Result KeyError (Text × KeyRecord)) → (install out).0.records ≡ out.0.records
  install-records (next, err e) = refl
  install-records (next, ok (key, r)) = refl

  install-drawn :
      (l : Text) (out : Keys × Result KeyError (Text × KeyRecord))
      → is_drawn l (install out).1 ≡ is_made l out.1
  install-drawn l (next, err e) = refl
  install-drawn l (next, ok (key, r)) = refl

  pub rotate_session-IsAbsent :
      (self : Keys) (alphabet l : Text) (limits : AttemptLimits) (now : ℕ) (bytes : List ℕ)
      (generation : Text)
      → is_drawn l (rotate_session digest self alphabet limits now bytes generation).1 ≡ false
      → IsAbsent l self
      → IsAbsent l (rotate_session digest self alphabet limits now bytes generation).0
  unfolding rotate_session
  rotate_session-IsAbsent self alphabet l limits now bytes generation other h =
      let cleared : Keys = record self { records = forget digest self.session_key self.records } in
      let out = create digest cleared session none multi_use alphabet limits now bytes generation in
      ap (get l) (install-records out)
      ∙ create-IsAbsent cleared session none multi_use alphabet l limits now bytes generation
          (sym (install-drawn l out) ∙ other) (get-forget-none l self.session_key self.records h)
