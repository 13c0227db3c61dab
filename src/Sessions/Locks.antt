-- ===== src/Sessions/Locks.antt =====
-- Which clients are turned away for their failures (apps/server/src/session-store.mjs).
use vidvnc.Base.{
  ℕ, ◌+◌, ◌≤◌, ◌<◌, ◌≡◌, ◌≢◌, ◌↔◌, refl, sym, ap, ◌∙◌, subst, Bool, Option, none, List, [], ◌∷◌,
  Text, keep, length, arith, inl, inr, ◌⊎◌, Bool-cases, Option-cases, leb, leb→le, ltb, dec_text,
  ok,
}
use vidvnc.Base.Table.{Table, get, evict, IsMap, get-Fresh, get-delete}
use vidvnc.Keys.Registry.{inspect, use_key}
use vidvnc.Sessions.State.{
  Store, refused, rate_limited, sweep_sessions, sweep_failed, sweep, recent, or_empty,
}
use vidvnc.Sessions.Admit.{make_room, admit, connect}
use vidvnc.Sessions.Attempts.{sweep_sessions-SameBut}

keep_again : {A : Type 0} (p : A → Bool) (l : List A) → keep p (keep p l) ≡ keep p l
keep_again p [] = refl
keep_again p (x ∷ l) = elim (Bool-cases (p x)) [
  | inl e ↦ rw (e, e) (ap (◌∷◌ x) (keep_again p l))
  | inr e ↦ rw e (keep_again p l)
]

list-cases : {A : Type 0} (l : List A) → (l ≡ []) ⊎ ((x : A) × (r : List A) × (l ≡ x ∷ r))
list-cases [] = inl refl
list-cases (x ∷ r) = inr (x, r, refl)

-- The sweep keeps what counts of a client's failures.
recent-sweep_failed :
    (s : Store) (now : ℕ) (k : Text) (t : Table (List ℕ))
    → IsMap t
    → recent s now (or_empty (get k (sweep_failed s now t))) ≡ recent s now (or_empty (get k t))
unfolding sweep_failed get
recent-sweep_failed s now k [] m = refl
recent-sweep_failed s now k ((j, times) ∷ t) (fresh, m) =
    let ih = recent-sweep_failed s now k t m in
    elim (dec_text j k) [
      | yes e ↦
          let same_none : get k t ≡ none = subst (λ i. get i t ≡ none) e (get-Fresh j t fresh) in
          elim (list-cases (recent s now times)) [
            | inl q ↦ ground (arith, ih, same_none, q)
            | inr (x, r, q) ↦
                let kept : recent s now (x ∷ r) ≡ recent s now times =
                  sym (ap (keep (λ time. ltb now (time + s.window))) q)
                  ∙ keep_again (λ time. ltb now (time + s.window)) times in
                ground (arith, kept, q)
          ]
      | no n ↦ elim (list-cases (recent s now times)) [
        | inl q ↦ ground (arith, ih, q)
        | inr (x, r, q) ↦ ground (arith, ih, q)
      ]
    ]

get-make_room : (k : Text) (t : Table (List ℕ)) → get k (make_room k t) ≡ get k t
unfolding make_room get evict
get-make_room k [] = ground arith
get-make_room k ((j, times) ∷ t) = ground (arith, get-delete k j t)

get-sweep :
    (s : Store) (now : ℕ) (client : Text)
    → IsMap s.failed
    → recent s now (or_empty (get client (make_room client (sweep s now).failed)))
      ≡ recent s now (or_empty (get client s.failed))
unfolding sweep
get-sweep s now client m =
    let swept = sweep_sessions now s.sessions s in
    let same = sweep_sessions-SameBut now s.sessions s in
    let counted : Option (List ℕ) → List ℕ = λ o. recent s now (or_empty o) in
    ap counted (get-make_room client (sweep_failed s now swept.failed))
    ∙ recent-sweep_failed s now client swept.failed (subst IsMap (sym same.failed) m)
    ∙ ap counted (ap (get client) same.failed)

sweep-keys : (s : Store) (now : ℕ) → (sweep s now).keys ≡ s.keys
unfolding sweep
sweep-keys s now = (sweep_sessions-SameBut now s.sessions s).keys

module _ (digest : Text → Text) where
  admit-not_limited :
      (s : Store) (limit now : ℕ) (password client agent id : Text) (attempts : List ℕ)
      → (admit digest s limit now password client agent id attempts).1 ≢ ok (refused rate_limited)
  unfolding admit
  admit-not_limited s limit now password client agent id attempts h =
      elim (Option-cases (inspect digest s.keys password now).1) [
        | inl e ↦ ground arith
        | inr (r, e) ↦
            elim (Option-cases
              (use_key digest (inspect digest s.keys password now).0 password r.purpose now).1) [
                | inl u ↦ ground arith
                | inr (r', u) ↦ ground arith
              ]
      ]

  -- `connect` answers that a client is rate limited exactly when as many of its failures as are
  -- allowed are within the window. There are fewer, or the keys stay as they are and the sessions
  -- are those that the sweep leaves.
  pub connect-limited_iff :
      (s : Store) (limit now : ℕ) (password client agent id : Text)
      → IsMap s.failed
      → (((connect digest s limit now password client agent id).1 ≡ ok (refused rate_limited))
          ↔ (s.max_attempts ≤ length (recent s now (or_empty (get client s.failed)))))
        × ((length (recent s now (or_empty (get client s.failed))) < s.max_attempts)
            ⊎ ((connect digest s limit now password client agent id).0.keys ≡ s.keys)
              × ((connect digest s limit now password client agent id).0.sessions
                  ≡ (sweep s now).sessions))
  unfolding connect
  connect-limited_iff s limit now password client agent id m =
      let swept = sweep s now in
      let roomy : Store = record swept { failed = make_room client swept.failed } in
      let attempts = recent s now (or_empty (get client roomy.failed)) in
      let counted : attempts ≡ recent s now (or_empty (get client s.failed)) =
        get-sweep s now client m in
      let same_keys : swept.keys ≡ s.keys = sweep-keys s now in
      elim (Bool-cases (leb s.max_attempts (length attempts))) [
        | inl e ↦
            rw (e, connect)
              (
                (
                  λ _. omega (arith, leb→le s.max_attempts (length attempts) e, ap length counted),
                  λ _. refl,
                ),
                inr (same_keys, refl),
              )
        | inr e ↦
            let few : ¬ (s.max_attempts ≤ length (recent s now (or_empty (get client s.failed)))) =
              λ h. ground (arith, ap length counted) in
            rw (e, connect)
              (
                (
                  λ q.
                      absurd
                        (admit-not_limited roomy limit now password client agent id attempts q),
                  λ h. absurd (few h),
                ),
                inl (ground (arith, few)),
              )
      ]
