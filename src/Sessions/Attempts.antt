-- ===== src/Sessions/Attempts.antt =====
-- The failed attempts that the store remembers (apps/server/src/session-store.mjs).
use vidvnc.Base.{
  ℕ, ◌+◌, ◌≤◌, ◌≡◌, refl, sym, ap, ◌∙◌, subst, not, ◌&&◌, List, [], ◌∷◌, ◌++◌, Text, length,
  length-append, length-keep-le, All, arith, inl, inr, Bool-cases, Option-cases, ◌⊎◌, leb, ltb,
}
use vidvnc.Base.Table.{
  Table, get, has, set, delete, evict, length-set-le, length-set_old, length-evict,
  length-delete-le,
}
use vidvnc.Keys.Registry.{inspect, use_key}
use vidvnc.Sessions.State.{
  Store, Session, disconnect, sweep_sessions, sweep_failed, sweep, recent, or_empty, gone,
  valid_limit,
}
use vidvnc.Sessions.Admit.{make_room, admit, connect, create_session, opens}

abbrev Times : Type 0
Times = Table (List ℕ)

abbrev pub Few : ℕ → Times → Type 0
Few m = All (λ e. length e.1 ≤ m)

-- What the store remembers of failures: of 1024 clients at most, `m` failures at most each.
pub record IsBounded (m : ℕ) (s : Store) : Type 0 where
  pub cap : s.max_attempts ≡ m
  pub clients : length s.failed ≤ 1024
  pub tries : Few m s.failed

set-Few : (m : ℕ) (k : Text) (v : List ℕ) (t : Times) → length v ≤ m → Few m t → Few m (set k v t)
unfolding set
set-Few m k v [] h f = (h, tt)
set-Few m k v ((j, w) ∷ t) h (p, f) = ground (arith, set-Few m k v t h f)

delete-Few : (m : ℕ) (k : Text) (t : Times) → Few m t → Few m (delete k t)
unfolding delete
delete-Few m k [] f = tt
delete-Few m k ((j, w) ∷ t) (p, f) = ground (arith, delete-Few m k t f)

make_room-Few : (m : ℕ) (k : Text) (t : Times) → Few m t → Few m (make_room k t)
unfolding make_room evict
make_room-Few m k [] f = ground arith
make_room-Few m k ((j, w) ∷ t) f =
    elim (Bool-cases (leb 1024 (length ((j, w) ∷ t)) && not (has k ((j, w) ∷ t)))) [
      | inl e ↦ rw (e, make_room) (delete-Few m j ((j, w) ∷ t) f)
      | inr e ↦ rw (e, make_room) f
    ]

get-Few : (m : ℕ) (k : Text) (t : Times) → Few m t → length (or_empty (get k t)) ≤ m
unfolding get
get-Few m k [] f = omega arith
get-Few m k ((j, w) ∷ t) (p, f) = ground (arith, get-Few m k t f)

-- A client is remembered: there is room for it.
length-set-make_room :
    (k : Text) (v : List ℕ) (t : Times) → length t ≤ 1024 → length (set k v (make_room k t)) ≤ 1024
unfolding make_room
length-set-make_room k v t h = elim (Option-cases (get k t)) [
  | inr (w, e) ↦ ground (arith, e, length-set_old k v w t e)
  | inl e ↦ elim (Bool-cases (leb 1024 (length t))) [
    | inl big ↦
        let shorter = length-evict t (λ q. absurd (ground (arith, ap length q))) in
        ground (arith, length-set-le k v (evict t))
    | inr small ↦ ground (arith, length-set-le k v t)
  ]
]

length-make_room : (k : Text) (t : Times) → length t ≤ 1024 → length (make_room k t) ≤ 1024
unfolding make_room evict
length-make_room k [] h = ground arith
length-make_room k ((j, w) ∷ t) h = ground (arith, length-delete-le j ((j, w) ∷ t))

sweep_failed-Few :
    (m : ℕ) (s : Store) (now : ℕ) (t : Times) → Few m t → Few m (sweep_failed s now t)
unfolding sweep_failed
sweep_failed-Few m s now [] f = tt
sweep_failed-Few m s now ((k, times) ∷ t) (p, f) =
    ground (
      arith,
      sweep_failed-Few m s now t f,
      length-keep-le (λ time. ltb now (time + s.window)) times,
    )

length-sweep_failed : (s : Store) (now : ℕ) (t : Times) → length (sweep_failed s now t) ≤ length t
unfolding sweep_failed
length-sweep_failed s now [] = omega arith
length-sweep_failed s now ((k, times) ∷ t) = ground (arith, length-sweep_failed s now t)

-- What the first loop of `sweep` leaves alone.
pub record SameBut (s t : Store) : Type 0 where
  pub ttl : t.session_ttl ≡ s.session_ttl
  pub attempts : t.max_attempts ≡ s.max_attempts
  pub window : t.window ≡ s.window
  pub keys : t.keys ≡ s.keys
  pub failed : t.failed ≡ s.failed

disconnect-SameBut : (s : Store) (id : Text) → SameBut s (disconnect s id).0
unfolding disconnect
disconnect-SameBut s id = ground arith

pub sweep_sessions-SameBut :
    (now : ℕ) (t : Table Session) (s : Store) → SameBut s (sweep_sessions now t s)
unfolding sweep_sessions
sweep_sessions-SameBut now [] s = ground arith
sweep_sessions-SameBut now ((id, x) ∷ t) s = elim (Bool-cases (gone s now x)) [
  | inl e ↦
      rw (e)
        (ground (arith, disconnect-SameBut s id, sweep_sessions-SameBut now t (disconnect s id).0))
  | inr e ↦ rw (e) (sweep_sessions-SameBut now t s)
]

sweep-IsBounded : (m : ℕ) (s : Store) (now : ℕ) → IsBounded m s → IsBounded m (sweep s now)
unfolding sweep
sweep-IsBounded m s now b =
    let same_but = sweep_sessions-SameBut now s.sessions s in
    let swept = sweep_sessions now s.sessions s in
    record {
      cap = same_but.attempts ∙ b.cap;
      clients =
          omega
            (arith, length-sweep_failed s now swept.failed, ap length same_but.failed, b.clients);
      tries = sweep_failed-Few m s now swept.failed (subst (Few m) (sym same_but.failed) b.tries);
    }

pub sweep-max_attempts : (s : Store) (now : ℕ) → (sweep s now).max_attempts ≡ s.max_attempts
unfolding sweep
sweep-max_attempts s now = (sweep_sessions-SameBut now s.sessions s).attempts

pub sweep-window : (s : Store) (now : ℕ) → (sweep s now).window ≡ s.window
unfolding sweep
sweep-window s now = (sweep_sessions-SameBut now s.sessions s).window

length-recent-le :
    (s : Store) (now : ℕ) (times : List ℕ) → length (recent s now times) ≤ length times
length-recent-le s now times = length-keep-le (λ time. ltb now (time + s.window)) times

module _ (digest : Text → Text) where
  -- What `admit` does to the failures: the client's are forgotten, kept, or are one more.
  admit-failed :
      (s : Store) (limit now : ℕ) (password client agent id : Text) (attempts : List ℕ)
      → let s' = (admit digest s limit now password client agent id attempts).0 in
        (s'.max_attempts ≡ s.max_attempts)
        × ((s'.failed ≡ s.failed)
            ⊎ ((s'.failed ≡ set client (attempts ++ now ∷ []) s.failed)
                ⊎ (s'.failed ≡ delete client s.failed)))
  unfolding admit create_session
  admit-failed s limit now password client agent id attempts =
      elim (Option-cases (inspect digest s.keys password now).1) [
        | inl e ↦ rw (e, admit) (refl, inr (inl refl))
        | inr (r, e) ↦ elim (Bool-cases (opens r)) [
          | inr o ↦ rw (e, admit, o) (refl, inr (inl refl))
          | inl o ↦ elim (Bool-cases (valid_limit limit)) [
            | inr v ↦ rw (e, admit, o, v) (refl, inl refl)
            | inl v ↦ elim (Bool-cases (leb limit (length s.sessions))) [
              | inl full ↦ rw (e, admit, o, v, full) (refl, inl refl)
              | inr free ↦
                  elim (Option-cases
                    (use_key digest (inspect digest s.keys password now).0 password r.purpose
                      now).1) [
                        | inl u ↦ rw (e, admit, o, v, free, u) (refl, inl refl)
                        | inr (r', u) ↦ rw (e, admit, o, v, free, u) (refl, inr (inr refl))
                      ]
            ]
          ]
        ]
      ]

  -- `connect` keeps the memory of failures bounded, whatever it answers.
  pub connect-IsBounded :
      (m : ℕ) (s : Store) (limit now : ℕ) (password client agent id : Text)
      → IsBounded m s
      → IsBounded m (connect digest s limit now password client agent id).0
  unfolding connect
  connect-IsBounded m s limit now password client agent id b =
      let swept = sweep s now in
      let bs = sweep-IsBounded m s now b in
      let roomy : Store = record swept { failed = make_room client swept.failed } in
      let few = make_room-Few m client swept.failed bs.tries in
      let attempts = recent s now (or_empty (get client roomy.failed)) in
      let at_most : length attempts ≤ m = omega (
        arith,
        length-recent-le s now (or_empty (get client roomy.failed)),
        get-Few m client roomy.failed few,
      ) in
      elim (Bool-cases (leb s.max_attempts (length attempts))) [
        | inl e ↦
            rw (e, connect)
              (record {
                cap = bs.cap;
                clients = length-set-make_room client attempts swept.failed bs.clients;
                tries = set-Few m client attempts roomy.failed at_most few;
              })
        | inr e ↦
            let (same_cap, how) = admit-failed roomy limit now password client agent id attempts in
            rw (e, connect)
              (record {
                cap = same_cap ∙ bs.cap;
                clients = elim how [
                  | inl q ↦
                      subst (λ t. length t ≤ 1024) (sym q)
                        (length-make_room client swept.failed bs.clients)
                  | inr (inl q) ↦
                      subst (λ t. length t ≤ 1024) (sym q)
                        (length-set-make_room client (attempts ++ now ∷ []) swept.failed bs.clients)
                  | inr (inr q) ↦
                      subst (λ t. length t ≤ 1024) (sym q)
                        (omega (
                          arith,
                          length-delete-le client roomy.failed,
                          length-make_room client swept.failed bs.clients,
                        ))
                ];
                tries = elim how [
                  | inl q ↦ subst (Few m) (sym q) few
                  | inr (inl q) ↦ subst (Few m) (sym q) (
                      set-Few m client (attempts ++ now ∷ []) roomy.failed
                        (ground (arith, length-append attempts (now ∷ []), b.cap)) few)
                  | inr (inr q) ↦ subst (Few m) (sym q) (delete-Few m client roomy.failed few)
                ];
              })
      ]
