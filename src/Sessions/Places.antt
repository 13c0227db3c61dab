-- ===== src/Sessions/Places.antt =====
-- What an admission adds to the sums over the sessions, and the calls that admit nobody
-- (apps/server/src/session-store.mjs).
use vidvnc.Base.{
  ℕ, ◌+◌, ◌≤◌, ◌≡◌, refl, ◌⊎◌, Result, Bool, true, false, Option, none, some, List, [], Text, any,
  same, arith, inl, inr, Bool-cases, Option-cases, Result-cases, leb, length, ok,
}
use vidvnc.Base.Table.{get, delete, values, weigh-set-le}
use vidvnc.Keys.Codes.{AttemptLimits, default_limits}
use vidvnc.Keys.Registry.{inspect, use_key, rotate_session}
use vidvnc.Sessions.State.{
  Store, ApprovedClient, StoreError, Reply, accepted, sweep, list, valid_limit, recent, or_empty,
}
use vidvnc.Sessions.Admit.{
  rotate_password, rotate_connection_key, disconnect_all, connect, admit, connect_approved,
  create_session, opens, make_room, approved_as,
}
use vidvnc.Sessions.Access.{set_profile, set_display, set_audio, set_policy_revision}
use vidvnc.Sessions.Calls.{
  Call, lists, rotates_password, rotates_key, connects, connects_approved, peeks, gets, replaces,
  controls, profiles, displays, sounds, revises, disconnects, sweeps, call,
}
use vidvnc.Sessions.Loads.{
  by_client, load, sweep-load, peek-load, get_session-load, amend-load, replace_session-load,
  set_control-load, disconnect-load, disconnect_all-load,
}

module _ (g : Option Text → ℕ) where
  create_session-load :
      (s : Store) (now : ℕ) (id client agent : Text)
      → load g (create_session s now id client agent none) ≤ load g s + g none
  unfolding create_session
  create_session-load s now id client agent = weigh-set-le (by_client g) id _ s.sessions

  create_approved-load :
      (s : Store) (now : ℕ) (id client agent : Text) (c : ApprovedClient)
      → load g (create_session s now id client agent (some c)) ≤ load g s + g (some c.id)
  unfolding create_session
  create_approved-load s now id client agent c = weigh-set-le (by_client g) id _ s.sessions

  -- What an admission adds: nothing, unless it answers that it lets the client in.
  abbrev pub Adds : Store → ℕ → Store × Result StoreError Reply → Type 0
  Adds s n (t, reply) =
      (load g t ≤ load g s)
      ⊎ ((who : Text) × (reply ≡ ok (accepted who)) × (load g t ≤ load g s + n))

  Adds-le :
      (s t : Store) (n : ℕ) (r : Store × Result StoreError Reply)
      → load g s ≤ load g t
      → Adds s n r
      → Adds t n r
  Adds-le s t n r h (inl e) = inl (omega (arith, h, e))
  Adds-le s t n r h (inr (who, q, e)) = inr (who, q, omega (arith, h, e))

  admit-Adds :
      (digest : Text → Text) (s : Store) (limit now : ℕ) (password client agent id : Text)
      (attempts : List ℕ)
      → Adds s (g none) (admit digest s limit now password client agent id attempts)
  unfolding admit
  admit-Adds digest s limit now password client agent id attempts =
      elim (Option-cases (inspect digest s.keys password now).1) [
        | inl e ↦ rw (e, admit) (inl (omega arith))
        | inr (r, e) ↦ elim (Bool-cases (opens r)) [
          | inr o ↦ rw (e, admit, o) (inl (omega arith))
          | inl o ↦ elim (Bool-cases (valid_limit limit)) [
            | inr v ↦ rw (e, admit, o, v) (inl (omega arith))
            | inl v ↦ elim (Bool-cases (leb limit (length s.sessions))) [
              | inl full ↦ rw (e, admit, o, v, full) (inl (omega arith))
              | inr free ↦
                  elim (Option-cases
                    (use_key digest (inspect digest s.keys password now).0 password r.purpose
                      now).1) [
                        | inl u ↦ rw (e, admit, o, v, free, u) (inl (omega arith))
                        | inr (r', u) ↦
                            rw (e, admit, o, v, free, u)
                              (inr (
                                id,
                                refl,
                                create_session-load
                                    (record (record s {
                                      keys =
                                          (use_key digest (inspect digest s.keys password now).0
                                            password r.purpose now).0;
                                    }) { failed = delete client s.failed })
                                    now id client agent,
                              ))
                      ]
            ]
          ]
        ]
      ]

  pub connect-Adds :
      (digest : Text → Text) (s : Store) (limit now : ℕ) (password client agent id : Text)
      → Adds s (g none) (connect digest s limit now password client agent id)
  unfolding connect
  connect-Adds digest s limit now password client agent id =
      let swept = sweep s now in
      let roomy : Store = record swept { failed = make_room client swept.failed } in
      let attempts = recent s now (or_empty (get client roomy.failed)) in
      elim (Bool-cases (leb s.max_attempts (length attempts))) [
        | inl e ↦ rw (e, connect) (inl (sweep-load g s now))
        | inr e ↦
            rw (e, connect)
              (Adds-le roomy s (g none)
                (admit digest roomy limit now password client agent id attempts)
                (sweep-load g s now)
                (admit-Adds digest roomy limit now password client agent id attempts))
      ]

  pub connect_approved-Adds :
      (s : Store) (limit now : ℕ) (c : ApprovedClient) (client agent id : Text)
      → let r = connect_approved s limit now (some c) client agent id in
        (load g r.0 ≤ load g s)
        ⊎ ((r.1 ≡ ok (accepted id))
            × (any (approved_as c.id) (values (sweep s now).sessions) ≡ false)
            × (load g r.0 ≤ load g (sweep s now) + g (some c.id)))
  unfolding connect_approved
  connect_approved-Adds s limit now c client agent id = elim (Bool-cases (same c.id [])) [
    | inl e ↦ rw (e, connect_approved) (inl (sweep-load g s now))
    | inr e ↦ elim (Bool-cases (any (approved_as c.id) (values (sweep s now).sessions))) [
      | inl o ↦ rw (e, connect_approved, o) (inl (sweep-load g s now))
      | inr o ↦ elim (Bool-cases (valid_limit limit)) [
        | inr v ↦ rw (e, connect_approved, o, v) (inl (sweep-load g s now))
        | inl v ↦ elim (Bool-cases (leb limit (length (sweep s now).sessions))) [
          | inl full ↦ rw (e, connect_approved, o, v, full) (inl (sweep-load g s now))
          | inr free ↦
              rw (e, connect_approved, o, v, free)
                (inr (refl, refl, create_approved-load (sweep s now) now id client agent c))
        ]
      ]
    ]
  ]

  pub connect_approved-none :
      (s : Store) (limit now : ℕ) (client agent id : Text)
      → load g (connect_approved s limit now none client agent id).0 ≤ load g s
  unfolding connect_approved
  connect_approved-none s limit now client agent id = sweep-load g s now

  rotate_connection_key-load :
      (digest : Text → Text) (s : Store) (alphabet : Text) (l : AttemptLimits) (now : ℕ)
      (bytes : List ℕ) (generation : Text)
      → load g (rotate_connection_key digest s alphabet l now bytes generation).0 ≤ load g s
  unfolding rotate_connection_key
  rotate_connection_key-load digest s alphabet l now bytes generation =
      elim (Result-cases (rotate_session digest s.keys alphabet l now bytes generation).1) [
        | inl (x, e) ↦ rw (e, rotate_connection_key) (omega arith)
        | inr (x, e) ↦ rw (e, rotate_connection_key) (omega arith)
      ]

  rotate_password-load :
      (digest : Text → Text) (s : Store) (now : ℕ) (bytes : List ℕ) (generation : Text)
      → load g (rotate_password digest s now bytes generation).0 ≤ load g s
  unfolding rotate_password
  rotate_password-load digest s now bytes generation =
      let empty = disconnect_all s.sessions s in
      omega (
        arith,
        disconnect_all-load g s.sessions s,
        rotate_connection_key-load digest empty empty.keys.alphabet default_limits now bytes
            generation,
      )

-- The calls that admit nobody.
abbrev pub is_quiet : Call → Bool
is_quiet (connects limit now password client agent id) = false
is_quiet (connects_approved limit now approved client agent id) = false
is_quiet c = true

pub quiet-load :
    (g : Option Text → ℕ) (digest : Text → Text) (s : Store) (c : Call)
    → is_quiet c ≡ true
    → load g (call digest s c) ≤ load g s
unfolding call list set_profile set_display set_audio set_policy_revision
quiet-load g digest s (lists now) q = sweep-load g s now
quiet-load g digest s (rotates_password now bytes gen) q =
    rotate_password-load g digest s now bytes gen
quiet-load g digest s (rotates_key alphabet l now bytes gen) q =
    rotate_connection_key-load g digest s alphabet l now bytes gen
quiet-load g digest s (connects limit now password client agent j) q = cc
quiet-load g digest s (connects_approved limit now approved client agent j) q = cc
quiet-load g digest s (peeks j now) q = peek-load g s j now
quiet-load g digest s (gets j now) q = get_session-load g s j now
quiet-load g digest s (replaces j new_id now) q = replace_session-load g s j new_id now
quiet-load g digest s (controls j enabled now) q = set_control-load g s j enabled now
quiet-load g digest s (profiles j profile) q = amend-load g _ s j (λ x. refl)
quiet-load g digest s (displays j display revision) q = amend-load g _ s j (λ x. refl)
quiet-load g digest s (sounds j audio) q = amend-load g _ s j (λ x. refl)
quiet-load g digest s (revises j revision) q = amend-load g _ s j (λ x. refl)
quiet-load g digest s (disconnects j) q = disconnect-load g s j
quiet-load g digest s (sweeps now) q = sweep-load g s now
