-- ===== src/Sessions/Room.antt =====
-- The number of sessions along the histories of the store (apps/server/src/session-store.mjs).
use vidvnc.Base.{
  ℕ, ◌≤◌, ◌≡◌, refl, Bool, false, Option, none, some, List, [], ◌∷◌, Text, any, same, keep, arith,
  inl, inr, dec_text, length, if◌then◌else◌, ok,
}
use vidvnc.Base.Table.{Table, values, weigh, one_if, length-keep-weigh}
use vidvnc.Sessions.State.{Store, Session, ApprovedClient, sweep, open_store}
use vidvnc.Sessions.Admit.{connect, connect_approved, approved_as}
use vidvnc.Keys.Codes.{Keys}
use vidvnc.Sessions.Calls.{Call, connects, connects_approved, call, run}
use vidvnc.Sessions.Loads.{load, sweep-load}
use vidvnc.Sessions.Limits.{connect-within, connect_approved-within}
use vidvnc.Sessions.Places.{connect-Adds, connect_approved-Adds, connect_approved-none, quiet-load}

abbrev each : Option Text → ℕ
each o = 1

length-each : (t : Table Session) → length t ≡ weigh (λ x. 1) t
unfolding weigh
length-each [] = refl
length-each (e ∷ t) = omega (arith, length-each t)

-- 1 for a client that is approved under this identifier.
abbrev approved_to : Text → Option Text → ℕ
approved_to d o = if (elim o [ none ↦ false | some c ↦ same c d ]) then 1 else 0

none_of :
    (p : Session → Bool) (t : Table Session) → any p (values t) ≡ false → weigh (one_if p) t ≡ 0
unfolding weigh values
none_of p [] h = refl
none_of p ((k, x) ∷ t) h = ground (arith, none_of p t)

module _ (digest : Text → Text) where
  connects-within :
      (s : Store) (limit now : ℕ) (password client agent id : Text)
      → length s.sessions ≤ 64
      → length (connect digest s limit now password client agent id).0.sessions ≤ 64
  connects-within s limit now password client agent id h =
      let t = (connect digest s limit now password client agent id).0 in
      elim (connect-Adds each digest s limit now password client agent id) [
        | inl e ↦ omega (arith, e, length-each s.sessions, length-each t.sessions)
        | inr (who, q, e) ↦
            omega (arith, connect-within digest s limit now password client agent id who q)
      ]

  connects_approved-within :
      (s : Store) (limit now : ℕ) (approved : Option ApprovedClient) (client agent id : Text)
      → length s.sessions ≤ 64
      → length (connect_approved s limit now approved client agent id).0.sessions ≤ 64
  connects_approved-within s limit now none client agent id h =
      let t = (connect_approved s limit now none client agent id).0 in
      omega (
        arith,
        connect_approved-none each s limit now client agent id,
        length-each s.sessions,
        length-each t.sessions,
      )
  connects_approved-within s limit now (some c) client agent id h =
      let t = (connect_approved s limit now (some c) client agent id).0 in
      elim (connect_approved-Adds each s limit now c client agent id) [
        | inl e ↦ omega (arith, e, length-each s.sessions, length-each t.sessions)
        | inr (q, _, e) ↦
            omega (arith, connect_approved-within s limit now (some c) client agent id id q)
      ]

  call-within :
      (s : Store) (c : Call) → length s.sessions ≤ 64 → length (call digest s c).sessions ≤ 64
  unfolding call
  call-within s (connects limit now password client agent id) h =
      connects-within s limit now password client agent id h
  call-within s (connects_approved limit now approved client agent id) h =
      connects_approved-within s limit now approved client agent id h
  call-within s c h = omega (
    arith,
    quiet-load each digest s c refl,
    length-each s.sessions,
    length-each (call digest s c).sessions,
  )

  run-within :
      (s : Store) (cs : List Call) → length s.sessions ≤ 64 → length (run digest s cs).sessions ≤ 64
  unfolding run
  run-within s [] h = h
  run-within s (c ∷ cs) h = run-within (call digest s c) cs (call-within s c h)

  connects_approved-single :
      (s : Store) (limit now : ℕ) (c : ApprovedClient) (client agent id d : Text)
      → load (approved_to d) s ≤ 1
      → load (approved_to d) (connect_approved s limit now (some c) client agent id).0 ≤ 1
  connects_approved-single s limit now c client agent id d h =
      elim (connect_approved-Adds (approved_to d) s limit now c client agent id) [
        | inl e ↦ omega (arith, e)
        | inr (q, free, e) ↦ elim (dec_text c.id d) [
          | yes same_id ↦
              let empty = none_of (approved_as c.id) (sweep s now).sessions free in
              ground (arith, empty, e)
          | no other ↦ ground (arith, e, sweep-load (approved_to d) s now)
        ]
      ]

  call-single :
      (s : Store) (c : Call) (d : Text)
      → load (approved_to d) s ≤ 1
      → load (approved_to d) (call digest s c) ≤ 1
  unfolding call
  call-single s (connects limit now password client agent id) d h =
      elim (connect-Adds (approved_to d) digest s limit now password client agent id) [
        | inl e ↦ omega (arith, e)
        | inr (who, q, e) ↦ omega (arith, e)
      ]
  call-single s (connects_approved limit now none client agent id) d h =
      omega (arith, connect_approved-none (approved_to d) s limit now client agent id)
  call-single s (connects_approved limit now (some c) client agent id) d h =
      connects_approved-single s limit now c client agent id d h
  call-single s c d h = omega (arith, quiet-load (approved_to d) digest s c refl)

  run-single :
      (s : Store) (cs : List Call) (d : Text)
      → load (approved_to d) s ≤ 1
      → load (approved_to d) (run digest s cs) ≤ 1
  unfolding run
  run-single s [] d h = h
  run-single s (c ∷ cs) d h = run-single (call digest s c) cs d (call-single s c d h)

  -- After any calls on a new store there are 64 sessions at most, whatever limits the settings gave.
  pub run-at_most :
      (ttl max_attempts window limit : ℕ) (keys : Keys) (s : Store) (cs : List Call)
      → open_store ttl max_attempts window limit keys ≡ ok s
      → length (run digest s cs).sessions ≤ 64
  unfolding open_store
  run-at_most ttl max_attempts window limit keys s cs h = run-within s cs (ground arith)

  -- After any calls on a new store an approved client has one session at most.
  pub run-one_session :
      (ttl max_attempts window limit : ℕ) (keys : Keys) (s : Store) (cs : List Call) (client : Text)
      → open_store ttl max_attempts window limit keys ≡ ok s
      → length (keep (approved_as client) (values (run digest s cs).sessions)) ≤ 1
  unfolding open_store weigh
  run-one_session ttl max_attempts window limit keys s cs client h = omega (
    arith,
    length-keep-weigh (approved_as client) (run digest s cs).sessions,
    run-single s cs client (ground arith),
  )
