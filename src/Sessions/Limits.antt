-- ===== src/Sessions/Limits.antt =====
-- Admission and the limit of the sessions (apps/server/src/session-store.mjs).
use vidvnc.Base.{
  ℕ, ◌+◌, ◌≤◌, ◌≡◌, Option, none, some, List, Text, length, ok, arith, inl, inr, Bool-cases,
  Option-cases, leb,
}
use vidvnc.Base.Table.{get, delete, length-set-le}
use vidvnc.Keys.Registry.{inspect, use_key}
use vidvnc.Sessions.State.{Store, accepted, sweep, recent, or_empty, valid_limit}
use vidvnc.Sessions.Admit.{make_room, admit, connect, create_session, opens}
use vidvnc.Sessions.Admit.{connect_approved}
use vidvnc.Sessions.State.{ApprovedClient}

length-create_session :
    (s : Store) (now : ℕ) (id client agent : Text) (approved : Option ApprovedClient)
    → length (create_session s now id client agent approved).sessions ≤ length s.sessions + 1
unfolding create_session
length-create_session s now id client agent approved = length-set-le id _ s.sessions

admit-within :
    (digest : Text → Text) (s : Store) (limit now : ℕ) (password client agent id who : Text)
    (attempts : List ℕ)
    → (admit digest s limit now password client agent id attempts).1 ≡ ok (accepted who)
    → (length (admit digest s limit now password client agent id attempts).0.sessions ≤ limit)
      × (limit ≤ 64)
unfolding admit
admit-within digest s limit now password client agent id who attempts h =
    elim (Option-cases (inspect digest s.keys password now).1) [
      | inl e ↦ absurd (ground arith)
      | inr (r, e) ↦ elim (Bool-cases (opens r)) [
        | inr o ↦ absurd (ground arith)
        | inl o ↦ elim (Bool-cases (valid_limit limit)) [
          | inr v ↦ absurd (ground arith)
          | inl v ↦ elim (Bool-cases (leb limit (length s.sessions))) [
            | inl full ↦ absurd (ground arith)
            | inr free ↦
                elim (Option-cases
                  (use_key digest (inspect digest s.keys password now).0 password r.purpose
                    now).1) [
                      | inl u ↦ absurd (ground arith)
                      | inr (r', u) ↦
                          rw (e, admit, o, v, free, u)
                            (ground (
                              arith,
                              length-create_session
                                  (record (record s {
                                    keys =
                                        (use_key digest (inspect digest s.keys password now).0
                                          password r.purpose now).0;
                                  }) { failed = delete client s.failed })
                                  now id client agent none,
                            ))
                    ]
          ]
        ]
      ]
    ]

-- A password lets a client in only where there is a place: afterwards there are no more sessions
-- than the limit, which is 64 at most.
pub connect-within :
    (digest : Text → Text) (s : Store) (limit now : ℕ) (password client agent id who : Text)
    → (connect digest s limit now password client agent id).1 ≡ ok (accepted who)
    → (length (connect digest s limit now password client agent id).0.sessions ≤ limit)
      × (limit ≤ 64)
unfolding connect
connect-within digest s limit now password client agent id who h =
    let swept = sweep s now in
    let roomy : Store = record swept { failed = make_room client swept.failed } in
    let attempts = recent s now (or_empty (get client roomy.failed)) in
    elim (Bool-cases (leb s.max_attempts (length attempts))) [
      | inl e ↦ absurd (ground arith)
      | inr e ↦
          rw (e, connect)
            (admit-within digest roomy limit now password client agent id who attempts
              (ground arith))
    ]

pub connect_approved-within :
    (s : Store) (limit now : ℕ) (approved : Option ApprovedClient) (client agent id who : Text)
    → (connect_approved s limit now approved client agent id).1 ≡ ok (accepted who)
    → (length (connect_approved s limit now approved client agent id).0.sessions ≤ limit)
      × (limit ≤ 64)
unfolding connect_approved
connect_approved-within s limit now none client agent id who h = absurd (ground arith)
connect_approved-within s limit now (some c) client agent id who h =
    ground (arith, length-create_session (sweep s now) now id client agent (some c))
