-- ===== src/Sessions/Calls.antt =====
-- The calls of the store of apps/server/src/session-store.mjs, and what they announce.
use vidvnc.Base.{
  ℕ, ◌≡◌, Bool, true, ◌||◌, Option, none, some, List, [], ◌∷◌, Text, any, same, arith, inl, inr,
  Bool-cases, Option-cases, Result-cases, leb, length, if◌then◌else◌,
}
use vidvnc.Base.Table.{Table, get, has, set, delete, get-set, get-delete}
use vidvnc.Keys.Codes.{AttemptLimits, default_limits}
use vidvnc.Keys.Registry.{inspect, use_key, rotate_session}
use vidvnc.Sessions.State.{
  Store, Session, Value, AudioMode, ApprovedClient, disconnect, sweep_sessions, sweep, list, gone,
  recent, or_empty,
}
use vidvnc.Sessions.Admit.{
  rotate_password, rotate_connection_key, disconnect_all, connect, admit, connect_approved,
  create_session, make_room,
}
use vidvnc.Sessions.Access.{
  peek, get_session, replace_session, set_control, amend, set_profile, set_display, set_audio,
  set_policy_revision,
}

-- A call of the store, with the times, limits, random bytes and identifiers that it gets.
pub data Call : Type 0 where
  lists : ℕ → Call
  rotates_password : ℕ → List ℕ → Text → Call
  rotates_key : (alphabet : Text) → AttemptLimits → ℕ → List ℕ → Text → Call
  connects : (limit now : ℕ) (password client_key user_agent id : Text) → Call
  connects_approved :
      (limit now : ℕ) → Option ApprovedClient → (client_key user_agent id : Text) → Call
  peeks : Text → ℕ → Call
  gets : Text → ℕ → Call
  replaces : (id new_id : Text) → ℕ → Call
  controls : Text → Bool → ℕ → Call
  profiles : Text → Value → Call
  displays : Text → Option Value → ℕ → Call
  sounds : Text → AudioMode → Call
  revises : Text → ℕ → Call
  disconnects : Text → Call
  sweeps : ℕ → Call

-- A session is there, or its end has been announced.
abbrev pub is_accounted : Text → Store → Bool
is_accounted id s = has id s.sessions || any (same id) s.revoked

disconnect-accounts :
    (s : Store) (j id : Text) → is_accounted id s ≡ true → is_accounted id (disconnect s j).0 ≡ true
unfolding disconnect
disconnect-accounts s j id h = ground (arith, get-delete id j s.sessions)

sweep_sessions-accounts :
    (now : ℕ) (t : Table Session) (s : Store) (id : Text)
    → is_accounted id s ≡ true
    → is_accounted id (sweep_sessions now t s) ≡ true
unfolding sweep_sessions
sweep_sessions-accounts now [] s id h = h
sweep_sessions-accounts now ((j, x) ∷ t) s id h =
    sweep_sessions-accounts now t (if gone s now x then (disconnect s j).0 else s) id
      (ground (arith, disconnect-accounts s j id h))

disconnect_all-accounts :
    (t : Table Session) (s : Store) (id : Text)
    → is_accounted id s ≡ true
    → is_accounted id (disconnect_all t s) ≡ true
unfolding disconnect_all
disconnect_all-accounts [] s id h = h
disconnect_all-accounts ((j, x) ∷ t) s id h =
    disconnect_all-accounts t (disconnect s j).0 id (disconnect-accounts s j id h)

sweep-accounts :
    (s : Store) (now : ℕ) (id : Text)
    → is_accounted id s ≡ true
    → is_accounted id (sweep s now) ≡ true
unfolding sweep
sweep-accounts s now id h = sweep_sessions-accounts now s.sessions s id h

set-accounts :
    (s : Store) (j id : Text) (x : Session)
    → is_accounted id s ≡ true
    → is_accounted id (record s { sessions = set j x s.sessions }) ≡ true
set-accounts s j id x h = ground (arith, get-set id j x s.sessions)

create_session-accounts :
    (s : Store) (now : ℕ) (j client agent : Text) (approved : Option ApprovedClient) (id : Text)
    → is_accounted id s ≡ true
    → is_accounted id (create_session s now j client agent approved) ≡ true
unfolding create_session
create_session-accounts s now j client agent approved id h = set-accounts s j id _ h

peek-accounts :
    (s : Store) (j : Text) (now : ℕ) (id : Text)
    → is_accounted id s ≡ true
    → is_accounted id (peek s j now).0 ≡ true
unfolding peek
peek-accounts s j now id h = ground (arith, disconnect-accounts s j id)

get_session-accounts :
    (s : Store) (j : Text) (now : ℕ) (id : Text)
    → is_accounted id s ≡ true
    → is_accounted id (get_session s j now).0 ≡ true
unfolding get_session
get_session-accounts s j now id h = elim (Option-cases (peek s j now).1) [
  | inl e ↦ rw (e, get_session) (peek-accounts s j now id h)
  | inr (x, e) ↦
      rw (e, get_session) (set-accounts (peek s j now).0 j id _ (peek-accounts s j now id h))
]

amend-accounts :
    (f : Session → Session) (s : Store) (j id : Text)
    → is_accounted id s ≡ true
    → is_accounted id (amend f s j).0 ≡ true
unfolding amend
amend-accounts f s j id h = elim (Option-cases (get j s.sessions)) [
  | inl e ↦ rw (e, amend) h
  | inr (x, e) ↦ rw (e, amend) (set-accounts s j id (f x) h)
]

replace_session-accounts :
    (s : Store) (j new_id : Text) (now : ℕ) (id : Text)
    → is_accounted id s ≡ true
    → is_accounted id (replace_session s j new_id now).0 ≡ true
unfolding replace_session
replace_session-accounts s j new_id now id h = elim (Option-cases (get_session s j now).1) [
  | inl e ↦ rw (e, replace_session) (get_session-accounts s j now id h)
  | inr (x, e) ↦
      rw (e, replace_session)
        (set-accounts (disconnect (get_session s j now).0 j).0 new_id id _
          (disconnect-accounts (get_session s j now).0 j id (get_session-accounts s j now id h)))
]

set_control-accounts :
    (s : Store) (j : Text) (enabled : Bool) (now : ℕ) (id : Text)
    → is_accounted id s ≡ true
    → is_accounted id (set_control s j enabled now).0 ≡ true
unfolding set_control
set_control-accounts s j enabled now id h = elim (Option-cases (get_session s j now).1) [
  | inl e ↦ rw (e, set_control) (get_session-accounts s j now id h)
  | inr (x, e) ↦
      rw (e, set_control)
        (set-accounts (get_session s j now).0 j id _ (get_session-accounts s j now id h))
]

connect_approved-accounts :
    (s : Store) (limit now : ℕ) (approved : Option ApprovedClient) (client agent new_id id : Text)
    → is_accounted id s ≡ true
    → is_accounted id (connect_approved s limit now approved client agent new_id).0 ≡ true
unfolding connect_approved
connect_approved-accounts s limit now none client agent new_id id h = sweep-accounts s now id h
connect_approved-accounts s limit now (some c) client agent new_id id h = ground (
  arith,
  sweep-accounts s now id h,
  create_session-accounts (sweep s now) now new_id client agent (some c) id
      (sweep-accounts s now id h),
)

module _ (digest : Text → Text) where
  admit-accounts :
      (s : Store) (limit now : ℕ) (password client agent new_id : Text) (attempts : List ℕ)
      (id : Text)
      → is_accounted id s ≡ true
      → is_accounted id (admit digest s limit now password client agent new_id attempts).0 ≡ true
  unfolding admit
  admit-accounts s limit now password client agent new_id attempts id h =
      elim (Option-cases (inspect digest s.keys password now).1) [
        | inl e ↦ rw (e, admit) h
        | inr (r, e) ↦
            elim (Option-cases
              (use_key digest (inspect digest s.keys password now).0 password r.purpose now).1) [
                | inl u ↦ ground (arith)
                | inr (r', u) ↦ ground (
                  arith,
                  create_session-accounts
                      (record (record s {
                        keys =
                            (use_key digest (inspect digest s.keys password now).0 password
                              r.purpose now).0;
                      }) { failed = delete client s.failed })
                      now new_id client agent none id h,
                )
              ]
      ]

  connect-accounts :
      (s : Store) (limit now : ℕ) (password client agent new_id id : Text)
      → is_accounted id s ≡ true
      → is_accounted id (connect digest s limit now password client agent new_id).0 ≡ true
  unfolding connect
  connect-accounts s limit now password client agent new_id id h =
      let swept = sweep s now in
      let roomy : Store = record swept { failed = make_room client swept.failed } in
      let attempts = recent s now (or_empty (get client roomy.failed)) in
      elim (Bool-cases (leb s.max_attempts (length attempts))) [
        | inl e ↦ rw (e, connect) (sweep-accounts s now id h)
        | inr e ↦
            rw (e, connect)
              (admit-accounts roomy limit now password client agent new_id attempts id
                (sweep-accounts s now id h))
      ]

  rotate_connection_key-accounts :
      (s : Store) (alphabet : Text) (l : AttemptLimits) (now : ℕ) (bytes : List ℕ) (g id : Text)
      → is_accounted id s ≡ true
      → is_accounted id (rotate_connection_key digest s alphabet l now bytes g).0 ≡ true
  unfolding rotate_connection_key
  rotate_connection_key-accounts s alphabet l now bytes g id h =
      elim (Result-cases (rotate_session digest s.keys alphabet l now bytes g).1) [
        | inl (x, e) ↦ rw (e, rotate_connection_key) h
        | inr (x, e) ↦ rw (e, rotate_connection_key) h
      ]

  unfoldable pub call : Store → Call → Store
  call s (lists now) = (list s now).0
  call s (rotates_password now bytes g) = (rotate_password digest s now bytes g).0
  call s (rotates_key alphabet l now bytes g) =
      (rotate_connection_key digest s alphabet l now bytes g).0
  call s (connects limit now password client agent id) =
      (connect digest s limit now password client agent id).0
  call s (connects_approved limit now approved client agent id) =
      (connect_approved s limit now approved client agent id).0
  call s (peeks id now) = (peek s id now).0
  call s (gets id now) = (get_session s id now).0
  call s (replaces id new_id now) = (replace_session s id new_id now).0
  call s (controls id enabled now) = (set_control s id enabled now).0
  call s (profiles id profile) = (set_profile s id profile).0
  call s (displays id display revision) = (set_display s id display revision).0
  call s (sounds id audio) = (set_audio s id audio).0
  call s (revises id revision) = (set_policy_revision s id revision).0
  call s (disconnects id) = (disconnect s id).0
  call s (sweeps now) = sweep s now

  call-accounts :
      (s : Store) (c : Call) (id : Text)
      → is_accounted id s ≡ true
      → is_accounted id (call s c) ≡ true
  unfolding call list rotate_password set_profile set_display set_audio set_policy_revision
  call-accounts s (lists now) id h = sweep-accounts s now id h
  call-accounts s (rotates_password now bytes g) id h =
      rotate_connection_key-accounts (disconnect_all s.sessions s) _ default_limits now bytes g id
        (disconnect_all-accounts s.sessions s id h)
  call-accounts s (rotates_key alphabet l now bytes g) id h =
      rotate_connection_key-accounts s alphabet l now bytes g id h
  call-accounts s (connects limit now password client agent j) id h =
      connect-accounts s limit now password client agent j id h
  call-accounts s (connects_approved limit now approved client agent j) id h =
      connect_approved-accounts s limit now approved client agent j id h
  call-accounts s (peeks j now) id h = peek-accounts s j now id h
  call-accounts s (gets j now) id h = get_session-accounts s j now id h
  call-accounts s (replaces j new_id now) id h = replace_session-accounts s j new_id now id h
  call-accounts s (controls j enabled now) id h = set_control-accounts s j enabled now id h
  call-accounts s (profiles j profile) id h = amend-accounts _ s j id h
  call-accounts s (displays j display revision) id h = amend-accounts _ s j id h
  call-accounts s (sounds j audio) id h = amend-accounts _ s j id h
  call-accounts s (revises j revision) id h = amend-accounts _ s j id h
  call-accounts s (disconnects j) id h = disconnect-accounts s j id h
  call-accounts s (sweeps now) id h = sweep-accounts s now id h

  unfoldable pub run : Store → List Call → Store
  run s [] = s
  run s (c ∷ cs) = run (call s c) cs

  run-accounts :
      (s : Store) (cs : List Call) (id : Text)
      → is_accounted id s ≡ true
      → is_accounted id (run s cs) ≡ true
  unfolding run
  run-accounts s [] id h = h
  run-accounts s (c ∷ cs) id h = run-accounts (call s c) cs id (call-accounts s c id h)

  -- A session that is there and, after any calls, is not there any more has been announced to
  -- `onRevoke`, whichever of the calls ended it.
  pub run-revoked :
      (s : Store) (cs : List Call) (id : Text) (x : Session)
      → get id s.sessions ≡ some x
      → get id (run s cs).sessions ≡ none
      → any (same id) (run s cs).revoked ≡ true
  run-revoked s cs id x there gone_now = ground (arith, run-accounts s cs id (ground arith))
