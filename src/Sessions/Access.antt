-- ===== src/Sessions/Access.antt =====
-- apps/server/src/session-store.mjs: what a session that is there is read and changed by.
use vidvnc.Base.{ℕ, Bool, true, false, Option, none, some, Text, if◌then◌else◌}
use vidvnc.Base.Table.{get, set}
use vidvnc.Sessions.State.{
  AudioMode, Reply, Session, Store, Value, accepted, disconnect, gone, inactive_session, refused,
}

unfoldable pub peek : Store → Text → ℕ → Store × Option Session
unfolding disconnect
peek s id now = elim (get id s.sessions) [
  | none ↦ (s, none)
  | some x ↦ if gone s now x then ((disconnect s id).0, none) else (s, some x)
]

-- `get(sessionId)`: a session that is read is kept alive.
unfoldable pub get_session : Store → Text → ℕ → Store × Option Session
unfolding peek
get_session s id now =
    let (seen, found) = peek s id now in
    elim found [
      | none ↦ (seen, none)
      | some x ↦
          let x' : Session = record x { last_seen_at = now } in
          (record seen { sessions = set id x' seen.sessions }, some x')
    ]

unfoldable pub replace_session : Store → Text → Text → ℕ → Store × Reply
unfolding get_session disconnect
replace_session s id new_id now =
    let (seen, found) = get_session s id now in
    elim found [
      | none ↦ (seen, refused inactive_session)
      | some previous ↦
          let left = (disconnect seen id).0 in
          (
            record left {
              sessions =
                  set new_id
                    (record previous {
                      session_id = new_id;
                      created_at = now;
                      last_seen_at = now;
                      control_enabled = false;
                    })
                    left.sessions;
            },
            accepted new_id,
          )
    ]

unfoldable pub set_control : Store → Text → Bool → ℕ → Store × Option Bool
unfolding get_session
set_control s id enabled now =
    let (seen, found) = get_session s id now in
    elim found [
      | none ↦ (seen, none)
      | some x ↦ (
        record seen {
          sessions =
              set id (record x { control_enabled = enabled; last_seen_at = now }) seen.sessions;
        },
        some enabled,
      )
    ]

-- The setters of what a session shows: a change of one session that is there.
unfoldable pub amend : (Session → Session) → Store → Text → Store × Bool
amend f s id = elim (get id s.sessions) [
  | none ↦ (s, false)
  | some x ↦ (record s { sessions = set id (f x) s.sessions }, true)
]

unfoldable pub set_profile : Store → Text → Value → Store × Bool
unfolding amend
set_profile s id profile = amend (λ x. record x { profile = some profile }) s id

unfoldable pub set_display : Store → Text → Option Value → ℕ → Store × Bool
unfolding amend
set_display s id display revision =
    amend (λ x. record x { display = display; inventory_revision = some revision }) s id

unfoldable pub set_audio : Store → Text → AudioMode → Store × Bool
unfolding amend
set_audio s id audio = amend (λ x. record x { audio = audio }) s id

unfoldable pub set_policy_revision : Store → Text → ℕ → Store × Bool
unfolding amend
set_policy_revision s id revision = amend (λ x. record x { policy_revision = some revision }) s id
