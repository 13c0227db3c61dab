-- ===== src/Sessions/State.antt =====
-- apps/server/src/session-store.mjs: the state of the store, and the sweep of what has expired. Each
-- call gets the time of its clock.
use vidvnc.Base.{
  ℕ, ◌+◌, Bool, true, false, not, ◌&&◌, Option, none, some, List, [], ◌∷◌, Text, leb, ltb, keep,
  if◌then◌else◌, Result, ok, err,
}
use vidvnc.Base.Table.{Table, has, delete, values}
use vidvnc.Keys.Codes.{Keys}

-- A value that the store only copies: a profile or a display.
abbrev pub Value : Type 0
Value = Text

pub data AudioMode : Type 0 where
  on off : AudioMode

pub record Session : Type 0 where
  pub session_id : Text
  pub client_key : Text
  pub approved_client_id : Option Text
  pub approved_generation : Option ℕ
  pub device : Text
  pub created_at : ℕ
  pub last_seen_at : ℕ
  pub control_enabled : Bool
  pub profile : Option Value
  pub audio : AudioMode
  pub display : Option Value
  pub inventory_revision : Option ℕ
  pub policy_revision : Option ℕ

-- The store. `revoked` and `connected` are the calls of `onRevoke` and `onConnect`, newest first.
pub record Store : Type 0 where
  pub session_ttl : ℕ
  pub max_attempts : ℕ
  pub window : ℕ
  pub keys : Keys
  pub password : Option Text
  pub sessions : Table Session
  pub failed : Table (List ℕ)
  pub revoked : List Text
  pub connected : List Text

pub data Reason : Type 0 where
  rate_limited invalid_password busy invalid_client already_in_use inactive_session : Reason

pub data Reply : Type 0 where
  accepted : Text → Reply
  refused : Reason → Reply

pub data StoreError : Type 0 where
  invalid_session_limit : StoreError

pub record ApprovedClient : Type 0 where
  pub id : Text
  pub generation : ℕ

-- `get maxSessions()` of the limit that the settings give at this time
abbrev pub valid_limit : ℕ → Bool
valid_limit limit = leb 1 limit && leb limit 64

-- The constructor, which reads the limit once.
unfoldable pub open_store :
    (session_ttl max_attempts window limit : ℕ) → Keys → Result StoreError Store
open_store session_ttl max_attempts window limit keys =
    if not (valid_limit limit)
    then err invalid_session_limit
    else ok (record {
      session_ttl = session_ttl;
      max_attempts = max_attempts;
      window = window;
      keys = keys;
      password = keys.session_key;
      sessions = [];
      failed = [];
      revoked = [];
      connected = [];
    })

unfoldable pub disconnect : Store → Text → Store × Bool
disconnect s id =
    if has id s.sessions
    then (record s { sessions = delete id s.sessions; revoked = id ∷ s.revoked }, true)
    else (s, false)

-- `now - session.lastSeenAt >= this.sessionTtlMs`
abbrev pub gone : Store → ℕ → Session → Bool
gone s now x = leb (x.last_seen_at + s.session_ttl) now

-- `now - time < this.windowMs`
abbrev pub recent : Store → ℕ → List ℕ → List ℕ
recent s now = keep (λ time. ltb now (time + s.window))

-- The first loop of `sweep`, over the sessions that are there when it begins.
unfoldable pub sweep_sessions : ℕ → Table Session → Store → Store
unfolding disconnect
sweep_sessions now [] s = s
sweep_sessions now ((id, x) ∷ t) s =
    sweep_sessions now t (if gone s now x then (disconnect s id).0 else s)

-- The second loop: a client with no recent failure is forgotten.
unfoldable pub sweep_failed : Store → ℕ → Table (List ℕ) → Table (List ℕ)
sweep_failed s now [] = []
sweep_failed s now ((key, times) ∷ t) = elim (recent s now times) [
  | [] ↦ sweep_failed s now t
  | time ∷ later ↦ (key, time ∷ later) ∷ sweep_failed s now t
]

unfoldable pub sweep : Store → ℕ → Store
unfolding sweep_sessions sweep_failed
sweep s now =
    let swept = sweep_sessions now s.sessions s in
    record swept { failed = sweep_failed s now swept.failed }

abbrev pub or_empty : Option (List ℕ) → List ℕ
or_empty none = []
or_empty (some times) = times

-- `list()`
unfoldable pub list : Store → ℕ → Store × List Session
list s now = let swept = sweep s now in (swept, values swept.sessions)
