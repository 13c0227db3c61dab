-- ===== src/Sessions/Admit.antt =====
-- apps/server/src/session-store.mjs: how clients are admitted. `digest` is the one of the connection
-- keys.
use vidvnc.Base.{
  ℕ, Bool, true, false, not, ◌&&◌, Option, none, some, List, [], ◌∷◌, ◌++◌, Text, same, leb, any,
  length, if◌then◌else◌, Result, ok, err,
}
use vidvnc.Base.Table.{Table, get, has, set, delete, values, evict}
use vidvnc.Keys.Codes.{KeyRecord, KeyError, session, setup, once, AttemptLimits, default_limits}
use vidvnc.Keys.Registry.{inspect, use_key, rotate_session}
use vidvnc.Sessions.Device.{device_of}
use vidvnc.Sessions.State.{
  ApprovedClient, Reply, Session, Store, StoreError, accepted, already_in_use, busy, disconnect,
  invalid_client, invalid_password, invalid_session_limit, on, or_empty, rate_limited, recent,
  refused, sweep, valid_limit,
}

unfoldable pub create_session : Store → ℕ → Text → Text → Text → Option ApprovedClient → Store
unfolding device_of
create_session s now id client_key user_agent approved = record s {
  sessions =
      set id
        (record {
          session_id = id;
          client_key = client_key;
          approved_client_id = elim approved [ none ↦ none | some c ↦ some c.id ];
          approved_generation = elim approved [ none ↦ none | some c ↦ some c.generation ];
          device = device_of user_agent;
          created_at = now;
          last_seen_at = now;
          control_enabled = false;
          profile = none;
          audio = on;
          display = none;
          inventory_revision = none;
          policy_revision = none;
        })
        s.sessions;
  connected = id ∷ s.connected;
}

-- Room for one more client among the failures.
unfoldable pub make_room : Text → Table (List ℕ) → Table (List ℕ)
make_room client_key t = if leb 1024 (length t) && not (has client_key t) then evict t else t

-- The purposes that open a session.
abbrev pub opens : KeyRecord → Bool
opens r = elim r.purpose [ session ↦ true | setup ↦ false | once ↦ true ]

-- `for (const id of this._sessions.keys()) this.disconnect(id)`
unfoldable pub disconnect_all : Table Session → Store → Store
unfolding disconnect
disconnect_all [] s = s
disconnect_all ((id, x) ∷ t) s = disconnect_all t (disconnect s id).0

module _ (digest : Text → Text) where
  -- `connect`, once the client has attempts left; `id` is what `randomUUID()` gives.
  unfoldable pub admit :
      Store
      → (limit now : ℕ) (password client_key user_agent id : Text) (attempts : List ℕ)
      → Store × Result StoreError Reply
  unfolding create_session
  admit s limit now password client_key user_agent id attempts =
      let (keys, found) = inspect digest s.keys password now in
      let seen : Store = record s { keys = keys } in
      let failed : Store = record seen {
        failed = set client_key (attempts ++ now ∷ []) seen.failed;
      } in
      elim found [
        | none ↦ (failed, ok (refused invalid_password))
        | some r ↦
            if not (opens r)
            then (failed, ok (refused invalid_password))
            else if not (valid_limit limit)
            then (seen, err invalid_session_limit)
            else if leb limit (length seen.sessions)
            then (seen, ok (refused busy))
            else (let (keys', used) = use_key digest keys password r.purpose now in
                let after : Store = record seen { keys = keys' } in
                elim used [
                  | none ↦ (after, ok (refused invalid_password))
                  | some r' ↦ (
                    create_session (record after { failed = delete client_key after.failed }) now id
                        client_key user_agent none,
                    ok (accepted id),
                  )
                ])
      ]

  unfoldable pub connect :
      Store
      → (limit now : ℕ) (password client_key user_agent id : Text) → Store × Result StoreError Reply
  unfolding sweep make_room admit
  connect s limit now password client_key user_agent id =
      let swept = sweep s now in
      let roomy : Store = record swept { failed = make_room client_key swept.failed } in
      let attempts = recent s now (or_empty (get client_key roomy.failed)) in
      if leb s.max_attempts (length attempts)
      then (
        record roomy { failed = set client_key attempts roomy.failed },
        ok (refused rate_limited),
      )
      else admit roomy limit now password client_key user_agent id attempts

  unfoldable pub rotate_connection_key :
      Store → (alphabet : Text) → AttemptLimits → ℕ → List ℕ → Text → Store × Result KeyError Text
  rotate_connection_key s alphabet limits now bytes generation =
      let (keys, made) = rotate_session digest s.keys alphabet limits now bytes generation in
      elim made [
        | err e ↦ (record s { keys = keys }, err e)
        | ok key ↦ (record s { keys = keys; password = some key }, ok key)
      ]

  -- `rotatePassword()`, which is also `stop()`: the standing key of the registry's own alphabet.
  unfoldable pub rotate_password : Store → ℕ → List ℕ → Text → Store × Result KeyError Text
  unfolding disconnect_all rotate_connection_key
  rotate_password s now bytes generation =
      let empty = disconnect_all s.sessions s in
      rotate_connection_key empty empty.keys.alphabet default_limits now bytes generation

abbrev pub approved_as : Text → Session → Bool
approved_as id x = elim x.approved_client_id [ none ↦ false | some c ↦ same c id ]

-- `connectApproved`; `approved` is null where the client is not.
unfoldable pub connect_approved :
    Store
    → (limit now : ℕ) (approved : Option ApprovedClient) (client_key user_agent id : Text)
    → Store × Result StoreError Reply
unfolding sweep create_session
connect_approved s limit now approved client_key user_agent id =
    let swept = sweep s now in
    elim approved [
      | none ↦ (swept, ok (refused invalid_client))
      | some c ↦
          if same c.id []
          then (swept, ok (refused invalid_client))
          else if any (approved_as c.id) (values swept.sessions)
          then (swept, ok (refused already_in_use))
          else if not (valid_limit limit)
          then (swept, err invalid_session_limit)
          else if leb limit (length swept.sessions)
          then (swept, ok (refused busy))
          else (create_session swept now id client_key user_agent (some c), ok (accepted id))
    ]
