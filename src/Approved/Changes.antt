-- ===== src/Approved/Changes.antt =====
-- apps/server/src/approved-clients.mjs: the operations that run one after the other, and what each does
-- between the writes that it waits for. Other calls come in between.
use vidvnc.Base.{
  ℕ, Bool, not, ◌&&◌, Option, none, some, [], ◌∷◌, ◌++◌, Text, same, ◌==◌, length, keep,
  if◌then◌else◌, Result, ok, err, is_some,
}
use vidvnc.Base.Table.{Table, get, set, delete}
use vidvnc.Approved.State.{
  Permission, by_default, permission_of, Verifier, Client, Request, is_approved, waits, removal,
  downgrade, Operation, approving, connecting, removing, permitting, sweeping, waiting, swept,
  writing, Store, StoreError, unknown_client, unknown_request, stale_authorization, being_removed,
  invalid_permission, write_failed, generation_of, client_of, was_removed, invalidate,
  still_authorized,
}
use vidvnc.Approved.Sweeps.{amend, begin_sweep, delete_requests, end_sweep, finish, requests_of}

-- The client of an approved request.
abbrev pub new_client : Request → Verifier → (client_id secret_hash : Text) → ℕ → Client
new_client r password client_id secret_hash now = record {
  id = client_id;
  device_name = r.device_name;
  username = r.username;
  installation_id = r.installation_id;
  client = r.client;
  network = r.network;
  permission = by_default;
  created_at = now;
  last_connected_at = none;
  password = password;
  secret_hash = secret_hash;
}

-- Requests that are approved get their client and its secret.
abbrev pub grant : Text → Text → Text → Table Request → Table Request
grant request_id client_id client_secret t = elim (get request_id t) [
  | none ↦ t
  | some r ↦
      set request_id
        (record r {
          state = is_approved;
          client_id = some client_id;
          client_secret = some client_secret;
        })
        t
]

-- `setPermission` after its write
abbrev end_permit : Store → (client_id : Text) → (generation : ℕ) → Store
end_permit s client_id generation =
    if generation_of s client_id == generation && not (was_removed s client_id)
    then record s { denied = delete client_id s.denied }
    else s

-- `remove` after its write
abbrev end_remove : Store → (client_id : Text) → Store
end_remove s client_id = record s {
  pending = delete_requests (requests_of client_id s.pending) s.pending;
}

-- What follows the write of an operation.
unfoldable pub end_change : Store → Operation → ℕ → Store × Result StoreError (Unit {0})
end_change s (approving request_id client_id client_secret) now =
    (record s { pending = grant request_id client_id client_secret s.pending }, ok tt)
end_change s (connecting client_id generation) now =
    (s, if still_authorized s client_id generation now then ok tt else err stale_authorization)
end_change s (removing client_id) now = (end_remove s client_id, ok tt)
end_change s (permitting client_id permission generation) now =
    (end_permit s client_id generation, ok tt)
end_change s sweeping now = (s, ok tt)

-- `markConnected`, from its sweep to its write
abbrev begin_connect : Store → (client_id : Text) → (generation : ℕ) → ℕ → Result StoreError Store
begin_connect s client_id generation now =
    if not (still_authorized s client_id generation now)
    then err stale_authorization
    else if not (is_some (client_of s client_id))
    then err unknown_client
    else ok (record s {
      clients = amend (λ c. record c { last_connected_at = some now }) client_id s.clients;
    })

-- `remove`, from its sweep to its write
abbrev begin_remove : Store → (client_id : Text) → Result StoreError Store
begin_remove s client_id =
    let kept = keep (λ c. not (same c.id client_id)) s.clients in
    if length kept == length s.clients then err unknown_client else ok (record s { clients = kept })

-- `setPermission`, from its sweep to its write
abbrev begin_permit : Store → (client_id : Text) → Permission → Result StoreError Store
begin_permit s client_id permission =
    if not (is_some (client_of s client_id))
    then err unknown_client
    else ok (record s {
      clients = amend (λ c. record c { permission = permission }) client_id s.clients;
    })

module _ (hash : Text → Text) where
  -- `approve`, from its sweep to its write; a request that waits has its password.
  abbrev begin_approve :
      Store → (request_id client_id client_secret : Text) → ℕ → Result StoreError Store
  begin_approve s request_id client_id client_secret now = elim (get request_id s.pending) [
    | none ↦ err unknown_request
    | some r ↦ if not (waits r.state) then err unknown_request else (elim r.password [
      | none ↦ err unknown_request
      | some password ↦ ok (record s {
        clients = s.clients ++ new_client r password client_id (hash client_secret) now ∷ [];
      })
    ])
  ]

  -- An operation after its sweep, up to its write.
  unfoldable pub begin_change : Store → Operation → ℕ → Result StoreError Store
  begin_change s (approving request_id client_id client_secret) now =
      begin_approve s request_id client_id client_secret now
  begin_change s (connecting client_id generation) now = begin_connect s client_id generation now
  begin_change s (removing client_id) now = begin_remove s client_id
  begin_change s (permitting client_id permission generation) now =
      begin_permit s client_id permission
  begin_change s sweeping now = ok s

  -- A sweep is done with; another operation makes its change and waits for the write.
  abbrev pub after_sweep : Store → Operation → ℕ → Store × Option (Result StoreError (Unit {0}))
  after_sweep s op now = elim (begin_change s op now) [
    | err e ↦ (finish s, some (err e))
    | ok s' ↦ elim op [
      | sweeping ↦ (finish s', some (ok tt))
      | other ↦ (record s' { stage = writing }, none)
    ]
  ]

  -- The operation under way goes on to its next wait: `written` says whether the write that it waited
  -- for has succeeded, and the result is there when the operation ends. Only the operations change the
  -- clients, so the file gets those of the time at which the write ends.
  unfoldable pub advance :
      Store → (written : Bool) → ℕ → Store × Option (Result StoreError (Unit {0}))
  advance s written now = elim s.queue [
    | [] ↦ (s, none)
    | op ∷ ops ↦ elim s.stage [
      | waiting ↦ (begin_sweep s now, none)
      | swept expired_keys wrote ↦
          if wrote && not written
          then (finish s, some (err write_failed))
          else after_sweep
              (end_sweep (record s { disk = if wrote then s.clients else s.disk }) expired_keys now)
              op now
      | writing ↦
          if not written
          then (finish s, some (err write_failed))
          else (let (ended, result) = end_change (record s { disk = s.clients }) op now in
              (finish ended, some result))
    ]
  ]

-- `approve`, `markConnected` and `sweepExpired`
abbrev pub enqueue : Store → Operation → Store
enqueue s op = record s { queue = s.queue ++ op ∷ [] }

-- `remove`
unfoldable pub remove : Store → Text → Store × Result StoreError (Unit {0})
remove s client_id =
    let (s', result) = invalidate s client_id removal in
    elim result [ err e ↦ (s', err e) | ok generation ↦ (enqueue s' (removing client_id), ok tt) ]

-- `setPermission`
unfoldable pub set_permission : Store → Text → Text → Store × Result StoreError (Unit {0})
set_permission s client_id name =
    let (s', result) = invalidate s client_id downgrade in
    elim (permission_of name) [
      | none ↦ (s, err invalid_permission)
      | some p ↦ if was_removed s client_id then (s, err being_removed) else (elim result [
        | err e ↦ (s', err e)
        | ok generation ↦ (enqueue s' (permitting client_id p generation), ok tt)
      ])
    ]
