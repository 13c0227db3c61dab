-- ===== src/Approved/Authentication.antt =====
-- apps/server/src/approved-clients.mjs: a client signs in with its secret and its password. The password is
-- hashed between the two parts, during which the store may change.
use vidvnc.Base.{
  ℕ, ◌+◌, not, ◌&&◌, Option, none, some, List, [], ◌∷◌, ◌++◌, Text, codes, same, leb, ltb, length,
  keep, find, take, if◌then◌else◌, Result, ok, err,
}
use vidvnc.Base.Table.{Table, get, has, set, delete, evict}
use vidvnc.Peers.Addresses.{source_group}
use vidvnc.Approved.State.{
  Permission, Verifier, Client, Authorization, authorization, expired_unclaimed, Store, StoreError,
  still_authorized,
}

pub record Credentials : Type 0 where
  pub client_id : Text
  pub username : Text
  pub client_secret : Text

-- What `authenticate` holds while the password is hashed.
pub record Check : Type 0 where
  pub attempt_key : Text
  pub attempts : List ℕ
  pub started_at : ℕ
  pub row : Client
  pub authorized : Authorization

-- The result of `authenticate`.
pub record Authenticated : Type 0 where
  pub id : Text
  pub device_name : Text
  pub username : Text
  pub permission : Permission
  pub generation : ℕ

abbrev pub recent_attempts : Store → Text → ℕ → List ℕ
recent_attempts s key now =
    keep (λ time. ltb now (time + s.window))
      (elim (get key s.attempts) [ none ↦ [] | some times ↦ times ])

-- The attempts with room for a key: the oldest goes where the map is full.
abbrev pub attempts_for : Store → Text → Table (List ℕ)
attempts_for s key =
    if leb 1024 (length s.attempts) && not (has key s.attempts)
    then evict s.attempts
    else s.attempts

-- A failed attempt is noted.
abbrev pub note_failure : Store → Text → List ℕ → ℕ → Store
note_failure s key attempts now = record s { attempts = set key (attempts ++ now ∷ []) s.attempts }

abbrev pub row_of : Store → Credentials → Option Client
row_of s c = find (λ r. same r.id c.client_id && same r.username c.username) s.clients

module _ (is_ip : Text → ℕ) (hash : Text → Text) where
  -- `authenticate` up to the hashing of the password; `none` where it returns null.
  unfoldable pub begin_authenticate :
      Store → Credentials → (client_key : Text) → ℕ → Store × Option Check
  begin_authenticate s c client_key now =
      let key = take 128 c.client_id ++ (codes ":" ++ source_group is_ip client_key) in
      let roomy : Store = record s { attempts = attempts_for s key } in
      let attempts = recent_attempts roomy key now in
      if expired_unclaimed s c.client_id now
      then (s, none)
      else if leb s.max_attempts (length attempts)
      then (record roomy { attempts = set key attempts roomy.attempts }, none)
      else (elim (row_of s c) [
        | none ↦ (note_failure roomy key attempts now, none)
        | some row ↦ elim (authorization s c.client_id now) [
          | none ↦ (note_failure roomy key attempts now, none)
          | some a ↦
              if same row.secret_hash (hash c.client_secret)
              then (
                roomy,
                some (record {
                  attempt_key = key;
                  attempts = attempts;
                  started_at = now;
                  row = row;
                  authorized = a;
                }),
              )
              else (note_failure roomy key attempts now, none)
        ]
      ])

-- `authenticate` from then on. The hash is `none` where the password is not valid; `err` where too many
-- passwords are being hashed.
unfoldable pub end_authenticate :
    Store
    → Check
    → Result StoreError (Option Verifier)
    → ℕ
    → Store × Result StoreError (Option Authenticated)
end_authenticate s c candidate now =
    let refused = note_failure s c.attempt_key c.attempts c.started_at in
    elim candidate [
      | err e ↦ (s, err e)
      | ok none ↦ (refused, ok none)
      | ok (some v) ↦
          if same c.row.password.digest v.digest
            && still_authorized s c.authorized.id c.authorized.generation now
          then (
            record s { attempts = delete c.attempt_key s.attempts },
            ok (
                some (record {
                  id = c.row.id;
                  device_name = c.row.device_name;
                  username = c.row.username;
                  permission = c.row.permission;
                  generation = c.authorized.generation;
                })),
          )
          else (refused, ok none)
    ]
