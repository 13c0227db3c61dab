-- ===== src/Approved/State.antt =====
-- apps/server/src/approved-clients.mjs: the state of the store, what it knows of a client, and how it takes
-- a client's rights away. `hash` is SHA-256; each call gets the time of its clock.
use vidvnc.Base.{
  ℕ, ◌+◌, Bool, true, false, not, ◌&&◌, ◌||◌, Option, none, some, List, Text, codes, same, leb, ltb,
  ◌==◌, length, find, any, trim, if◌then◌else◌, Result, ok, err,
}
use vidvnc.Base.Table.{Table, get, has, set, values}

-- CLAIM_TTL_MS and MAX_PENDING
abbrev pub claim_ttl : ℕ
claim_ttl = 600000

abbrev pub max_pending : ℕ
max_pending = 64

-- CLIENT_PERMISSIONS
pub data Permission : Type 0 where
  by_default approval available view_only : Permission

unfoldable pub permission_of : Text → Option Permission
permission_of t =
    if same t (codes "default")
    then some by_default
    else if same t (codes "approval")
    then some approval
    else if same t (codes "available")
    then some available
    else if same t (codes "view-only")
    then some view_only
    else none

-- The permission of a row of the file, with LEGACY_PERMISSIONS.
unfoldable pub stored_permission : Text → Permission
stored_permission t =
    elim (permission_of (if same t (codes "request-control") then codes "approval" else t)) [
      | none ↦ by_default
      | some p ↦ p
    ]

-- A salted hash of a password.
pub record Verifier : Type 0 where
  pub salt : Text
  pub digest : Text

pub record Client : Type 0 where
  pub id : Text
  pub device_name : Text
  pub username : Text
  pub installation_id : Text
  pub client : Text
  pub network : Text
  pub permission : Permission
  pub created_at : ℕ
  pub last_connected_at : Option ℕ
  pub password : Verifier
  pub secret_hash : Text

pub data RequestState : Type 0 where
  is_pending is_approved is_rejected : RequestState

abbrev pub waits : RequestState → Bool
waits is_pending = true
waits is_approved = false
waits is_rejected = false

pub record Request : Type 0 where
  pub device_name : Text
  pub username : Text
  pub installation_id : Text
  pub client : Text
  pub network : Text
  pub password : Option Verifier
  pub claim_hash : Text
  pub requested_at : ℕ
  pub state : RequestState
  pub client_id : Option Text
  pub client_secret : Option Text
  pub claimed : Bool

pub record Ticket : Type 0 where
  pub expires_at : ℕ
  pub in_use : Bool

pub data Denial : Type 0 where
  removal downgrade : Denial

abbrev pub is_removal : Denial → Bool
is_removal removal = true
is_removal downgrade = false

-- The operations that wait for one another.
pub data Operation : Type 0 where
  approving : (request_id client_id client_secret : Text) → Operation
  connecting : (client_id : Text) (generation : ℕ) → Operation
  removing : (client_id : Text) → Operation
  permitting : (client_id : Text) (permission : Permission) (generation : ℕ) → Operation
  sweeping : Operation

-- Where the operation under way stands: before its sweep, while the sweep writes (`wrote` says whether
-- it does), or while its own change is written.
pub data Stage : Type 0 where
  waiting : Stage
  swept : (expired_keys : List Text) (wrote : Bool) → Stage
  writing : Stage

-- The store. `queue` holds the operations, of which the first is under way; `disk` holds the clients
-- that the file has.
pub record Store : Type 0 where
  pub clients : List Client
  pub pending : Table Request
  pub tickets : Table Ticket
  pub submitting : ℕ
  pub attempts : Table (List ℕ)
  pub generations : Table ℕ
  pub denied : Table Denial
  pub max_attempts : ℕ
  pub window : ℕ
  pub queue : List Operation
  pub stage : Stage
  pub disk : List Client

-- `text(value, name, { min, max })`; a value that is no string is `none`.
unfoldable pub text : Option Text → (least most : ℕ) → Option Text
text none least most = none
text (some value) least most =
    if ltb (length (trim value)) least
      || ltb most (length value)
      || any (λ c. ltb c 0x20 || c == 0x7f) value
    then none
    else some (trim value)

-- `passwordVerifier`, whose scrypt is an argument
unfoldable pub password_verifier :
    (scrypt : Text → Text → Text) → Option Text → (salt : Text) → Option Verifier
password_verifier scrypt password salt = elim (text password 10 256) [
  | none ↦ none
  | some normalized ↦ some (record { salt = salt; digest = scrypt normalized salt })
]

-- `#expired`
abbrev pub expired : Request → ℕ → Bool
expired r now = leb (r.requested_at + claim_ttl) now

abbrev pub is_of : Text → Request → Bool
is_of client_id r = elim r.client_id [ none ↦ false | some id ↦ same id client_id ]

-- `#expiredUnclaimed`
unfoldable pub expired_unclaimed : Store → Text → ℕ → Bool
expired_unclaimed s client_id now =
    any (λ r. is_of client_id r && not r.claimed && expired r now) (values s.pending)

abbrev pub generation_of : Store → Text → ℕ
generation_of s client_id = elim (get client_id s.generations) [ none ↦ 0 | some n ↦ n ]

abbrev pub client_of : Store → Text → Option Client
client_of s client_id = find (λ c. same c.id client_id) s.clients

pub record Authorization : Type 0 where
  pub id : Text
  pub generation : ℕ
  pub permission : Permission

unfoldable pub authorization : Store → Text → ℕ → Option Authorization
authorization s client_id now =
    if has client_id s.denied || expired_unclaimed s client_id now
    then none
    else (elim (client_of s client_id) [
      | none ↦ none
      | some c ↦
          some (record {
            id = c.id;
            generation = generation_of s client_id;
            permission = c.permission;
          })
    ])

-- `stillAuthorized`, of a snapshot's client and generation
unfoldable pub still_authorized : Store → (client_id : Text) → (generation : ℕ) → ℕ → Bool
still_authorized s client_id generation now = elim (authorization s client_id now) [
  | none ↦ false
  | some a ↦ a.generation == generation
]

pub data StoreError : Type 0 where
  unknown_client unknown_request stale_authorization being_removed : StoreError
  invalid_permission ticket_limit too_many_requests invalid_ticket : StoreError
  invalid_field write_failed busy : StoreError

abbrev pub was_removed : Store → Text → Bool
was_removed s client_id = elim (get client_id s.denied) [ none ↦ false | some d ↦ is_removal d ]

-- `invalidate`, with the new generation
unfoldable pub invalidate : Store → Text → Denial → Store × Result StoreError ℕ
invalidate s client_id kind =
    let generation = generation_of s client_id + 1 in
    if not (any (λ c. same c.id client_id) s.clients) then (s, err unknown_client) else (
      record s {
        generations = set client_id generation s.generations;
        denied = set client_id (if was_removed s client_id then removal else kind) s.denied;
      },
      ok generation,
    )

-- `permission`
abbrev pub permission : Store → Text → ℕ → Option Permission
permission s client_id now = elim (authorization s client_id now) [
  | none ↦ none
  | some a ↦ some a.permission
]
