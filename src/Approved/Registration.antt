-- ===== src/Approved/Registration.antt =====
-- apps/server/src/approved-clients.mjs: tickets, requests and claims. Random tokens and identifiers are
-- arguments. A ticket is known by the hash of its token.
use vidvnc.Base.{
  ℕ, ◌+◌, ◌-◌, true, false, not, ◌&&◌, ◌||◌, Option, none, some, List, [], ◌∷◌, Text, same, leb,
  length, keep, if◌then◌else◌, Result, ok, err,
}
use vidvnc.Base.Table.{Table, get, set, delete, values}
use vidvnc.Approved.State.{
  claim_ttl, max_pending, Verifier, Client, Request, is_pending, is_approved, is_rejected, waits,
  Ticket, Store, StoreError, ticket_limit, too_many_requests, invalid_ticket, invalid_field,
  unknown_request, text, expired, expired_unclaimed,
}

-- The tickets that have not expired.
unfoldable pub live_tickets : ℕ → Table Ticket → Table Ticket
live_tickets now [] = []
live_tickets now ((k, t) ∷ ts) =
    let rest = live_tickets now ts in if leb t.expires_at now then rest else (k, t) ∷ rest

-- What a client sends; what is no string is `none`.
pub record Application : Type 0 where
  pub registration_ticket : Text
  pub device_name : Option Text
  pub username : Option Text
  pub installation_id : Option Text
  pub client : Option Text
  pub network : Option Text
  pub password : Option Text

-- The fields, once they are checked.
pub record Details : Type 0 where
  pub device_name : Text
  pub username : Text
  pub installation_id : Text
  pub client : Text
  pub network : Text

abbrev checked_network : Option Text → Option Text
checked_network none = some []
checked_network (some t) = text (some t) 0 120

unfoldable pub check_fields : Application → Option Details
check_fields a = elim (text a.device_name 1 120) [
  | none ↦ none
  | some device_name ↦ elim (text a.username 1 64) [
    | none ↦ none
    | some username ↦ elim (text a.installation_id 1 128) [
      | none ↦ none
      | some installation_id ↦ elim (text a.client 1 120) [
        | none ↦ none
        | some client ↦ elim (checked_network a.network) [
          | none ↦ none
          | some network ↦ some (record {
            device_name = device_name;
            username = username;
            installation_id = installation_id;
            client = client;
            network = network;
          })
        ]
      ]
    ]
  ]
]

-- The row of a new request.
abbrev pub new_request : Details → Verifier → (claim_hash : Text) → ℕ → Request
new_request d password claim_hash now = record {
  device_name = d.device_name;
  username = d.username;
  installation_id = d.installation_id;
  client = d.client;
  network = d.network;
  password = some password;
  claim_hash = claim_hash;
  requested_at = now;
  state = is_pending;
  client_id = none;
  client_secret = none;
  claimed = false;
}

-- What the client is told of its request.
pub data ClaimStatus : Type 0 where
  invalid still_pending was_rejected already_claimed : ClaimStatus
  approved_now :
      (client_id : Option Text) (client_secret : Option Text) (username : Text) → ClaimStatus

-- `status`: the requests to decide
unfoldable pub listed_pending : Store → ℕ → List Request
listed_pending s now = keep (λ r. waits r.state && not (expired r now)) (values s.pending)

-- `status`: the clients
unfoldable pub listed_approved : Store → ℕ → List Client
listed_approved s now = keep (λ c. not (expired_unclaimed s c.id now)) s.clients

-- `reject`
unfoldable pub reject : Store → Text → ℕ → Store × Result StoreError (Unit {0})
reject s request_id now = elim (get request_id s.pending) [
  | none ↦ (s, err unknown_request)
  | some r ↦ if expired r now || not (waits r.state) then (s, err unknown_request) else (
    record s {
      pending = set request_id (record r { state = is_rejected; password = none }) s.pending;
    },
    ok tt,
  )
]

module _ (hash : Text → Text) where
  -- `issueRegistrationTicket`
  unfoldable pub issue_ticket : Store → (token : Text) → ℕ → Store × Result StoreError (Text × ℕ)
  issue_ticket s token now =
      let live = live_tickets now s.tickets in
      if leb max_pending (length live) then (record s { tickets = live }, err ticket_limit) else (
        record s {
          tickets = set (hash token) (record { expires_at = now + claim_ttl; in_use = false }) live;
        },
        ok (token, now + claim_ttl),
      )

  -- `submit` up to the hashing of the password: the ticket that it holds and the fields. A bad field
  -- gives the ticket back.
  unfoldable pub begin_submit :
      Store → Application → ℕ → Store × Result StoreError (Ticket × Details)
  begin_submit s a now =
      let key = hash a.registration_ticket in
      let live = length (keep (λ r. not (expired r now)) (values s.pending)) in
      if leb max_pending (live + s.submitting)
      then (s, err too_many_requests)
      else (elim (get key s.tickets) [
        | none ↦ (s, err invalid_ticket)
        | some t ↦
            if leb t.expires_at now || t.in_use
            then (s, err invalid_ticket)
            else (elim (check_fields a) [
              | none ↦ (s, err invalid_field)
              | some details ↦ (
                record s {
                  tickets = set key (record t { in_use = true }) s.tickets;
                  submitting = s.submitting + 1;
                },
                ok (t, details),
              )
            ])
      ])

  -- The `finally` of `submit`. A ticket that is gone from its map is not seen again.
  abbrev pub release : Store → (key : Text) → Store
  release s key = record s {
    tickets = (elim (get key s.tickets) [
      | none ↦ s.tickets
      | some t ↦ set key (record t { in_use = false }) s.tickets
    ]);
    submitting = s.submitting - 1;
  }

  -- `submit` from the hashing on, with what that gives or throws.
  unfoldable pub end_submit :
      Store
      → (token : Text) → Ticket
      → Details
      → Result StoreError Verifier
      → (request_id claim_token : Text) → ℕ
      → Store × Result StoreError (Text × Text)
  end_submit s token t d verifier request_id claim_token now =
      let key = hash token in
      elim verifier [
        | err e ↦ (release s key, err e)
        | ok password ↦ if leb t.expires_at now then (release s key, err invalid_ticket) else (
          record s {
            tickets = delete key s.tickets;
            submitting = s.submitting - 1;
            pending = set request_id (new_request d password (hash claim_token) now) s.pending;
          },
          ok (request_id, claim_token),
        )
      ]

  -- `registrationStatus`
  unfoldable pub registration_status :
      Store → (request_id claim_token : Text) → ℕ → Store × ClaimStatus
  registration_status s request_id claim_token now = elim (get request_id s.pending) [
    | none ↦ (s, invalid)
    | some r ↦
        if expired r now || not (same r.claim_hash (hash claim_token))
        then (s, invalid)
        else (elim r.state [
          | is_pending ↦ (s, still_pending)
          | is_rejected ↦ (s, was_rejected)
          | is_approved ↦ if r.claimed then (s, already_claimed) else (
            record s {
              pending =
                  set request_id (record r { claimed = true; client_secret = none }) s.pending;
            },
            approved_now r.client_id r.client_secret r.username,
          )
        ])
  ]
