-- ===== src/Approved/Calls.antt =====
-- apps/server/src/approved-clients.mjs: the calls that the store gets, in the order in which they take
-- effect, and the store after them.
use vidvnc.Base.{ℕ, Bool, Option, List, [], ◌∷◌, Text, Result}
use vidvnc.Approved.State.{
  Client, waiting, Verifier, Ticket, approving, connecting, sweeping, Store, StoreError,
}
use vidvnc.Approved.Registration.{
  Application, Details, issue_ticket, begin_submit, end_submit, registration_status, reject,
}
use vidvnc.Approved.Authentication.{Credentials, Check, begin_authenticate, end_authenticate}
use vidvnc.Approved.Changes.{advance, enqueue, remove, set_permission}

-- `ApprovedClientStore.open`, with the clients that the file has
abbrev pub open_store : List Client → (max_attempts window : ℕ) → Store
open_store clients max_attempts window = record {
  clients = clients;
  pending = [];
  tickets = [];
  submitting = 0;
  attempts = [];
  generations = [];
  denied = [];
  max_attempts = max_attempts;
  window = window;
  queue = [];
  stage = waiting;
  disk = clients;
}

-- A call, or the part of one that follows a wait, with the time that its clock gives.
pub data Event : Type 0 where
  tickets : (token : Text) (now : ℕ) → Event
  submits : (a : Application) (now : ℕ) → Event
  submitted :
      (token : Text) (t : Ticket) (d : Details) (verifier : Result StoreError Verifier)
      (request_id claim_token : Text) (now : ℕ)
      → Event
  claims : (request_id claim_token : Text) (now : ℕ) → Event
  rejects : (request_id : Text) (now : ℕ) → Event
  signs_in : (c : Credentials) (client_key : Text) (now : ℕ) → Event
  signed_in : (c : Check) (candidate : Result StoreError (Option Verifier)) (now : ℕ) → Event
  approves : (request_id client_id client_secret : Text) → Event
  connects : (client_id : Text) (generation : ℕ) → Event
  sweeps : Event
  removes : (client_id : Text) → Event
  permits : (client_id name : Text) → Event
  advances : (written : Bool) (now : ℕ) → Event

module _ (is_ip : Text → ℕ) (hash : Text → Text) where
  unfoldable pub event : Store → Event → Store
  event s (tickets token now) = (issue_ticket hash s token now).0
  event s (submits a now) = (begin_submit hash s a now).0
  event s (submitted token t d verifier request_id claim_token now) =
      (end_submit hash s token t d verifier request_id claim_token now).0
  event s (claims request_id claim_token now) =
      (registration_status hash s request_id claim_token now).0
  event s (rejects request_id now) = (reject s request_id now).0
  event s (signs_in c client_key now) = (begin_authenticate is_ip hash s c client_key now).0
  event s (signed_in c candidate now) = (end_authenticate s c candidate now).0
  event s (approves request_id client_id client_secret) =
      enqueue s (approving request_id client_id client_secret)
  event s (connects client_id generation) = enqueue s (connecting client_id generation)
  event s sweeps = enqueue s sweeping
  event s (removes client_id) = (remove s client_id).0
  event s (permits client_id name) = (set_permission s client_id name).0
  event s (advances written now) = (advance hash s written now).0

  unfoldable pub run : Store → List Event → Store
  run s [] = s
  run s (e ∷ es) = run (event s e) es
