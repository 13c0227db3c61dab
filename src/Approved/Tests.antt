-- ===== src/Approved/Tests.antt =====
-- Concrete runs of the store of approved clients, and its theorems at them.
use vidvnc.Base.{
  ℕ, ◌≡◌, ◌≢◌, refl, true, false, none, some, List, [], ◌∷◌, map, Text, codes, ok, inr, dec_text,
  trim, trim_start,
}
use vidvnc.Base.Table.{get, set, delete, values, evict}
use vidvnc.Peers.Addresses.{source_group}
use vidvnc.Approved.State.{
  by_default, permission_of, stored_permission, Verifier, Client, text, password_verifier,
  expired_unclaimed, authorization, still_authorized, invalidate, Store, removing,
}
use vidvnc.Approved.Registration.{
  live_tickets, Application, Details, check_fields, issue_ticket, begin_submit, end_submit,
  registration_status, approved_now, reject, listed_pending, listed_approved,
}
use vidvnc.Approved.Authentication.{
  Credentials, Check, Authenticated, begin_authenticate, end_authenticate,
}
use vidvnc.Approved.Sweeps.{
  expired_requests, is_unclaimed, delete_requests, requests_of, amend, begin_sweep, end_sweep,
}
use vidvnc.Approved.Changes.{begin_change, end_change, advance, remove, set_permission}
use vidvnc.Approved.Calls.{
  Event, tickets, submits, submitted, rejects, approves, sweeps, removes, advances, event, run,
  open_store,
}
use vidvnc.Approved.Life.{phase, Way, granted}
use vidvnc.Approved.Moved.{act}
use vidvnc.Approved.Revoked.{remove-authorization, end_authenticate-withdrawn}
use vidvnc.Approved.Collected.{run-Way, registration_status-once}
use vidvnc.Approved.Durable.{advance-durable}

runs : Unit {0}
unfolding dec_text trim trim_start get set delete values evict source_group permission_of
    stored_permission text password_verifier expired_unclaimed authorization still_authorized
    invalidate live_tickets check_fields issue_ticket begin_submit end_submit registration_status
    reject listed_pending listed_approved begin_authenticate end_authenticate expired_requests
    is_unclaimed delete_requests requests_of amend begin_sweep end_sweep begin_change end_change
    advance remove set_permission event run phase
runs = tt

abbrev no_ip : Text → ℕ
no_ip t = 0

-- Stands for the hash.
abbrev plain : Text → Text
plain t = t

abbrev secret : Verifier
secret = record { salt = codes "salt"; digest = codes "digest" }

abbrev alice : Client
alice = record {
  id = codes "alice";
  device_name = codes "laptop";
  username = codes "al";
  installation_id = codes "i1";
  client = codes "viewer";
  network = [];
  permission = by_default;
  created_at = 0;
  last_connected_at = none;
  password = secret;
  secret_hash = codes "s3";
}

abbrev store : Store
store = open_store (alice ∷ []) 5 60000

abbrev credentials : Credentials
credentials = record {
  client_id = codes "alice";
  username = codes "al";
  client_secret = codes "s3";
}

abbrev check : Check
check = record {
  attempt_key = codes "alice:local";
  attempts = [];
  started_at = 7;
  row = alice;
  authorized = record { id = codes "alice"; generation = 0; permission = by_default };
}

checks : (begin_authenticate no_ip plain store credentials (codes "local") 7).1 ≡ some check
unfolding runs
checks = refl

-- With the right password and nothing between, the client is let in.
lets_in :
    (end_authenticate store check (ok (some secret)) 9).1
    ≡ ok (
        some (record {
          id = codes "alice";
          device_name = codes "laptop";
          username = codes "al";
          permission = by_default;
          generation = 0;
        }))
unfolding runs
lets_in = refl

abbrev removed : Store
removed = (remove store (codes "alice")).0

removal_accepted : (remove store (codes "alice")).1 ≡ ok tt
unfolding runs
removal_accepted = refl

remove-authorization_example :
    authorization
      (run no_ip plain removed (advances true 9 ∷ advances true 9 ∷ []))
      (codes "alice")
      11
    ≡ none
remove-authorization_example =
    remove-authorization no_ip plain store (codes "alice") removal_accepted
      (advances true 9 ∷ advances true 9 ∷ []) 11

-- Her permission is changed while her password is hashed.
abbrev changed : Store
changed =
    (set_permission (run no_ip plain store (sweeps ∷ [])) (codes "alice") (codes "approval")).0

changes :
    set_permission
      (run no_ip plain
        (begin_authenticate no_ip plain store credentials (codes "local") 7).0
        (sweeps ∷ []))
      (codes "alice")
      (codes "approval")
    ≡ (changed, ok tt)
unfolding runs
changes = refl

abbrev let_in : Authenticated
let_in = record {
  id = codes "alice";
  device_name = codes "laptop";
  username = codes "al";
  permission = by_default;
  generation = 0;
}

end_authenticate-withdrawn_example :
    (end_authenticate
      (run no_ip plain changed (advances true 8 ∷ advances true 8 ∷ []))
      check
      (ok (some secret))
      9).1
    ≢ ok (some let_in)
end_authenticate-withdrawn_example =
    end_authenticate-withdrawn no_ip plain store credentials (codes "local") 7 check checks
      (sweeps ∷ []) (codes "approval") changed (inr changes)
      (advances true 8 ∷ advances true 8 ∷ []) (ok (some secret)) 9 let_in

abbrev application : Application
application = record {
  registration_ticket = codes "t";
  device_name = some (codes "phone");
  username = some (codes "bo");
  installation_id = some (codes "i2");
  client = some (codes "viewer");
  network = none;
  password = some (codes "long enough");
}

abbrev details : Details
details = record {
  device_name = codes "phone";
  username = codes "bo";
  installation_id = codes "i2";
  client = codes "viewer";
  network = [];
}

-- A client gets a ticket, applies with it, and is approved.
abbrev applies : List Event
applies =
    tickets (codes "t") 0
    ∷ submits application 1
    ∷ submitted (codes "t") (record { expires_at = 600000; in_use = false }) details (ok secret)
        (codes "r") (codes "c") 2
    ∷ approves (codes "r") (codes "bo") (codes "s4")
    ∷ advances true 3
    ∷ advances true 3
    ∷ advances true 3
    ∷ []

approved : phase (codes "r") (run no_ip plain store applies).pending ≡ granted
unfolding runs
approved = refl

run-Way_example :
    Way
      (map (act (codes "r")) applies)
      (phase (codes "r") store.pending)
      (phase (codes "r") (run no_ip plain store applies).pending)
run-Way_example = run-Way no_ip plain (codes "r") store applies

abbrev ready : Store
ready = run no_ip plain store applies

collects :
    (registration_status plain ready (codes "r") (codes "c") 4).1
    ≡ approved_now (some (codes "bo")) (some (codes "s4")) (codes "bo")
unfolding runs
collects = refl

registration_status-once_example :
    (registration_status plain
      (run no_ip plain
        (registration_status plain ready (codes "r") (codes "c") 4).0
        (rejects (codes "r") 5 ∷ []))
      (codes "r")
      (codes "c")
      6).1
    ≢ approved_now (some (codes "bo")) (some (codes "s4")) (codes "bo")
registration_status-once_example =
    registration_status-once no_ip plain ready (codes "r") (codes "c") 4 (some (codes "bo"))
      (some (codes "s4")) (codes "bo") collects (rejects (codes "r") 5 ∷ []) (refl, tt) (codes "c")
      6 (some (codes "bo")) (some (codes "s4")) (codes "bo")

-- Her removal is under way, up to its write.
abbrev removing_her : List Event
removing_her = removes (codes "alice") ∷ advances true 1 ∷ advances true 1 ∷ []

under_way : (run no_ip plain store removing_her).queue ≡ removing (codes "alice") ∷ []
unfolding runs
under_way = refl

removal_ends : (advance plain (run no_ip plain store removing_her) true 2).1 ≡ some (ok tt)
unfolding runs
removal_ends = refl

advance-durable_example :
    authorization
      (open_store
        (run no_ip plain
          (advance plain (run no_ip plain store removing_her) true 2).0
          (sweeps ∷ advances true 3 ∷ [])).disk
        5
        60000)
      (codes "alice")
      4
    ≡ none
advance-durable_example =
    advance-durable no_ip plain (alice ∷ []) 5 60000 removing_her (codes "alice") [] true 2
      under_way tt removal_ends (sweeps ∷ advances true 3 ∷ []) (refl, (refl, tt)) 4

-- The owner refuses a request while its approval is written; it is approved all the same.
refused_late :
    phase
      (codes "r")
      (run no_ip plain store (
        tickets (codes "t") 0
        ∷ submits application 1
        ∷ submitted
            (codes "t")
            (record { expires_at = 600000; in_use = false })
            details
            (ok secret)
            (codes "r")
            (codes "c")
            2
        ∷ approves (codes "r") (codes "bo") (codes "s4")
        ∷ advances true 3
        ∷ advances true 3
        ∷ rejects (codes "r") 3
        ∷ advances true 3
        ∷ [])).pending
    ≡ granted
unfolding runs
refused_late = refl
