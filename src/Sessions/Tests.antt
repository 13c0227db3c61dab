-- ===== src/Sessions/Tests.antt =====
-- Concrete runs of the store, and its theorems at them.
use vidvnc.Base.{
  ◌≤◌, ◌<◌, ◌⊎◌, ◌≡◌, ◌↔◌, refl, true, false, none, some, List, [], ◌∷◌, Text, codes, length, keep,
  any, same, ok, arith, dec_text,
}
use vidvnc.Base.Table.{get, set, delete, evict, values}
use vidvnc.Keys.Password.{normalize_password}
use vidvnc.Keys.Codes.{Keys, session, multi_use, default_limits}
use vidvnc.Keys.Registry.{inspect, use_key}
use vidvnc.Sessions.Device.{device_of}
use vidvnc.Sessions.State.{
  Store, Session, on, accepted, refused, rate_limited, ApprovedClient, open_store, disconnect,
  sweep_sessions, sweep_failed, sweep, recent, or_empty,
}
use vidvnc.Sessions.Admit.{create_session, make_room, admit, connect, connect_approved, approved_as}
use vidvnc.Sessions.Access.{peek, get_session}
use vidvnc.Sessions.Attempts.{IsBounded, connect-IsBounded}
use vidvnc.Sessions.Locks.{connect-limited_iff}
use vidvnc.Sessions.Calls.{Call, connects, connects_approved, gets, sweeps, call, run, run-revoked}
use vidvnc.Sessions.Room.{run-at_most, run-one_session}

runs : Unit {0}
unfolding get set delete evict values dec_text normalize_password inspect use_key device_of
    open_store disconnect sweep_sessions sweep_failed sweep create_session make_room admit connect
    connect_approved peek get_session call run
runs = tt

-- A digest that the tests can read.
abbrev plain : Text → Text
plain t = t

abbrev standing : Text
standing = codes "2345-ABCD"

abbrev keys : Keys
keys = record {
  records =
      (
        standing,
        record {
          purpose = session;
          usage = multi_use;
          generation = codes "g0";
          limits = default_limits;
          alphabet = codes "letters-digits";
          created_at = 100;
          expires_at = none;
        },
      )
      ∷ [];
  session_key = some standing;
  ephemeral_key = none;
  alphabet = codes "letters-digits";
}

abbrev empty : Store
empty = record {
  session_ttl = 20000;
  max_attempts = 2;
  window = 60000;
  keys = keys;
  password = some standing;
  sessions = [];
  failed = [];
  revoked = [];
  connected = [];
}

opens_empty : open_store 20000 2 60000 1 keys ≡ ok empty
unfolding runs
opens_empty = refl

abbrev alice : Text
alice = codes "10.0.0.1"

abbrev agent : Text
agent = codes "Mozilla/5.0 (X11; Linux x86_64) Firefox/130.0"

lets_in :
    (connect plain empty 1 1000 (codes "2345abcd") alice agent (codes "s1")).1
    ≡ ok (accepted (codes "s1"))
unfolding runs
lets_in = refl

abbrev tried : Store
tried = record empty { failed = (alice, 900 ∷ 950 ∷ []) ∷ [] }

-- The right password is of no use to a client that has used its attempts.
turns_away :
    (connect plain tried 1 1000 (codes "2345abcd") alice agent (codes "s1")).1
    ≡ ok (refused rate_limited)
unfolding runs
turns_away = refl

-- A minute later it is.
forgives :
    (connect plain tried 1 61000 (codes "2345abcd") alice agent (codes "s1")).1
    ≡ ok (accepted (codes "s1"))
unfolding runs
forgives = refl

connect-limited_iff_example :
    (((connect plain tried 1 1000 standing alice agent (codes "s1")).1 ≡ ok (refused rate_limited))
      ↔ (2 ≤ length (recent tried 1000 (or_empty (get alice tried.failed)))))
    × ((length (recent tried 1000 (or_empty (get alice tried.failed))) < 2)
        ⊎ ((connect plain tried 1 1000 standing alice agent (codes "s1")).0.keys ≡ keys)
          × ((connect plain tried 1 1000 standing alice agent (codes "s1")).0.sessions
              ≡ (sweep tried 1000).sessions))
connect-limited_iff_example =
    connect-limited_iff plain tried 1 1000 standing alice agent (codes "s1") (tt, tt)

tried-IsBounded : IsBounded 2 tried
tried-IsBounded = record { cap = refl; clients = omega arith; tries = (omega arith, tt) }

connect-IsBounded_example :
    IsBounded 2 (connect plain tried 1 1000 standing alice agent (codes "s1")).0
connect-IsBounded_example =
    connect-IsBounded plain 2 tried 1 1000 standing alice agent (codes "s1") tried-IsBounded

abbrev phone : ApprovedClient
phone = record { id = codes "phone"; generation = 3 }

abbrev day : List Call
day =
    connects 2 1000 standing alice agent (codes "s1")
    ∷ connects_approved 2 1500 (some phone) alice agent (codes "s2")
    ∷ connects_approved 2 1600 (some phone) alice agent (codes "s3")
    ∷ gets (codes "s2") 15000
    ∷ []

day_sessions : length (run plain empty day).sessions ≡ 2
unfolding runs
day_sessions = refl

run-at_most_example : length (run plain empty day).sessions ≤ 64
run-at_most_example = run-at_most plain 20000 2 60000 1 keys empty day opens_empty

run-one_session_example :
    length (keep (approved_as (codes "phone")) (values (run plain empty day).sessions)) ≤ 1
run-one_session_example =
    run-one_session plain 20000 2 60000 1 keys empty day (codes "phone") opens_empty

abbrev visit : Session
visit = record {
  session_id = codes "s1";
  client_key = alice;
  approved_client_id = none;
  approved_generation = none;
  device = codes "Linux";
  created_at = 1000;
  last_seen_at = 1000;
  control_enabled = false;
  profile = none;
  audio = on;
  display = none;
  inventory_revision = none;
  policy_revision = none;
}

abbrev visited : Store
visited = record empty { sessions = (codes "s1", visit) ∷ [] }

expires : get (codes "s1") (run plain visited (sweeps 21000 ∷ [])).sessions ≡ none
unfolding runs
expires = refl

run-revoked_example : any (same (codes "s1")) (run plain visited (sweeps 21000 ∷ [])).revoked ≡ true
unfolding get
run-revoked_example = run-revoked plain visited (sweeps 21000 ∷ []) (codes "s1") visit refl expires
