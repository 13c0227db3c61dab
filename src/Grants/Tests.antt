-- ===== src/Grants/Tests.antt =====
-- Concrete runs of the grants, and their theorems at them.
use vidvnc.Base.{
  split_on, ◌≡◌, ◌≢◌, refl, none, some, false, [], ◌∷◌, ◌++◌, Text, codes, dec_text, trim,
}
use vidvnc.Base.Table.{get, set, delete}
use vidvnc.Sessions.Device.{starts_with}
use vidvnc.Sessions.State.{Session, AudioMode, on, disconnect}
use vidvnc.Sessions.State as Sessions
use vidvnc.Sessions.Access.{peek}
use vidvnc.Grants.Cookies.{normalize_peer, is_dotted, entry, only_value, read_viewer_cookie}
use vidvnc.Grants.Store.{Grant, Grants, revoke, unused_token, issue, session_of, session_for, clear}
use vidvnc.Grants.Links.{issues, revokes, call, run, session_for-some}
use vidvnc.Grants.Revoked.{revoke-refuses}

runs : Unit {0}
unfolding dec_text trim get set delete starts_with disconnect peek normalize_peer is_dotted split_on
    entry only_value read_viewer_cookie revoke unused_token issue session_of session_for call run
runs = tt

abbrev token : Text
token = codes "AAAAAAAAAABBBBBBBBBBCCCCCCCCCCDDDDDDDDDD-_9"

abbrev alice : Text
alice = codes "10.0.0.1"

abbrev visit : Session
visit = record {
  session_id = codes "s1";
  client_key = codes "::ffff:10.0.0.1";
  approved_client_id = none;
  approved_generation = none;
  device = codes "Browser client";
  created_at = 1000;
  last_seen_at = 1000;
  control_enabled = false;
  profile = none;
  audio = on;
  display = none;
  inventory_revision = none;
  policy_revision = none;
}

abbrev store : Sessions.Store
store = record {
  session_ttl = 20000;
  max_attempts = 5;
  window = 60000;
  keys = record {
    records = [];
    session_key = none;
    ephemeral_key = none;
    alphabet = codes "letters";
  };
  password = none;
  sessions = (codes "s1", visit) ∷ [];
  failed = [];
  revoked = [];
  connected = [];
}

abbrev one : Grants
one = run clear (issues (codes "s1") alice (token ∷ []) ∷ [])

abbrev cookie : Text
cookie = codes "theme=dark; vidvnc-viewer=" ++ token

admits : (session_for one cookie alice store 1500).2 ≡ some (codes "s1")
unfolding runs
admits = refl

expires : (session_for one cookie alice store 21000).2 ≡ none
unfolding runs
expires = refl

-- Another address has no use of the cookie, and two such cookies are worth nothing.
elsewhere : (session_for one cookie (codes "10.0.0.2") store 1500).2 ≡ none
unfolding runs
elsewhere = refl

twice : read_viewer_cookie (cookie ++ codes "; " ++ cookie) ≡ none
unfolding runs
twice = refl

session_for-some_example :
    (value : Text) × (x : Grant) × (s : Session) × (read_viewer_cookie cookie ≡ some value)
    × (get value one.by_token ≡ some x)
    × (x.session_id ≡ codes "s1")
    × (x.peer ≡ normalize_peer alice)
    × ((peek store (codes "s1") 1500).1 ≡ some s)
    × (normalize_peer s.client_key ≡ normalize_peer alice)
session_for-some_example = session_for-some one cookie alice store 1500 (codes "s1") admits

revoke-refuses_example :
    (session_for
      (run
        (revoke one (codes "s1"))
        (issues (codes "s2") alice (token ∷ []) ∷ revokes (codes "s2") ∷ []))
      cookie
      alice
      store
      1500).2
    ≢ some (codes "s1")
unfolding runs
revoke-refuses_example =
    revoke-refuses (issues (codes "s1") alice (token ∷ []) ∷ [])
      (issues (codes "s2") alice (token ∷ []) ∷ revokes (codes "s2") ∷ []) (codes "s1") cookie alice
      store 1500 (refl, (refl, tt))
