-- ===== src/Admission/Tests.antt =====
-- A flood, a key start, and the theorems at them.
use vidvnc.Base.{
  ℕ, ◌≡◌, ◌≤◌, refl, true, false, none, some, List, [], ◌∷◌, Text, codes, length, is_some, before,
  dec_text, ok,
}
use vidvnc.Base.Table.{get, set, delete, evict}
use vidvnc.Sessions.Device.{starts_with}
use vidvnc.Grants.Cookies.{normalize_peer, is_dotted}
use vidvnc.Peers.Addresses.{plain_address, source_group}
use vidvnc.Admission.State.{
  AdmissionBudget, ClassState, Item, recent, bounded_row, roll, reserve_rolling, reserve_identity,
  minute,
}
use vidvnc.Admission.Classes.{
  Policy, one_time_connection, open_class, take_row, reserve_class, finish_item,
}
use vidvnc.Admission.Requests.{
  KeyStart, reserve_both, begin_key_start, finish_all, finish_start, cancel_start, assign_identity,
  begin_sign_in, begin_registration, begin_status, enter_scrypt, leave_scrypt,
}
use vidvnc.Admission.Windows.{count_in}
use vidvnc.Admission.Asked.{
  Request, key_start, sign_in, registration, status, kind_of, limit_of, ask, admitted, new_budget,
}
use vidvnc.Admission.Present.{assign_identity-some}
use vidvnc.Admission.Minutes.{admitted-le, begin_sign_in-some}
use vidvnc.Admission.Counts.{Counted}
use vidvnc.Admission.Tries.{Steps, here, next_is, asked, finished, tries-Counted}

runs : Unit {0}
unfolding dec_text before starts_with is_dotted normalize_peer plain_address source_group get set
    delete evict recent bounded_row roll reserve_rolling reserve_identity open_class take_row
    reserve_class finish_item reserve_both begin_key_start finish_all finish_start cancel_start
    assign_identity begin_sign_in begin_registration begin_status enter_scrypt leave_scrypt kind_of
    limit_of ask admitted
runs = tt

-- All addresses of the tests are of IPv4.
abbrev is_ip : Text → ℕ
is_ip s = 4

abbrev fresh : AdmissionBudget
fresh = new_budget 2

abbrev home : Text
home = codes "10.0.0.7"

abbrev knocks : List Request
knocks =
    sign_in home none true 5 5 5
    ∷ sign_in home (some (codes "tv")) true 6 6 6
    ∷ registration home true 7
    ∷ registration home false 8
    ∷ status home true 9
    ∷ []

let_through : admitted is_ip (codes "credentials:internet") fresh [] knocks ≡ 7 ∷ 6 ∷ 5 ∷ []
unfolding runs
let_through = refl

-- The eleventh try of a source within the minute is refused.
abbrev tries : List Request
tries =
    registration home true 1
    ∷ registration home true 1
    ∷ registration home true 1
    ∷ registration home true 1
    ∷ registration home true 1
    ∷ registration home true 1
    ∷ registration home true 1
    ∷ registration home true 1
    ∷ registration home true 1
    ∷ registration home true 1
    ∷ registration home true 60000
    ∷ registration home true 60001
    ∷ []

slowed : length (admitted is_ip (codes "credentials:internet") fresh [] tries) ≡ 11
unfolding runs
slowed = refl

admitted-le_example :
    count_in 0 minute (admitted is_ip (codes "credentials:internet") (new_budget 2) [] tries)
    ≤ limit_of (codes "credentials:internet")
admitted-le_example = admitted-le is_ip 2 tries (codes "credentials:internet") 0

begin_sign_in-some_example :
    is_some (begin_sign_in is_ip fresh home (some (codes "tv")) true 5 5 6) ≡ true
begin_sign_in-some_example = begin_sign_in-some is_ip fresh home (some (codes "tv")) true 5 5 6

abbrev policy : Policy
policy = record { generation = codes "g1"; global_limit = 20; source_limit = 5 }

abbrev begun : AdmissionBudget
begun = (ask is_ip fresh (key_start home (some policy) none 3)).0

abbrev item : Item
item = record { serial = 2; kind = codes "ephemeral"; source_id = home; state = 0; row = 1 }

abbrev start : KeyStart
start = record { serial = 3; reserved = item ∷ [] }

starts : (begin_key_start is_ip fresh home (some policy) none 3).1 ≡ ok (some start)
unfolding runs
starts = refl

abbrev failed_once : AdmissionBudget
failed_once = finish_start begun start one_time_connection false

abbrev after_failure : ClassState
after_failure = record {
  serial = 0;
  generation = codes "g1";
  failures = 1;
  pending = 0;
  sources = (home, record { serial = 1; failures = 1; pending = 0 }) ∷ [];
}

counted : get (codes "ephemeral") failed_once.classes ≡ some after_failure
unfolding runs
counted = refl

abbrev steps : Steps is_ip fresh failed_once
steps =
    next_is (asked (key_start home (some policy) none 3))
      (next_is (finished start one_time_connection false) here)

tries-Counted_example :
    Counted failed_once.next failed_once.unfinished (codes "ephemeral") after_failure
tries-Counted_example =
    tries-Counted is_ip 2 failed_once (codes "ephemeral") after_failure steps counted

abbrev hashing : AdmissionBudget
hashing = record fresh { active_scrypt = 1 }

enters : enter_scrypt fresh ≡ some hashing
unfolding runs
enters = refl

-- A sign-in of a client that names itself only once it is known
signs_in :
    begin_sign_in is_ip fresh home none true 5 5 6
    ≡ some (
      (ask is_ip fresh (sign_in home none true 5 5 6)).0,
      (record { kind = codes "credentials:internet"; allowed = true; assigned = false }, true),
    )
unfolding runs
signs_in = refl

assign_identity-some_example :
    is_some (
      assign_identity
        (ask is_ip (ask is_ip fresh (sign_in home none true 5 5 6)).0 (status home true 70000)).0
        (record { kind = codes "credentials:internet"; allowed = true; assigned = false })
        (some (codes "tv"))
        70001
        70002)
    ≡ true
assign_identity-some_example =
    assign_identity-some is_ip fresh (ask is_ip fresh (sign_in home none true 5 5 6)).0
      (ask is_ip (ask is_ip fresh (sign_in home none true 5 5 6)).0 (status home true 70000)).0 home
      none true 5 5 6
      (record { kind = codes "credentials:internet"; allowed = true; assigned = false }) true
      signs_in (next_is (asked (status home true 70000)) here) false (some (codes "tv")) 70001 70002
