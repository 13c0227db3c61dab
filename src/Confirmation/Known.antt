-- ===== src/Confirmation/Known.antt =====
-- apps/server/src/network-confirmation.mjs: the networks that the owner has decided on, and those that wait.
use vidvnc.Base.{
  ℕ, ◌-◌, Bool, true, false, not, ◌&&◌, ◌||◌, Option, none, some, List, [], ◌∷◌, ◌++◌, Text, codes,
  same, leb, ◌==◌, any, all, keep, find, drop, length, if◌then◌else◌, Result, ok, err, is_some,
}
use vidvnc.Base.Table.{Table, get, set, delete, values}
use vidvnc.Confirmation.Subnets.{Row, Seen, key_of, networks_of}

-- MAX_KNOWN_NETWORKS
abbrev pub max_known_networks : ℕ
max_known_networks = 256

-- A row of the file.
pub record Decision : Type 0 where
  pub id : Text
  pub subnets : List Text
  pub router : Option Text
  pub allow : Bool
  pub decided_at : ℕ

pub record Pending : Type 0 where
  pub network : Seen
  pub first_seen_at : ℕ

pub record KnownNetworks : Type 0 where
  pub networks : List Decision
  pub pending : Table Pending

pub data NetworkError : Type 0 where
  unknown_network invalid_decision invalid_file write_failed : NetworkError

-- ID
abbrev pub is_id : Text → Bool
is_id t = length t == 16 && all (λ c. (leb b'0' c && leb c b'9') || (leb b'a' c && leb c b'f')) t

-- A row that `validate` lets pass, where its fields have their types.
abbrev pub valid_decision : Decision → Bool
valid_decision d =
    is_id d.id
    && (leb 1 (length d.subnets)
        && (leb (length d.subnets) 16
            && (all (λ t. leb (length t) 64) d.subnets
                && (elim d.router [ none ↦ true | some t ↦ leb (length t) 17 ]))))

unfoldable pub valid_rows : List Decision → Bool
valid_rows [] = true
valid_rows (d ∷ ds) =
    let rest = valid_rows ds in valid_decision d && (not (any (λ e. same e.id d.id) ds) && rest)

-- `validate`
abbrev pub valid_networks : List Decision → Bool
valid_networks ds = leb (length ds) max_known_networks && valid_rows ds

-- The decision on a network: the Map that `apply` makes of the rows has the last one for an identifier.
unfoldable pub decision_of : Text → List Decision → Option Bool
decision_of id [] = none
decision_of id (d ∷ ds) =
    let rest = decision_of id ds in
    elim rest [ some allow ↦ some allow | none ↦ if same d.id id then some d.allow else none ]

-- The networks that wait, of those that are seen
unfoldable pub pending_of : KnownNetworks → ℕ → List Seen → Table Pending → Table Pending
pending_of s now [] pending = pending
pending_of s now (n ∷ ns) pending =
    let first_seen_at : ℕ = elim (get n.id s.pending) [ none ↦ now | some p ↦ p.first_seen_at ] in
    pending_of s now ns (
      if is_some (decision_of n.id s.networks)
      then pending
      else set n.id (record { network = n; first_seen_at = first_seen_at }) pending)

-- The owner has allowed the network of a row.
abbrev pub is_allowed : List Decision → Table Seen → Row → Bool
is_allowed decisions networks r = elim (get (key_of r) networks) [
  | none ↦ false
  | some n ↦ elim (decision_of n.id decisions) [ none ↦ false | some allow ↦ allow ]
]

abbrev pub as_public : Row → Row
as_public r = record r { adapter = record r.adapter { profile = some (codes "Public") } }

unfoldable pub mark : List Decision → Table Seen → List Row → List Row
mark decisions networks [] = []
mark decisions networks (r ∷ rs) =
    (if is_allowed decisions networks r then r else as_public r) ∷ mark decisions networks rs

-- Sorted by the time of the decision, in order where it is the same
unfoldable pub insert_decision : Decision → List Decision → List Decision
insert_decision d [] = d ∷ []
insert_decision d (e ∷ es) =
    let rest = insert_decision d es in
    if leb d.decided_at e.decided_at then d ∷ e ∷ es else e ∷ rest

unfoldable pub sort_decisions : List Decision → List Decision
sort_decisions [] = []
sort_decisions (d ∷ ds) = insert_decision d (sort_decisions ds)

-- `list.slice(-n)`, of a positive number
abbrev pub last_of : ℕ → List Decision → List Decision
last_of n ds = drop (length ds - n) ds

-- The subnets and the router of a network that is known or waits
unfoldable pub seen_before : KnownNetworks → Text → Option (List Text × Option Text)
seen_before s id = elim (get id s.pending) [
  | some p ↦ some (p.network.subnets, p.network.router)
  | none ↦ elim (find (λ d. same d.id id) s.networks) [
    | none ↦ none
    | some d ↦ some (d.subnets, d.router)
  ]
]

-- `decide`, up to its write: the rows to be written. What is no Boolean is `none`.
unfoldable pub begin_decide :
    KnownNetworks → Text → Option Bool → ℕ → Result NetworkError (List Decision)
begin_decide s id none now = if not (is_id id) then err unknown_network else err invalid_decision
begin_decide s id (some allow) now =
    if not (is_id id) then err unknown_network else (elim (seen_before s id) [
      | none ↦ err unknown_network
      | some (subnets, router) ↦
          let row : Decision = record {
            id = id;
            subnets = subnets;
            router = router;
            allow = allow;
            decided_at = now;
          } in
          let next =
            last_of max_known_networks
              (sort_decisions (keep (λ d. not (same d.id id)) s.networks ++ row ∷ [])) in
          if valid_networks next then ok next else err invalid_file
    ])

-- Its end. `apply` may have come in between.
unfoldable pub end_decide :
    KnownNetworks
    → Text
    → List Decision
    → (written : Bool) → KnownNetworks × Result NetworkError (Unit {0})
end_decide s id next written =
    if not written
    then (s, err write_failed)
    else (record { networks = next; pending = delete id s.pending }, ok tt)

module _ (is_ip : Text → ℕ) (identify : Text → Text) where
  -- `apply`, of rows whose addresses have no zone
  unfoldable pub apply : KnownNetworks → List Row → ℕ → KnownNetworks × List Row
  apply s rows now =
      let networks = networks_of is_ip identify rows in
      (record s { pending = pending_of s now (values networks) [] }, mark s.networks networks rows)
