-- ===== src/Confirmation/Subnets.antt =====
-- apps/server/src/network-confirmation.mjs and local-session-scope.mjs: the subnet that an address is on, as
-- text, and the networks that the rows of the adapters are on. `identify` is the start of the SHA-256 of a
-- text in hexadecimal.
use vidvnc.Base.{
  ℕ, zero, suc, ◌+◌, ◌/◌, ◌%◌, ◌^◌, Bool, true, false, Option, none, some, List, [], ◌∷◌, ◌++◌,
  Text, codes, same, ltb, ◌==◌, any, map, take, drop, join, if◌then◌else◌,
}
use vidvnc.Base.Table.{Table, get, set}
use vidvnc.Scope.Networks.{Network, network, Adapter, eligible_adapter}

abbrev digit : ℕ → ℕ
digit n = if ltb n 10 then 48 + n else 87 + n

-- A number in some base; fuel for one digit less than it has is enough.
unfoldable pub printed : (base fuel n : ℕ) → Text
printed base zero n = digit n ∷ []
printed base (suc fuel) n =
    let rest = printed base fuel (n / base) in
    if ltb n base then digit n ∷ [] else rest ++ digit (n % base) ∷ []

-- How many zeros the words begin with.
unfoldable pub zeros_first : List ℕ → ℕ
zeros_first [] = 0
zeros_first (w ∷ ws) = let rest = zeros_first ws in if w == 0 then suc rest else 0

-- The loop of `formatAddress`: where the longest run of zeros starts, and its length.
unfoldable pub best_run : (start : ℕ) → Option ℕ × ℕ → List ℕ → Option ℕ × ℕ
best_run start best [] = best
best_run start best (w ∷ ws) =
    let run = zeros_first (w ∷ ws) in
    best_run (start + 1) (if ltb best.1 run then (some start, run) else best) ws

abbrev pub words_of : ℕ → List ℕ
words_of base = map (λ shift. base / 2 ^ shift % 65536) (112 ∷ 96 ∷ 80 ∷ 64 ∷ 48 ∷ 32 ∷ 16 ∷ 0 ∷ [])

-- `formatAddress`
unfoldable pub format_address : Network → Text
format_address n =
    if n.family == 4
    then join (codes ".")
        (map (λ shift. printed 10 2 (n.base / 2 ^ shift % 256)) (24 ∷ 16 ∷ 8 ∷ 0 ∷ []))
    else (let (start, size) = best_run 0 (none, 1) (words_of n.base) in
        let text = map (printed 16 3) (words_of n.base) in
        elim start [
          | none ↦ join (codes ":") text
          | some first ↦
              join (codes ":") (take first text)
              ++ (codes "::" ++ join (codes ":") (drop (first + size) text))
        ])

-- A row of the detection, with its interface and the hardware address of its router.
pub record Row : Type 0 where
  pub adapter : Adapter
  pub interface : Option Text
  pub router : Option Text

-- What is known of the network of one interface.
pub record Entry : Type 0 where
  pub interface : Option Text
  pub kind : Text
  pub router : Option Text
  pub ipv4 : List Text
  pub ipv6 : List Text

-- A network that the rows are on.
pub record Seen : Type 0 where
  pub id : Text
  pub subnets : List Text
  pub router : Option Text
  pub interface : Option Text
  pub kind : Text

abbrev pub or_text : Option Text → Text → Text
or_text none t = t
or_text (some u) t = u

-- `row.interface ?? row.address`
abbrev pub key_of : Row → Text
key_of r = or_text r.interface r.adapter.address

-- `set.add(t)`
abbrev pub with_text : Text → List Text → List Text
with_text t ts = if any (λ u. same u t) ts then ts else ts ++ t ∷ []

-- `a < b` on strings
unfoldable pub is_before : Text → Text → Bool
is_before [] [] = false
is_before [] (d ∷ t) = true
is_before (c ∷ s) [] = false
is_before (c ∷ s) (d ∷ t) = let rest = is_before s t in if c == d then rest else ltb c d

-- `list.sort()`
unfoldable pub insert_text : Text → List Text → List Text
insert_text t [] = t ∷ []
insert_text t (u ∷ us) =
    let rest = insert_text t us in if is_before t u then t ∷ u ∷ us else u ∷ rest

unfoldable pub sort_texts : List Text → List Text
sort_texts [] = []
sort_texts (t ∷ ts) = insert_text t (sort_texts ts)

module _ (is_ip : Text → ℕ) where
  -- `subnetOf`
  unfoldable pub subnet_of : Text → Option ℕ → Option Text
  subnet_of address none = none
  subnet_of address (some prefix_length) = elim (network is_ip address (some prefix_length)) [
    | none ↦ none
    | some n ↦ some (format_address n ++ (codes "/" ++ printed 10 2 prefix_length))
  ]

  -- One row of the first loop of `networksOf`
  unfoldable pub add_row : Row → Table Entry → Table Entry
  add_row r entries =
      let subnet =
        if eligible_adapter is_ip r.adapter
        then subnet_of r.adapter.address r.adapter.prefix_length
        else none in
      elim subnet [
        | none ↦ entries
        | some net ↦
            let entry : Entry = elim (get (key_of r) entries) [
              | some e ↦ e
              | none ↦ record {
                interface = r.interface;
                kind = r.adapter.kind;
                router = r.router;
                ipv4 = [];
                ipv6 = [];
              }
            ] in
            set (key_of r)
              (if any (λ c. c == b':') net
                then record entry { ipv6 = with_text net entry.ipv6 }
                else record entry { ipv4 = with_text net entry.ipv4 })
              entries
      ]

  unfoldable pub add_rows : List Row → Table Entry → Table Entry
  add_rows [] entries = entries
  add_rows (r ∷ rs) entries = add_rows rs (add_row r entries)

  module _ (identify : Text → Text) where
    -- The network of an interface
    unfoldable pub seen_of : Entry → Seen
    seen_of e =
        let subnets = sort_texts (elim e.ipv4 [ [] ↦ e.ipv6 | t ∷ ts ↦ e.ipv4 ]) in
        record {
          id = identify (join (codes ",") subnets ++ (codes "|" ++ or_text e.router []));
          subnets = subnets;
          router = e.router;
          interface = e.interface;
          kind = e.kind;
        }

    unfoldable pub seen_all : Table Entry → Table Seen
    seen_all [] = []
    seen_all ((key, e) ∷ t) = (key, seen_of e) ∷ seen_all t

    -- `networksOf`
    unfoldable pub networks_of : List Row → Table Seen
    networks_of rows = seen_all (add_rows rows [])
