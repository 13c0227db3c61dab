-- ===== src/Peers/Network.antt =====
-- apps/server/src/peer-network.mjs: which clients count as coming from the internet. The adapters of
-- the PC are an argument, `none` where `networkInterfaces` throws.
use vidvnc.Base.{
  ℕ, Bool, true, false, not, ◌&&◌, Option, none, some, List, [], ◌∷◌, Text, codes, ltb, leb, ◌==◌,
  all, any, before, split_on, if◌then◌else◌,
}
use vidvnc.Peers.Addresses.{plain_address, number, inside}

-- An address of an adapter; `cidr` is its address and prefix with a slash between.
pub record Row : Type 0 where
  pub address : Text
  pub cidr : Option Text

pub record Range : Type 0 where
  pub base : Text
  pub prefix : ℕ

-- PRIVATE
abbrev pub private_ranges : List Range
private_ranges =
    record { base = codes "10.0.0.0"; prefix = 8 }
    ∷ record { base = codes "172.16.0.0"; prefix = 12 }
    ∷ record { base = codes "192.168.0.0"; prefix = 16 }
    ∷ record { base = codes "127.0.0.0"; prefix = 8 }
    ∷ record { base = codes "169.254.0.0"; prefix = 16 }
    ∷ record { base = codes "100.64.0.0"; prefix = 10 }
    ∷ record { base = codes "::1"; prefix = 128 }
    ∷ record { base = codes "fe80::"; prefix = 10 }
    ∷ record { base = codes "fc00::"; prefix = 7 }
    ∷ []

abbrev pub cgnat : Range
cgnat = record { base = codes "100.64.0.0"; prefix = 10 }

-- The second piece of `cidr.split('/')`, as a number; 0 where there is none, or it is no number.
unfoldable pub prefix_of : Text → ℕ
unfolding split_on
prefix_of cidr = elim (split_on b'/' cidr) [
  | [] ↦ 0
  | base ∷ rest ↦ elim rest [
    | [] ↦ 0
    | prefix ∷ more ↦ if all (λ c. leb b'0' c && leb c b'9') prefix then number 10 0 prefix else 0
  ]
]

abbrev pub rows_of : Option (List Row) → List Row
rows_of none = []
rows_of (some rows) = rows

module _ (is_ip : Text → ℕ) where
  abbrev pub is_in : Text → Range → Bool
  is_in plain r = inside is_ip plain r.base r.prefix

  unfoldable pub is_private_address : Text → Bool
  is_private_address address = any (is_in (plain_address address)) private_ranges

  -- `cgnatAdapter`
  unfoldable pub cgnat_adapter : Option (List Row) → Bool
  unfolding plain_address
  cgnat_adapter rows = any (λ r. is_in (plain_address r.address) cgnat) (rows_of rows)

  -- One row of `onLinkIpv6`
  abbrev pub is_on_link : Text → Row → Bool
  is_on_link plain r = elim r.cidr [
    | none ↦ false
    | some cidr ↦
        let base = before b'%' (before b'/' cidr) in
        is_ip plain == 6
        && is_ip base == 6
        && ltb 0 (prefix_of cidr)
        && inside is_ip plain base (prefix_of cidr)
  ]

  unfoldable pub on_link_ipv6 : Option (List Row) → Text → Bool
  unfolding before prefix_of
  on_link_ipv6 rows plain = any (is_on_link plain) (rows_of rows)

  unfoldable pub is_internet : Option (List Row) → Text → Bool
  is_internet rows address =
      let plain = plain_address address in
      if is_ip plain == 0
      then true
      else if is_in plain cgnat
      then not (cgnat_adapter rows)
      else not (is_private_address plain) && not (on_link_ipv6 rows plain)
