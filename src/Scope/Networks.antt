-- ===== src/Scope/Networks.antt =====
-- apps/server/src/local-session-scope.mjs: networks, and the adapters that may carry the standing
-- password. `is_ip` is `isIP` of Node's net module.
use vidvnc.Base.{
  ℕ, ◌-◌, ◌*◌, ◌/◌, ◌^◌, Bool, false, not, ◌&&◌, ◌||◌, Option, none, some, List, [], ◌∷◌, Text,
  codes, same, leb, ltb, ◌==◌, any, map, length, if◌then◌else◌, is_some,
}
use vidvnc.Peers.Addresses.{Bits, bits, after_head, lower, words}

pub record Network : Type 0 where
  pub family : ℕ
  pub width : ℕ
  pub value : ℕ
  pub prefix_length : ℕ
  pub base : ℕ

-- `contains`
abbrev pub contains : (outer inner : Network) → Bool
contains outer inner =
    outer.family == inner.family
    && (leb outer.prefix_length inner.prefix_length
        && inner.base / 2 ^ (outer.width - outer.prefix_length)
          == outer.base / 2 ^ (outer.width - outer.prefix_length))

-- A row of the detection of adapters. A prefix length that is no natural number is `none`.
pub record Adapter : Type 0 where
  pub physical : Bool
  pub up : Bool
  pub kind : Text
  pub address : Text
  pub prefix_length : Option ℕ
  pub profile : Option Text
  pub interface_index : ℕ

-- PRIVATE_RANGES
abbrev pub private_ranges : List (Text × ℕ)
private_ranges =
    (codes "10.0.0.0", 8)
    ∷ (codes "172.16.0.0", 12)
    ∷ (codes "192.168.0.0", 16)
    ∷ (codes "fc00::", 7)
    ∷ []

-- `::` stands twice.
abbrev pub is_split_twice : Text → Bool
is_split_twice address = elim (after_head address) [
  | none ↦ false
  | some rest ↦ is_some (after_head rest)
]

-- What `eligibleAdapter` asks before it reads the address
abbrev pub is_candidate : Adapter → Bool
is_candidate a =
    a.physical && (a.up && (same a.kind (codes "ethernet") || same a.kind (codes "wifi")))

module _ (is_ip : Text → ℕ) where
  -- `BigInt` throws in `ipBits`: `isIP` takes an IPv6 address with a zone, but no number has a `%`.
  unfoldable pub throws : Text → Bool
  unfolding words
  throws address =
      is_ip address == 6
      && (not (any (λ c. c == b'.') address)
          && (not (is_split_twice address)
              && (length (words (map lower address)) == 8 && any (λ c. c == b'%') address)))

  -- `ipBits`, which reads an address as peer-network.mjs does. It gives none where the source throws: `allows`
  -- and `refresh` ask `throws` first.
  unfoldable pub ip_bits : Text → Option Bits
  unfolding throws
  ip_bits address =
      if is_ip address == 6 && (is_split_twice address || throws address)
      then none
      else bits is_ip address

  -- `network`
  unfoldable pub network : Text → Option ℕ → Option Network
  network address none = none
  network address (some prefix_length) = elim (ip_bits address) [
    | none ↦ none
    | some b ↦
        if ltb b.width prefix_length
        then none
        else (let size = 2 ^ (b.width - prefix_length) in
            some (record {
              family = b.family;
              width = b.width;
              value = b.value;
              prefix_length = prefix_length;
              base = b.value / size * size;
            }))
  ]

  -- A range of `privateNetworks` contains a network.
  abbrev pub is_within : Network → Text × ℕ → Bool
  is_within n (address, prefix_length) = elim (network address (some prefix_length)) [
    | none ↦ false
    | some range ↦ contains range n
  ]

  unfoldable pub is_private : Network → Bool
  is_private n = any (is_within n) private_ranges

  -- `eligibleAdapter`
  unfoldable pub eligible_adapter : Adapter → Bool
  eligible_adapter a =
      if not (is_candidate a)
      then false
      else (elim (network a.address a.prefix_length) [ none ↦ false | some n ↦ is_private n ])
