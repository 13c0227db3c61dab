-- ===== src/Scope/Tests.antt =====
-- A PC on a home network, and the theorem about its scope.
use vidvnc.Base.{
  ℕ, ◌≡◌, ◌⊎◌, refl, true, false, none, some, Option, [], ◌∷◌, Text, codes, any, ◌==◌, map,
  if◌then◌else◌, ok, err, dec_text, split_on,
}
use vidvnc.Sessions.Device.{starts_with}
use vidvnc.Grants.Cookies.{normalize_peer, is_dotted}
use vidvnc.Peers.Addresses.{bits, words, words_of, head_part, after_head}
use vidvnc.Scope.Networks.{Network, Adapter, throws, ip_bits, network, is_private, eligible_adapter}
use vidvnc.Scope.Sessions.{
  automatic, listed, local_listener, cut_last, distinct, eligible_adapters, parse_entry,
  parse_entries, parse_override, detected_scope, update, refresh, host, is_loopback, allows,
  zoned_address,
}
use vidvnc.Scope.Links.{is_on, rows_of}
use vidvnc.Scope.Private.{allows-private}

runs : Unit {0}
unfolding dec_text split_on starts_with is_dotted normalize_peer bits words words_of head_part
    after_head throws ip_bits network is_private eligible_adapter cut_last distinct
    eligible_adapters parse_entry parse_entries parse_override detected_scope allows
runs = tt

-- What is dotted is of IPv4, and what has a colon of IPv6.
abbrev is_ip : Text → ℕ
is_ip t = if any (λ c. c == b':') t then 6 else if any (λ c. c == b'.') t then 4 else 0

abbrev ethernet : Adapter
ethernet = record {
  physical = true;
  up = true;
  kind = codes "ethernet";
  address = codes "192.168.1.20";
  prefix_length = some 24;
  profile = some (codes "Private");
  interface_index = 3;
}

-- An adapter with a public address
abbrev exposed : Adapter
exposed = record ethernet { address = codes "8.8.8.8" }

abbrev no_profile : ℕ → Option Text
no_profile i = none

neighbour :
    allows is_ip
      (update is_ip (ok (exposed ∷ ethernet ∷ [])) no_profile automatic)
      (some (codes "::ffff:192.168.1.7"))
      local_listener
    ≡ ok true
unfolding runs
neighbour = refl

stranger :
    allows is_ip
      (update is_ip (ok (exposed ∷ ethernet ∷ [])) no_profile automatic)
      (some (codes "8.8.8.9"))
      local_listener
    ≡ ok false
unfolding runs
stranger = refl

narrowed :
    allows is_ip
      (update is_ip (ok (ethernet ∷ [])) no_profile (listed (some (codes "192.168.1.64/26") ∷ [])))
      (some (codes "192.168.1.7"))
      local_listener
    ≡ ok false
unfolding runs
narrowed = refl

widened :
    (update is_ip
      (ok (ethernet ∷ []))
      no_profile
      (listed (some (codes "192.168.0.0/16") ∷ []))).allowed
    ≡ []
unfolding runs
widened = refl

local_v6 :
    allows is_ip
      (update is_ip
        (ok (record ethernet { address = codes "fd00::1"; prefix_length = some 64 } ∷ []))
        no_profile
        automatic)
      (some (codes "fd00::9"))
      local_listener
    ≡ ok true
unfolding runs
local_v6 = refl

-- The number of an address with a zone is not read: the call throws.
zoned :
    allows is_ip
      (update is_ip (ok (ethernet ∷ [])) no_profile automatic)
      (some (codes "fe80::1%eth0"))
      local_listener
    ≡ err zoned_address
unfolding runs
zoned = refl

-- Nor is that of an adapter: a link-local row with its zone leaves no link at all.
zoned_row :
    (refresh is_ip
      (update is_ip (ok (ethernet ∷ [])) no_profile automatic)
      (codes "no number")
      (ok
        (record ethernet { address = codes "fe80::1%12"; prefix_length = some 64 } ∷ ethernet ∷ []))
      automatic).0
    ≡ update is_ip (err (codes "no number")) no_profile automatic
unfolding runs
zoned_row = refl

allows-private_example :
    (is_loopback is_ip (normalize_peer (codes "::ffff:192.168.1.7")) ≡ true)
    ⊎ ((h : Network) × (host is_ip (normalize_peer (codes "::ffff:192.168.1.7")) ≡ some h)
        × (is_private is_ip h ≡ true)
        × (is_on
              (map
                (λ r. r.1)
                (eligible_adapters is_ip (rows_of (ok (exposed ∷ ethernet ∷ []))) no_profile))
              h
            ≡ true))
allows-private_example =
    allows-private is_ip (ok (exposed ∷ ethernet ∷ [])) no_profile automatic
      (codes "::ffff:192.168.1.7") neighbour
