-- ===== src/Peers/Tests.antt =====
-- Concrete addresses, and the theorems at them.
use vidvnc.Base.{
  ℕ, ◌≡◌, refl, true, false, not, ◌&&◌, ◌||◌, none, some, List, [], ◌∷◌, Text, codes, leb, ◌==◌,
  all, any, if◌then◌else◌, before, split_on, dec_text,
}
use vidvnc.Sessions.Device.{starts_with}
use vidvnc.Grants.Cookies.{normalize_peer, is_dotted}
use vidvnc.Peers.Addresses.{
  plain_address, head_part, after_head, words_of, words, bits, inside, strip_zeros, source_group,
}
use vidvnc.Peers.Network.{
  Row, prefix_of, is_private_address, cgnat_adapter, on_link_ipv6, is_internet,
}
use vidvnc.Peers.Ranges.{KnowsRanges, v4_number, private_v4, shared_v4, is_internet-v4}

runs : Unit {0}
unfolding dec_text before split_on starts_with is_dotted normalize_peer plain_address head_part
    after_head words_of words bits inside strip_zeros source_group prefix_of is_private_address
    cgnat_adapter on_link_ipv6 is_internet
runs = tt

-- A coarse `isIP`: enough for the addresses of the tests.
abbrev is_ip : Text → ℕ
is_ip [] = 0
is_ip (c ∷ s) =
    if all (λ d. (leb b'0' d && leb d b'9') || d == b'.') (c ∷ s)
    then 4
    else if any (λ d. d == b':') (c ∷ s)
    then 6
    else 0

knows : KnowsRanges is_ip
knows = record {
  ten = refl;
  twelve = refl;
  sixteen = refl;
  loopback = refl;
  link_local = refl;
  shared = refl;
  loopback_v6 = refl;
  link_local_v6 = refl;
  local_v6 = refl;
}

mapped : plain_address (codes "::FFFF:10.1.2.3") ≡ codes "10.1.2.3"
unfolding runs
mapped = refl

zoned : plain_address (codes "fe80::1%eth0") ≡ codes "fe80::1"
unfolding runs
zoned = refl

group : source_group is_ip (codes "2001:DB8:0:00a1::7") ≡ codes "2001:db8:0:a1::/64"
unfolding runs
group = refl

abbrev overlay : List Row
overlay = record { address = codes "100.101.1.1"; cidr = some (codes "100.101.1.1/32") } ∷ []

-- An address of a carrier's shared range counts as the internet, unless this PC has one too.
carrier : is_internet is_ip (some []) (codes "100.64.0.9") ≡ true
unfolding runs
carrier = refl

on_overlay : is_internet is_ip (some overlay) (codes "100.64.0.9") ≡ false
unfolding runs
on_overlay = refl

abbrev home : List Row
home = record { address = codes "2001:db8::5"; cidr = some (codes "2001:db8::5/64") } ∷ []

same_link : is_internet is_ip (some home) (codes "2001:db8::9") ≡ false
unfolding runs
same_link = refl

other_link : is_internet is_ip (some home) (codes "2001:db9::9") ≡ true
unfolding runs
other_link = refl

local_mapped : plain_address (codes "::ffff:192.168.1.7") ≡ codes "192.168.1.7"
unfolding runs
local_mapped = refl

is_internet-v4_example :
    is_internet is_ip none (codes "192.168.1.7")
    ≡ not (
        private_v4 (v4_number (plain_address (codes "192.168.1.7")))
        || (shared_v4 (v4_number (plain_address (codes "192.168.1.7")))
            && cgnat_adapter is_ip none))
unfolding before plain_address normalize_peer starts_with
is_internet-v4_example = is_internet-v4 is_ip knows none (codes "192.168.1.7") refl
