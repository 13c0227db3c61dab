-- ===== src/Confirmation/Tests.antt =====
-- A PC that sees a network for the first time, and the theorems about it.
use vidvnc.Base.{
  ℕ, ◌≤◌, All, ◌≡◌, ◌⊎◌, refl, true, false, none, some, Option, List, [], ◌∷◌, Text, codes, same,
  any, keep, ◌==◌, map, if◌then◌else◌, ok, dec_text, split_on,
}
use vidvnc.Base.Table.{get, set, delete, values}
use vidvnc.Sessions.Device.{starts_with}
use vidvnc.Grants.Cookies.{normalize_peer, is_dotted}
use vidvnc.Peers.Addresses.{bits, words, words_of, head_part, after_head}
use vidvnc.Scope.Networks.{Network, throws, ip_bits, network, is_private, eligible_adapter}
use vidvnc.Scope.Sessions.{
  automatic, local_listener, cut_last, distinct, eligible_adapters, parse_entry, parse_entries,
  parse_override, detected_scope, update, host, is_loopback, allows,
}
use vidvnc.Scope.Links.{is_on}
use vidvnc.Confirmation.Subnets.{
  Row, Seen, printed, zeros_first, best_run, format_address, is_before, insert_text, sort_texts,
  subnet_of, add_row, add_rows, seen_of, seen_all, networks_of,
}
use vidvnc.Confirmation.Known.{
  KnownNetworks, Decision, valid_rows, decision_of, pending_of, is_allowed, mark, insert_decision,
  sort_decisions, seen_before, begin_decide, end_decide, apply,
}
use vidvnc.Confirmation.Confirmed.{adapters, allows-confirmed}
use vidvnc.Confirmation.Answers.{detect, end_decide-is_allowed}

runs : Unit {0}
unfolding dec_text split_on get set delete values starts_with is_dotted normalize_peer bits words
    words_of head_part after_head throws ip_bits network is_private eligible_adapter cut_last
    distinct eligible_adapters parse_entry parse_entries parse_override detected_scope allows
    printed zeros_first best_run format_address is_before insert_text sort_texts subnet_of add_row
    add_rows seen_of seen_all networks_of valid_rows decision_of pending_of mark insert_decision
    sort_decisions seen_before begin_decide end_decide apply
runs = tt

-- What is dotted is of IPv4, and what has a colon of IPv6.
abbrev is_ip : Text → ℕ
is_ip t = if any (λ c. c == b':') t then 6 else if any (λ c. c == b'.') t then 4 else 0

-- Stands for the hash: the home network and all others.
abbrev identify : Text → Text
identify t =
    if same t (codes "192.168.1.0/24|aa:bb")
    then codes "00000000000000a1"
    else codes "00000000000000a2"

abbrev row : Text → ℕ → Text → Row
row address prefix_length name = record {
  adapter = record {
    physical = true;
    up = true;
    kind = codes "wifi";
    address = address;
    prefix_length = some prefix_length;
    profile = some (codes "Private");
    interface_index = 0;
  };
  interface = some name;
  router = some (codes "aa:bb");
}

abbrev rows : List Row
rows = row (codes "192.168.1.20") 24 (codes "en0") ∷ row (codes "10.1.2.3") 8 (codes "en1") ∷ []

abbrev home : Text
home = codes "00000000000000a1"

-- Nothing is decided yet.
abbrev first : KnownNetworks
first = record { networks = []; pending = [] }

abbrev seen : KnownNetworks
seen = (apply is_ip identify first rows 5).0

waits : map (λ p. p.0) seen.pending ≡ home ∷ codes "00000000000000a2" ∷ []
unfolding runs
waits = refl

subnet_v6 : subnet_of is_ip (codes "fd00:1:0:0:2::9") (some 64) ≡ some (codes "fd00:1::/64")
unfolding runs
subnet_v6 = refl

abbrev answer : Decision
answer = record {
  id = home;
  subnets = codes "192.168.1.0/24" ∷ [];
  router = some (codes "aa:bb");
  allow = true;
  decided_at = 6;
}

decides : begin_decide seen home (some true) 6 ≡ ok (answer ∷ [])
unfolding runs
decides = refl

abbrev decided : KnownNetworks
decided = (end_decide seen home (answer ∷ []) true).0

abbrev no_profile : ℕ → Option Text
no_profile i = none

neighbour :
    allows is_ip
      (update is_ip (ok (adapters (apply is_ip identify decided rows 7).1)) no_profile automatic)
      (some (codes "192.168.1.7"))
      local_listener
    ≡ ok true
unfolding runs
neighbour = refl

undecided :
    allows is_ip
      (update is_ip (ok (adapters (apply is_ip identify decided rows 7).1)) no_profile automatic)
      (some (codes "10.1.2.4"))
      local_listener
    ≡ ok false
unfolding runs
undecided = refl

allows-confirmed_example :
    (is_loopback is_ip (normalize_peer (codes "192.168.1.7")) ≡ true)
    ⊎ ((h : Network) × (host is_ip (normalize_peer (codes "192.168.1.7")) ≡ some h)
        × (is_private is_ip h ≡ true)
        × (is_on
              (map
                (λ r. r.1)
                (eligible_adapters is_ip
                  (adapters
                    (keep (is_allowed decided.networks (networks_of is_ip identify rows)) rows))
                  no_profile))
              h
            ≡ true))
allows-confirmed_example =
    allows-confirmed is_ip identify decided rows 7 no_profile automatic (codes "192.168.1.7")
      neighbour

abbrev home_seen : Seen
home_seen = record {
  id = home;
  subnets = codes "192.168.1.0/24" ∷ [];
  router = some (codes "aa:bb");
  interface = some (codes "en0");
  kind = codes "wifi";
}

finds_home : get (codes "en0") (networks_of is_ip identify rows) ≡ some home_seen
unfolding runs
finds_home = refl

untouched : All (λ d. d.decided_at ≤ 6) seen.networks
unfolding runs
untouched = tt

end_decide-is_allowed_example :
    is_allowed
      (detect is_ip identify (end_decide seen home (answer ∷ []) true).0 ((rows, 7) ∷ [])).networks
      (networks_of is_ip identify rows)
      (row (codes "192.168.1.20") 24 (codes "en0"))
    ≡ true
end_decide-is_allowed_example =
    end_decide-is_allowed is_ip identify seen seen home true 6 (answer ∷ []) untouched decides
      ((rows, 7) ∷ []) (networks_of is_ip identify rows)
      (row (codes "192.168.1.20") 24 (codes "en0")) home_seen finds_home refl
