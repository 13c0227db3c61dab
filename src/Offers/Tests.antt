-- ===== src/Offers/Tests.antt =====
-- An offer with a candidate on a local network, and the theorems at it.
use vidvnc.Base.{
  ◌++◌, ℕ, ◌≡◌, refl, true, not, ◌&&◌, ◌||◌, some, [], ◌∷◌, Text, codes, any, ◌==◌, if◌then◌else◌,
  All, dec_text, split_on, before,
}
use vidvnc.Sessions.Device.{starts_with}
use vidvnc.Grants.Cookies.{normalize_peer, is_dotted}
use vidvnc.Peers.Addresses.{bits, words, words_of, head_part, after_head, plain_address, inside}
use vidvnc.Peers.Network.{is_private_address}
use vidvnc.Offers.Lines.{split_lines, join_lines, begins_with}
use vidvnc.Offers.Candidates.{
  is_candidate, address_of, strip_offer_candidates, checked_credentials, ice_credentials,
  filter_offer_candidates,
}
use vidvnc.Offers.Filtered.{filter_offer_candidates-public, strip_offer_candidates-ice}

runs : Unit {0}
unfolding dec_text split_on before starts_with is_dotted normalize_peer bits words words_of
    head_part after_head plain_address inside is_private_address split_lines begins_with
    strip_offer_candidates checked_credentials ice_credentials filter_offer_candidates
runs = tt

-- What is dotted is of IPv4, and what has a colon of IPv6.
abbrev is_ip : Text → ℕ
is_ip t = if any (λ c. c == b':') t then 6 else if any (λ c. c == b'.') t then 4 else 0

abbrev offer : Text
offer = join_lines (
    codes "v=0"
    ∷ codes "a=ice-ufrag:abcd"
    ∷ codes "a=ice-pwd:abcdefghijklmnopqrstuv"
    ∷ codes "a=candidate:1 1 udp 9 192.168.1.7 5000 typ host"
    ∷ codes "a=candidate:2 1 udp 8 8.8.8.8 5000 typ host"
    ∷ [])

filters :
    split_lines (filter_offer_candidates is_ip offer)
    ≡ codes "v=0"
      ∷ codes "a=ice-ufrag:abcd"
      ∷ codes "a=ice-pwd:abcdefghijklmnopqrstuv"
      ∷ codes "a=candidate:2 1 udp 8 8.8.8.8 5000 typ host"
      ∷ []
unfolding runs
filters = refl

finds_ice :
    ice_credentials offer
    ≡ some (record { ufrag = codes "abcd"; pwd = codes "abcdefghijklmnopqrstuv" })
unfolding runs
finds_ice = refl

filter_offer_candidates-public_example :
    All
      (λ line.
        (not (is_candidate line)
          || (not (is_ip (address_of line) == 0)
              && not (is_private_address is_ip (address_of line))))
        ≡ true)
      (split_lines (filter_offer_candidates is_ip offer))
filter_offer_candidates-public_example = filter_offer_candidates-public is_ip offer

strip_offer_candidates-ice_example :
    ice_credentials (strip_offer_candidates offer) ≡ ice_credentials offer
strip_offer_candidates-ice_example = strip_offer_candidates-ice offer

-- A line that a bare line feed begins is no line of its own here, and stays.
bare_line_feed :
    filter_offer_candidates is_ip
      (codes "v=0" ++ 10 ∷ codes "a=candidate:1 1 udp 9 192.168.1.7 5000 typ host")
    ≡ codes "v=0" ++ 10 ∷ codes "a=candidate:1 1 udp 9 192.168.1.7 5000 typ host"
unfolding runs
bare_line_feed = refl
