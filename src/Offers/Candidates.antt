-- ===== src/Offers/Candidates.antt =====
-- apps/server/src/sdp-candidates.mjs: the candidates that an offer may have. `is_ip` is `isIP` of Node's
-- net module.
use vidvnc.Base.{
  ℕ, Bool, true, not, ◌&&◌, ◌||◌, Option, none, some, [], ◌++◌, Text, codes, leb, ltb, ◌==◌, ◌+◌,
  all, keep, find, length, drop, get_elem?, split_on, if◌then◌else◌,
}
use vidvnc.Peers.Network.{is_private_address}
use vidvnc.Offers.Lines.{split_lines, join_lines, begins_with}

abbrev pub is_candidate : Text → Bool
is_candidate line = begins_with (codes "a=candidate:") line

-- `line.split(' ')[4] ?? ''`
abbrev pub address_of : Text → Text
address_of line = elim (get_elem? (split_on b' ' line) 4) [ none ↦ [] | some t ↦ t ]

-- `stripOfferCandidates`
unfoldable pub strip_offer_candidates : Text → Text
strip_offer_candidates sdp = join_lines (keep (λ line. not (is_candidate line)) (split_lines sdp))

-- The first line `a=name:`, from its value on
abbrev pub value_of : (name : Text) → Text → Option Text
value_of name sdp =
    elim (find (begins_with (codes "a=" ++ (name ++ codes ":"))) (split_lines sdp)) [
      | none ↦ none
      | some line ↦ some (drop (length name + 3) line)
    ]

-- ICE_CREDENTIAL
abbrev pub is_credential : Text → Bool
is_credential t =
    leb 1 (length t)
    && all
        (λ c.
          (leb b'A' c && leb c b'Z')
          || ((leb b'a' c && leb c b'z')
              || ((leb b'0' c && leb c b'9') || (c == b'+' || c == b'/'))))
        t

pub record Credentials : Type 0 where
  pub ufrag : Text
  pub pwd : Text

-- The checks of `iceCredentials`; `none` where it throws.
unfoldable pub checked_credentials : Option Text → Option Text → Option Credentials
checked_credentials none pwd = none
checked_credentials (some ufrag) none = none
checked_credentials (some ufrag) (some pwd) =
    if ltb (length ufrag) 4
      || (ltb 256 (length ufrag)
          || (ltb (length pwd) 22
              || (ltb 256 (length pwd) || (not (is_credential ufrag) || not (is_credential pwd)))))
    then none
    else some (record { ufrag = ufrag; pwd = pwd })

-- `iceCredentials`
unfoldable pub ice_credentials : Text → Option Credentials
ice_credentials sdp =
    checked_credentials (value_of (codes "ice-ufrag") sdp) (value_of (codes "ice-pwd") sdp)

module _ (is_ip : Text → ℕ) where
  -- A line that stays in the offer of an internet client
  abbrev pub stays : Text → Bool
  stays line =
      if not (is_candidate line)
      then true
      else not (is_ip (address_of line) == 0) && not (is_private_address is_ip (address_of line))

  -- `filterOfferCandidates`
  unfoldable pub filter_offer_candidates : Text → Text
  filter_offer_candidates sdp = join_lines (keep stays (split_lines sdp))
