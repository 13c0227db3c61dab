-- ===== src/Offers/Filtered.antt =====
-- What is left of an offer (apps/server/src/sdp-candidates.mjs).
use vidvnc.Base.{
  ℕ, ◌+◌, ◌≡◌, ◌⊎◌, refl, sym, ap, ◌∙◌, subst, Bool, true, false, not, ◌&&◌, ◌||◌, Option, none,
  some, List, [], ◌∷◌, ◌++◌, Text, codes, ◌==◌, length, find, keep, drop, All, All-keep, arith, inl,
  inr, Bool-cases,
}
use vidvnc.Peers.Network.{is_private_address}
use vidvnc.Offers.Lines.{split_lines, join_lines, begins_with}
use vidvnc.Offers.Candidates.{
  is_candidate, address_of, strip_offer_candidates, value_of, checked_credentials, ice_credentials,
  stays, filter_offer_candidates,
}
use vidvnc.Offers.Split.{is_line, split_lines-lines, split_lines-join}

kept_lines-of :
    (ls : List Text)
    → All (λ l. is_line l ≡ true) ls
    → (split_lines (join_lines ls) ≡ ls) ⊎ ((ls ≡ []) × (split_lines (join_lines ls) ≡ [] ∷ []))
unfolding split_lines
kept_lines-of [] h = inr (refl, refl)
kept_lines-of (l ∷ ls) (h, hs) = inl (split_lines-join l ls h hs)

-- The lines of what is left are the lines that are kept, or a single empty one.
kept_lines :
    (p : Text → Bool) (s : Text)
    → (split_lines (join_lines (keep p (split_lines s))) ≡ keep p (split_lines s))
      ⊎ ((keep p (split_lines s) ≡ [])
          × (split_lines (join_lines (keep p (split_lines s))) ≡ [] ∷ []))
kept_lines p s =
    let all = All-keep (λ l. is_line l ≡ true) p (split_lines s) (split_lines-lines s) in
    kept_lines-of (keep p (split_lines s)) all

keep-holds : (p : Text → Bool) (ls : List Text) → All (λ l. p l ≡ true) (keep p ls)
keep-holds p [] = tt
keep-holds p (l ∷ ls) =
    let rest = keep-holds p ls in
    elim (Bool-cases (p l)) [ inl e ↦ rw (e) (e, rest) | inr e ↦ rw (e) rest ]

module _ (is_ip : Text → ℕ) where
  abbrev is_public : Text → Bool
  is_public line =
      not (is_candidate line)
      || (not (is_ip (address_of line) == 0) && not (is_private_address is_ip (address_of line)))

  abbrev Public : List Text → Type 0
  Public = All (λ line. is_public line ≡ true)

  stays-is_public : (line : Text) → stays is_ip line ≡ true → is_public line ≡ true
  stays-is_public line h = ground arith

  All-map : (ls : List Text) → All (λ l. stays is_ip l ≡ true) ls → Public ls
  All-map [] h = tt
  All-map (l ∷ ls) (h, hs) = (stays-is_public l h, All-map ls hs)

  -- Of the lines that CR LF ends, the only ends of lines that the filter knows, each of a filtered offer that
  -- begins as a candidate has an IP address, which is not private. What follows a bare line feed belongs to
  -- the line before it, and nothing is stated of it.
  pub filter_offer_candidates-public :
      (sdp : Text)
      → All
          (λ line.
            (not (is_candidate line)
              || (not (is_ip (address_of line) == 0)
                  && not (is_private_address is_ip (address_of line))))
            ≡ true)
          (split_lines (filter_offer_candidates is_ip sdp))
  unfolding filter_offer_candidates begins_with
  filter_offer_candidates-public sdp =
      let lines = keep (stays is_ip) (split_lines sdp) in
      let holds = All-map lines (keep-holds (stays is_ip) (split_lines sdp)) in
      elim (kept_lines (stays is_ip) sdp) [
        | inl e ↦ subst Public (sym e) holds
        | inr (n, e) ↦ subst Public (sym e) (refl, tt)
      ]

-- Two beginnings that differ in their third character
apart_third :
    (x y u v : ℕ) (ps qs l : Text)
    → (u == v) ≡ false
    → begins_with (x ∷ y ∷ u ∷ ps) l ≡ true
    → begins_with (x ∷ y ∷ v ∷ qs) l ≡ false
unfolding begins_with
apart_third x y u v ps qs [] n h = cc
apart_third x y u v ps qs (a ∷ []) n h = ground arith
apart_third x y u v ps qs (a ∷ b ∷ []) n h = ground arith
apart_third x y u v ps qs (a ∷ b ∷ c ∷ l) n h = ground arith

-- A line `a=i…` is no candidate.
named_apart :
    (name l : Text) → begins_with (codes "a=i" ++ name) l ≡ true → not (is_candidate l) ≡ true
named_apart name l h =
    let law = apart_third b'a' b'=' b'i' b'c' name (codes "andidate:") l refl h in rw law refl

find-keep :
    (f p : Text → Bool) (ls : List Text)
    → ((l : Text) → f l ≡ true → p l ≡ true)
    → find f (keep p ls) ≡ find f ls
find-keep f p [] h = refl
find-keep f p (l ∷ ls) h =
    let rest = find-keep f p ls h in
    elim (Bool-cases (f l)) [
      | inl e ↦ let stay = h l e in ground (arith, e, stay)
      | inr e ↦ ground (arith, e, rest)
    ]

find-kept_lines :
    (f p : Text → Bool) (s : Text)
    → f [] ≡ false
    → ((l : Text) → f l ≡ true → p l ≡ true)
    → find f (split_lines (join_lines (keep p (split_lines s)))) ≡ find f (split_lines s)
find-kept_lines f p s z h = elim (kept_lines p s) [
  | inl e ↦ ap (find f) e ∙ find-keep f p (split_lines s) h
  | inr (n, e) ↦ ap (find f) e ∙ (rw z refl) ∙ ap (find f) (sym n) ∙ find-keep f p (split_lines s) h
]

-- The value of a line `a=i…:` is found where it was.
value_of-strip :
    (rest sdp : Text)
    → value_of (codes "i" ++ rest) (strip_offer_candidates sdp) ≡ value_of (codes "i" ++ rest) sdp
unfolding strip_offer_candidates begins_with
value_of-strip rest sdp =
    let name = codes "i" ++ rest in
    let found =
      find-kept_lines (begins_with (codes "a=" ++ (name ++ codes ":")))
        (λ line. not (is_candidate line)) sdp refl (λ l h. named_apart (rest ++ codes ":") l h) in
    ap
      (λ o. elim o as (λ _. Option Text) [
        | none ↦ none
        | some line ↦ some (drop (length name + 3) line)
      ])
      found

-- Without its candidates, an offer has the same ICE credentials, or as little valid ones.
pub strip_offer_candidates-ice :
    (sdp : Text) → ice_credentials (strip_offer_candidates sdp) ≡ ice_credentials sdp
unfolding ice_credentials
strip_offer_candidates-ice sdp =
    let one = value_of-strip (codes "ce-ufrag") sdp in
    let two = value_of-strip (codes "ce-pwd") sdp in
    ap (λ u. checked_credentials u (value_of (codes "ice-pwd") (strip_offer_candidates sdp))) one
    ∙ ap (λ w. checked_credentials (value_of (codes "ice-ufrag") sdp) w) two
