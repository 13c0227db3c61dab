-- ===== src/Scope/Private.antt =====
-- Which peers a scope allows (apps/server/src/local-session-scope.mjs).
use vidvnc.Base.{
  ℕ, ◌≡◌, ◌⊎◌, ap, ◌∙◌, true, not, ◌||◌, Option, some, List, [], ◌∷◌, Text, any, all, map, arith,
  inl, inr, Bool-cases, Option-cases, Result-cases, Result, ok, err, All,
}
use vidvnc.Grants.Cookies.{normalize_peer}
use vidvnc.Scope.Networks.{
  Network, contains, Adapter, network, is_within, is_private, private_ranges, eligible_adapter,
}
use vidvnc.Scope.Sessions.{
  is_private_profile, Override, local_listener, eligible_adapters, profile_of, parse_override,
  detected_scope, update, host, is_loopback, allows,
}
use vidvnc.Scope.Nested.{IsSound, network-IsSound, contains_trans}
use vidvnc.Scope.Links.{is_on, rows_of, is_on-requested, parse_override-IsSound}

module _ (is_ip : Text → ℕ) where
  -- An eligible link is within the private ranges.
  Good : Text × Network → Type 0
  Good r = (is_private is_ip r.1 ≡ true) × IsSound r.1

  eligible_adapter-private :
      (a : Adapter) (n : Network)
      → eligible_adapter is_ip a ≡ true
      → network is_ip a.address a.prefix_length ≡ some n
      → is_private is_ip n ≡ true
  unfolding eligible_adapter
  eligible_adapter-private a n h e = ground (arith, e)

  eligible_adapters-Good :
      (rows : List Adapter) (profiles : ℕ → Option Text)
      → All Good (eligible_adapters is_ip rows profiles)
  unfolding eligible_adapters Good
  eligible_adapters-Good [] profiles = tt
  eligible_adapters-Good (a ∷ rows) profiles =
      let rest = eligible_adapters-Good rows profiles in
      elim (Bool-cases
        (not (is_private_profile (profile_of profiles a)) || not (eligible_adapter is_ip a))) [
          | inl f ↦ rw (f, eligible_adapters) rest
          | inr f ↦ elim (Option-cases (network is_ip a.address a.prefix_length)) [
            | inl e ↦ rw (f, eligible_adapters, e) rest
            | inr (n, e) ↦
                rw (f, eligible_adapters, e)
                  (
                    (
                      eligible_adapter-private a n (ground arith) e,
                      network-IsSound is_ip a.address a.prefix_length n e,
                    ),
                    rest,
                  )
          ]
        ]

  any-within :
      (ranges : List (Text × ℕ)) (link h : Network)
      → IsSound link
      → contains link h ≡ true
      → any (is_within is_ip link) ranges ≡ true
      → any (is_within is_ip h) ranges ≡ true
  any-within [] link h s c p = cc
  any-within ((address, prefix_length) ∷ ranges) link h s c p =
      elim (Option-cases (network is_ip address (some prefix_length))) [
        | inl e ↦
            let rest = any-within ranges link h s c (ground (arith, e)) in ground (arith, e, rest)
        | inr (range, e) ↦ elim (Bool-cases (contains range link)) [
          | inl f ↦
              let one =
                contains_trans range link h
                  (network-IsSound is_ip address (some prefix_length) range e) s f c in
              ground (arith, e, one)
          | inr f ↦
              let rest = any-within ranges link h s c (ground (arith, e, f)) in
              ground (arith, e, rest)
        ]
      ]

  -- A range that contains a link contains what the link contains.
  is_private-contains :
      (link h : Network)
      → IsSound link
      → contains link h ≡ true
      → is_private is_ip link ≡ true
      → is_private is_ip h ≡ true
  unfolding is_private
  is_private-contains link h s c p = any-within private_ranges link h s c p

  links-IsSound : (rs : List (Text × Network)) → All Good rs → All IsSound (map (λ r. r.1) rs)
  unfolding Good
  links-IsSound [] gs = tt
  links-IsSound (r ∷ rs) (g, gs) = (g.1, links-IsSound rs gs)

  is_on-private :
      (rs : List (Text × Network)) (h : Network)
      → All Good rs
      → is_on (map (λ r. r.1) rs) h ≡ true
      → is_private is_ip h ≡ true
  unfolding Good
  is_on-private [] h gs e = cc
  is_on-private (r ∷ rs) h (g, gs) e = elim (Bool-cases (contains r.1 h)) [
    | inl c ↦ is_private-contains r.1 h g.1 c g.0
    | inr c ↦ is_on-private rs h gs (ground (arith, c))
  ]

  -- What a scope allows is on a link of an eligible adapter.
  update-on_link :
      (detection : Result Text (List Adapter)) (profiles : ℕ → Option Text) (o : Override)
      (h : Network)
      → is_on (update is_ip detection profiles o).allowed h ≡ true
      → is_on (map (λ r. r.1) (eligible_adapters is_ip (rows_of detection) profiles)) h ≡ true
  unfolding detected_scope
  update-on_link (err message) profiles o h e = cc
  update-on_link (ok rows) profiles o h e =
      let links = map (λ r. r.1) (eligible_adapters is_ip rows profiles) in
      let sound =
        links-IsSound (eligible_adapters is_ip rows profiles)
          (eligible_adapters-Good rows profiles) in
      elim (Result-cases (parse_override is_ip o)) [
        | inr (x, q) ↦ absurd (ground (arith, q))
        | inl (requested, q) ↦ elim (Option-cases requested) [
          | inl r ↦ ground (arith, q, r)
          | inr (ns, r) ↦ elim (Bool-cases (all (is_on links) ns)) [
            | inr a ↦ absurd (ground (arith, q, r, a))
            | inl a ↦
                is_on-requested links ns h sound (parse_override-IsSound is_ip o ns (q ∙ ap ok r)) a
                  (ground (arith, q, r, a))
          ]
        ]
      ]

  -- After any update, a peer that is allowed to use the standing password comes from this PC, or its address
  -- is private and on a link that an eligible adapter has: an override of the owner allows no others, and a
  -- failed detection allows none.
  pub allows-private :
      (detection : Result Text (List Adapter)) (profiles : ℕ → Option Text) (o : Override)
      (peer : Text)
      → allows is_ip (update is_ip detection profiles o) (some peer) local_listener ≡ ok true
      → (is_loopback is_ip (normalize_peer peer) ≡ true)
        ⊎ ((h : Network) × (host is_ip (normalize_peer peer) ≡ some h)
            × (is_private is_ip h ≡ true)
            × (is_on (map (λ r. r.1) (eligible_adapters is_ip (rows_of detection) profiles)) h
                ≡ true))
  unfolding allows
  allows-private detection profiles o peer e =
      let s = update is_ip detection profiles o in
      let rs = eligible_adapters is_ip (rows_of detection) profiles in
      elim (Bool-cases (is_loopback is_ip (normalize_peer peer))) [
        | inl l ↦ inl l
        | inr l ↦ elim (Option-cases (host is_ip (normalize_peer peer))) [
          | inl n ↦ absurd (ground (arith, l, n))
          | inr (h, n) ↦
              let on = update-on_link detection profiles o h (ground (arith, l, n)) in
              inr (
                h,
                n,
                is_on-private rs h (eligible_adapters-Good (rows_of detection) profiles) on,
                on,
              )
        ]
      ]
