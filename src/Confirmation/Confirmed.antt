-- ===== src/Confirmation/Confirmed.antt =====
-- The peers that the scope allows are on networks that the owner has allowed
-- (apps/server/src/network-confirmation.mjs, apps/server/src/local-session-scope.mjs).
use vidvnc.Base.{
  ℕ, ◌≡◌, ◌⊎◌, refl, ◌∙◌, subst, true, Option, some, List, [], ◌∷◌, Text, map, keep, arith, inl,
  inr, Bool-cases, ok, dec_text,
}
use vidvnc.Base.Table.{Table}
use vidvnc.Grants.Cookies.{normalize_peer}
use vidvnc.Scope.Networks.{Network, Adapter, is_private}
use vidvnc.Scope.Sessions.{
  Override, local_listener, eligible_adapters, update, host, is_loopback, allows,
}
use vidvnc.Scope.Links.{is_on}
use vidvnc.Scope.Private.{allows-private}
use vidvnc.Confirmation.Subnets.{Row, Seen, networks_of}
use vidvnc.Confirmation.Known.{KnownNetworks, Decision, is_allowed, as_public, mark, apply}

abbrev pub adapters : List Row → List Adapter
adapters rows = map (λ r. r.adapter) rows

module _ (is_ip : Text → ℕ) where
  -- A row that counts as Public is not eligible.
  as_public-eligible :
      (r : Row) (rest : List Adapter) (profiles : ℕ → Option Text)
      → eligible_adapters is_ip ((as_public r).adapter ∷ rest) profiles
        ≡ eligible_adapters is_ip rest profiles
  unfolding eligible_adapters dec_text
  as_public-eligible r rest profiles = refl

  eligible_adapters-cong :
      (a : Adapter) (xs ys : List Adapter) (profiles : ℕ → Option Text)
      → eligible_adapters is_ip xs profiles ≡ eligible_adapters is_ip ys profiles
      → eligible_adapters is_ip (a ∷ xs) profiles ≡ eligible_adapters is_ip (a ∷ ys) profiles
  unfolding eligible_adapters
  eligible_adapters-cong a xs ys profiles e = ground (arith, e)

  mark-eligible :
      (ds : List Decision) (nets : Table Seen) (rows : List Row) (profiles : ℕ → Option Text)
      → eligible_adapters is_ip (adapters (mark ds nets rows)) profiles
        ≡ eligible_adapters is_ip (adapters (keep (is_allowed ds nets) rows)) profiles
  unfolding mark
  mark-eligible ds nets [] profiles = refl
  mark-eligible ds nets (r ∷ rows) profiles =
      let rest = mark-eligible ds nets rows profiles in
      elim (Bool-cases (is_allowed ds nets r)) [
        | inl a ↦
            rw (a, mark)
              (eligible_adapters-cong r.adapter (adapters (mark ds nets rows))
                (adapters (keep (is_allowed ds nets) rows)) profiles rest)
        | inr a ↦ rw (a, mark) (as_public-eligible r (adapters (mark ds nets rows)) profiles ∙ rest)
      ]

  -- Where the scope gets its rows through `apply`, a peer that it allows comes from this PC, or its address is
  -- private and on a link of an adapter whose network the owner has allowed.
  pub allows-confirmed :
      (identify : Text → Text) (s : KnownNetworks) (rows : List Row) (now : ℕ)
      (profiles : ℕ → Option Text) (o : Override) (peer : Text)
      → allows is_ip
          (update is_ip (ok (adapters (apply is_ip identify s rows now).1)) profiles o)
          (some peer)
          local_listener
        ≡ ok true
      → (is_loopback is_ip (normalize_peer peer) ≡ true)
        ⊎ ((h : Network) × (host is_ip (normalize_peer peer) ≡ some h)
            × (is_private is_ip h ≡ true)
            × (is_on
                  (map
                    (λ r. r.1)
                    (eligible_adapters is_ip
                      (adapters
                        (keep (is_allowed s.networks (networks_of is_ip identify rows)) rows))
                      profiles))
                  h
                ≡ true))
  unfolding apply
  allows-confirmed identify s rows now profiles o peer e =
      let nets = networks_of is_ip identify rows in
      elim (allows-private is_ip (ok (adapters (mark s.networks nets rows))) profiles o peer e) [
        | inl l ↦ inl l
        | inr (h, n, private, on) ↦ inr (
          h,
          n,
          private,
          subst (λ es. is_on (map (λ r. r.1) es) h ≡ true)
              (mark-eligible s.networks nets rows profiles) on,
        )
      ]
