-- ===== src/Scope/Links.antt =====
-- The links that contain a network (apps/server/src/local-session-scope.mjs).
use vidvnc.Base.{
  ℕ, ◌≡◌, refl, subst, Bool, true, Option, none, some, List, [], ◌∷◌, Text, any, all, arith, inl,
  inr, Bool-cases, Option-cases, Result, ok, err, All,
}
use vidvnc.Peers.Addresses.{number}
use vidvnc.Scope.Networks.{Network, contains, Adapter}
use vidvnc.Scope.Sessions.{
  cut_last, Override, automatic, listed, malformed, parse_entry, parse_entries, parse_override,
}
use vidvnc.Scope.Nested.{IsSound, network-IsSound, contains_trans}

-- Some of the links contains the network.
abbrev pub is_on : List Network → Network → Bool
is_on links n = any (λ link. contains link n) links

-- The rows that the detection gave.
abbrev pub rows_of : Result Text (List Adapter) → List Adapter
rows_of (err message) = []
rows_of (ok rows) = rows

is_on_trans :
    (links : List Network) (entry h : Network)
    → All IsSound links
    → IsSound entry
    → is_on links entry ≡ true
    → contains entry h ≡ true
    → is_on links h ≡ true
is_on_trans [] entry h ss s e f = cc
is_on_trans (link ∷ links) entry h (sl, ss) s e f = elim (Bool-cases (contains link entry)) [
  | inl c ↦ rw (contains_trans link entry h sl s c f) refl
  | inr c ↦ let rest = is_on_trans links entry h ss s (ground (arith, c)) f in ground (arith, rest)
]

pub is_on-requested :
    (links requested : List Network) (h : Network)
    → All IsSound links
    → All IsSound requested
    → all (is_on links) requested ≡ true
    → is_on requested h ≡ true
    → is_on links h ≡ true
is_on-requested links [] h ss rs a e = cc
is_on-requested links (entry ∷ requested) h ss (r, rs) a e = elim (Bool-cases (contains entry h)) [
  | inl c ↦ is_on_trans links entry h ss r (ground arith) c
  | inr c ↦ is_on-requested links requested h ss rs (ground arith) (ground (arith, c))
]

module _ (is_ip : Text → ℕ) where
  parse_entry-IsSound : (e : Option Text) (n : Network) → parse_entry is_ip e ≡ some n → IsSound n
  unfolding parse_entry
  parse_entry-IsSound none n h = cc
  parse_entry-IsSound (some cidr) n h = elim (Option-cases (cut_last cidr)) [
    | inl e ↦ absurd (ground (arith, e))
    | inr ((address, digits), e) ↦
        network-IsSound is_ip address (some (number 10 0 digits)) n (ground (arith, e))
  ]

  parse_entries-IsSound :
      (es : List (Option Text)) (ns : List Network)
      → parse_entries is_ip es ≡ some ns
      → All IsSound ns
  unfolding parse_entries
  parse_entries-IsSound [] ns h =
      let none_left : [] ≡ ns = ground arith in subst (All IsSound) none_left tt
  parse_entries-IsSound (e ∷ es) ns h = elim (Option-cases (parse_entry is_ip e)) [
    | inl q ↦ absurd (ground (arith, q))
    | inr (n, q) ↦ elim (Option-cases (parse_entries is_ip es)) [
      | inl r ↦ absurd (ground (arith, q, r))
      | inr (rest, r) ↦
          let whole : n ∷ rest ≡ ns = ground (arith, q, r) in
          subst (All IsSound) whole (parse_entry-IsSound e n q, parse_entries-IsSound es rest r)
    ]
  ]

  pub parse_override-IsSound :
      (o : Override) (ns : List Network) → parse_override is_ip o ≡ ok (some ns) → All IsSound ns
  unfolding parse_override
  parse_override-IsSound automatic ns h = cc
  parse_override-IsSound malformed ns h = cc
  parse_override-IsSound (listed []) ns h = cc
  parse_override-IsSound (listed (e ∷ es)) ns h =
      elim (Option-cases (parse_entries is_ip (e ∷ es))) [
        | inl r ↦ absurd (ground (arith, r))
        | inr (rest, r) ↦ parse_entries-IsSound (e ∷ es) ns (ground (arith, r))
      ]
