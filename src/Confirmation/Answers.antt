-- ===== src/Confirmation/Answers.antt =====
-- The owner's answers take effect (apps/server/src/network-confirmation.mjs).
use vidvnc.Base.{
  ℕ, zero, suc, ◌-◌, ◌≤◌, ◌≡◌, refl, sym, ap, ◌∙◌, Bool, true, not, some, List, [], ◌∷◌, ◌++◌, Text,
  same, leb, length, drop, keep, arith, inl, inr, Bool-cases, Option-cases, ok, All, All-keep,
  length-append,
}
use vidvnc.Base.Table.{Table, get}
use vidvnc.Confirmation.Subnets.{Row, Seen, key_of}
use vidvnc.Confirmation.Known.{
  KnownNetworks, Decision, max_known_networks, is_id, decision_of, is_allowed, insert_decision,
  sort_decisions, last_of, seen_before, begin_decide, end_decide, apply,
}

insert_decision-last :
    (d row : Decision) (es : List Decision)
    → d.decided_at ≤ row.decided_at
    → (fs : List Decision) × (insert_decision d (es ++ row ∷ []) ≡ fs ++ row ∷ [])
unfolding insert_decision
insert_decision-last d row [] h = (d ∷ [], ground arith)
insert_decision-last d row (e ∷ es) h =
    let (fs, q) = insert_decision-last d row es h in
    elim (Bool-cases (leb d.decided_at e.decided_at)) [
      | inl l ↦ (d ∷ e ∷ es, rw (l, insert_decision) refl)
      | inr l ↦ (e ∷ fs, rw (l, insert_decision) (ap (◌∷◌ e) q))
    ]

sort_decisions-last :
    (ds : List Decision) (row : Decision)
    → All (λ d. d.decided_at ≤ row.decided_at) ds
    → (fs : List Decision) × (sort_decisions (ds ++ row ∷ []) ≡ fs ++ row ∷ [])
unfolding sort_decisions insert_decision
sort_decisions-last [] row hs = ([], refl)
sort_decisions-last (d ∷ ds) row (h, hs) =
    let (es, q) = sort_decisions-last ds row hs in
    let (fs, r) = insert_decision-last d row es h in (fs, ap (insert_decision d) q ∙ r)

drop-last :
    (n : ℕ) (fs : List Decision) (row : Decision)
    → n ≤ length fs
    → (gs : List Decision) × (drop n (fs ++ row ∷ []) ≡ gs ++ row ∷ [])
drop-last zero fs row h = (fs, refl)
drop-last (suc n) [] row h = absurd (omega arith)
drop-last (suc n) (f ∷ fs) row h = drop-last n fs row (omega arith)

last_of-last :
    (fs : List Decision) (row : Decision)
    → (gs : List Decision) × (last_of max_known_networks (fs ++ row ∷ []) ≡ gs ++ row ∷ [])
last_of-last fs row =
    drop-last (length (fs ++ row ∷ []) - 256) fs row
      (let law = length-append fs (row ∷ []) in omega (arith, law))

decision_of-last :
    (id : Text) (gs : List Decision) (row : Decision)
    → row.id ≡ id
    → decision_of id (gs ++ row ∷ []) ≡ some row.allow
unfolding decision_of
decision_of-last id [] row h = ground arith
decision_of-last id (g ∷ gs) row h = ground (arith, decision_of-last id gs row h)

-- The rows that an answer is written with give it for its network, where the clock has not gone back.
begin_decide-decision :
    (s : KnownNetworks) (id : Text) (allow : Bool) (now : ℕ) (next : List Decision)
    → All (λ d. d.decided_at ≤ now) s.networks
    → begin_decide s id (some allow) now ≡ ok next
    → decision_of id next ≡ some allow
unfolding begin_decide
begin_decide-decision s id allow now next hs e = elim (Bool-cases (is_id id)) [
  | inr i ↦ absurd (ground (arith, i))
  | inl i ↦ elim (Option-cases (seen_before s id)) [
    | inl n ↦ absurd (ground (arith, i, n))
    | inr ((subnets, router), n) ↦
        let row : Decision = record {
          id = id;
          subnets = subnets;
          router = router;
          allow = allow;
          decided_at = now;
        } in
        let others = keep (λ d. not (same d.id id)) s.networks in
        let (fs, q) =
          sort_decisions-last others row
            (All-keep (λ d. d.decided_at ≤ now) (λ d. not (same d.id id)) s.networks hs) in
        let (gs, r) = last_of-last fs row in
        let whole : last_of max_known_networks (sort_decisions (others ++ row ∷ []))
            ≡ gs ++ row ∷ [] =
          ap (last_of max_known_networks) q ∙ r in
        let law = decision_of-last id gs row refl in
        let taken : last_of max_known_networks (sort_decisions (others ++ row ∷ [])) ≡ next =
          ground (arith, i, n) in
        ap (decision_of id) (sym taken ∙ whole) ∙ law
  ]
]

module _ (is_ip : Text → ℕ) (identify : Text → Text) where
  -- The rows of each later detection are put to `apply`, at some time.
  abbrev pub detect : KnownNetworks → List (List Row × ℕ) → KnownNetworks
  detect s [] = s
  detect s ((rows, now) ∷ later) = detect (apply is_ip identify s rows now).0 later

  detect-networks :
      (s : KnownNetworks) (later : List (List Row × ℕ)) → (detect s later).networks ≡ s.networks
  unfolding apply
  detect-networks s [] = refl
  detect-networks s ((rows, now) ∷ later) =
      detect-networks (apply is_ip identify s rows now).0 later

  -- When an answer of the owner is written, by a clock that has not gone back behind an earlier answer, each
  -- row on that network counts as the owner said, after any later detections in which nothing else is decided.
  pub end_decide-is_allowed :
      (s t : KnownNetworks) (id : Text) (allow : Bool) (now : ℕ) (next : List Decision)
      → All (λ d. d.decided_at ≤ now) s.networks
      → begin_decide s id (some allow) now ≡ ok next
      → (later : List (List Row × ℕ)) (nets : Table Seen) (r : Row) (n : Seen)
      → get (key_of r) nets ≡ some n
      → n.id ≡ id
      → is_allowed (detect (end_decide t id next true).0 later).networks nets r ≡ allow
  unfolding end_decide
  end_decide-is_allowed s t id allow now next hs e later nets r n g same_id =
      let law = begin_decide-decision s id allow now next hs e in
      let known : decision_of n.id next ≡ some allow = ap (λ i. decision_of i next) same_id ∙ law in
      let kept = detect-networks (end_decide t id next true).0 later in
      ap (λ ds. is_allowed ds nets r) kept ∙ ground (arith, g, known)
