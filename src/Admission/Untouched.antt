-- ===== src/Admission/Untouched.antt =====
-- What the requests to the admission budget leave alone (apps/server/src/admission-budget.mjs).
use vidvnc.Base.{
  ℕ, ◌+◌, ◌≤◌, ◌≡◌, refl, sym, ap, ◌∙◌, Bool, true, false, not, ◌||◌, Option, none, some, List, [],
  ◌∷◌, ◌++◌, Text, codes, same, leb, length, take, arith, Bool-cases, Option-cases, inl, inr,
  Result-cases, dec_text,
}
use mathlib.Core.Logic.{ite}
use vidvnc.Base.Table.{Table, get, set}
use vidvnc.Peers.Addresses.{source_group}
use vidvnc.Admission.State.{
  AdmissionBudget, Rolling, Item, ClassState, recent, bounded_row, later, rolling_of,
  reserve_identity, minute,
}
use vidvnc.Admission.Classes.{Policy, open_class, take_row, valid_policy, reserve_class}
use vidvnc.Admission.Requests.{SignIn, start_of, to_list, assign_identity, reserve_both}
use vidvnc.Admission.Pace.{global_of, global_of-set, later-le, Follows, Follows-refl}

-- The windows and the clock are as they were.
abbrev pub Same : AdmissionBudget → AdmissionBudget → Type 0
Same b b' = (b'.rolling ≡ b.rolling) × (b'.last_now ≡ b.last_now)

pub Same-Follows : (b b' : AdmissionBudget) → Same b b' → Follows b b'
Same-Follows b b' (e, f) = record {
  same_windows = λ k. ap (λ (t : Table Rolling). global_of (record b { rolling = t }) k) e;
  same_clock = omega (arith, f);
}

open_class-Same :
    (b : AdmissionBudget) (kind generation : Text) → Same b (open_class b kind generation).0
unfolding open_class
open_class-Same b kind generation = elim (Option-cases (get kind b.classes)) [
  | inl e ↦ rw (e, open_class) (refl, refl)
  | inr (st, e) ↦ elim (Bool-cases (same st.generation generation)) [
    | inl f ↦ rw (e, open_class, f) (refl, refl)
    | inr f ↦ rw (e, open_class, f) (refl, refl)
  ]
]

take_row-Same :
    (b : AdmissionBudget) (kind : Text) (st : ClassState) (p : Policy) (source : Text)
    → Same b (take_row b kind st p source).0
unfolding take_row
take_row-Same b kind st p source =
    let (sources, row) =
      bounded_row b.max_sources st.sources source
        (record { serial = b.next; failures = 0; pending = 0 }) in
    elim (Bool-cases (leb p.source_limit (row.failures + row.pending))) [
      | inl e ↦ rw (take_row, e) (refl, refl)
      | inr e ↦ rw (take_row, e) (refl, refl)
    ]

start_of-Same : (b : AdmissionBudget) (is : List Item) → Same b (start_of b is).0
start_of-Same b [] = (refl, refl)
start_of-Same b (i ∷ is) = (refl, refl)

module _ (is_ip : Text → ℕ) where
  reserve_class-Same :
      (b : AdmissionBudget) (kind source : Text) (config : Option Policy)
      → Same b (reserve_class is_ip b kind source config).0
  unfolding reserve_class
  reserve_class-Same b kind source none = (refl, refl)
  reserve_class-Same b kind source (some p) =
      let (opened, st) = open_class b kind p.generation in
      let (one, two) = open_class-Same b kind p.generation in
      let (three, four) = take_row-Same opened kind st p (source_group is_ip source) in
      elim (Bool-cases (valid_policy p)) [
        | inr v ↦ rw (reserve_class, v) (refl, refl)
        | inl v ↦ elim (Bool-cases (leb p.global_limit (st.failures + st.pending))) [
          | inl e ↦ rw (reserve_class, v, e) (one, two)
          | inr e ↦ rw (reserve_class, v, e) (three ∙ one, four ∙ two)
        ]
      ]

  pub reserve_both-Same :
      (b : AdmissionBudget) (source : Text) (ephemeral session : Option Policy)
      → Same b (reserve_both is_ip b source ephemeral session).0
  unfolding reserve_both
  reserve_both-Same b source ephemeral session =
      let (b1, first) = reserve_class is_ip b (codes "ephemeral") source ephemeral in
      let (one, two) = reserve_class-Same b (codes "ephemeral") source ephemeral in
      let (b2, second) = reserve_class is_ip b1 (codes "session") source session in
      let (three, four) = reserve_class-Same b1 (codes "session") source session in
      elim (Result-cases first) [
        | inl (i, e) ↦ elim (Result-cases second) [
          | inl (j, f) ↦
              let (five, six) = start_of-Same b2 (to_list i ++ to_list j) in
              rw (reserve_both, e, f) (five ∙ (three ∙ one), six ∙ (four ∙ two))
          | inr (x, f) ↦ rw (reserve_both, e, f) (three ∙ one, four ∙ two)
        ]
        | inr (x, e) ↦ rw (reserve_both, e) (one, two)
      ]

ite-known :
    (kind k : Text) (old : List ℕ) (known : Text → List ℕ)
    → known kind ≡ old
    → ite (dec_text kind k) old (known k) ≡ known k
ite-known kind k old known h = elim (dec_text kind k) as (λ d. ite d old (known k) ≡ known k) [
  | yes one ↦ sym h ∙ ap known one
  | no ne ↦ refl
]

identities-Follows :
    (b : AdmissionBudget) (kind : Text) (w : Rolling) (identities : Table (List ℕ)) (now : ℕ)
    → get kind b.rolling ≡ some w
    → b.last_now ≤ now
    → Follows b (record b {
      last_now = now;
      rolling = set kind (record w { identities = identities }) b.rolling;
    })
identities-Follows b kind w identities now h le = record {
  same_windows = λ k.
      let e = global_of-set b k kind (record w { identities = identities }) now in
      let old : global_of b kind ≡ w.global = rw (global_of, rolling_of, h) refl in
      e ∙ ite-known kind k w.global (global_of b) old;
  same_clock = le;
}

reserve_identity-cases :
    (b : AdmissionBudget) (kind identity : Text) (limit window first second : ℕ) (w : Rolling)
    → get kind b.rolling ≡ some w
    → (b' : AdmissionBudget) × (free : Bool) × (reserve_identity b kind identity limit window first
          second
        ≡ some (b', free))
      × Follows b b'
unfolding reserve_identity
reserve_identity-cases b kind identity limit window first second w h =
    let key = take 128 identity in
    let now : ℕ = later b.last_now first in
    let (identities, times) = bounded_row b.max_sources w.identities key [] in
    let fresh : List ℕ = recent times now window in
    elim (Bool-cases (leb limit (length fresh))) [
      | inl e ↦ (
        record b {
          last_now = now;
          rolling = set kind (record w { identities = set key fresh identities }) b.rolling;
        },
        false,
        rw (h, reserve_identity, e) refl,
        identities-Follows b kind w (set key fresh identities) now h (later-le b.last_now first),
      )
      | inr e ↦
          let after = later now second in
          (
            record b {
              last_now = after;
              rolling =
                  set kind (record w { identities = set key (fresh ++ after ∷ []) identities })
                    b.rolling;
            },
            true,
            rw (h, reserve_identity, e) refl,
            identities-Follows b kind w (set key (fresh ++ after ∷ []) identities) after h (
                let one = later-le b.last_now first in
                let two = later-le now second in omega (arith, one, two)),
          )
    ]

pub assign_identity-cases :
    (b : AdmissionBudget) (s : SignIn) (identity : Option Text) (first second : ℕ) (w : Rolling)
    → get s.kind b.rolling ≡ some w
    → (b' : AdmissionBudget) × (s' : SignIn) × (free : Bool) × (assign_identity b s identity first
          second
        ≡ some (b', (s', free)))
      × Follows b b'
unfolding assign_identity
assign_identity-cases b s identity first second w h =
    let name : Text = elim identity [ none ↦ codes "unknown" | some id ↦ id ] in
    elim (Bool-cases (not s.allowed || s.assigned)) [
      | inl e ↦ (b, s, false, rw (assign_identity, e) refl, Follows-refl b)
      | inr e ↦
          let (b', free, f, g) = reserve_identity-cases b s.kind name 10 minute first second w h in
          (b', record s { assigned = true }, free, rw (assign_identity, e, f) refl, g)
    ]
