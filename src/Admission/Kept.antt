-- ===== src/Admission/Kept.antt =====
-- The windows that the ends of tries and the assigning of identities leave
-- (apps/server/src/admission-budget.mjs).
use vidvnc.Base.{
  ℕ, ◌≡◌, refl, ◌∙◌, subst, Bool, true, not, ◌&&◌, ◌||◌, Option, none, some, List, [], ◌∷◌, Text,
  codes, arith, Bool-cases, Option-cases, inl, inr, is_some, ◌++◌, leb, length, take,
}
use vidvnc.Base.Table.{get, set, get-set}
use vidvnc.Admission.State.{
  AdmissionBudget, Item, Rolling, later, recent, bounded_row, reserve_identity, minute,
}
use vidvnc.Admission.Classes.{Purpose, finish_item}
use vidvnc.Admission.Requests.{
  KeyStart, SignIn, finish_all, outcome_of, allows_purpose, finish_start, cancel_start,
  assign_identity,
}
use vidvnc.Admission.Reach.{some-first}

-- The kind has windows.
abbrev pub IsPresent : Text → AdmissionBudget → Type 0
IsPresent kind b = is_some (get kind b.rolling) ≡ true

finish_item-rolling :
    (b : AdmissionBudget) (i : Item) (outcome : Option Bool)
    → (finish_item b i outcome).rolling ≡ b.rolling
unfolding finish_item
finish_item-rolling b i outcome = ground arith

finish_all-rolling :
    (is : List Item) (outcome : Item → Option Bool) (b : AdmissionBudget)
    → (finish_all is outcome b).rolling ≡ b.rolling
unfolding finish_all
finish_all-rolling [] outcome b = refl
finish_all-rolling (i ∷ is) outcome b =
    finish_all-rolling is outcome (finish_item b i (outcome i))
    ∙ finish_item-rolling b i (outcome i)

pub finish_start-rolling :
    (b : AdmissionBudget) (s : KeyStart) (purpose : Purpose) (valid : Bool)
    → (finish_start b s purpose valid).rolling ≡ b.rolling
unfolding finish_start
finish_start-rolling b s purpose valid = ground (
  arith,
  finish_all-rolling s.reserved (outcome_of (valid && allows_purpose s purpose) purpose)
      (record b { closed = s.serial ∷ b.closed }),
)

pub cancel_start-rolling :
    (b : AdmissionBudget) (s : KeyStart) → (cancel_start b s).rolling ≡ b.rolling
unfolding cancel_start
cancel_start-rolling b s =
    ground
      (arith, finish_all-rolling s.reserved (λ i. none) (record b { closed = s.serial ∷ b.closed }))

reserve_identity-IsPresent :
    (b b' : AdmissionBudget) (kind name : Text) (limit window first second : ℕ) (free : Bool)
    (k : Text)
    → reserve_identity b kind name limit window first second ≡ some (b', free)
    → IsPresent k b
    → IsPresent k b'
unfolding reserve_identity
reserve_identity-IsPresent b b' kind name limit window first second free k h p =
    elim (Option-cases (get kind b.rolling)) [
      | inl e ↦ absurd (cc ((rw (reserve_identity, e) at h)))
      | inr (w, e) ↦
          let now : ℕ = later b.last_now first in
          let (identities, times) = bounded_row b.max_sources w.identities (take 128 name) [] in
          let fresh : List ℕ = recent times now window in
          elim (Bool-cases (leb limit (length fresh))) [
            | inl f ↦
                let next : Rolling = record w {
                  identities = set (take 128 name) fresh identities;
                } in
                subst (IsPresent k) (some-first (rw (reserve_identity, e, f) at h))
                  (ground (arith, p, get-set k kind next b.rolling))
            | inr f ↦
                let next : Rolling = record w {
                  identities = set (take 128 name) (fresh ++ later now second ∷ []) identities;
                } in
                subst (IsPresent k) (some-first (rw (reserve_identity, e, f) at h))
                  (ground (arith, p, get-set k kind next b.rolling))
          ]
    ]

pub assign_identity-IsPresent :
    (b b' : AdmissionBudget) (s s' : SignIn) (identity : Option Text) (first second : ℕ)
    (free : Bool) (k : Text)
    → assign_identity b s identity first second ≡ some (b', (s', free))
    → IsPresent k b
    → IsPresent k b'
unfolding assign_identity
assign_identity-IsPresent b b' s s' identity first second free k h p =
    let name : Text = elim identity [ none ↦ codes "unknown" | some id ↦ id ] in
    elim (Bool-cases (not s.allowed || s.assigned)) [
      | inl e ↦ subst (IsPresent k) (some-first (rw (assign_identity, e) at h)) p
      | inr e ↦ elim (Option-cases (reserve_identity b s.kind name 10 minute first second)) [
        | inl f ↦ absurd (cc ((rw (assign_identity, e, f) at h)))
        | inr ((b2, free2), f) ↦
            subst (IsPresent k) (some-first (rw (assign_identity, e, f) at h))
              (reserve_identity-IsPresent b b2 s.kind name 10 minute first second free2 k f p)
      ]
    ]
