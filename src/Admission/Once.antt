-- ===== src/Admission/Once.antt =====
-- Finishing a key start (apps/server/src/admission-budget.mjs).
use vidvnc.Base.{
  ◌≡◌, ◌∙◌, refl, Bool, true, ◌&&◌, Option, List, [], ◌∷◌, ◌==◌, any, arith, Bool-cases,
  Option-cases, inl, inr,
}
use vidvnc.Base.Table.{get}
use vidvnc.Admission.State.{AdmissionBudget, Item}
use vidvnc.Admission.Classes.{same_item, Purpose, finish_item}
use vidvnc.Admission.Requests.{
  KeyStart, finish_all, is_closed, outcome_of, allows_purpose, finish_start, cancel_start,
}

finish_item-closed :
    (b : AdmissionBudget) (i : Item) (outcome : Option Bool)
    → (finish_item b i outcome).closed ≡ b.closed
unfolding finish_item
finish_item-closed b i outcome = elim (Bool-cases (any (same_item i) b.unfinished)) [
  | inr e ↦ rw (finish_item, e) refl
  | inl e ↦ elim (Option-cases (get i.kind b.classes)) [
    | inl f ↦ rw (finish_item, e, f) refl
    | inr (st, f) ↦ elim (Bool-cases (st.serial == i.state)) [
      | inl d ↦ rw (finish_item, e, f, d) refl
      | inr d ↦ rw (finish_item, e, f, d) refl
    ]
  ]
]

finish_all-closed :
    (is : List Item) (outcome : Item → Option Bool) (b : AdmissionBudget)
    → (finish_all is outcome b).closed ≡ b.closed
unfolding finish_all
finish_all-closed [] outcome b = refl
finish_all-closed (i ∷ is) outcome b =
    finish_all-closed is outcome (finish_item b i (outcome i)) ∙ finish_item-closed b i (outcome i)

finish_start-closed :
    (b : AdmissionBudget) (s : KeyStart) (purpose : Purpose) (valid : Bool)
    → is_closed (finish_start b s purpose valid) s ≡ true
unfolding finish_start
finish_start-closed b s purpose valid = elim (Bool-cases (is_closed b s)) [
  | inl e ↦ rw (finish_start, e) e
  | inr e ↦
      let done =
        finish_all-closed s.reserved (outcome_of (valid && allows_purpose s purpose) purpose)
          (record b { closed = s.serial ∷ b.closed }) in
      rw (finish_start, e, is_closed, done) (ground arith)
]

finish_start-closed_again :
    (b : AdmissionBudget) (s : KeyStart) (purpose : Purpose) (valid : Bool)
    → is_closed b s ≡ true
    → finish_start b s purpose valid ≡ b
unfolding finish_start
finish_start-closed_again b s purpose valid h = rw (finish_start, h) refl

-- A key start counts once: once it is finished, neither finishing it again, whatever the outcome, nor
-- cancelling it changes the budget.
pub finish_start-once :
    (b : AdmissionBudget) (s : KeyStart) (purpose again : Purpose) (valid anew : Bool)
    → (finish_start (finish_start b s purpose valid) s again anew ≡ finish_start b s purpose valid)
      × (cancel_start (finish_start b s purpose valid) s ≡ finish_start b s purpose valid)
unfolding cancel_start
finish_start-once b s purpose again valid anew =
    let done = finish_start-closed b s purpose valid in
    (
      finish_start-closed_again (finish_start b s purpose valid) s again anew done,
      rw (cancel_start, done) refl,
    )
