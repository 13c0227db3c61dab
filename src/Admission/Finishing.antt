-- ===== src/Admission/Finishing.antt =====
-- The tries of the classes of keys, where one ends (apps/server/src/admission-budget.mjs).
use vidvnc.Base.{
  ℕ, ◌≤◌, ◌≡◌, ◌≢◌, refl, sym, ap, ◌∙◌, subst, Bool, true, false, Option, none, some, List, Text,
  ◌==◌, ==→≡, any, arith, Bool-cases, Option-cases, inl, inr, dec_text,
}
use vidvnc.Base.Table.{get}
use vidvnc.Admission.State.{AdmissionBudget, ClassState, Item}
use vidvnc.Admission.Classes.{same_item, remove_item, finish_item, settle, failed}
use vidvnc.Admission.Counts.{Counted, Guarded, counts, Older-remove, count_open-remove}
use vidvnc.Admission.Guesses.{AllCounted-set, counts-other, counts-own}

-- Where the reservation that goes is of no account, nothing changes.
Counted-remove :
    (n : ℕ) (i : Item) (items : List Item) (k : Text) (w : ClassState)
    → any (same_item i) items ≡ true
    → counts k w.serial i ≡ 0
    → Counted n items k w
    → Counted n (remove_item i items) k w
Counted-remove n i items k w h zero_now c =
    let one = count_open-remove k w.serial i items h in
    let was = c.counted in
    record { counted = omega (arith, one, zero_now, was); limited = c.limited; older = c.older }

counts-older : (k : Text) (state : ℕ) (i : Item) → (state == i.state) ≡ false → counts k state i ≡ 0
counts-older k state i h = ground arith

failed-le : (outcome : Option Bool) → failed outcome ≤ 1
failed-le none = omega arith
failed-le (some true) = omega arith
failed-le (some false) = omega arith

pub finish_item-Guarded :
    (b : AdmissionBudget) (i : Item) (outcome : Option Bool)
    → Guarded b
    → Guarded (finish_item b i outcome)
unfolding finish_item
finish_item-Guarded b i outcome g = elim (Bool-cases (any (same_item i) b.unfinished)) [
  | inr e ↦ rw (finish_item, e) g
  | inl e ↦
      let older = Older-remove b.next i b.unfinished g.items-Older in
      let other : (k : Text) (w : ClassState)
          → i.kind ≢ k
          → get k b.classes ≡ some w
          → Counted b.next (remove_item i b.unfinished) k w =
        λ k w ne h.
          Counted-remove b.next i b.unfinished k w e (counts-other i.kind k w.serial i refl ne)
            (g.classes-Counted k w h) in
      elim (Option-cases (get i.kind b.classes)) [
        | inl f ↦
            rw (finish_item, e, f)
              (record {
                classes-Counted = λ k w h. other k w (λ one. absurd (cc (one, f, h))) h;
                items-Older = older;
                scrypt-le = g.scrypt-le;
              })
        | inr (st, f) ↦
            let old = g.classes-Counted i.kind st f in
            elim (Bool-cases (st.serial == i.state)) [
              | inr d ↦
                  rw (finish_item, e, f, d)
                    (record {
                      classes-Counted = λ k w h. elim (dec_text i.kind k) [
                        | no ne ↦ other k w ne h
                        | yes one ↦
                            let found : some st ≡ some w =
                              sym f ∙ (ap (λ (x : Text). get x b.classes) one ∙ h) in
                            let here : st ≡ w = cc (found) in
                            Counted-remove b.next i b.unfinished k w e
                              (counts-older k w.serial i
                                (subst (λ (x : ClassState). (x.serial == i.state) ≡ false) here d))
                              (g.classes-Counted k w h)
                      ];
                      items-Older = older;
                      scrypt-le = g.scrypt-le;
                    })
              | inl d ↦
                  let one = count_open-remove i.kind st.serial i b.unfinished e in
                  let two = counts-own i.kind st.serial i refl (sym (==→≡ st.serial i.state d)) in
                  let was = old.counted in
                  let most = old.limited in
                  let less = failed-le outcome in
                  rw (finish_item, e, f, d)
                    (record {
                      classes-Counted =
                          AllCounted-set b.next (remove_item i b.unfinished) b.classes i.kind
                            (settle st i outcome) other
                            (record {
                              counted = omega (arith, one, two, was);
                              limited = omega (arith, one, two, was, most, less);
                              older = old.older;
                            });
                      items-Older = older;
                      scrypt-le = g.scrypt-le;
                    })
            ]
      ]
]
