-- ===== src/Admission/Guesses.antt =====
-- The tries of the classes of keys, where one begins (apps/server/src/admission-budget.mjs).
use vidvnc.Base.{
  ℕ, ◌+◌, ◌≤◌, ◌<◌, ◌≡◌, ◌≢◌, refl, sym, subst, true, Option, none, some, List, ◌∷◌, Text, same,
  leb, arith, Bool-cases, Option-cases, inl, inr,
}
use vidvnc.Base.Table.{Table, get, set, get-set}
use vidvnc.Peers.Addresses.{source_group}
use vidvnc.Admission.State.{AdmissionBudget, ClassState, Item, bounded_row}
use vidvnc.Admission.Classes.{Policy, valid_policy, open_class, new_class, take_row, reserve_class}
use vidvnc.Admission.Counts.{
  Counted, AllCounted, Guarded, counts, get-set_cases, Older-later, count_open-Older,
  count_open-cons,
}

pub Counted-later :
    (n m : ℕ) (items : List Item) (kind : Text) (st : ClassState)
    → n ≤ m
    → Counted n items kind st
    → Counted m items kind st
Counted-later n m items kind st h c = record {
  counted = c.counted;
  limited = c.limited;
  older = let o = c.older in omega (arith, h, o);
}

-- One class is put in order, and the others are as they were.
pub AllCounted-set :
    (next : ℕ) (items : List Item) (classes : Table ClassState) (kind : Text) (st : ClassState)
    → ((k : Text) (w : ClassState) → kind ≢ k → get k classes ≡ some w → Counted next items k w)
    → Counted next items kind st
    → AllCounted next items (set kind st classes)
AllCounted-set next items classes kind st old new k w h =
    elim (get-set_cases k kind st w classes h) [
      | inl (one, two) ↦
          subst (λ (x : Text). Counted next items x w) one
            (subst (λ (x : ClassState). Counted next items kind x) two new)
      | inr (ne, held) ↦ old k w ne held
    ]

-- The state that `open_class` finds or makes stands under its kind.
open_class-Guarded :
    (b : AdmissionBudget) (kind generation : Text)
    → Guarded b
    → Guarded (open_class b kind generation).0
      × (get kind (open_class b kind generation).0.classes ≡ some (open_class b kind generation).1)
unfolding open_class
open_class-Guarded b kind generation g =
    let fresh = new_class b.next generation in
    let opened : AdmissionBudget = record b {
      classes = set kind fresh b.classes;
      next = b.next + 1;
    } in
    let there : get kind (set kind fresh b.classes) ≡ some fresh =
      ground (arith, get-set kind kind fresh b.classes) in
    let none_yet = count_open-Older kind b.next b.unfinished g.items-Older in
    let made : Guarded opened = record {
      classes-Counted =
          AllCounted-set (b.next + 1) b.unfinished b.classes kind fresh
            (λ k w ne h.
              Counted-later b.next (b.next + 1) b.unfinished k w (omega arith)
                (g.classes-Counted k w h))
            (record { counted = sym none_yet; limited = omega arith; older = omega arith });
      items-Older = Older-later b.next (b.next + 1) b.unfinished (omega arith) g.items-Older;
      scrypt-le = g.scrypt-le;
    } in
    elim (Option-cases (get kind b.classes)) [
      | inl e ↦ rw (open_class, e) (made, there)
      | inr (st, e) ↦ elim (Bool-cases (same st.generation generation)) [
        | inl f ↦ rw (open_class, e, f) (g, e)
        | inr f ↦ rw (open_class, e, f) (made, there)
      ]
    ]

pub counts-other :
    (kind k : Text) (state : ℕ) (i : Item) → i.kind ≡ kind → kind ≢ k → counts k state i ≡ 0
counts-other kind k state i h ne = ground arith

pub counts-own :
    (kind : Text) (state : ℕ) (i : Item) → i.kind ≡ kind → i.state ≡ state → counts kind state i ≡ 1
counts-own kind state i h e = ground arith

-- A reservation of another class is of no account.
Counted-cons :
    (n m : ℕ) (i : Item) (items : List Item) (k : Text) (w : ClassState)
    → n ≤ m
    → i.kind ≢ k
    → Counted n items k w
    → Counted m (i ∷ items) k w
Counted-cons n m i items k w h ne c =
    let one = count_open-cons k w.serial i items in
    let two = counts-other i.kind k w.serial i refl ne in
    let was = c.counted in
    let o = c.older in
    record {
      counted = omega (arith, one, two, was);
      limited = c.limited;
      older = omega (arith, h, o);
    }

take_row-Guarded :
    (b : AdmissionBudget) (kind : Text) (st : ClassState) (p : Policy) (source : Text)
    → Guarded b
    → get kind b.classes ≡ some st
    → st.failures + st.pending < 20
    → Guarded (take_row b kind st p source).0
unfolding take_row
take_row-Guarded b kind st p source g h room =
    let (sources, row) =
      bounded_row b.max_sources st.sources source
        (record { serial = b.next; failures = 0; pending = 0 }) in
    let item : Item = record {
      serial = b.next + 1;
      kind = kind;
      source_id = source;
      state = st.serial;
      row = row.serial;
    } in
    let old = g.classes-Counted kind st h in
    let was = old.counted in
    let young = old.older in
    elim (Bool-cases (leb p.source_limit (row.failures + row.pending))) [
      | inl e ↦
          rw (take_row, e)
            (record {
              classes-Counted =
                  AllCounted-set (b.next + 2) b.unfinished b.classes kind
                    (record st { sources = sources })
                    (λ k w ne held.
                      Counted-later b.next (b.next + 2) b.unfinished k w (omega arith)
                        (g.classes-Counted k w held))
                    (record {
                      counted = old.counted;
                      limited = old.limited;
                      older = omega (arith, young);
                    });
              items-Older =
                  Older-later b.next (b.next + 2) b.unfinished (omega arith) g.items-Older;
              scrypt-le = g.scrypt-le;
            })
      | inr e ↦
          let one = count_open-cons kind st.serial item b.unfinished in
          let two = counts-own kind st.serial item refl refl in
          rw (take_row, e)
            (record {
              classes-Counted =
                  AllCounted-set (b.next + 2) (item ∷ b.unfinished) b.classes kind
                    (record st {
                      pending = st.pending + 1;
                      sources = set source (record row { pending = row.pending + 1 }) sources;
                    })
                    (λ k w ne held.
                      Counted-cons b.next (b.next + 2) item b.unfinished k w (omega arith) ne
                        (g.classes-Counted k w held))
                    (record {
                      counted = omega (arith, one, two, was);
                      limited = omega (arith, room);
                      older = omega (arith, young);
                    });
              items-Older = (
                omega (arith, young),
                Older-later b.next (b.next + 2) b.unfinished (omega arith) g.items-Older,
              );
              scrypt-le = g.scrypt-le;
            })
    ]

valid_policy-le : (p : Policy) → valid_policy p ≡ true → p.global_limit ≤ 20
valid_policy-le p h = ground arith

pub reserve_class-Guarded :
    (is_ip : Text → ℕ) (b : AdmissionBudget) (kind source : Text) (config : Option Policy)
    → Guarded b
    → Guarded (reserve_class is_ip b kind source config).0
unfolding reserve_class
reserve_class-Guarded is_ip b kind source none g = g
reserve_class-Guarded is_ip b kind source (some p) g =
    let (opened, st) = open_class b kind p.generation in
    let (guarded, there) = open_class-Guarded b kind p.generation g in
    elim (Bool-cases (valid_policy p)) [
      | inr v ↦ rw (reserve_class, v) g
      | inl v ↦ elim (Bool-cases (leb p.global_limit (st.failures + st.pending))) [
        | inl e ↦ rw (reserve_class, v, e) guarded
        | inr e ↦
            let most = valid_policy-le p v in
            rw (reserve_class, v, e)
              (take_row-Guarded opened kind st p (source_group is_ip source) guarded there
                (ground (arith, e, most)))
      ]
    ]
