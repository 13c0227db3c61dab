-- ===== src/Admission/Counts.antt =====
-- The unfinished reservations of a class, counted (apps/server/src/admission-budget.mjs).
use vidvnc.Base.{
  ℕ, ◌+◌, ◌≤◌, ◌<◌, ◌≡◌, ◌≢◌, ◌⊎◌, refl, true, false, ◌&&◌, some, List, [], ◌∷◌, Text, same, ◌==◌,
  length, keep, any, All, if◌then◌else◌, arith, Bool-cases, inl, inr, dec_text,
}
use vidvnc.Base.Table.{Table, get, set, get-set}
use vidvnc.Admission.State.{AdmissionBudget, ClassState, Item}
use vidvnc.Admission.Classes.{same_item, remove_item}

-- The unfinished reservations that hold this state of the class.
abbrev pub count_open : Text → ℕ → List Item → ℕ
count_open kind state items = length (keep (λ i. same i.kind kind && i.state == state) items)

-- A class: its count of unfinished tries is right, and with the failures it is 20 at most.
pub record Counted (next : ℕ) (items : List Item) (kind : Text) (st : ClassState) : Type 0 where
  pub counted : st.pending ≡ count_open kind st.serial items
  pub limited : st.failures + st.pending ≤ 20
  pub older : st.serial < next

abbrev pub AllCounted : ℕ → List Item → Table ClassState → Type 0
AllCounted next items classes =
    (kind : Text) (st : ClassState) → get kind classes ≡ some st → Counted next items kind st

-- A budget whose classes are counted, and that hashes four passwords at a time at most.
pub record Guarded (b : AdmissionBudget) : Type 0 where
  pub classes-Counted : AllCounted b.next b.unfinished b.classes
  pub items-Older : All (λ i. i.state < b.next) b.unfinished
  pub scrypt-le : b.active_scrypt ≤ 4

pub get-set_cases {ℓ} :
    {V : Type ℓ} (j k : Text) (v w : V) (t : Table V)
    → get j (set k v t) ≡ some w
    → ((k ≡ j) × (v ≡ w)) ⊎ ((k ≢ j) × (get j t ≡ some w))
get-set_cases j k v w t h = elim (dec_text k j) [
  | yes one ↦ inl (one, ground (arith, get-set j k v t, h, one))
  | no ne ↦ inr (ne, ground (arith, get-set j k v t, h, ne))
]

pub Older-later :
    (n m : ℕ) (items : List Item)
    → n ≤ m
    → All (λ i. i.state < n) items
    → All (λ i. i.state < m) items
Older-later n m [] h a = tt
Older-later n m (i ∷ is) h (a, held) = (omega arith, Older-later n m is h held)

pub Older-remove :
    (n : ℕ) (j : Item) (items : List Item)
    → All (λ i. i.state < n) items
    → All (λ i. i.state < n) (remove_item j items)
Older-remove n j [] a = tt
Older-remove n j (i ∷ is) (a, held) = elim (Bool-cases (same_item j i)) [
  | inl e ↦ rw (e) held
  | inr e ↦ rw (e) (a, Older-remove n j is held)
]

pub count_open-Older :
    (kind : Text) (n : ℕ) (items : List Item)
    → All (λ i. i.state < n) items
    → count_open kind n items ≡ 0
count_open-Older kind n [] a = refl
count_open-Older kind n (i ∷ is) (a, held) =
    let e : same i.kind kind && i.state == n ≡ false = ground arith in
    rw (e) (count_open-Older kind n is held)

-- What one reservation adds to the count.
abbrev pub counts : Text → ℕ → Item → ℕ
counts kind state i = if same i.kind kind && i.state == state then 1 else 0

pub count_open-cons :
    (kind : Text) (state : ℕ) (i : Item) (items : List Item)
    → count_open kind state (i ∷ items) ≡ counts kind state i + count_open kind state items
count_open-cons kind state i items = elim (Bool-cases (same i.kind kind && i.state == state)) [
  | inl e ↦ rw (e) (omega arith)
  | inr e ↦ rw (e) (omega arith)
]

counts-same :
    (kind : Text) (state : ℕ) (i j : Item)
    → same_item i j ≡ true
    → counts kind state i ≡ counts kind state j
counts-same kind state i j h = ground arith

pub count_open-remove :
    (kind : Text) (state : ℕ) (j : Item) (items : List Item)
    → any (same_item j) items ≡ true
    → count_open kind state items
      ≡ count_open kind state (remove_item j items) + counts kind state j
count_open-remove kind state j [] h = absurd (ground (arith, h))
count_open-remove kind state j (i ∷ is) h = elim (Bool-cases (same_item j i)) [
  | inl e ↦
      let one = count_open-cons kind state i is in
      let two = counts-same kind state j i e in rw (e) (omega (arith, one, two))
  | inr e ↦
      let one = count_open-cons kind state i is in
      let two = count_open-cons kind state i (remove_item j is) in
      let three = count_open-remove kind state j is (rw (e) at h) in
      rw (e) (omega (arith, one, two, three))
]
