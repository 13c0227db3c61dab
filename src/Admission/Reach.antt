-- ===== src/Admission/Reach.antt =====
-- The calls of the admission budget and the guard on its classes (apps/server/src/admission-budget.mjs).
use vidvnc.Base.{
  ℕ, ◌+◌, ◌≡◌, refl, ap, subst, Bool, not, ◌&&◌, ◌||◌, Option, none, some, List, [], ◌∷◌, Text, leb,
  length, take, arith, Bool-cases, Option-cases, inl, inr, codes,
}
use vidvnc.Base.Table.{get}
use vidvnc.Admission.State.{
  AdmissionBudget, Item, later, recent, bounded_row, reserve_rolling, reserve_identity, minute,
}
use vidvnc.Admission.Classes.{Purpose, finish_item}
use vidvnc.Admission.Requests.{
  KeyStart, SignIn, start_of, finish_all, is_closed, outcome_of, allows_purpose, finish_start,
  cancel_start, assign_identity, enter_scrypt, leave_scrypt,
}
use vidvnc.Admission.Counts.{Older-later, Guarded}
use vidvnc.Admission.Finishing.{finish_item-Guarded}
use vidvnc.Admission.Guesses.{Counted-later}

-- Only the windows and the clock differ.
abbrev pub Alike : AdmissionBudget → AdmissionBudget → Type 0
Alike b b' =
    (b'.classes ≡ b.classes)
    × (b'.unfinished ≡ b.unfinished)
    × (b'.next ≡ b.next)
    × (b'.active_scrypt ≡ b.active_scrypt)

pub Guarded-Alike : (b b' : AdmissionBudget) → Alike b b' → Guarded b → Guarded b'
Guarded-Alike b b' (one, two, three, four) g = record {
  classes-Counted = rw (one, two, three) g.classes-Counted;
  items-Older = rw (two, three) g.items-Older;
  scrypt-le = let le = g.scrypt-le in omega (arith, le, four);
}

pub some-first {ℓ κ} : {A : Type ℓ} {B : Type κ} {p q : A × B} → some p ≡ some q → p.0 ≡ q.0
some-first {p} {q} h = let one : p ≡ q = cc (h) in ap (λ x. x.0) one

reserve_identity-Alike :
    (b b' : AdmissionBudget) (kind identity : Text) (limit window first second : ℕ) (free : Bool)
    → reserve_identity b kind identity limit window first second ≡ some (b', free)
    → Alike b b'
unfolding reserve_identity
reserve_identity-Alike b b' kind identity limit window first second free h =
    elim (Option-cases (get kind b.rolling)) [
      | inl e ↦ absurd (cc ((rw (reserve_identity, e) at h)))
      | inr (w, e) ↦
          let now : ℕ = later b.last_now first in
          let (identities, times) = bounded_row b.max_sources w.identities (take 128 identity) [] in
          elim (Bool-cases (leb limit (length (recent times now window)))) [
            | inl f ↦
                subst (Alike b) (some-first (rw (reserve_identity, e, f) at h))
                  (refl, refl, refl, refl)
            | inr f ↦
                subst (Alike b) (some-first (rw (reserve_identity, e, f) at h))
                  (refl, refl, refl, refl)
          ]
    ]

pub assign_identity-Alike :
    (b b' : AdmissionBudget) (s s' : SignIn) (identity : Option Text) (first second : ℕ)
    (free : Bool)
    → assign_identity b s identity first second ≡ some (b', (s', free))
    → Alike b b'
unfolding assign_identity
assign_identity-Alike b b' s s' identity first second free h =
    let name : Text = elim identity [ none ↦ codes "unknown" | some id ↦ id ] in
    elim (Bool-cases (not s.allowed || s.assigned)) [
      | inl e ↦ subst (Alike b) (some-first (rw (assign_identity, e) at h)) (refl, refl, refl, refl)
      | inr e ↦ elim (Option-cases (reserve_identity b s.kind name 10 minute first second)) [
        | inl f ↦ absurd (cc ((rw (assign_identity, e, f) at h)))
        | inr ((b2, free2), f) ↦
            subst (Alike b) (some-first (rw (assign_identity, e, f) at h))
              (reserve_identity-Alike b b2 s.kind name 10 minute first second free2 f)
      ]
    ]

pub reserve_rolling-Alike :
    (is_ip : Text → ℕ) (b : AdmissionBudget) (kind source : Text)
    (global_limit source_limit window time : ℕ)
    → Alike b (reserve_rolling is_ip b kind source global_limit source_limit window time).0
unfolding reserve_rolling
reserve_rolling-Alike is_ip b kind source global_limit source_limit window time =
    (refl, refl, refl, refl)

pub enter_scrypt-Guarded :
    (b b' : AdmissionBudget) → enter_scrypt b ≡ some b' → Guarded b → Guarded b'
unfolding enter_scrypt
enter_scrypt-Guarded b b' h g = elim (Bool-cases (leb 4 b.active_scrypt)) [
  | inl e ↦ absurd (cc ((rw (enter_scrypt, e) at h)))
  | inr e ↦
      let there : some (record b { active_scrypt = b.active_scrypt + 1 }) ≡ some b' =
        rw (enter_scrypt, e) at h in
      let one : record b { active_scrypt = b.active_scrypt + 1 } ≡ b' = cc (there) in
      subst Guarded one (record {
        classes-Counted = g.classes-Counted;
        items-Older = g.items-Older;
        scrypt-le = ground (arith, e);
      })
]

pub leave_scrypt-Guarded : (b : AdmissionBudget) → Guarded b → Guarded (leave_scrypt b)
unfolding leave_scrypt
leave_scrypt-Guarded b g = record {
  classes-Counted = g.classes-Counted;
  items-Older = g.items-Older;
  scrypt-le = let le = g.scrypt-le in omega (arith, le);
}

pub start_of-Guarded :
    (b : AdmissionBudget) (is : List Item) → Guarded b → Guarded (start_of b is).0
start_of-Guarded b [] g = g
start_of-Guarded b (i ∷ is) g = record {
  classes-Counted = λ k w h.
      Counted-later b.next (b.next + 1) b.unfinished k w (omega arith) (g.classes-Counted k w h);
  items-Older = Older-later b.next (b.next + 1) b.unfinished (omega arith) g.items-Older;
  scrypt-le = g.scrypt-le;
}

finish_all-Guarded :
    (is : List Item) (outcome : Item → Option Bool) (b : AdmissionBudget)
    → Guarded b
    → Guarded (finish_all is outcome b)
unfolding finish_all
finish_all-Guarded [] outcome b g = g
finish_all-Guarded (i ∷ is) outcome b g =
    finish_all-Guarded is outcome (finish_item b i (outcome i))
      (finish_item-Guarded b i (outcome i) g)

closed-Guarded :
    (b : AdmissionBudget) (n : ℕ) → Guarded b → Guarded (record b { closed = n ∷ b.closed })
closed-Guarded b n g = record {
  classes-Counted = g.classes-Counted;
  items-Older = g.items-Older;
  scrypt-le = g.scrypt-le;
}

pub finish_start-Guarded :
    (b : AdmissionBudget) (s : KeyStart) (purpose : Purpose) (valid : Bool)
    → Guarded b
    → Guarded (finish_start b s purpose valid)
unfolding finish_start
finish_start-Guarded b s purpose valid g = elim (Bool-cases (is_closed b s)) [
  | inl e ↦ rw (finish_start, e) g
  | inr e ↦
      rw (finish_start, e)
        (finish_all-Guarded s.reserved (outcome_of (valid && allows_purpose s purpose) purpose)
          (record b { closed = s.serial ∷ b.closed }) (closed-Guarded b s.serial g))
]

pub cancel_start-Guarded :
    (b : AdmissionBudget) (s : KeyStart) → Guarded b → Guarded (cancel_start b s)
unfolding cancel_start
cancel_start-Guarded b s g = elim (Bool-cases (is_closed b s)) [
  | inl e ↦ rw (cancel_start, e) g
  | inr e ↦
      rw (cancel_start, e)
        (finish_all-Guarded s.reserved (λ i. none) (record b { closed = s.serial ∷ b.closed })
          (closed-Guarded b s.serial g))
]
