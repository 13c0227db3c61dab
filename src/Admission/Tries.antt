-- ===== src/Admission/Tries.antt =====
-- Any calls of the admission budget one after the other (apps/server/src/admission-budget.mjs).
use vidvnc.Base.{
  ℕ, ◌≤◌, ◌≡◌, subst, Bool, true, false, Option, none, some, ◌++◌, Text, arith, Bool-cases,
  Option-cases, Result-cases, inl, inr, codes,
}
use vidvnc.Base.Table.{get}
use vidvnc.Admission.State.{ClassState, AdmissionBudget, reserve_rolling, minute}
use vidvnc.Admission.Classes.{Policy, Purpose, reserve_class}
use vidvnc.Admission.Requests.{
  KeyStart, SignIn, to_list, reserve_both, begin_key_start, finish_start, cancel_start,
  assign_identity, begin_sign_in, begin_registration, begin_status, enter_scrypt, leave_scrypt,
  scoped,
}
use vidvnc.Admission.Counts.{Guarded, Counted}
use vidvnc.Admission.Guesses.{reserve_class-Guarded}
use vidvnc.Admission.Asked.{Request, key_start, sign_in, registration, status, ask, new_budget}
use vidvnc.Admission.Reach.{
  Guarded-Alike, assign_identity-Alike, reserve_rolling-Alike, some-first, enter_scrypt-Guarded,
  leave_scrypt-Guarded, start_of-Guarded, finish_start-Guarded, cancel_start-Guarded,
}

-- A call, or what the caller does with the result of one.
pub data Step (is_ip : Text → ℕ) : AdmissionBudget → AdmissionBudget → Type 0 where
  asked : {b : AdmissionBudget} → (q : Request) → Step is_ip b (ask is_ip b q).0
  identified :
      {b b' : AdmissionBudget}
      → (s s' : SignIn) → (identity : Option Text) → (first second : ℕ) → (free : Bool)
      → assign_identity b s identity first second ≡ some (b', (s', free))
      → Step is_ip b b'
  finished :
      {b : AdmissionBudget}
      → (s : KeyStart) → (purpose : Purpose) → (valid : Bool)
      → Step is_ip b (finish_start b s purpose valid)
  cancelled : {b : AdmissionBudget} → (s : KeyStart) → Step is_ip b (cancel_start b s)
  entered : {b b' : AdmissionBudget} → enter_scrypt b ≡ some b' → Step is_ip b b'
  left : {b : AdmissionBudget} → 1 ≤ b.active_scrypt → Step is_ip b (leave_scrypt b)

pub data Steps (is_ip : Text → ℕ) : AdmissionBudget → AdmissionBudget → Type 0 where
  here : {b : AdmissionBudget} → Steps is_ip b b
  next_is : {b b' b'' : AdmissionBudget} → Step is_ip b b' → Steps is_ip b' b'' → Steps is_ip b b''

module _ (is_ip : Text → ℕ) where
  rolling-Guarded :
      (b : AdmissionBudget) (kind source : Text) (global_limit source_limit window time : ℕ)
      → Guarded b
      → Guarded (reserve_rolling is_ip b kind source global_limit source_limit window time).0
  rolling-Guarded b kind source global_limit source_limit window time g =
      Guarded-Alike b (reserve_rolling is_ip b kind source global_limit source_limit window time).0
        (reserve_rolling-Alike is_ip b kind source global_limit source_limit window time) g

  reserve_both-Guarded :
      (b : AdmissionBudget) (source : Text) (ephemeral session : Option Policy)
      → Guarded b
      → Guarded (reserve_both is_ip b source ephemeral session).0
  unfolding reserve_both
  reserve_both-Guarded b source ephemeral session g =
      let (b1, first) = reserve_class is_ip b (codes "ephemeral") source ephemeral in
      let one = reserve_class-Guarded is_ip b (codes "ephemeral") source ephemeral g in
      let (b2, second) = reserve_class is_ip b1 (codes "session") source session in
      let two = reserve_class-Guarded is_ip b1 (codes "session") source session one in
      elim (Result-cases first) [
        | inr (x, e) ↦ rw (reserve_both, e) one
        | inl (i, e) ↦ elim (Result-cases second) [
          | inl (j, f) ↦ rw (reserve_both, e, f) (start_of-Guarded b2 (to_list i ++ to_list j) two)
          | inr (x, f) ↦ rw (reserve_both, e, f) two
        ]
      ]

  key_start-Guarded :
      (b : AdmissionBudget) (source : Text) (ephemeral session : Option Policy) (time : ℕ)
      → Guarded b
      → Guarded (begin_key_start is_ip b source ephemeral session time).0
  unfolding begin_key_start
  key_start-Guarded b source ephemeral session time g =
      let (b', free) = reserve_rolling is_ip b (codes "key-start") source 120 10 minute time in
      let one = rolling-Guarded b (codes "key-start") source 120 10 minute time g in
      elim (Bool-cases free) [
        | inr e ↦ rw (begin_key_start, e) one
        | inl e ↦ rw (begin_key_start, e) (reserve_both-Guarded b' source ephemeral session one)
      ]

  sign_in-Guarded :
      (b b' : AdmissionBudget) (source : Text) (client : Option Text) (internet : Bool)
      (time first second : ℕ) (s : SignIn) (free : Bool)
      → begin_sign_in is_ip b source client internet time first second ≡ some (b', (s, free))
      → Guarded b
      → Guarded b'
  unfolding begin_sign_in
  sign_in-Guarded b b' source none internet time first second s free h g =
      let one =
        rolling-Guarded b (scoped (codes "credentials") internet) source 600 10 minute time g in
      subst Guarded (some-first h) one
  sign_in-Guarded b b' source (some id) internet time first second s free h g =
      let kind : Text = scoped (codes "credentials") internet in
      let (rolled, allowed) = reserve_rolling is_ip b kind source 600 10 minute time in
      let one = rolling-Guarded b kind source 600 10 minute time g in
      elim (Bool-cases allowed) [
        | inr e ↦ subst Guarded (some-first (rw (begin_sign_in, e) at h)) one
        | inl e ↦
            Guarded-Alike rolled b'
              (assign_identity-Alike rolled b'
                (record { kind = kind; allowed = true; assigned = false }) s (some id) first second
                free (rw (begin_sign_in, e) at h))
              one
      ]

  ask-Guarded : (b : AdmissionBudget) (q : Request) → Guarded b → Guarded (ask is_ip b q).0
  unfolding ask begin_registration begin_status
  ask-Guarded b (key_start source ephemeral session time) g =
      key_start-Guarded b source ephemeral session time g
  ask-Guarded b (registration source internet time) g =
      rolling-Guarded b (scoped (codes "credentials") internet) source 600 10 minute time g
  ask-Guarded b (status source internet time) g =
      rolling-Guarded b (scoped (codes "status") internet) source 1200 60 minute time g
  ask-Guarded b (sign_in source client internet time first second) g =
      elim (Option-cases (begin_sign_in is_ip b source client internet time first second)) [
        | inl e ↦ rw (ask, e) g
        | inr ((b', (s, free)), e) ↦
            rw (ask, e) (sign_in-Guarded b b' source client internet time first second s free e g)
      ]

  Step-Guarded : {b b' : AdmissionBudget} → Step is_ip b b' → Guarded b → Guarded b'
  Step-Guarded {b} (asked q) g = ask-Guarded b q g
  Step-Guarded {b} {b'} (identified s s' identity first second free h) g =
      Guarded-Alike b b' (assign_identity-Alike b b' s s' identity first second free h) g
  Step-Guarded {b} (finished s purpose valid) g = finish_start-Guarded b s purpose valid g
  Step-Guarded {b} (cancelled s) g = cancel_start-Guarded b s g
  Step-Guarded {b} {b'} (entered h) g = enter_scrypt-Guarded b b' h g
  Step-Guarded {b} (left h) g = leave_scrypt-Guarded b g

  Steps-Guarded : {b b' : AdmissionBudget} → Steps is_ip b b' → Guarded b → Guarded b'
  Steps-Guarded here g = g
  Steps-Guarded (next_is s ss) g = Steps-Guarded ss (Step-Guarded s g)

  new_budget-Guarded : (max_sources : ℕ) → Guarded (new_budget max_sources)
  unfolding get
  new_budget-Guarded max_sources = record {
    classes-Counted = λ k w h. absurd (cc (h));
    items-Older = tt;
    scrypt-le = omega arith;
  }

  tries-Guarded :
      (max_sources : ℕ) (b : AdmissionBudget) → Steps is_ip (new_budget max_sources) b → Guarded b
  tries-Guarded max_sources b steps = Steps-Guarded steps (new_budget-Guarded max_sources)

  -- After any calls on a new budget, a class counts exactly the unfinished reservations of its
  -- generation as pending; these and the failures of the generation are 20 at most together. Its
  -- serial is below the next one.
  pub tries-Counted :
      (max_sources : ℕ) (b : AdmissionBudget) (kind : Text) (st : ClassState)
      → Steps is_ip (new_budget max_sources) b
      → get kind b.classes ≡ some st
      → Counted b.next b.unfinished kind st
  tries-Counted max_sources b kind st steps h =
      (tries-Guarded max_sources b steps).classes-Counted kind st h
