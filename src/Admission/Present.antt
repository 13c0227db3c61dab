-- ===== src/Admission/Present.antt =====
-- The windows that are there stay, and the identities that are looked up in them
-- (apps/server/src/admission-budget.mjs).
use vidvnc.Base.{
  ℕ, ◌≡◌, refl, ap, ◌∙◌, sym, subst, Bool, true, false, Option, none, some, Text, codes, arith,
  Bool-cases, Option-cases, inl, inr, is_some,
}
use vidvnc.Base.Table.{get, get-set}
use vidvnc.Admission.State.{
  AdmissionBudget, Rolling, later, reserve_rolling, rolling_of, roll, minute,
}
use vidvnc.Admission.Classes.{Policy}
use vidvnc.Admission.Requests.{
  SignIn, assign_identity, begin_key_start, begin_sign_in, begin_registration, begin_status,
  enter_scrypt, leave_scrypt, scoped,
}
use vidvnc.Admission.Asked.{Request, key_start, sign_in, registration, status, ask}
use vidvnc.Admission.Untouched.{reserve_both-Same, assign_identity-cases}
use vidvnc.Admission.Reach.{some-first}
use vidvnc.Admission.Tries.{
  Step, asked, identified, finished, cancelled, entered, left, Steps, here, next_is,
}
use vidvnc.Admission.Kept.{
  IsPresent, finish_start-rolling, cancel_start-rolling, assign_identity-IsPresent,
}

module _ (is_ip : Text → ℕ) where
  reserve_rolling-IsPresent :
      (b : AdmissionBudget) (kind source : Text) (global_limit source_limit window time : ℕ)
      (k : Text)
      → IsPresent k b
      → IsPresent k (reserve_rolling is_ip b kind source global_limit source_limit window time).0
  unfolding reserve_rolling
  reserve_rolling-IsPresent b kind source global_limit source_limit window time k p =
      let w : Rolling =
        (roll is_ip b.max_sources (rolling_of b kind) source global_limit source_limit window
          (later b.last_now time)).0 in
      ground (arith, p, get-set k kind w b.rolling)

  reserve_rolling_there :
      (b : AdmissionBudget) (kind source : Text) (global_limit source_limit window time : ℕ)
      → IsPresent kind (reserve_rolling is_ip b kind source global_limit source_limit window time).0
  unfolding reserve_rolling
  reserve_rolling_there b kind source global_limit source_limit window time =
      let w : Rolling =
        (roll is_ip b.max_sources (rolling_of b kind) source global_limit source_limit window
          (later b.last_now time)).0 in
      ground (arith, get-set kind kind w b.rolling)

  begin_key_start-IsPresent :
      (b : AdmissionBudget) (source : Text) (ephemeral session : Option Policy) (time : ℕ)
      (k : Text)
      → IsPresent k b
      → IsPresent k (begin_key_start is_ip b source ephemeral session time).0
  unfolding begin_key_start
  begin_key_start-IsPresent b source ephemeral session time k p =
      let (b', free) = reserve_rolling is_ip b (codes "key-start") source 120 10 minute time in
      let one = reserve_rolling-IsPresent b (codes "key-start") source 120 10 minute time k p in
      elim (Bool-cases free) [
        | inr e ↦ rw (begin_key_start, e) one
        | inl e ↦
            let (same_windows, _) = reserve_both-Same is_ip b' source ephemeral session in
            rw (begin_key_start, e) (ap (λ t. is_some (get k t)) same_windows ∙ one)
      ]

  -- What a sign-in leaves has the windows that were there, and those of its own kind.
  begin_sign_in-IsPresent :
      (b b' : AdmissionBudget) (source : Text) (client : Option Text) (internet : Bool)
      (time first second : ℕ) (s : SignIn) (free : Bool)
      → begin_sign_in is_ip b source client internet time first second ≡ some (b', (s, free))
      → (k : Text)
      → IsPresent k
          (reserve_rolling is_ip b
            (scoped (codes "credentials") internet)
            source
            600
            10
            minute
            time).0
      → IsPresent k b'
  unfolding begin_sign_in
  begin_sign_in-IsPresent b b' source none internet time first second s free h k p =
      subst (IsPresent k) (some-first h) p
  begin_sign_in-IsPresent b b' source (some id) internet time first second s free h k p =
      let kind : Text = scoped (codes "credentials") internet in
      let (rolled, allowed) = reserve_rolling is_ip b kind source 600 10 minute time in
      elim (Bool-cases allowed) [
        | inr e ↦ subst (IsPresent k) (some-first (rw (begin_sign_in, e) at h)) p
        | inl e ↦
            assign_identity-IsPresent rolled b'
              (record { kind = kind; allowed = true; assigned = false }) s (some id) first second
              free k (rw (begin_sign_in, e) at h) p
      ]

  begin_sign_in-kind :
      (b b' : AdmissionBudget) (source : Text) (client : Option Text) (internet : Bool)
      (time first second : ℕ) (s : SignIn) (free : Bool)
      → begin_sign_in is_ip b source client internet time first second ≡ some (b', (s, free))
      → s.kind ≡ scoped (codes "credentials") internet
  unfolding begin_sign_in assign_identity
  begin_sign_in-kind b b' source none internet time first second s free h = ground arith
  begin_sign_in-kind b b' source (some id) internet time first second s free h = ground arith

  ask-IsPresent :
      (b : AdmissionBudget) (q : Request) (k : Text) → IsPresent k b → IsPresent k (ask is_ip b q).0
  unfolding ask begin_registration begin_status
  ask-IsPresent b (key_start source ephemeral session time) k p =
      begin_key_start-IsPresent b source ephemeral session time k p
  ask-IsPresent b (registration source internet time) k p =
      reserve_rolling-IsPresent b (scoped (codes "credentials") internet) source 600 10 minute time
        k p
  ask-IsPresent b (status source internet time) k p =
      reserve_rolling-IsPresent b (scoped (codes "status") internet) source 1200 60 minute time k p
  ask-IsPresent b (sign_in source client internet time first second) k p =
      elim (Option-cases (begin_sign_in is_ip b source client internet time first second)) [
        | inl e ↦ rw (ask, e) p
        | inr ((b', (s, free)), e) ↦
            rw (ask, e)
              (begin_sign_in-IsPresent b b' source client internet time first second s free e k (
                reserve_rolling-IsPresent b (scoped (codes "credentials") internet) source 600 10
                  minute time k p))
      ]

  Step-IsPresent :
      {b b' : AdmissionBudget} (k : Text) → Step is_ip b b' → IsPresent k b → IsPresent k b'
  unfolding enter_scrypt leave_scrypt
  Step-IsPresent {b} k (asked q) p = ask-IsPresent b q k p
  Step-IsPresent {b} {b'} k (identified s s' identity first second free h) p =
      assign_identity-IsPresent b b' s s' identity first second free k h p
  Step-IsPresent {b} k (finished s purpose valid) p =
      ap (λ t. is_some (get k t)) (finish_start-rolling b s purpose valid) ∙ p
  Step-IsPresent {b} k (cancelled s) p = ap (λ t. is_some (get k t)) (cancel_start-rolling b s) ∙ p
  Step-IsPresent {b} {b'} k (entered h) p = ground arith
  Step-IsPresent {b} k (left h) p = p

  Steps-IsPresent :
      {b b' : AdmissionBudget} (k : Text) → Steps is_ip b b' → IsPresent k b → IsPresent k b'
  Steps-IsPresent k here p = p
  Steps-IsPresent k (next_is s ss) p = Steps-IsPresent k ss (Step-IsPresent k s p)

  assign_identity_present :
      (b : AdmissionBudget) (s : SignIn) (identity : Option Text) (first second : ℕ)
      → IsPresent s.kind b
      → is_some (assign_identity b s identity first second) ≡ true
  assign_identity_present b s identity first second p = elim (Option-cases (get s.kind b.rolling)) [
    | inl e ↦ absurd (ground (arith, e, p))
    | inr (w, e) ↦
        let (b', s', free, q, f) = assign_identity-cases b s identity first second w e in
        rw (q) refl
  ]

  -- Once a sign-in has begun, then after any further calls, when its identity is assigned, whether for the
  -- first time or again, the windows that it is looked up in are there: the call returns.
  pub assign_identity-some :
      (b b' b'' : AdmissionBudget) (source : Text) (client : Option Text) (internet : Bool)
      (time first second : ℕ) (s : SignIn) (free : Bool)
      → begin_sign_in is_ip b source client internet time first second ≡ some (b', (s, free))
      → Steps is_ip b' b''
      → (assigned : Bool) (identity : Option Text) (first' second' : ℕ)
      → is_some (assign_identity b'' (record s { assigned = assigned }) identity first' second')
        ≡ true
  assign_identity-some b b' b'' source client internet time first second s free h steps assigned
        identity first' second' =
      let kind : Text = scoped (codes "credentials") internet in
      let at = begin_sign_in-kind b b' source client internet time first second s free h in
      let there =
        begin_sign_in-IsPresent b b' source client internet time first second s free h kind
          (reserve_rolling_there b kind source 600 10 minute time) in
      assign_identity_present b'' (record s { assigned = assigned }) identity first' second'
        (subst (λ k. IsPresent k b'') (sym at) (Steps-IsPresent kind steps there))
