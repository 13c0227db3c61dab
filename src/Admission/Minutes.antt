-- ===== src/Admission/Minutes.antt =====
-- How many requests of a kind get through in a minute, over any history
-- (apps/server/src/admission-budget.mjs).
use vidvnc.Base.{
  ℕ, ◌≤◌, ◌≡◌, refl, subst, Bool, true, false, ◌&&◌, Option, List, [], ◌∷◌, Text, same,
  if◌then◌else◌, arith, Bool-cases, inl, inr, dec_text, is_some,
}
use vidvnc.Base.Table.{get}
use vidvnc.Admission.State.{AdmissionBudget, recent, later, minute}
use vidvnc.Admission.Requests.{begin_sign_in}
use vidvnc.Admission.Windows.{Paced, Paced-later, count_in}
use vidvnc.Admission.Pace.{global_of, Follows, reserve-Paced_own, reserve-Paced_other}
use vidvnc.Admission.Asked.{
  Request, admitted, ask, ask-Asks, kind_of, limit_of, new_budget, rolled, sign_in-cases,
  source_limit, source_of, time_of,
}

Paced-Follows :
    (b b' : AdmissionBudget) (kind : Text) (limit : ℕ) (log : List ℕ)
    → Follows b b'
    → Paced limit minute b.last_now (global_of b kind) log
    → Paced limit minute b'.last_now (global_of b' kind) log
Paced-Follows b b' kind limit log f p =
    rw (f.same_windows kind)
      (Paced-later limit minute b.last_now b'.last_now (global_of b kind) log f.same_clock p)

module _ (is_ip : Text → ℕ) where
  ask-Paced_own :
      (b : AdmissionBudget) (q : Request) (log : List ℕ)
      → Paced (limit_of (kind_of q)) minute b.last_now (global_of b (kind_of q)) log
      → Paced
          (limit_of (kind_of q))
          minute
          (ask is_ip b q).0.last_now
          (global_of (ask is_ip b q).0 (kind_of q))
          (if (ask is_ip b q).1 && same (kind_of q) (kind_of q)
            then later b.last_now (time_of q) ∷ log
            else log)
  ask-Paced_own b q log p =
      let (follows, allowed) = ask-Asks is_ip b q in
      let done : AdmissionBudget = (rolled is_ip b q).0 in
      let after : AdmissionBudget = (ask is_ip b q).0 in
      let (out, through) =
        reserve-Paced_own is_ip b (kind_of q) (source_of q) (limit_of (kind_of q)) (source_limit q)
          minute (time_of q) log p in
      elim (Bool-cases (ask is_ip b q).1) [
        | inr e ↦
            let unlogged : (ask is_ip b q).1 && same (kind_of q) (kind_of q) ≡ false =
              rw (e) refl in
            rw (unlogged)
              (Paced-Follows done after (kind_of q) (limit_of (kind_of q)) log follows out)
        | inl e ↦
            let logged : (ask is_ip b q).1 && same (kind_of q) (kind_of q) ≡ true =
              ground (arith, e) in
            rw (logged) (
              Paced-Follows done after (kind_of q) (limit_of (kind_of q))
                (later b.last_now (time_of q) ∷ log) follows (through (allowed e)))
      ]

  ask-Paced :
      (b : AdmissionBudget) (q : Request) (kind : Text) (log : List ℕ)
      → Paced (limit_of kind) minute b.last_now (global_of b kind) log
      → Paced (limit_of kind) minute (ask is_ip b q).0.last_now (global_of (ask is_ip b q).0 kind) (
          if (ask is_ip b q).1 && same (kind_of q) kind
          then later b.last_now (time_of q) ∷ log
          else log)
  ask-Paced b q kind log p =
      let (follows, allowed) = ask-Asks is_ip b q in
      let done : AdmissionBudget = (rolled is_ip b q).0 in
      let after : AdmissionBudget = (ask is_ip b q).0 in
      elim (dec_text (kind_of q) kind) [
        | no ne ↦
            let e : same (kind_of q) kind ≡ false = ground (arith, ne) in
            let unasked =
              reserve-Paced_other is_ip b (kind_of q) kind (source_of q) (limit_of kind)
                (limit_of (kind_of q)) (source_limit q) minute minute (time_of q) log ne p in
            let one : (ask is_ip b q).1 && same (kind_of q) kind ≡ false = ground (arith, e) in
            rw (one) (Paced-Follows done after kind (limit_of kind) log follows unasked)
        | yes one ↦
            subst
              (λ (k : Text).
                Paced (limit_of k) minute b.last_now (global_of b k) log
                → Paced (limit_of k) minute after.last_now (global_of after k) (
                    if (ask is_ip b q).1 && same (kind_of q) k
                    then later b.last_now (time_of q) ∷ log
                    else log))
              one (ask-Paced_own b q log) p
      ]

  admitted-Paced :
      (b : AdmissionBudget) (qs : List Request) (kind : Text) (log : List ℕ) (from : ℕ)
      → Paced (limit_of kind) minute b.last_now (global_of b kind) log
      → count_in from minute (admitted is_ip kind b log qs) ≤ limit_of kind
  unfolding admitted
  admitted-Paced b [] kind log from p = p.bounded from
  admitted-Paced b (q ∷ qs) kind log from p =
      admitted-Paced (ask is_ip b q).0 qs kind
        (if (ask is_ip b q).1 && same (kind_of q) kind
          then later b.last_now (time_of q) ∷ log
          else log)
        from (ask-Paced b q kind log p)

  -- In any history of requests, no minute sees more of a kind let through than its global limit,
  -- wherever the minute begins: 120 key starts, 600 sign-ins and registrations of a scope together, and
  -- 1,200 status polls of a scope.
  pub admitted-le :
      (max_sources : ℕ) (qs : List Request) (kind : Text) (from : ℕ)
      → count_in from minute (admitted is_ip kind (new_budget max_sources) [] qs) ≤ limit_of kind
  unfolding get recent
  admitted-le max_sources qs kind from =
      admitted-Paced (new_budget max_sources) qs kind [] from
        (record { kept = λ t le. omega arith; past = tt; bounded = λ f. omega arith })

  -- At any budget the beginning of a sign-in returns: the identity of a client that it is given is looked up
  -- in windows that are there.
  pub begin_sign_in-some :
      (b : AdmissionBudget) (source : Text) (client : Option Text) (internet : Bool)
      (time first second : ℕ)
      → is_some (begin_sign_in is_ip b source client internet time first second) ≡ true
  begin_sign_in-some b source client internet time first second =
      let (b', s, free, e, f, g) = sign_in-cases is_ip b source client internet time first second in
      rw (e) refl
