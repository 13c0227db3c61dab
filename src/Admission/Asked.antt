-- ===== src/Admission/Asked.antt =====
-- Histories of requests to the admission budget, with the times of those that it let through
-- (apps/server/src/admission-budget.mjs).
use vidvnc.Base.{
  ℕ, ◌≡◌, refl, Bool, true, false, ◌&&◌, ◌||◌, Option, none, some, List, [], ◌∷◌, Text, codes, same,
  if◌then◌else◌, arith, Bool-cases, inl, inr, Result, ok, err, dec_text,
}
use vidvnc.Base.Table.{get, get-set}
use vidvnc.Admission.State.{
  AdmissionBudget, Rolling, later, rolling_of, roll, reserve_rolling, minute,
}
use vidvnc.Admission.Classes.{Policy, PolicyError}
use vidvnc.Admission.Requests.{
  KeyStart, SignIn, begin_sign_in, begin_registration, begin_status, begin_key_start, reserve_both,
  scoped,
}
use vidvnc.Admission.Pace.{Follows, Follows-refl}
use vidvnc.Admission.Untouched.{Same-Follows, reserve_both-Same, assign_identity-cases}

pub data Request : Type 0 where
  key_start : (source : Text) (ephemeral session : Option Policy) (time : ℕ) → Request
  sign_in :
      (source : Text) (client : Option Text) (internet : Bool) (time first second : ℕ) → Request
  registration : (source : Text) (internet : Bool) (time : ℕ) → Request
  status : (source : Text) (internet : Bool) (time : ℕ) → Request

unfoldable pub kind_of : Request → Text
kind_of (key_start source ephemeral session time) = codes "key-start"
kind_of (sign_in source client internet time first second) = scoped (codes "credentials") internet
kind_of (registration source internet time) = scoped (codes "credentials") internet
kind_of (status source internet time) = scoped (codes "status") internet

abbrev pub time_of : Request → ℕ
time_of (key_start source ephemeral session time) = time
time_of (sign_in source client internet time first second) = time
time_of (registration source internet time) = time
time_of (status source internet time) = time

-- The global limit of a kind
unfoldable pub limit_of : Text → ℕ
limit_of kind =
    if same kind (codes "key-start")
    then 120
    else if same kind (codes "status:internet") || same kind (codes "status:local")
    then 1200
    else 600

abbrev is_started : Result PolicyError (Option KeyStart) → Bool
is_started (err e) = false
is_started (ok none) = false
is_started (ok (some s)) = true

abbrev pub source_of : Request → Text
source_of (key_start source ephemeral session time) = source
source_of (sign_in source client internet time first second) = source
source_of (registration source internet time) = source
source_of (status source internet time) = source

abbrev pub source_limit : Request → ℕ
source_limit (key_start source ephemeral session time) = 10
source_limit (sign_in source client internet time first second) = 10
source_limit (registration source internet time) = 10
source_limit (status source internet time) = 60

abbrev pub new_budget : ℕ → AdmissionBudget
new_budget max_sources = record {
  max_sources = max_sources;
  classes = [];
  rolling = [];
  last_now = 0;
  active_scrypt = 0;
  unfinished = [];
  closed = [];
  next = 0;
}

module _ (is_ip : Text → ℕ) where
  -- A request, and whether it is let through.
  unfoldable pub ask : AdmissionBudget → Request → AdmissionBudget × Bool
  unfolding begin_key_start begin_sign_in begin_registration begin_status
  ask b (key_start source ephemeral session time) =
      let (b', result) = begin_key_start is_ip b source ephemeral session time in
      (b', is_started result)
  ask b (sign_in source client internet time first second) =
      elim (begin_sign_in is_ip b source client internet time first second) [
        | none ↦ (b, false)
        | some (b', (s, free)) ↦ (b', free)
      ]
  ask b (registration source internet time) = begin_registration is_ip b source internet time
  ask b (status source internet time) = begin_status is_ip b source internet time

  -- The times at which the requests of a kind were let through, newest first.
  unfoldable pub admitted : Text → AdmissionBudget → List ℕ → List Request → List ℕ
  unfolding ask kind_of
  admitted kind b log [] = log
  admitted kind b log (q ∷ qs) =
      let (b', free) = ask b q in
      admitted kind b'
        (if free && same (kind_of q) kind then later b.last_now (time_of q) ∷ log else log) qs

  abbrev pub rolled : AdmissionBudget → Request → AdmissionBudget × Bool
  rolled b q =
      reserve_rolling is_ip b (kind_of q) (source_of q) (limit_of (kind_of q)) (source_limit q)
        minute (time_of q)

  -- A request whose windows let it through is let through or not; another is not.
  abbrev pub Asks : AdmissionBudget → Request → Type 0
  Asks b q = Follows (rolled b q).0 (ask b q).0 × ((ask b q).1 ≡ true → (rolled b q).1 ≡ true)

  -- The windows of a kind that has been asked for are there.
  reserve-known :
      (b : AdmissionBudget) (kind source : Text) (global_limit source_limit window time : ℕ)
      → (w : Rolling) × (get kind
            (reserve_rolling is_ip b kind source global_limit source_limit window time).0.rolling
          ≡ some w)
  unfolding reserve_rolling
  reserve-known b kind source global_limit source_limit window time =
      let now : ℕ = later b.last_now time in
      let w : Rolling =
        (roll is_ip b.max_sources (rolling_of b kind) source global_limit source_limit window
          now).0 in
      (w, ground (arith, get-set kind kind w b.rolling))

  pub sign_in-cases :
      (b : AdmissionBudget) (source : Text) (client : Option Text) (internet : Bool)
      (time first second : ℕ)
      → (b' : AdmissionBudget) × (s : SignIn) × (free : Bool) × (begin_sign_in is_ip b source client
            internet time first second
          ≡ some (b', (s, free)))
        × Follows
            (reserve_rolling is_ip b
              (scoped (codes "credentials") internet)
              source
              600
              10
              minute
              time).0
            b'
        × (free ≡ true
            → (reserve_rolling is_ip b
                (scoped (codes "credentials") internet)
                source
                600
                10
                minute
                time).1
              ≡ true)
  unfolding begin_sign_in
  sign_in-cases b source none internet time first second =
      let kind : Text = scoped (codes "credentials") internet in
      let (b', allowed) = reserve_rolling is_ip b kind source 600 10 minute time in
      (
        b',
        record { kind = kind; allowed = allowed; assigned = false },
        allowed,
        refl,
        Follows-refl b',
        λ e. e,
      )
  sign_in-cases b source (some id) internet time first second =
      let kind : Text = scoped (codes "credentials") internet in
      let (b', allowed) = reserve_rolling is_ip b kind source 600 10 minute time in
      let fresh : SignIn = record { kind = kind; allowed = allowed; assigned = false } in
      elim (Bool-cases allowed) [
        | inr e ↦ (
          b',
          record fresh { assigned = false },
          false,
          rw (begin_sign_in, e) refl,
          Follows-refl b',
          λ f. absurd (ground (arith, f)),
        )
        | inl e ↦
            let (w, known) = reserve-known b kind source 600 10 minute time in
            let (b2, s, free, f, g) =
              assign_identity-cases b' (record { kind = kind; allowed = true; assigned = false })
                (some id) first second w known in
            (b2, s, free, rw (begin_sign_in, e) f, g, λ h. e)
      ]

  key_start-Asks :
      (b : AdmissionBudget) (source : Text) (ephemeral session : Option Policy) (time : ℕ)
      → Asks b (key_start source ephemeral session time)
  unfolding ask kind_of limit_of begin_key_start dec_text
  key_start-Asks b source ephemeral session time =
      let (b', free) = reserve_rolling is_ip b (codes "key-start") source 120 10 minute time in
      elim (Bool-cases free) [
        | inr e ↦ rw (begin_key_start, e) (Follows-refl b', λ f. absurd (ground (arith, f)))
        | inl e ↦
            rw (begin_key_start, e)
              (
                Same-Follows b' (reserve_both is_ip b' source ephemeral session).0
                    (reserve_both-Same is_ip b' source ephemeral session),
                λ f. refl,
              )
      ]

  sign_in-Asks :
      (b : AdmissionBudget) (source : Text) (client : Option Text) (internet : Bool)
      (time first second : ℕ)
      → Asks b (sign_in source client internet time first second)
  unfolding ask kind_of limit_of dec_text
  sign_in-Asks b source client true time first second =
      let (b', s, free, e, f, g) = sign_in-cases b source client true time first second in
      rw (ask, e) (f, g)
  sign_in-Asks b source client false time first second =
      let (b', s, free, e, f, g) = sign_in-cases b source client false time first second in
      rw (ask, e) (f, g)

  pub ask-Asks : (b : AdmissionBudget) (q : Request) → Asks b q
  unfolding ask kind_of limit_of begin_registration begin_status dec_text
  ask-Asks b (key_start source ephemeral session time) =
      key_start-Asks b source ephemeral session time
  ask-Asks b (sign_in source client internet time first second) =
      sign_in-Asks b source client internet time first second
  ask-Asks b (registration source true time) =
      (Follows-refl (rolled b (registration source true time)).0, λ e. e)
  ask-Asks b (registration source false time) =
      (Follows-refl (rolled b (registration source false time)).0, λ e. e)
  ask-Asks b (status source true time) =
      (Follows-refl (rolled b (status source true time)).0, λ e. e)
  ask-Asks b (status source false time) =
      (Follows-refl (rolled b (status source false time)).0, λ e. e)
