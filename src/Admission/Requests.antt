-- ===== src/Admission/Requests.antt =====
-- apps/server/src/admission-budget.mjs: key starts, sign-ins, registrations, status polls and the
-- password hashings at a time.
use vidvnc.Base.{
  ℕ, ◌+◌, ◌-◌, Bool, true, false, not, ◌&&◌, ◌||◌, Option, none, some, List, [], ◌∷◌, ◌++◌, Text,
  codes, leb, ◌==◌, any, if◌then◌else◌, Result, ok, err,
}
use vidvnc.Admission.State.{Item, AdmissionBudget, minute, reserve_rolling, reserve_identity}
use vidvnc.Admission.Classes.{Policy, PolicyError, Purpose, accepts, reserve_class, finish_item}

-- What `beginKeyStart` returns with `ok: true`.
pub record KeyStart : Type 0 where
  pub serial : ℕ
  pub reserved : List Item

abbrev pub to_list : Option Item → List Item
to_list none = []
to_list (some i) = i ∷ []

-- `allowsPurpose`
abbrev pub allows_purpose : KeyStart → Purpose → Bool
allows_purpose s purpose = any (λ i. accepts i purpose) s.reserved

-- The result of `beginKeyStart`, of the two reservations.
abbrev pub start_of :
    AdmissionBudget → List Item → AdmissionBudget × Result PolicyError (Option KeyStart)
start_of b [] = (b, ok none)
start_of b (i ∷ is) =
    (record b { next = b.next + 1 }, ok (some (record { serial = b.next; reserved = i ∷ is })))

module _ (is_ip : Text → ℕ) where
  -- Both classes' reservations.
  unfoldable pub reserve_both :
      AdmissionBudget
      → Text
      → (ephemeral session : Option Policy) → AdmissionBudget × Result PolicyError (Option KeyStart)
  reserve_both b source ephemeral session =
      let (b1, first) = reserve_class is_ip b (codes "ephemeral") source ephemeral in
      let (b2, second) = reserve_class is_ip b1 (codes "session") source session in
      elim first [
        | err e ↦ (b1, err e)
        | ok i ↦ elim second [ err e ↦ (b2, err e) | ok j ↦ start_of b2 (to_list i ++ to_list j) ]
      ]

  -- `beginKeyStart`
  unfoldable pub begin_key_start :
      AdmissionBudget
      → Text
      → (ephemeral session : Option Policy) → ℕ
      → AdmissionBudget × Result PolicyError (Option KeyStart)
  begin_key_start b source ephemeral session time =
      let (rolled, free) = reserve_rolling is_ip b (codes "key-start") source 120 10 minute time in
      if free then reserve_both rolled source ephemeral session else (rolled, ok none)

unfoldable pub finish_all : List Item → (Item → Option Bool) → AdmissionBudget → AdmissionBudget
finish_all [] outcome b = b
finish_all (i ∷ is) outcome b = finish_all is outcome (finish_item b i (outcome i))

abbrev pub is_closed : AdmissionBudget → KeyStart → Bool
is_closed b s = any (λ n. n == s.serial) b.closed

abbrev pub outcome_of : Bool → Purpose → Item → Option Bool
outcome_of accepted purpose i =
    if accepted then (if accepts i purpose then some true else none) else some false

-- `finish(purpose, valid)` of a key start
unfoldable pub finish_start : AdmissionBudget → KeyStart → Purpose → Bool → AdmissionBudget
finish_start b s purpose valid =
    if is_closed b s
    then b
    else finish_all s.reserved (outcome_of (valid && allows_purpose s purpose) purpose)
        (record b { closed = s.serial ∷ b.closed })

-- `cancel()`
unfoldable pub cancel_start : AdmissionBudget → KeyStart → AdmissionBudget
cancel_start b s =
    if is_closed b s
    then b
    else finish_all s.reserved (λ i. none) (record b { closed = s.serial ∷ b.closed })

-- The kind of a request with a scope: `${name}:${scopeOf(options)}`
abbrev pub scoped : Text → Bool → Text
scoped name internet = name ++ (if internet then codes ":internet" else codes ":local")

-- What `beginSignIn` returns.
pub record SignIn : Type 0 where
  pub kind : Text
  pub allowed : Bool
  pub assigned : Bool

-- `assignIdentity`, of an identity or 'unknown'; `none` where the kind has no windows.
unfoldable pub assign_identity :
    AdmissionBudget
    → SignIn
    → Option Text
    → (first second : ℕ) → Option (AdmissionBudget × (SignIn × Bool))
assign_identity b s identity first second =
    let name : Text = elim identity [ none ↦ codes "unknown" | some id ↦ id ] in
    if not s.allowed || s.assigned
    then some (b, (s, false))
    else (elim (reserve_identity b s.kind name 10 minute first second) [
      | none ↦ none
      | some (b', free) ↦ some (b', (record s { assigned = true }, free))
    ])

module _ (is_ip : Text → ℕ) where
  -- `beginSignIn`, with the readings of the clock
  unfoldable pub begin_sign_in :
      AdmissionBudget
      → Text
      → Option Text
      → (internet : Bool) → (time first second : ℕ) → Option (AdmissionBudget × (SignIn × Bool))
  begin_sign_in b source client internet time first second =
      let kind = scoped (codes "credentials") internet in
      let (rolled, allowed) = reserve_rolling is_ip b kind source 600 10 minute time in
      let fresh : SignIn = record { kind = kind; allowed = allowed; assigned = false } in
      elim client [
        | none ↦ some (rolled, (fresh, allowed))
        | some id ↦
            if allowed
            then assign_identity rolled fresh (some id) first second
            else some (rolled, (fresh, false))
      ]

  -- `beginRegistration`
  unfoldable pub begin_registration : AdmissionBudget → Text → Bool → ℕ → AdmissionBudget × Bool
  begin_registration b source internet time =
      reserve_rolling is_ip b (scoped (codes "credentials") internet) source 600 10 minute time

  -- `beginStatus`
  unfoldable pub begin_status : AdmissionBudget → Text → Bool → ℕ → AdmissionBudget × Bool
  begin_status b source internet time =
      reserve_rolling is_ip b (scoped (codes "status") internet) source 1200 60 minute time

-- The start of `withScrypt`; `none` where it throws.
unfoldable pub enter_scrypt : AdmissionBudget → Option AdmissionBudget
enter_scrypt b =
    if leb 4 b.active_scrypt then none else some (record b { active_scrypt = b.active_scrypt + 1 })

-- Its `finally`.
unfoldable pub leave_scrypt : AdmissionBudget → AdmissionBudget
leave_scrypt b = record b { active_scrypt = b.active_scrypt - 1 }
