-- ===== src/Approved/Collected.antt =====
-- The ways of the requests for access, and the secrets that they give (apps/server/src/approved-clients.mjs).
use vidvnc.Base.{
  ℕ, ◌≡◌, ◌≢◌, refl, Bool, true, false, Option, none, List, [], ◌∷◌, map, Text, arith, inl, inr,
  Option-cases, All,
}
use vidvnc.Base.Table.{get, get-set}
use vidvnc.Approved.State.{Store}
use vidvnc.Approved.Registration.{registration_status, approved_now}
use vidvnc.Approved.Calls.{
  Event, tickets, submits, submitted, claims, rejects, signs_in, signed_in, approves, connects,
  sweeps, removes, permits, advances, event, run,
}
use vidvnc.Approved.Life.{
  Phase, gone, asked, refused, granted, collected, Act, entry, refusal, claiming, progress, other,
  Move, rest, enter, refuse, approve, overrule, collect, forget, Way, here, then_on, phase,
}
use vidvnc.Approved.Moves.{state-cases}
use vidvnc.Approved.Moved.{asks, act, event-Moved}

module _ (is_ip : Text → ℕ) (hash : Text → Text) where
  -- Over any calls, each moves a request only as its part allows: only putting it in makes it wait, only its
  -- own refusal refuses it, and that only while it waits; only an operation of the queue whose write was made
  -- approves it, which may overrule a refusal; only a call for its secret collects it, once it is approved; and
  -- only the queue forgets it. No other call moves it.
  pub run-Way :
      (id : Text) (s : Store) (es : List Event)
      → Way (map (act id) es) (phase id s.pending) (phase id (run is_ip hash s es).pending)
  unfolding run
  run-Way id s [] = here
  run-Way id s (e ∷ es) =
      then_on (event-Moved is_ip hash id s e) (run-Way id (event is_ip hash s e) es)

-- Its secret is not there to be collected any more.
abbrev is_done : Phase → Bool
is_done gone = true
is_done asked = false
is_done refused = false
is_done granted = false
is_done collected = true

abbrev is_entry : Act → Bool
is_entry entry = true
is_entry refusal = false
is_entry claiming = false
is_entry (progress written) = false
is_entry other = false

Move-done :
    {a : Act} {p q : Phase} → Move a p q → is_entry a ≡ false → is_done p ≡ true → is_done q ≡ true
Move-done rest n h = h
Move-done enter n h = cc
Move-done refuse n h = cc
Move-done approve n h = cc
Move-done overrule n h = cc
Move-done collect n h = refl
Move-done forget n h = refl

act-asks : (id : Text) (e : Event) → asks id e ≡ false → is_entry (act id e) ≡ false
unfolding act
act-asks id (submitted token t d v request_id claim_token now) h = ground arith
act-asks id (claims request_id claim_token now) h = ground arith
act-asks id (rejects request_id now) h = ground arith
act-asks id (advances written now) h = refl
act-asks id (tickets token now) h = refl
act-asks id (submits a now) h = refl
act-asks id (signs_in c key now) h = refl
act-asks id (signed_in c v now) h = refl
act-asks id (approves r k secret) h = refl
act-asks id (connects k g) h = refl
act-asks id sweeps h = refl
act-asks id (removes k) h = refl
act-asks id (permits k name) h = refl

run-done :
    (is_ip : Text → ℕ) (hash : Text → Text) (id : Text) (s : Store) (es : List Event)
    → All (λ e. asks id e ≡ false) es
    → is_done (phase id s.pending) ≡ true
    → is_done (phase id (run is_ip hash s es).pending) ≡ true
unfolding run
run-done is_ip hash id s [] hs h = h
run-done is_ip hash id s (e ∷ es) (q, qs) h =
    run-done is_ip hash id (event is_ip hash s e) es qs
      (Move-done (event-Moved is_ip hash id s e) (act-asks id e q) h)

-- A secret is given for an approved request that is not collected, which it then is.
registration_status-granted :
    (hash : Text → Text) (s : Store) (id claim : Text) (now : ℕ) (client_id secret : Option Text)
    (username : Text)
    → (registration_status hash s id claim now).1 ≡ approved_now client_id secret username
    → (phase id s.pending ≡ granted)
      × (phase id (registration_status hash s id claim now).0.pending ≡ collected)
unfolding registration_status phase
registration_status-granted hash s id claim now client_id secret username h =
    elim (Option-cases (get id s.pending)) [
      | inl e ↦ absurd (ground (arith, e))
      | inr (r, e) ↦
          let law = get-set id id (record r { claimed = true; client_secret = none }) s.pending in
          elim (state-cases r.state) [
            | inl st ↦ absurd (ground (arith, e, st))
            | inr (inl st) ↦ absurd (ground (arith, e, st))
            | inr (inr st) ↦ ground (arith, e, st, law)
          ]
    ]

-- A request gives its secret once: when a call has given it, then whatever follows that does not put in the
-- request again, no call gives one for it.
pub registration_status-once :
    (is_ip : Text → ℕ) (hash : Text → Text) (s : Store) (id claim : Text) (now : ℕ)
    (client_id secret : Option Text) (username : Text)
    → (registration_status hash s id claim now).1 ≡ approved_now client_id secret username
    → (es : List Event) → All (λ e. asks id e ≡ false) es
    → (claim' : Text) (later : ℕ) (client_id' secret' : Option Text) (username' : Text)
    → (registration_status hash
        (run is_ip hash (registration_status hash s id claim now).0 es)
        id
        claim'
        later).1
      ≢ approved_now client_id' secret' username'
registration_status-once is_ip hash s id claim now client_id secret username h es hs claim' later
      client_id' secret' username' again =
    let t = (registration_status hash s id claim now).0 in
    let u = run is_ip hash t es in
    let (one, two) = registration_status-granted hash s id claim now client_id secret username h in
    let done = run-done is_ip hash id t es hs (rw two refl) in
    let (three, four) =
      registration_status-granted hash u id claim' later client_id' secret' username' again in
    absurd (ground (arith, three, done))
