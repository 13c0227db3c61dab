-- ===== src/Approved/Rights.antt =====
-- Which calls leave the clients' rights alone
-- (apps/server/src/approved-clients.mjs).
use vidvnc.Base.{
  ℕ, ◌≡◌, refl, subst, Option, List, Text, arith, inl, inr, Result-cases, Result, ok, err,
}
use vidvnc.Approved.State.{
  Verifier, Ticket, Operation, approving, connecting, removing, permitting, sweeping, Store,
  StoreError,
}
use vidvnc.Approved.Registration.{
  Application, Details, issue_ticket, begin_submit, end_submit, registration_status, reject,
}
use vidvnc.Approved.Authentication.{Credentials, Check, begin_authenticate, end_authenticate}
use vidvnc.Approved.Changes.{begin_change, after_sweep}
use vidvnc.Approved.Sweeps.{begin_sweep, end_sweep}

-- The generations and the denials are as they were.
abbrev pub Rights : Store → Store → Type 0
Rights s s' = (s'.generations ≡ s.generations) × (s'.denied ≡ s.denied)

abbrev pub IfGiven : (Store → Type 0) → Result StoreError Store → Type 0
IfGiven P (err e) = Unit
IfGiven P (ok s) = P s

pub reject-Rights : (s : Store) (id : Text) (now : ℕ) → Rights s (reject s id now).0
unfolding reject
reject-Rights s id now = ground arith

pub end_authenticate-Rights :
    (s : Store) (c : Check) (v : Result StoreError (Option Verifier)) (now : ℕ)
    → Rights s (end_authenticate s c v now).0
unfolding end_authenticate
end_authenticate-Rights s c v now = ground arith

module _ (hash : Text → Text) where
  pub issue_ticket-Rights :
      (s : Store) (token : Text) (now : ℕ) → Rights s (issue_ticket hash s token now).0
  unfolding issue_ticket
  issue_ticket-Rights s token now = ground arith

  pub begin_submit-Rights :
      (s : Store) (a : Application) (now : ℕ) → Rights s (begin_submit hash s a now).0
  unfolding begin_submit
  begin_submit-Rights s a now = ground arith

  pub end_submit-Rights :
      (s : Store) (token : Text) (t : Ticket) (d : Details) (v : Result StoreError Verifier)
      (id claim : Text) (now : ℕ)
      → Rights s (end_submit hash s token t d v id claim now).0
  unfolding end_submit
  end_submit-Rights s token t d v id claim now = ground arith

  pub registration_status-Rights :
      (s : Store) (id claim : Text) (now : ℕ) → Rights s (registration_status hash s id claim now).0
  unfolding registration_status
  registration_status-Rights s id claim now = ground arith

  pub begin_authenticate-Rights :
      (is_ip : Text → ℕ) (s : Store) (c : Credentials) (key : Text) (now : ℕ)
      → Rights s (begin_authenticate is_ip hash s c key now).0
  unfolding begin_authenticate
  begin_authenticate-Rights is_ip s c key now = ground arith

  pub begin_change-Rights :
      (s : Store) (op : Operation) (now : ℕ) → IfGiven (Rights s) (begin_change hash s op now)
  unfolding begin_change
  begin_change-Rights s (approving id client_id secret) now = ground arith
  begin_change-Rights s (connecting id g) now = ground arith
  begin_change-Rights s (removing id) now = ground arith
  begin_change-Rights s (permitting id p g) now = ground arith
  begin_change-Rights s sweeping now = ground arith

  pub after_sweep-Rights :
      (s : Store) (op : Operation) (now : ℕ) → Rights s (after_sweep hash s op now).0
  after_sweep-Rights s op now =
      let h = begin_change-Rights s op now in
      elim (Result-cases (begin_change hash s op now)) [
        | inr (e, q) ↦ rw (q, after_sweep) (refl, refl)
        | inl (s', q) ↦
            let h' = subst (IfGiven (Rights s)) q h in rw (q, after_sweep) (ground (arith, h'))
      ]

pub begin_sweep-Rights : (s : Store) (now : ℕ) → Rights s (begin_sweep s now)
unfolding begin_sweep
begin_sweep-Rights s now = (refl, refl)

pub end_sweep-Rights : (s : Store) (ks : List Text) (now : ℕ) → Rights s (end_sweep s ks now)
unfolding end_sweep
end_sweep-Rights s ks now = (refl, refl)
