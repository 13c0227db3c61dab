-- ===== src/Approved/Queued.antt =====
-- The calls that leave the clients and the operations before them alone (apps/server/src/approved-clients.mjs).
use vidvnc.Base.{
  ℕ, ◌≡◌, ◌⊎◌, refl, Bool, Option, Text, arith, inl, inr, Bool-cases, Option-cases, Result-cases,
  Result,
}
use vidvnc.Approved.State.{
  Verifier, Ticket, Denial, removal, downgrade, approving, connecting, removing, permitting,
  sweeping, Store, StoreError, invalidate, permission_of, was_removed,
}
use vidvnc.Approved.Registration.{
  Application, Details, issue_ticket, begin_submit, end_submit, registration_status, reject,
}
use vidvnc.Approved.Authentication.{Credentials, Check, begin_authenticate, end_authenticate}
use vidvnc.Approved.Changes.{advance, remove, set_permission}
use vidvnc.Approved.Calls.{
  Event, tickets, submits, submitted, claims, rejects, signs_in, signed_in, approves, connects,
  sweeps, removes, permits, advances, event,
}
use vidvnc.Approved.Listed.{Enqueued, Unmoved, Unmoved-Enqueued, enqueue-Enqueued}

reject-Unmoved : (s : Store) (id : Text) (now : ℕ) → Unmoved s (reject s id now).0
unfolding reject
reject-Unmoved s id now = ground arith

end_authenticate-Unmoved :
    (s : Store) (c : Check) (v : Result StoreError (Option Verifier)) (now : ℕ)
    → Unmoved s (end_authenticate s c v now).0
unfolding end_authenticate
end_authenticate-Unmoved s c v now = ground arith

invalidate-Unmoved : (s : Store) (k : Text) (kind : Denial) → Unmoved s (invalidate s k kind).0
unfolding invalidate
invalidate-Unmoved s k kind = ground arith

remove-Enqueued : (e : Event) (s : Store) (k : Text) → Enqueued e s (remove s k).0
unfolding remove
remove-Enqueued e s k =
    let (s', result) = invalidate s k removal in
    let h = invalidate-Unmoved s k removal in
    elim (Result-cases result) [
      | inr (x, q) ↦ rw (remove, q) (Unmoved-Enqueued e s s' h)
      | inl (g, q) ↦ rw (remove, q) (enqueue-Enqueued e s s' (removing k) h (λ id k. refl))
    ]

set_permission-Enqueued :
    (e : Event) (s : Store) (k name : Text) → Enqueued e s (set_permission s k name).0
unfolding set_permission
set_permission-Enqueued e s k name =
    let (s', result) = invalidate s k downgrade in
    let h = invalidate-Unmoved s k downgrade in
    let stays = Unmoved-Enqueued e s s (refl, refl, refl, refl) in
    elim (Option-cases (permission_of name)) [
      | inl none_such ↦ rw (set_permission, none_such) stays
      | inr (p, named) ↦ elim (Bool-cases (was_removed s k)) [
        | inl f ↦ rw (set_permission, named, f) stays
        | inr f ↦ elim (Result-cases result) [
          | inr (x, q) ↦ rw (set_permission, named, f, q) (Unmoved-Enqueued e s s' h)
          | inl (g, q) ↦
              rw (set_permission, named, f, q)
                (enqueue-Enqueued e s s' (permitting k p g) h (λ id k. refl))
        ]
      ]
    ]

module _ (hash : Text → Text) where
  issue_ticket-Unmoved :
      (s : Store) (token : Text) (now : ℕ) → Unmoved s (issue_ticket hash s token now).0
  unfolding issue_ticket
  issue_ticket-Unmoved s token now = ground arith

  begin_submit-Unmoved :
      (s : Store) (a : Application) (now : ℕ) → Unmoved s (begin_submit hash s a now).0
  unfolding begin_submit
  begin_submit-Unmoved s a now = ground arith

  end_submit-Unmoved :
      (s : Store) (token : Text) (t : Ticket) (d : Details) (v : Result StoreError Verifier)
      (id claim : Text) (now : ℕ)
      → Unmoved s (end_submit hash s token t d v id claim now).0
  unfolding end_submit
  end_submit-Unmoved s token t d v id claim now = ground arith

  registration_status-Unmoved :
      (s : Store) (id claim : Text) (now : ℕ)
      → Unmoved s (registration_status hash s id claim now).0
  unfolding registration_status
  registration_status-Unmoved s id claim now = ground arith

  begin_authenticate-Unmoved :
      (is_ip : Text → ℕ) (s : Store) (c : Credentials) (key : Text) (now : ℕ)
      → Unmoved s (begin_authenticate is_ip hash s c key now).0
  unfolding begin_authenticate
  begin_authenticate-Unmoved is_ip s c key now = ground arith

-- A call is a step of the operation under way, or it only queues operations.
pub event-cases :
    (is_ip : Text → ℕ) (hash : Text → Text) (s : Store) (e : Event)
    → Enqueued e s (event is_ip hash s e)
      ⊎ ((written : Bool) × (now : ℕ) × (event is_ip hash s e ≡ (advance hash s written now).0))
unfolding event
event-cases is_ip hash s (tickets token now) = inl (
    Unmoved-Enqueued (tickets token now) s (issue_ticket hash s token now).0
      (issue_ticket-Unmoved hash s token now))
event-cases is_ip hash s (submits a now) = inl (
    Unmoved-Enqueued (submits a now) s (begin_submit hash s a now).0
      (begin_submit-Unmoved hash s a now))
event-cases is_ip hash s (submitted token t d v r claim now) = inl (
    Unmoved-Enqueued (submitted token t d v r claim now) s
      (end_submit hash s token t d v r claim now).0
      (end_submit-Unmoved hash s token t d v r claim now))
event-cases is_ip hash s (claims r claim now) = inl (
    Unmoved-Enqueued (claims r claim now) s (registration_status hash s r claim now).0
      (registration_status-Unmoved hash s r claim now))
event-cases is_ip hash s (rejects r now) =
    inl (Unmoved-Enqueued (rejects r now) s (reject s r now).0 (reject-Unmoved s r now))
event-cases is_ip hash s (signs_in c key now) = inl (
    Unmoved-Enqueued (signs_in c key now) s (begin_authenticate is_ip hash s c key now).0
      (begin_authenticate-Unmoved hash is_ip s c key now))
event-cases is_ip hash s (signed_in c v now) = inl (
    Unmoved-Enqueued (signed_in c v now) s (end_authenticate s c v now).0
      (end_authenticate-Unmoved s c v now))
event-cases is_ip hash s (approves r k secret) = inl (
    enqueue-Enqueued (approves r k secret) s s (approving r k secret) (refl, refl, refl, refl)
      (λ id h. h))
event-cases is_ip hash s (connects k g) =
    inl
      (enqueue-Enqueued (connects k g) s s (connecting k g) (refl, refl, refl, refl) (λ id h. refl))
event-cases is_ip hash s sweeps =
    inl (enqueue-Enqueued sweeps s s sweeping (refl, refl, refl, refl) (λ id h. refl))
event-cases is_ip hash s (removes k) = inl (remove-Enqueued (removes k) s k)
event-cases is_ip hash s (permits k name) = inl (set_permission-Enqueued (permits k name) s k name)
event-cases is_ip hash s (advances written now) = inr (written, now, refl)
