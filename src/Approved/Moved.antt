-- ===== src/Approved/Moved.antt =====
-- What becomes of the requests for access over the calls that the store gets
-- (apps/server/src/approved-clients.mjs).
use vidvnc.Base.{
  ℕ, ◌≡◌, refl, sym, subst, Bool, true, false, Option, List, Text, same, arith, inl, inr,
  Result-cases, Result,
}
use vidvnc.Approved.State.{
  Verifier, Denial, removal, downgrade, Operation, approving, connecting, removing, permitting,
  sweeping, Store, StoreError, invalidate,
}
use vidvnc.Approved.Registration.{Application, issue_ticket, begin_submit}
use vidvnc.Approved.Authentication.{Credentials, Check, begin_authenticate, end_authenticate}
use vidvnc.Approved.Calls.{
  Event, tickets, submits, submitted, claims, rejects, signs_in, signed_in, approves, connects,
  sweeps, removes, permits, advances, event,
}
use vidvnc.Approved.Advancing.{saved, advance-cases}
use vidvnc.Approved.Changes.{begin_change, end_change, after_sweep, advance, remove, set_permission}
use vidvnc.Approved.Sweeps.{begin_sweep, end_sweep, requests_of}
use vidvnc.Approved.Sweeps.{finish}
use vidvnc.Approved.Rights.{IfGiven}
use vidvnc.Approved.Life.{Act, entry, refusal, claiming, progress, other, Move, rest, phase}
use vidvnc.Approved.Moves.{
  own, reject-Move, grant-Move, delete_requests-Move, registration_status-Move, end_submit-Move,
}

-- The requests are as they were.
abbrev Requests : Store → Store → Type 0
Requests s s' = s'.pending ≡ s.pending

abbrev pub Moved : Act → Text → Store → Store → Type 0
Moved a id s s' = Move a (phase id s.pending) (phase id s'.pending)

Requests-Moved : (a : Act) (id : Text) (s s' : Store) → Requests s s' → Moved a id s s'
Requests-Moved a id s s' e = rw e rest

end_authenticate-Requests :
    (s : Store) (c : Check) (v : Result StoreError (Option Verifier)) (now : ℕ)
    → Requests s (end_authenticate s c v now).0
unfolding end_authenticate
end_authenticate-Requests s c v now = ground arith

invalidate-Requests : (s : Store) (k : Text) (kind : Denial) → Requests s (invalidate s k kind).0
unfolding invalidate
invalidate-Requests s k kind = ground arith

remove-Requests : (s : Store) (k : Text) → Requests s (remove s k).0
unfolding remove
remove-Requests s k = ground (arith, invalidate-Requests s k removal)

set_permission-Requests : (s : Store) (k name : Text) → Requests s (set_permission s k name).0
unfolding set_permission
set_permission-Requests s k name = ground (arith, invalidate-Requests s k downgrade)

begin_sweep-Requests : (s : Store) (now : ℕ) → Requests s (begin_sweep s now)
unfolding begin_sweep
begin_sweep-Requests s now = refl

end_sweep-Moved :
    (written : Bool) (id : Text) (s : Store) (ks : List Text) (now : ℕ)
    → Moved (progress written) id s (end_sweep s ks now)
unfolding end_sweep
end_sweep-Moved written id s ks now = delete_requests-Move written id ks s.pending

end_change-Moved :
    (id : Text) (s : Store) (op : Operation) (now : ℕ)
    → Moved (progress true) id s (end_change s op now).0
unfolding end_change
end_change-Moved id s (approving r client_id secret) now =
    grant-Move id r client_id secret s.pending
end_change-Moved id s (connecting k g) now = rest
end_change-Moved id s (removing k) now =
    delete_requests-Move true id (requests_of k s.pending) s.pending
end_change-Moved id s (permitting k p g) now =
    Requests-Moved (progress true) id s (end_change s (permitting k p g) now).0 (ground arith)
end_change-Moved id s sweeping now = rest

module _ (hash : Text → Text) where
  issue_ticket-Requests :
      (s : Store) (token : Text) (now : ℕ) → Requests s (issue_ticket hash s token now).0
  unfolding issue_ticket
  issue_ticket-Requests s token now = ground arith

  begin_submit-Requests :
      (s : Store) (a : Application) (now : ℕ) → Requests s (begin_submit hash s a now).0
  unfolding begin_submit
  begin_submit-Requests s a now = ground arith

  begin_authenticate-Requests :
      (is_ip : Text → ℕ) (s : Store) (c : Credentials) (key : Text) (now : ℕ)
      → Requests s (begin_authenticate is_ip hash s c key now).0
  unfolding begin_authenticate
  begin_authenticate-Requests is_ip s c key now = ground arith

  begin_change-Requests :
      (s : Store) (op : Operation) (now : ℕ) → IfGiven (Requests s) (begin_change hash s op now)
  unfolding begin_change
  begin_change-Requests s (approving id client_id secret) now = ground arith
  begin_change-Requests s (connecting id g) now = ground arith
  begin_change-Requests s (removing id) now = ground arith
  begin_change-Requests s (permitting id p g) now = ground arith
  begin_change-Requests s sweeping now = ground arith

  after_sweep-Requests :
      (s : Store) (op : Operation) (now : ℕ) → Requests s (after_sweep hash s op now).0
  after_sweep-Requests s op now = elim (Result-cases (begin_change hash s op now)) [
    | inr (e, q) ↦ rw (q, after_sweep) refl
    | inl (s', q) ↦
        let h = subst (IfGiven (Requests s)) q (begin_change-Requests s op now) in
        rw (q, after_sweep) (ground (arith, h))
  ]

  advance-Moved :
      (id : Text) (s : Store) (written : Bool) (now : ℕ)
      → Moved (progress written) id s (advance hash s written now).0
  advance-Moved id s written now =
      advance-cases hash s written now (λ r. Moved (progress written) id s r.0) (λ q. rest)
        (λ g.
          Requests-Moved (progress written) id s (begin_sweep s now) (begin_sweep-Requests s now))
        rest
        (λ op ops q g w.
          subst (λ v. Moved (progress v) id s (finish (end_change (saved s true) op now).0)) (sym w)
            (end_change-Moved id (saved s true) op now))
        (λ op ops ks wrote q g.
          let clean = end_sweep (saved s wrote) ks now in
          subst (λ p. Move (progress written) (phase id s.pending) (phase id p))
            (sym (after_sweep-Requests clean op now))
            (end_sweep-Moved written id (saved s wrote) ks now))

-- The call puts in a request with that identifier.
abbrev pub asks : Text → Event → Bool
asks id (submitted token t d v request_id claim now) = same request_id id
asks id (tickets token now) = false
asks id (submits a now) = false
asks id (claims r claim now) = false
asks id (rejects r now) = false
asks id (signs_in c key now) = false
asks id (signed_in c v now) = false
asks id (approves r k secret) = false
asks id (connects k g) = false
asks id sweeps = false
asks id (removes k) = false
asks id (permits k name) = false
asks id (advances written now) = false

-- What a call is to the request with that identifier.
unfoldable pub act : Text → Event → Act
act id (submitted token t d v request_id claim_token now) = own entry request_id id
act id (claims request_id claim_token now) = own claiming request_id id
act id (rejects request_id now) = own refusal request_id id
act id (advances written now) = progress written
act id (tickets token now) = other
act id (submits a now) = other
act id (signs_in c key now) = other
act id (signed_in c v now) = other
act id (approves r k secret) = other
act id (connects k g) = other
act id sweeps = other
act id (removes k) = other
act id (permits k name) = other

module _ (is_ip : Text → ℕ) (hash : Text → Text) where
  pub event-Moved :
      (id : Text) (s : Store) (e : Event) → Moved (act id e) id s (event is_ip hash s e)
  unfolding event act
  event-Moved id s (tickets token now) =
      Requests-Moved other id s (issue_ticket hash s token now).0
        (issue_ticket-Requests hash s token now)
  event-Moved id s (submits a now) =
      Requests-Moved other id s (begin_submit hash s a now).0 (begin_submit-Requests hash s a now)
  event-Moved id s (submitted token t d v r claim_token now) =
      end_submit-Move hash id s token t d v r claim_token now
  event-Moved id s (claims r claim_token now) = registration_status-Move hash id s r claim_token now
  event-Moved id s (rejects r now) = reject-Move id s r now
  event-Moved id s (signs_in c key now) =
      Requests-Moved other id s (begin_authenticate is_ip hash s c key now).0
        (begin_authenticate-Requests hash is_ip s c key now)
  event-Moved id s (signed_in c v now) =
      Requests-Moved other id s (end_authenticate s c v now).0 (end_authenticate-Requests s c v now)
  event-Moved id s (approves r k secret) = rest
  event-Moved id s (connects k g) = rest
  event-Moved id s sweeps = rest
  event-Moved id s (removes k) = Requests-Moved other id s (remove s k).0 (remove-Requests s k)
  event-Moved id s (permits k name) =
      Requests-Moved other id s (set_permission s k name).0 (set_permission-Requests s k name)
  event-Moved id s (advances written now) = advance-Moved hash id s written now
