-- ===== src/Approved/Withdrawn.antt =====
-- What the calls leave of the rights that were taken from a client
-- (apps/server/src/approved-clients.mjs).
use vidvnc.Base.{
  [], ◌∷◌, ℕ, ◌+◌, ◌≤◌, ◌==◌, ◌≡◌, refl, ◌∙◌, Bool, true, not, ◌&&◌, List, Text, same, arith, inl,
  inr, Bool-cases, Option-cases, Result-cases, any, if◌then◌else◌,
}
use vidvnc.Base.Table.{get-set, get-delete}
use vidvnc.Approved.State.{
  Operation, approving, connecting, removing, permitting, sweeping, Store, Denial, removal,
  downgrade, generation_of, was_removed, invalidate, permission_of,
}
use vidvnc.Approved.Registration.{
  issue_ticket, begin_submit, end_submit, registration_status, reject,
}
use vidvnc.Approved.Authentication.{begin_authenticate, end_authenticate}
use vidvnc.Approved.Calls.{
  Event, tickets, submits, submitted, claims, rejects, signs_in, signed_in, approves, connects,
  sweeps, removes, permits, advances, event, run,
}
use vidvnc.Approved.Advancing.{saved, advance-cases}
use vidvnc.Approved.Sweeps.{finish, begin_sweep, end_sweep}
use vidvnc.Approved.Changes.{end_change, after_sweep, advance, enqueue, remove, set_permission}
use vidvnc.Approved.Rights.{
  Rights, reject-Rights, end_authenticate-Rights, issue_ticket-Rights, begin_submit-Rights,
  end_submit-Rights, registration_status-Rights, begin_authenticate-Rights, after_sweep-Rights,
  begin_sweep-Rights, end_sweep-Rights,
}

-- A client's generation has not fallen, and its removal stays.
pub record Kept (id : Text) (s s' : Store) : Type 0 where
  pub risen : generation_of s id ≤ generation_of s' id
  pub removed : was_removed s id ≡ true → was_removed s' id ≡ true

pub Rights-Kept : (id : Text) (s s' : Store) → Rights s s' → Kept id s s'
Rights-Kept id s s' (g, d) = record { risen = rw g (omega arith); removed = λ h. rw d h }

pub Kept-refl : (id : Text) (s : Store) → Kept id s s
Kept-refl id s = record { risen = omega arith; removed = λ h. h }

pub Kept-trans : (id : Text) (s t u : Store) → Kept id s t → Kept id t u → Kept id s u
Kept-trans id s t u h k = record {
  risen = (let one = h.risen in let two = k.risen in omega arith);
  removed = λ r. k.removed (h.removed r);
}

invalidate-Kept : (id k : Text) (s : Store) (kind : Denial) → Kept id s (invalidate s k kind).0
unfolding invalidate
invalidate-Kept id k s kind = elim (Bool-cases (any (λ c. same c.id k) s.clients)) [
  | inr e ↦ rw (invalidate, e) (Kept-refl id s)
  | inl e ↦
      rw (invalidate, e)
        (record {
          risen =
              (let law = get-set id k (generation_of s k + 1) s.generations in ground (arith, law));
          removed = λ r.
              (let law = get-set id k (if was_removed s k then removal else kind) s.denied in
                ground (arith, law));
        })
]

end_change-Kept :
    (id : Text) (s : Store) (op : Operation) (now : ℕ) → Kept id s (end_change s op now).0
unfolding end_change
end_change-Kept id s (approving r client_id secret) now =
    Rights-Kept id s (end_change s (approving r client_id secret) now).0 (refl, refl)
end_change-Kept id s (connecting k g) now =
    Rights-Kept id s (end_change s (connecting k g) now).0 (refl, refl)
end_change-Kept id s (removing k) now =
    Rights-Kept id s (end_change s (removing k) now).0 (refl, refl)
end_change-Kept id s (permitting k p g) now =
    elim (Bool-cases (generation_of s k == g && not (was_removed s k))) [
      | inr e ↦ rw e (Kept-refl id s)
      | inl e ↦ rw e (record {
        risen = omega arith;
        removed = λ r. (let law = get-delete id k s.denied in ground (arith, law));
      })
    ]
end_change-Kept id s sweeping now = Rights-Kept id s (end_change s sweeping now).0 (refl, refl)

remove-Kept : (id : Text) (s : Store) (k : Text) → Kept id s (remove s k).0
unfolding remove
remove-Kept id s k =
    let (s', result) = invalidate s k removal in
    let h = invalidate-Kept id k s removal in
    elim (Result-cases result) [
      | inr (e, q) ↦ rw (remove, q) h
      | inl (g, q) ↦
          rw (remove, q)
            (Kept-trans id s s' (enqueue s' (removing k)) h
              (Rights-Kept id s' (enqueue s' (removing k)) (refl, refl)))
    ]

set_permission-Kept :
    (id : Text) (s : Store) (k name : Text) → Kept id s (set_permission s k name).0
unfolding set_permission
set_permission-Kept id s k name =
    let (s', result) = invalidate s k downgrade in
    let h = invalidate-Kept id k s downgrade in
    elim (Option-cases (permission_of name)) [
      | inl e ↦ rw (set_permission, e) (Kept-refl id s)
      | inr (p, e) ↦ elim (Bool-cases (was_removed s k)) [
        | inl f ↦ rw (set_permission, e, f) (Kept-refl id s)
        | inr f ↦ elim (Result-cases result) [
          | inr (x, q) ↦ rw (set_permission, e, f, q) h
          | inl (g, q) ↦
              rw (set_permission, e, f, q)
                (Kept-trans id s s' (enqueue s' (permitting k p g)) h
                  (Rights-Kept id s' (enqueue s' (permitting k p g)) (refl, refl)))
        ]
      ]
    ]

module _ (is_ip : Text → ℕ) (hash : Text → Text) where
  advance-Kept :
      (id : Text) (s : Store) (written : Bool) (now : ℕ) → Kept id s (advance hash s written now).0
  advance-Kept id s written now =
      advance-cases hash s written now (λ r. Kept id s r.0) (λ q. Kept-refl id s)
        (λ g. Rights-Kept id s (begin_sweep s now) (begin_sweep-Rights s now))
        (Rights-Kept id s (finish s) (refl, refl))
        (λ op ops q g w.
          let ended = (end_change (saved s true) op now).0 in
          Kept-trans id s ended (finish ended)
            (Kept-trans id s (saved s true) ended (Rights-Kept id s (saved s true) (refl, refl))
              (end_change-Kept id (saved s true) op now))
            (Rights-Kept id ended (finish ended) (refl, refl)))
        (λ op ops ks wrote q g.
          let clean = end_sweep (saved s wrote) ks now in
          let (one, two) = after_sweep-Rights hash clean op now in
          let (three, four) = end_sweep-Rights (saved s wrote) ks now in
          Rights-Kept id s (after_sweep hash clean op now).0 (one ∙ three, two ∙ four))

  event-Kept : (id : Text) (s : Store) (e : Event) → Kept id s (event is_ip hash s e)
  unfolding event
  event-Kept id s (tickets token now) =
      Rights-Kept id s (issue_ticket hash s token now).0 (issue_ticket-Rights hash s token now)
  event-Kept id s (submits a now) =
      Rights-Kept id s (begin_submit hash s a now).0 (begin_submit-Rights hash s a now)
  event-Kept id s (submitted token t d v r claim now) =
      Rights-Kept id s (end_submit hash s token t d v r claim now).0
        (end_submit-Rights hash s token t d v r claim now)
  event-Kept id s (claims r claim now) =
      Rights-Kept id s (registration_status hash s r claim now).0
        (registration_status-Rights hash s r claim now)
  event-Kept id s (rejects r now) = Rights-Kept id s (reject s r now).0 (reject-Rights s r now)
  event-Kept id s (signs_in c key now) =
      Rights-Kept id s (begin_authenticate is_ip hash s c key now).0
        (begin_authenticate-Rights hash is_ip s c key now)
  event-Kept id s (signed_in c v now) =
      Rights-Kept id s (end_authenticate s c v now).0 (end_authenticate-Rights s c v now)
  event-Kept id s (approves r k secret) =
      Rights-Kept id s (enqueue s (approving r k secret)) (refl, refl)
  event-Kept id s (connects k g) = Rights-Kept id s (enqueue s (connecting k g)) (refl, refl)
  event-Kept id s sweeps = Rights-Kept id s (enqueue s sweeping) (refl, refl)
  event-Kept id s (removes k) = remove-Kept id s k
  event-Kept id s (permits k name) = set_permission-Kept id s k name
  event-Kept id s (advances written now) = advance-Kept id s written now

  pub run-Kept : (id : Text) (s : Store) (es : List Event) → Kept id s (run is_ip hash s es)
  unfolding run
  run-Kept id s [] = Kept-refl id s
  run-Kept id s (e ∷ es) =
      let t = event is_ip hash s e in
      Kept-trans id s t (run is_ip hash t es) (event-Kept id s e) (run-Kept id t es)
