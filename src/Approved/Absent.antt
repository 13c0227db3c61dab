-- ===== src/Approved/Absent.antt =====
-- A client that neither the store nor its file has stays away (apps/server/src/approved-clients.mjs).
use vidvnc.Base.{
  ℕ, ◌≡◌, refl, sym, ap, ◌∙◌, subst, Bool, true, false, not, List, [], ◌∷◌, Text, arith, inl, inr,
  ok, All, All-append,
}
use vidvnc.Approved.State.{
  Operation, approving, connecting, removing, permitting, sweeping, writing, Store,
}
use vidvnc.Approved.Sweeps.{is_unclaimed, finish, begin_sweep, end_sweep}
use vidvnc.Approved.Changes.{begin_change, end_change, after_sweep, advance}
use vidvnc.Approved.Rights.{IfGiven}
use vidvnc.Approved.Calls.{Event, event, run}
use vidvnc.Approved.Advancing.{saved, advance-cases}
use vidvnc.Approved.Listed.{has_client, makes, makes_client, Enqueued, has_client-keep}
use vidvnc.Approved.Queued.{event-cases}
use vidvnc.Approved.Written.{Before, begin_change-Before, begin_change-absent, after_sweep-cases}

-- Neither the store nor its file has the client, and nothing that waits makes it.
pub record IsAbsent (id : Text) (s : Store) : Type 0 where
  pub not_listed : has_client id s.clients ≡ false
  pub not_stored : has_client id s.disk ≡ false
  pub not_made : All (λ op. makes id op ≡ false) s.queue

Enqueued-IsAbsent :
    (id : Text) (e : Event) (s s' : Store)
    → makes_client id e ≡ false
    → Enqueued e s s'
    → IsAbsent id s
    → IsAbsent id s'
Enqueued-IsAbsent id e s s' m q h = record {
  not_listed = ap (has_client id) q.same_clients ∙ h.not_listed;
  not_stored = ap (has_client id) q.same_disk ∙ h.not_stored;
  not_made =
      subst (All (λ op. makes id op ≡ false)) (sym q.same_queue)
        (All-append (λ op. makes id op ≡ false) s.queue q.added h.not_made (q.apart id m));
}

pub All-rest :
    (id : Text) (ops : List Operation)
    → All (λ op. makes id op ≡ false) ops
    → All (λ op. makes id op ≡ false) (elim ops [ [] ↦ [] | op ∷ rest ↦ rest ])
All-rest id [] h = tt
All-rest id (op ∷ ops) (h, hs) = hs

pub finish-IsAbsent : (id : Text) (s : Store) → IsAbsent id s → IsAbsent id (finish s)
finish-IsAbsent id s h = record {
  not_listed = h.not_listed;
  not_stored = h.not_stored;
  not_made = All-rest id s.queue h.not_made;
}

-- A store whose clients are those of one without the client, or all but some.
same-IsAbsent :
    (id : Text) (s t : Store)
    → IsAbsent id s
    → has_client id t.clients ≡ false
    → has_client id t.disk ≡ false
    → t.queue ≡ s.queue
    → IsAbsent id t
same-IsAbsent id s t h one two three = record {
  not_listed = one;
  not_stored = two;
  not_made = subst (All (λ op. makes id op ≡ false)) (sym three) h.not_made;
}

begin_sweep-IsAbsent :
    (id : Text) (s : Store) (now : ℕ) → IsAbsent id s → IsAbsent id (begin_sweep s now)
unfolding begin_sweep
begin_sweep-IsAbsent id s now h =
    same-IsAbsent id s (begin_sweep s now) h
      (has_client-keep id (λ c. not (is_unclaimed s.pending now c.id)) s.clients h.not_listed)
      h.not_stored refl

saved-IsAbsent :
    (id : Text) (s : Store) (wrote : Bool) → IsAbsent id s → IsAbsent id (saved s wrote)
saved-IsAbsent id s true h = same-IsAbsent id s (saved s true) h h.not_listed h.not_listed refl
saved-IsAbsent id s false h = same-IsAbsent id s (saved s false) h h.not_listed h.not_stored refl

end_sweep-IsAbsent :
    (id : Text) (s : Store) (ks : List Text) (now : ℕ)
    → IsAbsent id s
    → IsAbsent id (end_sweep s ks now)
unfolding end_sweep
end_sweep-IsAbsent id s ks now h =
    same-IsAbsent id s (end_sweep s ks now) h h.not_listed h.not_stored refl

pub end_change-Kept_lists :
    (s : Store) (op : Operation) (now : ℕ)
    → ((end_change s op now).0.clients ≡ s.clients)
      × ((end_change s op now).0.disk ≡ s.disk)
      × ((end_change s op now).0.queue ≡ s.queue)
unfolding end_change
end_change-Kept_lists s (approving r client_id secret) now = (refl, refl, refl)
end_change-Kept_lists s (connecting k g) now = (refl, refl, refl)
end_change-Kept_lists s (removing k) now = (refl, refl, refl)
end_change-Kept_lists s (permitting k p g) now = ground arith
end_change-Kept_lists s sweeping now = (refl, refl, refl)

end_change-IsAbsent :
    (id : Text) (s : Store) (op : Operation) (now : ℕ)
    → IsAbsent id s
    → IsAbsent id (end_change s op now).0
end_change-IsAbsent id s op now h =
    let (one, two, three) = end_change-Kept_lists s op now in
    same-IsAbsent id s (end_change s op now).0 h (ap (has_client id) one ∙ h.not_listed)
      (ap (has_client id) two ∙ h.not_stored) three

head-apart :
    (id : Text) (ops rest : List Operation) (op : Operation)
    → ops ≡ op ∷ rest
    → All (λ o. makes id o ≡ false) ops
    → makes id op ≡ false
head-apart id ops rest op e h = (subst (All (λ o. makes id o ≡ false)) e h).0

after_sweep-IsAbsent :
    (hash : Text → Text) (id : Text) (s : Store) (op : Operation) (now : ℕ)
    → makes id op ≡ false
    → IsAbsent id s
    → IsAbsent id (after_sweep hash s op now).0
after_sweep-IsAbsent hash id s op now m h =
    let given : (s' : Store) → begin_change hash s op now ≡ ok s' → IsAbsent id s' = λ s' f.
      (let (queue, disk) = subst (IfGiven (Before s)) f (begin_change-Before hash s op now) in
        let listed =
          subst (IfGiven (λ t. has_client id t.clients ≡ false)) f
            (begin_change-absent hash id s op now m h.not_listed) in
        same-IsAbsent id s s' h listed (ap (has_client id) disk ∙ h.not_stored) queue) in
    after_sweep-cases hash s op now (IsAbsent id) (finish-IsAbsent id s h)
      (λ s' f. finish-IsAbsent id s' (given s' f))
      (λ s' f.
        let a = given s' f in
        same-IsAbsent id s' (record s' { stage = writing }) a a.not_listed a.not_stored refl)

advance-IsAbsent :
    (hash : Text → Text) (id : Text) (s : Store) (written : Bool) (now : ℕ)
    → IsAbsent id s
    → IsAbsent id (advance hash s written now).0
advance-IsAbsent hash id s written now h =
    advance-cases hash s written now (λ r. IsAbsent id r.0) (λ q. h)
      (λ g. begin_sweep-IsAbsent id s now h) (finish-IsAbsent id s h)
      (λ op ops q g w.
        finish-IsAbsent id (end_change (saved s true) op now).0
          (end_change-IsAbsent id (saved s true) op now (saved-IsAbsent id s true h)))
      (λ op ops ks wrote q g.
        after_sweep-IsAbsent hash id (end_sweep (saved s wrote) ks now) op now
          (head-apart id s.queue ops op q h.not_made)
          (end_sweep-IsAbsent id (saved s wrote) ks now (saved-IsAbsent id s wrote h)))

pub run-IsAbsent :
    (is_ip : Text → ℕ) (hash : Text → Text) (id : Text) (s : Store) (es : List Event)
    → All (λ e. makes_client id e ≡ false) es
    → IsAbsent id s
    → IsAbsent id (run is_ip hash s es)
unfolding run
run-IsAbsent is_ip hash id s [] ms h = h
run-IsAbsent is_ip hash id s (e ∷ es) (m, ms) h =
    let t = event is_ip hash s e in
    run-IsAbsent is_ip hash id t es ms (elim (event-cases is_ip hash s e) [
      | inl q ↦ Enqueued-IsAbsent id e s t m q h
      | inr (written, now, q) ↦
          subst (IsAbsent id) (sym q) (advance-IsAbsent hash id s written now h)
    ])
