-- ===== src/Approved/Written.antt =====
-- What an operation finds while the clients are written (apps/server/src/approved-clients.mjs).
use vidvnc.Base.{
  ℕ, ◌≡◌, ◌⊎◌, refl, sym, ◌∙◌, subst, Bool, true, false, not, some, List, [], ◌∷◌, ◌++◌, Text, same,
  arith, inl, inr, Option-cases, Result-cases, ok,
}
use vidvnc.Base.Table.{get}
use vidvnc.Approved.State.{
  Client, Operation, approving, connecting, removing, permitting, sweeping, Stage, waiting, swept,
  writing, Store,
}
use vidvnc.Approved.Sweeps.{finish, begin_sweep, end_sweep}
use vidvnc.Approved.Changes.{begin_change, after_sweep, advance, new_client}
use vidvnc.Approved.Rights.{IfGiven}
use vidvnc.Approved.Calls.{Event, event, run}
use vidvnc.Approved.Advancing.{saved, advance-cases}
use vidvnc.Approved.Listed.{
  has_client, makes, Enqueued, has_client-keep, has_client-removed, has_client-append,
  has_client-amend,
}
use vidvnc.Approved.Queued.{event-cases}

-- While a removal is written, its client is not among the clients; nothing is written where no operation
-- is under way.
abbrev pub Written : Stage → List Operation → List Client → Type 0
Written writing (removing id ∷ ops) cs = has_client id cs ≡ false
Written writing [] cs = true ≡ false
Written writing (approving r k secret ∷ ops) cs = Unit
Written writing (connecting k g ∷ ops) cs = Unit
Written writing (permitting k p g ∷ ops) cs = Unit
Written writing (sweeping ∷ ops) cs = Unit
Written waiting ops cs = Unit
Written (swept ks wrote) ops cs = Unit

unfoldable pub IsWritten : Store → Type 0
IsWritten s = Written s.stage s.queue s.clients

Written-append :
    (g : Stage) (ops added : List Operation) (cs : List Client)
    → Written g ops cs
    → Written g (ops ++ added) cs
Written-append writing (removing id ∷ ops) added cs h = h
Written-append writing [] added cs h = cc
Written-append writing (approving r k secret ∷ ops) added cs h = tt
Written-append writing (connecting k g ∷ ops) added cs h = tt
Written-append writing (permitting k p g ∷ ops) added cs h = tt
Written-append writing (sweeping ∷ ops) added cs h = tt
Written-append waiting ops added cs h = tt
Written-append (swept ks wrote) ops added cs h = tt

Enqueued-IsWritten : (e : Event) (s s' : Store) → Enqueued e s s' → IsWritten s → IsWritten s'
unfolding IsWritten
Enqueued-IsWritten e s s' q h =
    subst (λ g. Written g s'.queue s'.clients) (sym q.same_stage)
      (subst (λ ops. Written s.stage ops s'.clients) (sym q.same_queue)
        (subst (λ cs. Written s.stage (s.queue ++ q.added) cs) (sym q.same_clients)
          (Written-append s.stage s.queue q.added s.clients h)))

-- The operations and the file are as they were.
abbrev pub Before : Store → Store → Type 0
Before s s' = (s'.queue ≡ s.queue) × (s'.disk ≡ s.disk)

pub begin_change-Before :
    (hash : Text → Text) (s : Store) (op : Operation) (now : ℕ)
    → IfGiven (Before s) (begin_change hash s op now)
unfolding begin_change
begin_change-Before hash s (approving id client_id secret) now = ground arith
begin_change-Before hash s (connecting id g) now = ground arith
begin_change-Before hash s (removing id) now = ground arith
begin_change-Before hash s (permitting id p g) now = ground arith
begin_change-Before hash s sweeping now = ground arith

-- A removal takes its client away, and another operation adds none but its own.
begin_change-removed :
    (hash : Text → Text) (s : Store) (id : Text) (now : ℕ)
    → IfGiven (λ s'. has_client id s'.clients ≡ false) (begin_change hash s (removing id) now)
unfolding begin_change
begin_change-removed hash s id now = ground (arith, has_client-removed id s.clients)

pub begin_change-absent :
    (hash : Text → Text) (id : Text) (s : Store) (op : Operation) (now : ℕ)
    → makes id op ≡ false
    → has_client id s.clients ≡ false
    → IfGiven (λ s'. has_client id s'.clients ≡ false) (begin_change hash s op now)
unfolding begin_change
begin_change-absent hash id s (approving r k secret) now m h =
    elim (Option-cases (get r s.pending)) [
      | inl e ↦ ground (arith, e)
      | inr (row, e) ↦ elim (Option-cases row.password) [
        | inl f ↦ ground (arith, e, f)
        | inr (password, f) ↦
            let one =
              has_client-append id s.clients (new_client row password k (hash secret) now ∷ []) h
                (ground arith) in
            ground (arith, e, f, one)
      ]
    ]
begin_change-absent hash id s (connecting k g) now m h =
    let one =
      has_client-amend id k (λ c. record c { last_connected_at = some now }) s.clients
        (λ c. refl) in
    ground (arith, one)
begin_change-absent hash id s (removing k) now m h =
    let one = has_client-keep id (λ c. not (same c.id k)) s.clients h in ground (arith, one)
begin_change-absent hash id s (permitting k p g) now m h =
    let one = has_client-amend id k (λ c. record c { permission = p }) s.clients (λ c. refl) in
    ground (arith, one)
begin_change-absent hash id s sweeping now m h = ground arith

Written-head :
    (hash : Text → Text) (s : Store) (op : Operation) (ops : List Operation) (now : ℕ) (s' : Store)
    → begin_change hash s op now ≡ ok s'
    → Written writing (op ∷ ops) s'.clients
Written-head hash s (removing id) ops now s' e =
    subst (IfGiven (λ t. has_client id t.clients ≡ false)) e (begin_change-removed hash s id now)
Written-head hash s (approving r k secret) ops now s' e = tt
Written-head hash s (connecting k g) ops now s' e = tt
Written-head hash s (permitting k p g) ops now s' e = tt
Written-head hash s sweeping ops now s' e = tt

after_sweep-ok :
    (hash : Text → Text) (s : Store) (op : Operation) (now : ℕ) (s' : Store)
    → begin_change hash s op now ≡ ok s'
    → ((after_sweep hash s op now).0 ≡ finish s')
      ⊎ ((after_sweep hash s op now).0 ≡ record s' { stage = writing })
after_sweep-ok hash s (approving r k secret) now s' e = inr (ground (arith, e))
after_sweep-ok hash s (connecting k g) now s' e = inr (ground (arith, e))
after_sweep-ok hash s (removing k) now s' e = inr (ground (arith, e))
after_sweep-ok hash s (permitting k p g) now s' e = inr (ground (arith, e))
after_sweep-ok hash s sweeping now s' e = inl (ground (arith, e))

pub after_sweep-cases :
    (hash : Text → Text) (s : Store) (op : Operation) (now : ℕ) (P : Store → Type 0)
    → P (finish s)
    → ((s' : Store) → begin_change hash s op now ≡ ok s' → P (finish s'))
    → ((s' : Store) → begin_change hash s op now ≡ ok s' → P (record s' { stage = writing }))
    → P (after_sweep hash s op now).0
after_sweep-cases hash s op now P one two three = elim (Result-cases (begin_change hash s op now)) [
  | inr (x, f) ↦ rw (f, after_sweep) one
  | inl (s', f) ↦ elim (after_sweep-ok hash s op now s' f) [
    | inl e ↦ subst P (sym e) (two s' f)
    | inr e ↦ subst P (sym e) (three s' f)
  ]
]

after_sweep-IsWritten :
    (hash : Text → Text) (s : Store) (op : Operation) (ops : List Operation) (now : ℕ)
    → s.queue ≡ op ∷ ops
    → IsWritten (after_sweep hash s op now).0
unfolding IsWritten
after_sweep-IsWritten hash s op ops now q =
    after_sweep-cases hash s op now IsWritten tt (λ s' f. tt)
      (λ s' f.
        let (kept, disk) = subst (IfGiven (Before s)) f (begin_change-Before hash s op now) in
        subst (λ o. Written writing o s'.clients) (sym (kept ∙ q))
          (Written-head hash s op ops now s' f))

pub end_sweep-queue : (s : Store) (ks : List Text) (now : ℕ) → (end_sweep s ks now).queue ≡ s.queue
unfolding end_sweep
end_sweep-queue s ks now = refl

advance-IsWritten :
    (hash : Text → Text) (s : Store) (written : Bool) (now : ℕ)
    → IsWritten s
    → IsWritten (advance hash s written now).0
unfolding IsWritten begin_sweep
advance-IsWritten hash s written now h =
    advance-cases hash s written now (λ r. IsWritten r.0) (λ q. h) (λ g. tt) tt (λ op ops q g w. tt)
      (λ op ops ks wrote q g.
        after_sweep-IsWritten hash (end_sweep (saved s wrote) ks now) op ops now
          (end_sweep-queue (saved s wrote) ks now ∙ q))

pub run-IsWritten :
    (is_ip : Text → ℕ) (hash : Text → Text) (s : Store) (es : List Event)
    → IsWritten s
    → IsWritten (run is_ip hash s es)
unfolding run
run-IsWritten is_ip hash s [] h = h
run-IsWritten is_ip hash s (e ∷ es) h =
    let t = event is_ip hash s e in
    run-IsWritten is_ip hash t es (elim (event-cases is_ip hash s e) [
      | inl q ↦ Enqueued-IsWritten e s t q h
      | inr (written, now, q) ↦ subst IsWritten (sym q) (advance-IsWritten hash s written now h)
    ])
