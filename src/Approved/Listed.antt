-- ===== src/Approved/Listed.antt =====
-- Which clients the store and its file have over the calls (apps/server/src/approved-clients.mjs).
use vidvnc.Base.{
  ◌≡◌, refl, sym, ap, ◌∙◌, Bool, false, not, List, [], ◌∷◌, ◌++◌, Text, same, arith, All, any, keep,
}
use vidvnc.Approved.State.{
  Client, Operation, approving, connecting, removing, permitting, sweeping, Store,
}
use vidvnc.Approved.Sweeps.{amend}
use vidvnc.Approved.Changes.{enqueue}
use vidvnc.Approved.Calls.{
  Event, tickets, submits, submitted, claims, rejects, signs_in, signed_in, approves, connects,
  sweeps, removes, permits, advances,
}

abbrev pub has_client : Text → List Client → Bool
has_client id cs = any (λ c. same c.id id) cs

pub has_client-keep :
    (id : Text) (p : Client → Bool) (cs : List Client)
    → has_client id cs ≡ false
    → has_client id (keep p cs) ≡ false
has_client-keep id p [] h = refl
has_client-keep id p (c ∷ cs) h = ground (arith, has_client-keep id p cs)

pub has_client-removed :
    (id : Text) (cs : List Client) → has_client id (keep (λ c. not (same c.id id)) cs) ≡ false
has_client-removed id [] = refl
has_client-removed id (c ∷ cs) = ground (arith, has_client-removed id cs)

pub has_client-append :
    (id : Text) (cs ds : List Client)
    → has_client id cs ≡ false
    → has_client id ds ≡ false
    → has_client id (cs ++ ds) ≡ false
has_client-append id [] ds h k = k
has_client-append id (c ∷ cs) ds h k = ground (arith, has_client-append id cs ds)

pub has_client-amend :
    (id k : Text) (f : Client → Client) (cs : List Client)
    → ((c : Client) → (f c).id ≡ c.id)
    → has_client id (amend f k cs) ≡ has_client id cs
unfolding amend
has_client-amend id k f [] h = refl
has_client-amend id k f (c ∷ cs) h =
    let one = h c in ground (arith, has_client-amend id k f cs h, one)

-- The operation makes a client with that identifier.
abbrev pub makes : Text → Operation → Bool
makes id (approving r k secret) = same k id
makes id (connecting k g) = false
makes id (removing k) = false
makes id (permitting k p g) = false
makes id sweeping = false

abbrev pub makes_client : Text → Event → Bool
makes_client id (approves r k secret) = same k id
makes_client id (submitted token t d v r claim now) = false
makes_client id (tickets token now) = false
makes_client id (submits a now) = false
makes_client id (claims r claim now) = false
makes_client id (rejects r now) = false
makes_client id (signs_in c key now) = false
makes_client id (signed_in c v now) = false
makes_client id (connects k g) = false
makes_client id sweeps = false
makes_client id (removes k) = false
makes_client id (permits k name) = false
makes_client id (advances written now) = false

-- The clients, the file and the operations are as they were, but for operations that wait at the end.
pub record Enqueued (e : Event) (s s' : Store) : Type 0 where
  pub same_clients : s'.clients ≡ s.clients
  pub same_disk : s'.disk ≡ s.disk
  pub same_stage : s'.stage ≡ s.stage
  pub added : List Operation
  pub same_queue : s'.queue ≡ s.queue ++ added
  pub apart : (id : Text) → makes_client id e ≡ false → All (λ op. makes id op ≡ false) added

abbrev pub Unmoved : Store → Store → Type 0
Unmoved s s' =
    (s'.clients ≡ s.clients) × (s'.disk ≡ s.disk) × (s'.stage ≡ s.stage) × (s'.queue ≡ s.queue)

append_nothing : (ops : List Operation) → ops ++ [] ≡ ops
append_nothing [] = refl
append_nothing (op ∷ ops) = ap (◌∷◌ op) (append_nothing ops)

pub Unmoved-Enqueued : (e : Event) (s s' : Store) → Unmoved s s' → Enqueued e s s'
Unmoved-Enqueued e s s' (one, two, three, four) = record {
  same_clients = one;
  same_disk = two;
  same_stage = three;
  added = [];
  same_queue = four ∙ sym (append_nothing s.queue);
  apart = λ id h. tt;
}

pub enqueue-Enqueued :
    (e : Event) (s s' : Store) (op : Operation)
    → Unmoved s s'
    → ((id : Text) → makes_client id e ≡ false → makes id op ≡ false)
    → Enqueued e s (enqueue s' op)
enqueue-Enqueued e s s' op (one, two, three, four) h = record {
  same_clients = one;
  same_disk = two;
  same_stage = three;
  added = op ∷ [];
  same_queue = ap (λ q. q ++ op ∷ []) four;
  apart = λ id k. (h id k, tt);
}
