-- ===== src/Approved/Sweeps.antt =====
-- apps/server/src/approved-clients.mjs: the sweep of expired requests that precedes each operation.
use vidvnc.Base.{
  ℕ, Bool, true, false, not, ◌&&◌, List, [], ◌∷◌, Text, same, keep, any, if◌then◌else◌,
}
use vidvnc.Base.Table.{Table, delete, values}
use vidvnc.Approved.State.{
  Client, Request, RequestState, is_pending, is_approved, is_rejected, waiting, swept, Store,
  expired, is_of,
}
use vidvnc.Approved.Registration.{live_tickets}

-- The keys of the expired requests.
unfoldable pub expired_requests : ℕ → Table Request → List Text
expired_requests now [] = []
expired_requests now ((k, r) ∷ t) =
    let rest = expired_requests now t in if expired r now then k ∷ rest else rest

abbrev pub is_granted : RequestState → Bool
is_granted is_pending = false
is_granted is_approved = true
is_granted is_rejected = false

-- The request of a client has expired, approved and not claimed.
unfoldable pub is_unclaimed : Table Request → ℕ → Text → Bool
is_unclaimed t now client_id =
    any (λ r. expired r now && (is_granted r.state && not r.claimed) && is_of client_id r)
      (values t)

unfoldable pub delete_requests : List Text → Table Request → Table Request
delete_requests [] t = t
delete_requests (k ∷ ks) t = delete_requests ks (delete k t)

-- The keys of the requests of a client.
unfoldable pub requests_of : Text → Table Request → List Text
requests_of client_id [] = []
requests_of client_id ((k, r) ∷ t) =
    let rest = requests_of client_id t in if is_of client_id r then k ∷ rest else rest

-- The first client with that identifier, changed.
unfoldable pub amend : (Client → Client) → Text → List Client → List Client
amend f id [] = []
amend f id (c ∷ cs) = let rest = amend f id cs in if same c.id id then f c ∷ cs else c ∷ rest

-- The operation under way ends.
abbrev pub finish : Store → Store
finish s = record s { queue = (elim s.queue [ [] ↦ [] | op ∷ ops ↦ ops ]); stage = waiting }

-- The first part of `#sweepExpiredInner`, up to its write.
unfoldable pub begin_sweep : Store → ℕ → Store
begin_sweep s now =
    let kept = keep (λ c. not (is_unclaimed s.pending now c.id)) s.clients in
    record s {
      clients = kept;
      stage =
          swept (expired_requests now s.pending)
            (any (λ r. expired r now && (is_granted r.state && not r.claimed)) (values s.pending));
    }

-- Its end.
unfoldable pub end_sweep : Store → List Text → ℕ → Store
end_sweep s expired_keys now = record s {
  pending = delete_requests expired_keys s.pending;
  tickets = live_tickets now s.tickets;
}
