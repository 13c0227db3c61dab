-- ===== src/Streams/Reach.antt =====
-- The registry's histories: its calls, with the identifiers that `randomUUID()` gives, which no
-- table of the registry has yet.
use vidvnc.Base.{Bool, none, some, ◌≡◌, Text, ok}
use vidvnc.Base.Table.{get}
use vidvnc.Streams.State.{Registry, Limits, StreamState}
use vidvnc.Streams.Joining.{Admitted, open_registry, subscribe}
use vidvnc.Streams.Leaving.{unsubscribe, mark_ready, close_source, release_source, transition}
use vidvnc.Streams.Plans.{Plan}

-- One call that returns and changes the registry.
pub data Step (r : Registry) : Registry → Type 0 where
  subscribes :
      (session : Text) (plan : Plan) (source_id stream_id : Text) (r' : Registry) (a : Admitted)
      → get source_id r.sources ≡ none
      → get stream_id r.subscriptions ≡ none
      → subscribe r session plan source_id stream_id ≡ ok (r', a)
      → Step r r'
  unsubscribes : (stream_id : Text) → Step r (unsubscribe r stream_id).0
  marks : (source_id : Text) → Step r (mark_ready r source_id).0
  closes :
      (source_id : Text) (r' : Registry) (done : Bool)
      → close_source r source_id ≡ some (r', done)
      → Step r r'
  releases : (source_id : Text) → Step r (release_source r source_id).0
  moves : (session id : Text) (state : StreamState) → Step r (transition r session id state).0

-- What the calls make of a new registry.
pub data Reach (l : Limits) : Registry → Type 0 where
  opened : (r : Registry) → open_registry l ≡ ok r → Reach l r
  stepped : {r r' : Registry} → Reach l r → Step r r' → Reach l r'
