-- ===== src/Streams/Admission.antt =====
-- What a subscription that `subscribe` admits has passed, and the registry that it leaves.
use vidvnc.Base.{ℕ, ◌≡◌, Bool, inl, inr, [], Text, ok, arith, Result-cases}
use vidvnc.Streams.State.{Registry, Source, Stream, SourceState, StreamState}
use vidvnc.Streams.Joining.{Admitted, subscribe, check_session, choose_source, join_source}
use vidvnc.Streams.Plans.{Plan, source_key, plan_pixels}

abbrev pub new_source : Plan → ℕ → Text → Source
new_source plan pixels id = record {
  id = id;
  kind = plan.kind;
  key = source_key plan;
  plan = plan;
  pixels = pixels;
  state = SourceState.starting;
  subscriptions = [];
}

abbrev pub new_stream : Text → Plan → Text → Text → Stream
new_stream session plan source_id stream_id = record {
  id = stream_id;
  session_id = session;
  source_id = source_id;
  kind = plan.kind;
  state = StreamState.starting;
  plan = plan;
}

-- What a successful subscription has checked, and the registry that it leaves.
pub record Subscribed (r : Registry) (session : Text) (plan : Plan) (source_id stream_id : Text)
    (r' : Registry) : Type 0 where
  pub amount : ℕ
  pub source : Source
  pub created : Bool
  pub checked : check_session r session plan.kind ≡ ok tt
  pub chosen : choose_source r plan amount source_id ≡ ok (source, created)
  pub result : r' ≡ join_source r source (new_stream session plan source.id stream_id)

pub subscribe-Subscribed :
    (r : Registry) (session : Text) (plan : Plan) (source_id stream_id : Text) (r' : Registry)
    (a : Admitted)
    → subscribe r session plan source_id stream_id ≡ ok (r', a)
    → Subscribed r session plan source_id stream_id r'
unfolding subscribe
subscribe-Subscribed r session plan source_id stream_id r' a h =
    elim (Result-cases (plan_pixels plan)) [
      | inr (e, failed) ↦ absurd (ground arith)
      | inl (n, pixels) ↦ elim (Result-cases (choose_source r plan n source_id)) [
        | inr (e, failed) ↦ absurd (ground arith)
        | inl ((s, created), c) ↦ record {
          amount = n;
          source = s;
          created = created;
          checked = ground arith;
          chosen = c;
          result = ground arith;
        }
      ]
    ]
