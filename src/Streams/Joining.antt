-- ===== src/Streams/Joining.antt =====
-- apps/server/src/stream-registry.mjs: admission, and how a subscription joins a source.
use vidvnc.Base.{
  ℕ, ◌+◌, Bool, true, false, not, ◌&&◌, none, some, List, [], ◌∷◌, ◌++◌, Text, same, leb, ltb, ◌==◌,
  keep, find, length, if◌then◌else◌, Result, ok, guard, ◌>>=◌, ◌>>◌,
}
use vidvnc.Base.Table.{set, values}
use vidvnc.Streams.Plans.{
  Kind, Plan, Error, invalid_limit, invalid_owner, audio_active, capacity, bitrate_budget,
  pixel_budget, max_safe_integer, plan_pixels, bitrate_of, source_key,
}
use vidvnc.Streams.State.{
  Limits, Registry, Source, SourceState, Stream, StreamState, is_audio, is_closing, is_video,
  same_kind,
}

abbrev valid_limit : ℕ → Bool
valid_limit n = leb 1 n && leb n max_safe_integer

-- The constructor.
unfoldable pub open_registry : Limits → Result Error Registry
open_registry l =
    guard
      (valid_limit l.max_streams
        && valid_limit l.per_session
        && valid_limit l.bitrate_kbps
        && valid_limit l.pixels_per_second)
      invalid_limit
    >> ok (record { limits = l; sources = []; subscriptions = [] })

abbrev pub owned_by : Text → Kind → Stream → Bool
owned_by session kind s = same s.session_id session && same_kind s.kind kind

abbrev pub reusable : Text → Source → Bool
reusable key s = same s.key key && not (is_closing s.state)

-- `video.reduce((n, s) => n + f(s), start)`
abbrev pub total : (Source → ℕ) → ℕ → List Source → ℕ
total f n [] = n
total f n (s ∷ l) = total f (n + f s) l

abbrev pub videos : Registry → List Source
videos r = keep (λ s. is_video s.kind) (values r.sources)

-- The sessions' own limits: one audio stream, and so many video streams.
unfoldable pub check_session : Registry → Text → Kind → Result Error (Unit {0})
check_session r session kind =
    let owned = length (keep (owned_by session kind) (values r.subscriptions)) in
    if is_audio kind
    then guard (owned == 0) audio_active
    else guard (ltb owned r.limits.per_session) capacity

-- The host's budgets, before a new source.
unfoldable pub check_host : Registry → Plan → ℕ → Result Error (Unit {0})
check_host r plan pixels = if is_audio plan.kind then ok tt else (do
  guard (ltb (length (videos r)) r.limits.max_streams) capacity
  guard (leb (total (λ s. bitrate_of s.plan) (bitrate_of plan) (videos r)) r.limits.bitrate_kbps)
      bitrate_budget
  guard (leb (total (λ s. s.pixels) pixels (videos r)) r.limits.pixels_per_second) pixel_budget)

-- The source that a new subscription joins, and whether it was created; `id` is what
-- `randomUUID()` gives for a new one.
unfoldable pub choose_source : Registry → Plan → ℕ → Text → Result Error (Source × Bool)
unfolding check_host
choose_source r plan pixels id = elim (find (reusable (source_key plan)) (values r.sources)) [
  | some s ↦ ok (s, false)
  | none ↦
      check_host r plan pixels
      >> ok (
        record {
          id = id;
          kind = plan.kind;
          key = source_key plan;
          plan = plan;
          pixels = pixels;
          state = SourceState.starting;
          subscriptions = [];
        },
        true,
      )
]

-- What `subscribe` returns.
pub record Admitted : Type 0 where
  pub stream : Stream
  pub source : Source
  pub created : Bool

abbrev pub join_source : Registry → Source → Stream → Registry
join_source r source stream = record r {
  sources =
      set source.id (record source { subscriptions = source.subscriptions ++ stream.id ∷ [] })
        r.sources;
  subscriptions = set stream.id stream r.subscriptions;
}

-- `subscribe(sessionId, plan)`; the two ids are what `randomUUID()` gives.
unfoldable pub subscribe :
    Registry → Text → Plan → (source_id stream_id : Text) → Result Error (Registry × Admitted)
unfolding check_session choose_source
subscribe r session plan source_id stream_id = do
  guard (not (same session [])) invalid_owner
  pixels ← plan_pixels plan
  check_session r session plan.kind
  (source, created) ← choose_source r plan pixels source_id
  let stream : Stream = record {
    id = stream_id;
    session_id = session;
    source_id = source.id;
    kind = plan.kind;
    state = StreamState.starting;
    plan = plan;
  }
  ok (
    join_source r source stream,
    record {
      stream = stream;
      source = record source { subscriptions = source.subscriptions ++ stream_id ∷ [] };
      created = created;
    },
  )
