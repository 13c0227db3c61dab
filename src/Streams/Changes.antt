-- ===== src/Streams/Changes.antt =====
-- What each kind of change of the registry does to the sums over its tables.
use vidvnc.Base.{
  ℕ, ◌≤◌, ◌≡◌, refl, ◌⊎◌, ◌≢◌, some, inl, inr, List, [], ◌∷◌, Text, ok, arith, if◌then◌else◌,
  Option-cases, ◌++◌,
}
use vidvnc.Base.Table.{
  Table, get, set, delete, weigh, one_if, weigh-set-le, weigh-set_old, weigh-delete-le, set-IsMap,
  delete-IsMap, get-delete,
}
use vidvnc.Streams.State.{Registry, Source, Stream, SourceState, StreamState, is_video}
use vidvnc.Streams.Leaving.{close_streams, delete_all}
use vidvnc.Streams.Joining.{owned_by, check_session, check_host, join_source}
use vidvnc.Streams.Plans.{Kind, audio, video, Plan, bitrate_of}
use vidvnc.Streams.Admission.{new_source, new_stream}
use vidvnc.Streams.Weights.{
  Weighs, of_video, check_session-share, check_host-room, join_source-weigh, set-named,
}

module _ (r : Registry) (session : Text) (plan : Plan) (source_id stream_id : Text)
    (w : Weighs r) where
  -- The shares after a stream of the session is added.
  pub share-le :
      (kind : Kind) (s : Source) (n : ℕ) (who : Text)
      → check_session r session plan.kind ≡ ok tt
      → weigh (one_if (owned_by who kind)) r.subscriptions
        ≤ (if is_video kind then r.limits.per_session else 1)
      → weigh
          (one_if (owned_by who kind))
          (set stream_id (new_stream session plan s.id stream_id) r.subscriptions)
        ≤ (if is_video kind then r.limits.per_session else 1)
  share-le kind s n who checked before = ground (
    arith,
    weigh-set-le (one_if (owned_by who kind)) stream_id (new_stream session plan s.id stream_id)
        r.subscriptions,
    check_session-share r session plan.kind checked,
  )

  pub joined-Weighs :
      (s : Source) (n : ℕ)
      → check_session r session plan.kind ≡ ok tt
      → (get s.id r.sources ≡ some s) × (s.state ≢ SourceState.closing)
        ⊎ (s ≡ new_source plan n source_id) × (check_host r plan n ≡ ok tt)
      → Weighs (join_source r s (new_stream session plan s.id stream_id))
  joined-Weighs s n checked (inl (held, _)) = record {
    workers = omega (
      arith,
      join_source-weigh (of_video (λ s. 1)) r s (new_stream session plan s.id stream_id) held refl,
      w.workers,
    );
    bitrate = omega (
      arith,
      join_source-weigh (of_video (λ s. bitrate_of s.plan)) r s
          (new_stream session plan s.id stream_id) held refl,
      w.bitrate,
    );
    pixels = omega (
      arith,
      join_source-weigh (of_video (λ s. s.pixels)) r s (new_stream session plan s.id stream_id) held
          refl,
      w.pixels,
    );
    video_share = λ who. share-le video s n who checked (w.video_share who);
    audio_share = λ who. share-le audio s n who checked (w.audio_share who);
    once = set-IsMap s.id _ r.sources w.once;
    named =
        set-named s.id (record s { subscriptions = s.subscriptions ++ stream_id ∷ [] }) r.sources
          refl w.named;
  }
  joined-Weighs s n checked (inr (new, room)) =
      let next : Source = record s { subscriptions = s.subscriptions ++ stream_id ∷ [] } in
      record {
        workers = ground (
          arith,
          weigh-set-le (of_video (λ s. 1)) s.id next r.sources,
          check_host-room r plan n room,
        );
        bitrate = ground (
          arith,
          weigh-set-le (of_video (λ s. bitrate_of s.plan)) s.id next r.sources,
          check_host-room r plan n room,
        );
        pixels = ground (
          arith,
          weigh-set-le (of_video (λ s. s.pixels)) s.id next r.sources,
          check_host-room r plan n room,
        );
        video_share = λ who. share-le video s n who checked (w.video_share who);
        audio_share = λ who. share-le audio s n who checked (w.audio_share who);
        once = set-IsMap s.id next r.sources w.once;
        named = set-named s.id next r.sources refl w.named;
      }

-- A call that keeps what each source weighs, and adds no subscription.
pub kept-Weighs :
    (r : Registry) (k : Text) (s s' : Source) (t : Table Stream)
    → Weighs r
    → get k r.sources ≡ some s
    → (s'.id ≡ s.id) × (s'.kind ≡ s.kind) × (s'.plan ≡ s.plan) × (s'.pixels ≡ s.pixels)
    → ((who : Text) (kind : Kind)
        → weigh (one_if (owned_by who kind)) t ≤ weigh (one_if (owned_by who kind)) r.subscriptions)
    → Weighs (record r { sources = set k s' r.sources; subscriptions = t })
kept-Weighs r k s s' t w h (same_id, same_kind, same_plan, same_pixels) fewer = record {
  workers = ground (arith, weigh-set_old (of_video (λ s. 1)) k s' s r.sources h, w.workers);
  bitrate =
      ground
        (arith, weigh-set_old (of_video (λ s. bitrate_of s.plan)) k s' s r.sources h, w.bitrate);
  pixels = ground (arith, weigh-set_old (of_video (λ s. s.pixels)) k s' s r.sources h, w.pixels);
  video_share = λ who. omega (arith, fewer who video, w.video_share who);
  audio_share = λ who. omega (arith, fewer who audio, w.audio_share who);
  once = set-IsMap k s' r.sources w.once;
  named = set-named k s' r.sources (cc (w.named k s h)) w.named;
}

-- A call that takes sources and subscriptions away.
pub fewer-Weighs :
    (r : Registry) (k : Text) (t : Table Stream)
    → Weighs r
    → ((who : Text) (kind : Kind)
        → weigh (one_if (owned_by who kind)) t ≤ weigh (one_if (owned_by who kind)) r.subscriptions)
    → Weighs (record r { sources = delete k r.sources; subscriptions = t })
fewer-Weighs r k t w fewer = record {
  workers = omega (arith, weigh-delete-le (of_video (λ s. 1)) k r.sources, w.workers);
  bitrate =
      omega (arith, weigh-delete-le (of_video (λ s. bitrate_of s.plan)) k r.sources, w.bitrate);
  pixels = omega (arith, weigh-delete-le (of_video (λ s. s.pixels)) k r.sources, w.pixels);
  video_share = λ who. omega (arith, fewer who video, w.video_share who);
  audio_share = λ who. omega (arith, fewer who audio, w.audio_share who);
  once = delete-IsMap k r.sources w.once;
  named = λ j s h. ground (arith, get-delete j k r.sources, w.named j s);
}

-- A stream that changes its state only weighs the same.
pub stream-Weighs :
    (r : Registry) (t : Table Stream)
    → Weighs r
    → ((who : Text) (kind : Kind)
        → weigh (one_if (owned_by who kind)) t ≤ weigh (one_if (owned_by who kind)) r.subscriptions)
    → Weighs (record r { subscriptions = t })
stream-Weighs r t w fewer = record {
  workers = w.workers;
  bitrate = w.bitrate;
  pixels = w.pixels;
  video_share = λ who. omega (arith, fewer who video, w.video_share who);
  audio_share = λ who. omega (arith, fewer who audio, w.audio_share who);
  once = w.once;
  named = w.named;
}

pub close_streams-fewer :
    (f : Text) (kind : Kind) (ids : List Text) (t u : Table Stream)
    → close_streams ids t ≡ some u
    → weigh (one_if (owned_by f kind)) u ≤ weigh (one_if (owned_by f kind)) t
unfolding close_streams
close_streams-fewer f kind [] t u h = ground arith
close_streams-fewer f kind (id ∷ ids) t u h = elim (Option-cases (get id t)) [
  | inl e ↦ absurd (ground arith)
  | inr (s, e) ↦
      let s' : Stream = record s { state = StreamState.closing } in
      omega (
        arith,
        close_streams-fewer f kind ids (set id s' t) u (ground arith),
        weigh-set_old (one_if (owned_by f kind)) id s' s t e,
      )
]

pub delete_all-fewer :
    (f : Stream → ℕ) (ids : List Text) (t : Table Stream) → weigh f (delete_all ids t) ≤ weigh f t
unfolding delete_all
delete_all-fewer f [] t = omega arith
delete_all-fewer f (id ∷ ids) t =
    omega (arith, delete_all-fewer f ids (delete id t), weigh-delete-le f id t)
