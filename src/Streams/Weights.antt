-- ===== src/Streams/Weights.antt =====
-- The streams and their budgets as sums over the tables, and what each kind of change does to
-- the sums.
use vidvnc.Base.{
  ℕ, ◌+◌, ◌≤◌, ◌≡◌, ◌⊎◌, ◌≢◌, Bool, true, some, inl, inr, [], ◌∷◌, Text, keep, length, ok, arith,
  if◌then◌else◌, Option-cases, find, ◌<◌, ◌++◌,
}
use vidvnc.Base.Table.{
  Table, get, set, values, IsMap, weigh, one_if, length-keep-weigh, weigh-set_old, find-values,
  get-set,
}
use vidvnc.Streams.State.{Registry, Source, Stream, SourceState, is_video}
use vidvnc.Streams.Joining.{
  owned_by, videos, total, check_session, check_host, choose_source, join_source, reusable,
}
use vidvnc.Streams.Plans.{Kind, audio, video, Plan, bitrate_of, source_key}
use vidvnc.Streams.Admission.{new_source}

-- What the registry promises of its streams and workers.
pub record IsWithin (r : Registry) : Type 0 where
  pub workers : length (videos r) ≤ r.limits.max_streams
  pub bitrate : total (λ s. bitrate_of s.plan) 0 (videos r) ≤ r.limits.bitrate_kbps
  pub pixels : total (λ s. s.pixels) 0 (videos r) ≤ r.limits.pixels_per_second
  pub video_share :
      (session : Text)
      → length (keep (owned_by session video) (values r.subscriptions)) ≤ r.limits.per_session
  pub audio_share :
      (session : Text) → length (keep (owned_by session audio) (values r.subscriptions)) ≤ 1

-- What a source weighs in a sum over the video sources.
abbrev pub of_video : (Source → ℕ) → Source → ℕ
of_video f s = if is_video s.kind then f s else 0

pub total-weigh :
    (f : Source → ℕ) (n : ℕ) (t : Table Source)
    → total f n (keep (λ s. is_video s.kind) (values t)) ≡ n + weigh (of_video f) t
unfolding weigh values
total-weigh f n [] = omega arith
total-weigh f n ((k, s) ∷ t) = ground (arith, total-weigh f n t, total-weigh f (n + f s) t)

-- The same promises as sums over the tables, which the proofs use.
pub record Weighs (r : Registry) : Type 0 where
  pub workers : weigh (of_video (λ s. 1)) r.sources ≤ r.limits.max_streams
  pub bitrate : weigh (of_video (λ s. bitrate_of s.plan)) r.sources ≤ r.limits.bitrate_kbps
  pub pixels : weigh (of_video (λ s. s.pixels)) r.sources ≤ r.limits.pixels_per_second
  pub video_share :
      (session : Text)
      → weigh (one_if (owned_by session video)) r.subscriptions ≤ r.limits.per_session
  pub audio_share : (session : Text) → weigh (one_if (owned_by session audio)) r.subscriptions ≤ 1
  pub once : IsMap r.sources
  pub named : (k : Text) (s : Source) → get k r.sources ≡ some s → s.id ≡ k

pub Weighs-IsWithin : (r : Registry) → Weighs r → IsWithin r
Weighs-IsWithin r w = record {
  workers = omega (arith, length-keep-weigh (λ s. is_video s.kind) r.sources, w.workers);
  bitrate = omega (arith, total-weigh (λ s. bitrate_of s.plan) 0 r.sources, w.bitrate);
  pixels = omega (arith, total-weigh (λ s. s.pixels) 0 r.sources, w.pixels);
  video_share = λ session.
      omega
        (arith, length-keep-weigh (owned_by session video) r.subscriptions, w.video_share session);
  audio_share = λ session.
      omega
        (arith, length-keep-weigh (owned_by session audio) r.subscriptions, w.audio_share session);
}

pub choose_source-cases :
    (r : Registry) (plan : Plan) (n : ℕ) (id : Text) (s : Source) (created : Bool)
    → Weighs r
    → choose_source r plan n id ≡ ok (s, created)
    → (get s.id r.sources ≡ some s) × (s.state ≢ SourceState.closing)
      ⊎ (s ≡ new_source plan n id) × (check_host r plan n ≡ ok tt)
unfolding choose_source
choose_source-cases r plan n id s created w h =
    elim (Option-cases (find (reusable (source_key plan)) (values r.sources))) [
      | inl e ↦ inr (ground arith, ground arith)
      | inr (x, e) ↦
          let ((k, held), passes) = find-values (reusable (source_key plan)) x r.sources w.once e in
          inl (ground (arith, w.named k x held), ground arith)
    ]

pub check_session-share :
    (r : Registry) (session : Text) (kind : Kind)
    → check_session r session kind ≡ ok tt
    → weigh (one_if (owned_by session kind)) r.subscriptions
      < (if is_video kind then r.limits.per_session else 1)
unfolding check_session
check_session-share r session audio h =
    ground (arith, length-keep-weigh (owned_by session audio) r.subscriptions)
check_session-share r session video h =
    ground (arith, length-keep-weigh (owned_by session video) r.subscriptions)

pub check_host-room :
    (r : Registry) (plan : Plan) (n : ℕ)
    → check_host r plan n ≡ ok tt
    → is_video plan.kind ≡ true
    → (weigh (of_video (λ s. 1)) r.sources < r.limits.max_streams)
      × (weigh (of_video (λ s. bitrate_of s.plan)) r.sources + bitrate_of plan
          ≤ r.limits.bitrate_kbps)
      × (weigh (of_video (λ s. s.pixels)) r.sources + n ≤ r.limits.pixels_per_second)
unfolding check_host
check_host-room r plan n h v = ground (
  arith,
  length-keep-weigh (λ s. is_video s.kind) r.sources,
  total-weigh (λ s. bitrate_of s.plan) (bitrate_of plan) r.sources,
  total-weigh (λ s. s.pixels) n r.sources,
)

-- A weight that the list of subscriptions does not change.
pub join_source-weigh :
    (f : Source → ℕ) (r : Registry) (s : Source) (st : Stream)
    → get s.id r.sources ≡ some s
    → f (record s { subscriptions = s.subscriptions ++ st.id ∷ [] }) ≡ f s
    → weigh f (join_source r s st).sources ≡ weigh f r.sources
join_source-weigh f r s st h e = omega (
  arith,
  weigh-set_old f s.id (record s { subscriptions = s.subscriptions ++ st.id ∷ [] }) s r.sources h,
  e,
)

pub set-named :
    (j : Text) (s : Source) (t : Table Source)
    → s.id ≡ j
    → ((k : Text) (x : Source) → get k t ≡ some x → x.id ≡ k)
    → (k : Text) (x : Source) → get k (set j s t) ≡ some x
    → x.id ≡ k
set-named j s t e named k x h = ground (arith, get-set k j s t, named k x)
