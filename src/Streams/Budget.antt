-- ===== src/Streams/Budget.antt =====
-- The budgets of the host and the shares of the sessions along the histories of the registry of
-- apps/server/src/stream-registry.mjs.
use vidvnc.Base.{
  ◌≡◌, refl, sym, subst, Bool, some, inl, inr, [], Text, ok, arith, ◌&&◌, Bool-cases, Option-cases,
  same,
}
use vidvnc.Base.Table.{get, delete, weigh, one_if, weigh-set_old, weigh-delete-le}
use vidvnc.Streams.State.{Registry, Source, Limits, SourceState, StreamState}
use vidvnc.Streams.Joining.{open_registry, owned_by}
use vidvnc.Streams.Leaving.{
  unsubscribe, mark_ready, close_source, close_streams, release_source, transition, mark,
  may_become,
}
use vidvnc.Streams.Reach.{
  Step, subscribes, unsubscribes, marks, closes, releases, moves, Reach, opened, stepped,
}
use vidvnc.Streams.Admission.{subscribe-Subscribed}
use vidvnc.Streams.Weights.{Weighs, IsWithin, Weighs-IsWithin, choose_source-cases}
use vidvnc.Streams.Changes.{
  kept-Weighs, fewer-Weighs, stream-Weighs, joined-Weighs, close_streams-fewer, delete_all-fewer,
}

unsubscribe-Weighs : (r : Registry) (id : Text) → Weighs r → Weighs (unsubscribe r id).0
unfolding unsubscribe
unsubscribe-Weighs r id w = elim (Option-cases (get id r.subscriptions)) [
  | inl e ↦ rw (e, unsubscribe) w
  | inr (st, e) ↦ elim (Option-cases (get st.source_id r.sources)) [
    | inl miss ↦
        rw (e, unsubscribe, miss)
          (stream-Weighs r (delete id r.subscriptions) w
            (λ who kind. weigh-delete-le (one_if (owned_by who kind)) id r.subscriptions))
    | inr (s, found) ↦
        rw (e, unsubscribe, found)
          (kept-Weighs r st.source_id s _ _ w found (refl, refl, refl, refl)
            (λ who kind. weigh-delete-le (one_if (owned_by who kind)) id r.subscriptions))
  ]
]

pub mark-ready :
    (x : SourceState) (s s' : Source)
    → mark x s ≡ some s'
    → s' ≡ record s { state = SourceState.ready }
mark-ready SourceState.starting s s' h = ground arith
mark-ready _ s s' h = cc

mark_ready-Weighs : (r : Registry) (id : Text) → Weighs r → Weighs (mark_ready r id).0
unfolding mark_ready
mark_ready-Weighs r id w = elim (Option-cases (get id r.sources)) [
  | inl e ↦ rw (e, mark_ready) w
  | inr (s, e) ↦ elim (Option-cases (mark s.state s)) [
    | inl m ↦ rw (e, mark_ready, m) w
    | inr (s', m) ↦
        let marked = mark-ready s.state s s' m in
        rw (e, mark_ready, m)
          (kept-Weighs r id s s' r.subscriptions w e (cc marked, cc marked, cc marked, cc marked)
            (λ who kind. omega arith))
  ]
]

close_source-Weighs :
    (r r' : Registry) (id : Text) (done : Bool)
    → Weighs r
    → close_source r id ≡ some (r', done)
    → Weighs r'
unfolding close_source
close_source-Weighs r r' id done w h = elim (Option-cases (get id r.sources)) [
  | inl e ↦ subst Weighs (ground arith) w
  | inr (s, e) ↦ elim (Option-cases (close_streams s.subscriptions r.subscriptions)) [
    | inl stuck ↦ absurd (ground arith)
    | inr (t, closed) ↦ subst Weighs (ground arith) (
        kept-Weighs r id s (record s { state = SourceState.closing }) t w e (refl, refl, refl, refl)
          (λ who kind. close_streams-fewer who kind s.subscriptions r.subscriptions t closed))
  ]
]

release_source-Weighs : (r : Registry) (id : Text) → Weighs r → Weighs (release_source r id).0
unfolding release_source
release_source-Weighs r id w = elim (Option-cases (get id r.sources)) [
  | inl e ↦ rw (e, release_source) w
  | inr (s, e) ↦
      rw (e, release_source)
        (fewer-Weighs r id _ w (λ who kind.
          delete_all-fewer (one_if (owned_by who kind)) s.subscriptions r.subscriptions))
]

transition-Weighs :
    (r : Registry) (session id : Text) (state : StreamState)
    → Weighs r
    → Weighs (transition r session id state).0
unfolding transition
transition-Weighs r session id state w = elim (Option-cases (get id r.subscriptions)) [
  | inl e ↦ rw (e, transition) w
  | inr (s, e) ↦ elim (Bool-cases (same s.session_id session && may_become s.state state)) [
    | inl t ↦
        rw (e, transition, t)
          (stream-Weighs r _ w (λ who kind. omega (
            arith,
            weigh-set_old (one_if (owned_by who kind)) id (record s { state = state }) s
                r.subscriptions e,
          )))
    | inr t ↦ rw (e, transition, t) w
  ]
]

Step-Weighs : {r r' : Registry} → Weighs r → Step r r' → Weighs r'
Step-Weighs {r} w (subscribes session plan source_id stream_id r' a _ _ h) =
    let done = subscribe-Subscribed r session plan source_id stream_id r' a h in
    subst Weighs (sym done.result) (
      joined-Weighs r session plan source_id stream_id w done.source done.amount done.checked
        (choose_source-cases r plan done.amount source_id done.source done.created w done.chosen))
Step-Weighs {r} w (unsubscribes id) = unsubscribe-Weighs r id w
Step-Weighs {r} w (marks id) = mark_ready-Weighs r id w
Step-Weighs {r} w (closes id r' done h) = close_source-Weighs r r' id done w h
Step-Weighs {r} w (releases id) = release_source-Weighs r id w
Step-Weighs {r} w (moves session id state) = transition-Weighs r session id state w

opened-Weighs : (l : Limits) (r : Registry) → open_registry l ≡ ok r → Weighs r
unfolding open_registry weigh get
opened-Weighs l r h =
    let e : record { limits = l; sources = []; subscriptions = [] } ≡ r = ground arith in
    subst Weighs e (record {
      workers = omega arith;
      bitrate = omega arith;
      pixels = omega arith;
      video_share = λ who. omega arith;
      audio_share = λ who. omega arith;
      once = tt;
      named = λ k s h. cc;
    })

pub Reach-Weighs : {l : Limits} {r : Registry} → Reach l r → Weighs r
Reach-Weighs {l} (opened r h) = opened-Weighs l r h
Reach-Weighs (stepped h s) = Step-Weighs (Reach-Weighs h) s

-- In every reachable registry the video workers, their bitrates and their pixels per second are
-- within the host's limits, and each session has its share of video streams and one audio stream
-- at most.
pub Reach-IsWithin : {l : Limits} {r : Registry} → Reach l r → IsWithin r
Reach-IsWithin {r = r} h = Weighs-IsWithin r (Reach-Weighs h)
