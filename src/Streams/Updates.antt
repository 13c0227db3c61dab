-- ===== src/Streams/Updates.antt =====
-- What the calls other than `subscribe` do to the table of sources.
use vidvnc.Base.{
  ◌≡◌, refl, ◌≢◌, Bool, some, inl, inr, Text, same, arith, Bool-cases, Option-cases, ◌&&◌,
}
use vidvnc.Base.Table.{Table, get, set, delete}
use vidvnc.Streams.State.{Registry, Source, SourceState, StreamState}
use vidvnc.Streams.Leaving.{
  unsubscribe, mark_ready, mark, close_source, close_streams, release_source, transition,
  leave_source, may_become,
}
use vidvnc.Streams.Budget.{mark-ready}
use vidvnc.Streams.Linking.{mark-starting}

-- The sources stay, or one of them changes and keeps its key and plan, or one is removed.
pub data Update (t u : Table Source) : Type 0 where
  unchanged : u ≡ t → Update t u
  renewed :
      (k : Text) (s s' : Source)
      → get k t ≡ some s
      → u ≡ set k s' t
      → (s'.key ≡ s.key) × (s'.plan ≡ s.plan)
      → (s'.state ≢ SourceState.closing → s.state ≢ SourceState.closing)
      → Update t u
  removed : (k : Text) → u ≡ delete k t → Update t u

leave_source-still :
    (id : Text) (s : Source)
    → (leave_source id s).0.state ≢ SourceState.closing
    → s.state ≢ SourceState.closing
unfolding leave_source
leave_source-still id s h e = ground arith

leave_source-key :
    (id : Text) (s : Source)
    → ((leave_source id s).0.key ≡ s.key) × ((leave_source id s).0.plan ≡ s.plan)
unfolding leave_source
leave_source-key id s = (refl, refl)

pub unsubscribe-Update : (r : Registry) (id : Text) → Update r.sources (unsubscribe r id).0.sources
unfolding unsubscribe
unsubscribe-Update r id = elim (Option-cases (get id r.subscriptions)) [
  | inl e ↦ rw (e, unsubscribe) (unchanged refl)
  | inr (st, e) ↦ elim (Option-cases (get st.source_id r.sources)) [
    | inl m ↦ rw (e, unsubscribe, m) (unchanged refl)
    | inr (s, m) ↦
        rw (e, unsubscribe, m)
          (renewed st.source_id s (leave_source id s).0 m refl (leave_source-key id s)
            (leave_source-still id s))
  ]
]

pub mark_ready-Update : (r : Registry) (id : Text) → Update r.sources (mark_ready r id).0.sources
unfolding mark_ready
mark_ready-Update r id = elim (Option-cases (get id r.sources)) [
  | inl e ↦ rw (e, mark_ready) (unchanged refl)
  | inr (s, e) ↦ elim (Option-cases (mark s.state s)) [
    | inl m ↦ rw (e, mark_ready, m) (unchanged refl)
    | inr (s', m) ↦
        let marked = mark-ready s.state s s' m in
        let active = mark-starting s.state s s' m in
        rw (e, mark_ready, m) (renewed id s s' e refl (cc marked, cc marked) (λ _. λ q. cc active))
  ]
]

pub close_source-Update :
    (r r' : Registry) (id : Text) (done : Bool)
    → close_source r id ≡ some (r', done)
    → Update r.sources r'.sources
unfolding close_source
close_source-Update r r' id done h = elim (Option-cases (get id r.sources)) [
  | inl e ↦ unchanged (ground arith)
  | inr (s, e) ↦ elim (Option-cases (close_streams s.subscriptions r.subscriptions)) [
    | inl stuck ↦ absurd (ground arith)
    | inr (t, closed) ↦
        renewed id s (record s { state = SourceState.closing }) e (ground arith) (refl, refl)
          (λ active. absurd (active refl))
  ]
]

pub release_source-Update :
    (r : Registry) (id : Text) → Update r.sources (release_source r id).0.sources
unfolding release_source
release_source-Update r id = elim (Option-cases (get id r.sources)) [
  | inl e ↦ rw (e, release_source) (unchanged refl)
  | inr (s, e) ↦ rw (e, release_source) (removed id refl)
]

pub transition-Update :
    (r : Registry) (session id : Text) (state : StreamState)
    → Update r.sources (transition r session id state).0.sources
unfolding transition
transition-Update r session id state = elim (Option-cases (get id r.subscriptions)) [
  | inl e ↦ rw (e, transition) (unchanged refl)
  | inr (s, e) ↦ elim (Bool-cases (same s.session_id session && may_become s.state state)) [
    | inl t ↦ rw (e, transition, t) (unchanged refl)
    | inr t ↦ rw (e, transition, t) (unchanged refl)
  ]
]
