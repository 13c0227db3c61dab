-- ===== src/Streams/Linking.antt =====
-- Each change of the registry (apps/server/src/stream-registry.mjs) and the links of its sources and
-- subscriptions.
use vidvnc.Base.{
  ◌≡◌, refl, ◌≢◌, ◌⊎◌, Bool, none, some, inl, inr, [], ◌∷◌, ◌++◌, Text, dec_text, same, arith,
  Bool-cases, Option-cases, subst, ◌∙◌, ◌&&◌,
}
use vidvnc.Base.Table.{Table, get, set, get-set, get-delete}
use vidvnc.Streams.State.{Registry, Source, Stream, SourceState, StreamState}
use vidvnc.Streams.Leaving.{
  unsubscribe, mark_ready, mark, close_source, close_streams, release_source, transition,
  leave_source, may_become,
}
use vidvnc.Streams.Joining.{join_source}
use vidvnc.Streams.Budget.{mark-ready}
use vidvnc.Streams.Links.{
  owner, IsLinked, includes-append, includes-keep, append-ne-nil, get-delete_all,
  close_streams-owner,
}

-- A new subscription, on a source that is there or on a new one.
pub join_source-IsLinked :
    (r : Registry) (s : Source) (st : Stream)
    → IsLinked r
    → get st.id r.subscriptions ≡ none
    → st.source_id ≡ s.id
    → (get s.id r.sources ≡ some s) ⊎ ((get s.id r.sources ≡ none) × (s.subscriptions ≡ []))
    → IsLinked (join_source r s st)
join_source-IsLinked r s st l fresh own place = record {
  listed = λ id k h. elim (dec_text st.id id) [
    | yes e ↦ (
      next,
      ground (arith, get-set k s.id next r.sources, get-set id st.id st r.subscriptions),
      ground (arith, includes-append s.subscriptions st.id id),
    )
    | no n ↦
        let (x, found, lists) =
          l.listed id k (ground (arith, get-set id st.id st r.subscriptions)) in
        elim (dec_text s.id k) [
          | yes e ↦ (
            next,
            ground (arith, get-set k s.id next r.sources),
            ground (arith, includes-append s.subscriptions st.id id, place),
          )
          | no m ↦ (x, ground (arith, get-set k s.id next r.sources), lists)
        ]
  ];
  held = λ k x id found lists. ground (
    arith,
    get-set k s.id next r.sources,
    get-set id st.id st r.subscriptions,
    includes-append s.subscriptions st.id id,
    l.held k x id,
    l.held s.id s id,
    place,
  );
  busy = λ k x found active. elim (dec_text s.id k) [
    | yes e ↦
        let here : x ≡ next = ground (arith, get-set k s.id next r.sources) in
        λ none_left. append-ne-nil s.subscriptions st.id (cc here)
    | no n ↦ l.busy k x (ground (arith, get-set k s.id next r.sources)) active
  ];
}
  where
    next : Source
    next = record s { subscriptions = s.subscriptions ++ st.id ∷ [] }

-- A source that changes its state, and subscriptions that keep their owners.
pub renewed-IsLinked :
    (r : Registry) (k : Text) (s s' : Source) (t : Table Stream)
    → IsLinked r
    → get k r.sources ≡ some s
    → s'.subscriptions ≡ s.subscriptions
    → ((j : Text) → owner j t ≡ owner j r.subscriptions)
    → (s'.state ≢ SourceState.closing → s.state ≢ SourceState.closing)
    → IsLinked (record r { sources = set k s' r.sources; subscriptions = t })
renewed-IsLinked r k s s' t l found same_list owners still = record {
  listed = λ j i h.
      let (x, there, lists) = l.listed j i (cc (owners j)) in
      elim (dec_text k i) [
        | yes e ↦ (s', ground (arith, get-set i k s' r.sources), ground arith)
        | no n ↦ (x, ground (arith, get-set i k s' r.sources), lists)
      ];
  held = λ i x j there lists.
      owners j ∙ ground (arith, get-set i k s' r.sources, l.held i x j, l.held k s j);
  busy = λ i x there active. elim (dec_text k i) [
    | yes e ↦
        let here : x ≡ s' = ground (arith, get-set i k s' r.sources) in
        λ none_left. l.busy k s found (still (λ q. active (cc here))) (cc here)
    | no n ↦ l.busy i x (ground (arith, get-set i k s' r.sources)) active
  ];
}

pub unsubscribe-IsLinked : (r : Registry) (id : Text) → IsLinked r → IsLinked (unsubscribe r id).0
unfolding unsubscribe leave_source
unsubscribe-IsLinked r id l = elim (Option-cases (get id r.subscriptions)) [
  | inl e ↦ rw (e, unsubscribe) l
  | inr (st, e) ↦
      let (s, found, lists) = l.listed id st.source_id (ground arith) in
      let s' : Source = (leave_source id s).0 in
      rw (e, unsubscribe, found)
        (record {
          listed = λ j k h.
              let (x, there, has_it) =
                l.listed j k (ground (arith, get-delete j id r.subscriptions)) in
              elim (dec_text st.source_id k) [
                | yes q ↦ (
                  s',
                  ground (arith, get-set k st.source_id s' r.sources),
                  ground
                      (arith, includes-keep s.subscriptions id j, get-delete j id r.subscriptions),
                )
                | no q ↦ (x, ground (arith, get-set k st.source_id s' r.sources), has_it)
              ];
          held = λ k x j there has_it. ground (
            arith,
            get-set k st.source_id s' r.sources,
            get-delete j id r.subscriptions,
            includes-keep s.subscriptions id j,
            l.held k x j,
            l.held st.source_id s j,
          );
          busy =
              λ k x there active. ground (arith, get-set k st.source_id s' r.sources, l.busy k x);
        })
]

pub mark-starting :
    (x : SourceState) (s s' : Source) → mark x s ≡ some s' → x ≡ SourceState.starting
mark-starting SourceState.starting s s' h = refl
mark-starting _ s s' h = cc

pub mark_ready-IsLinked : (r : Registry) (id : Text) → IsLinked r → IsLinked (mark_ready r id).0
unfolding mark_ready
mark_ready-IsLinked r id l = elim (Option-cases (get id r.sources)) [
  | inl e ↦ rw (e, mark_ready) l
  | inr (s, e) ↦ elim (Option-cases (mark s.state s)) [
    | inl m ↦ rw (e, mark_ready, m) l
    | inr (s', m) ↦
        let marked = mark-ready s.state s s' m in
        let active = mark-starting s.state s s' m in
        rw (e, mark_ready, m)
          (renewed-IsLinked r id s s' r.subscriptions l e (cc marked) (λ j. refl)
            (λ _. λ q. absurd (cc active)))
  ]
]

pub close_source-IsLinked :
    (r r' : Registry) (id : Text) (done : Bool)
    → IsLinked r
    → close_source r id ≡ some (r', done)
    → IsLinked r'
unfolding close_source
close_source-IsLinked r r' id done l h = elim (Option-cases (get id r.sources)) [
  | inl e ↦ subst IsLinked (ground arith) l
  | inr (s, e) ↦ elim (Option-cases (close_streams s.subscriptions r.subscriptions)) [
    | inl stuck ↦ absurd (ground arith)
    | inr (t, closed) ↦ subst IsLinked (ground arith) (
        renewed-IsLinked r id s (record s { state = SourceState.closing }) t l e refl
          (λ j. close_streams-owner s.subscriptions r.subscriptions t j closed)
          (λ active. absurd (active refl)))
  ]
]

pub release_source-IsLinked :
    (r : Registry) (id : Text) → IsLinked r → IsLinked (release_source r id).0
unfolding release_source
release_source-IsLinked r id l = elim (Option-cases (get id r.sources)) [
  | inl e ↦ rw (e, release_source) l
  | inr (s, e) ↦
      rw (e, release_source)
        (record {
          listed = λ j k h.
              let (x, there, lists) =
                l.listed j k (ground (arith, get-delete_all s.subscriptions j r.subscriptions)) in
              (
                x,
                ground (
                  arith,
                  get-delete k id r.sources,
                  get-delete_all s.subscriptions j r.subscriptions,
                ),
                lists,
              );
          held = λ k x j there lists. ground (
            arith,
            get-delete k id r.sources,
            get-delete_all s.subscriptions j r.subscriptions,
            l.held k x j,
            l.held id s j,
          );
          busy = λ k x there active. l.busy k x (ground (arith, get-delete k id r.sources)) active;
        })
]

pub transition-IsLinked :
    (r : Registry) (session id : Text) (state : StreamState)
    → IsLinked r
    → IsLinked (transition r session id state).0
unfolding transition
transition-IsLinked r session id state l = elim (Option-cases (get id r.subscriptions)) [
  | inl e ↦ rw (e, transition) l
  | inr (s, e) ↦ elim (Bool-cases (same s.session_id session && may_become s.state state)) [
    | inl t ↦
        let s' : Stream = record s { state = state } in
        let owners = λ (j : Text). get-set j id s' r.subscriptions in
        rw (e, transition, t)
          (record {
            listed = λ j k h. l.listed j k (ground (arith, owners j));
            held = λ k x j there lists. ground (arith, owners j, l.held k x j);
            busy = l.busy;
          })
    | inr t ↦ rw (e, transition, t) l
  ]
]
