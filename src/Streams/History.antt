-- ===== src/Streams/History.antt =====
-- How sources and subscriptions name one another along the histories of the registry of
-- apps/server/src/stream-registry.mjs.
use vidvnc.Base.{
  ◌≡◌, refl, sym, ap, ◌≢◌, ◌⊎◌, Bool, true, false, none, some, inl, inr, [], Text, dec_text, ok,
  arith, Option-cases, subst, ◌∙◌,
}
use vidvnc.Base.Table.{Table, get, set, get-delete}
use vidvnc.Streams.State.{Registry, Source, Stream, Limits, SourceState}
use vidvnc.Streams.Joining.{open_registry}
use vidvnc.Streams.Leaving.{close_source, release_source}
use vidvnc.Streams.Reach.{
  Step, subscribes, unsubscribes, marks, closes, releases, moves, Reach, opened, stepped,
}
use vidvnc.Streams.Admission.{new_stream, subscribe-Subscribed}
use vidvnc.Streams.Weights.{Weighs, choose_source-cases}
use vidvnc.Streams.Budget.{Reach-Weighs}
use vidvnc.Streams.Links.{owner, IsLinked, get-delete_all, close_streams_total}
use vidvnc.Streams.Linking.{
  join_source-IsLinked, unsubscribe-IsLinked, mark_ready-IsLinked, close_source-IsLinked,
  release_source-IsLinked, transition-IsLinked,
}

Step-IsLinked : {r r' : Registry} → Weighs r → IsLinked r → Step r r' → IsLinked r'
Step-IsLinked {r} w l (subscribes session plan source_id stream_id r' a new new' h) =
    let done = subscribe-Subscribed r session plan source_id stream_id r' a h in
    let stream = new_stream session plan done.source.id stream_id in
    subst IsLinked (sym done.result)
      (elim (choose_source-cases r plan done.amount source_id done.source done.created w
        done.chosen) [
          | inl (found, _) ↦ join_source-IsLinked r done.source stream l new' refl (inl found)
          | inr (made, _) ↦
              join_source-IsLinked r done.source stream l new' refl
                (inr (ground arith, ground arith))
        ])
Step-IsLinked {r} w l (unsubscribes id) = unsubscribe-IsLinked r id l
Step-IsLinked {r} w l (marks id) = mark_ready-IsLinked r id l
Step-IsLinked {r} w l (closes id r' done h) = close_source-IsLinked r r' id done l h
Step-IsLinked {r} w l (releases id) = release_source-IsLinked r id l
Step-IsLinked {r} w l (moves session id state) = transition-IsLinked r session id state l

opened-IsLinked : (l : Limits) (r : Registry) → open_registry l ≡ ok r → IsLinked r
unfolding open_registry get
opened-IsLinked l r h =
    let e : record { limits = l; sources = []; subscriptions = [] } ≡ r = ground arith in
    subst IsLinked e (record {
      listed = λ id k h. cc;
      held = λ k s id found lists. cc;
      busy = λ k s found active. cc;
    })

-- In every reachable registry each subscription's source is there and lists it, each listed
-- subscription is there and belongs to the source, and a source that is not closing has a
-- subscription.
pub Reach-IsLinked : {l : Limits} {r : Registry} → Reach l r → IsLinked r
Reach-IsLinked {l} (opened r h) = opened-IsLinked l r h
Reach-IsLinked (stepped h s) = Step-IsLinked (Reach-Weighs h) (Reach-IsLinked h) s

-- In a reachable registry `closeSource` returns, whatever the source: it never reads a listed
-- stream that is not there.
pub close_source_total :
    {l : Limits} {r : Registry} (id : Text)
    → Reach l r
    → (r' : Registry) × (done : Bool) × (close_source r id ≡ some (r', done))
unfolding close_source
close_source_total {r = r} id reach = elim (Option-cases (get id r.sources)) [
  | inl e ↦ (r, false, ground arith)
  | inr (s, e) ↦
      let l = Reach-IsLinked reach in
      let (t, closed) =
        close_streams_total s.subscriptions r.subscriptions
          (λ j m. ground (arith, l.held id s j)) in
      (
        record r {
          sources = set id (record s { state = SourceState.closing }) r.sources;
          subscriptions = t;
        },
        true,
        ground arith,
      )
]

dec_owner : (j id : Text) (t : Table Stream) → Dec (owner j t ≡ some id)
dec_owner j id t = elim (Option-cases (owner j t)) [
  | inl e ↦ no (λ h. cc)
  | inr (k, e) ↦ elim (dec_text k id) [
    | yes q ↦ yes (e ∙ ap some q)
    | no n ↦ no (λ h. n (ground arith))
  ]
]

-- When a source of a reachable registry is released, it and its subscriptions are gone, and every
-- other subscription stays as it was.
pub release_source-gone :
    {l : Limits} {r : Registry} (id j : Text) (s : Source)
    → Reach l r
    → get id r.sources ≡ some s
    → (get id (release_source r id).0.sources ≡ none)
      × (owner j (release_source r id).0.subscriptions ≢ some id)
      × ((owner j r.subscriptions ≡ some id)
          ⊎ (get j (release_source r id).0.subscriptions ≡ get j r.subscriptions))
unfolding release_source
release_source-gone {r = r} id j s reach e =
    let l = Reach-IsLinked reach in
    rw (e, release_source)
      (
        ground (arith, get-delete id id r.sources),
        λ mine.
            let (x, there, lists) =
              l.listed j id (ground (arith, get-delete_all s.subscriptions j r.subscriptions)) in
            ground (arith, get-delete_all s.subscriptions j r.subscriptions),
        elim (dec_owner j id r.subscriptions) [
          | yes mine ↦ inl mine
          | no other ↦
              inr (ground (arith, get-delete_all s.subscriptions j r.subscriptions, l.held id s j))
        ],
      )
