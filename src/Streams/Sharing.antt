-- ===== src/Streams/Sharing.antt =====
-- Which source a subscription of apps/server/src/stream-registry.mjs joins, along its histories.
use vidvnc.Base.{
  find, length, ℕ, ◌≡◌, sym, ◌≢◌, ◌⊎◌, Bool, true, false, none, some, inl, inr, [], ◌∷◌, ◌++◌, Text,
  dec_text, ok, arith, Option-cases, subst, ◌∙◌,
}
use vidvnc.Base.Table.{
  length-set_old, values, find-values, find-none, Table, get, set, get-set, get-delete,
}
use vidvnc.Streams.Joining.{choose_source, reusable, Admitted, open_registry, subscribe}
use vidvnc.Streams.State.{Registry, Source, Limits, SourceState}
use vidvnc.Streams.Plans.{Plan, source_key}
use vidvnc.Streams.Reach.{
  Step, subscribes, unsubscribes, marks, closes, releases, moves, Reach, opened, stepped,
}
use vidvnc.Streams.Admission.{new_source, new_stream, subscribe-Subscribed}
use vidvnc.Streams.Weights.{Weighs}
use vidvnc.Streams.Budget.{Reach-Weighs}
use vidvnc.Streams.Links.{owner}
use vidvnc.Streams.Updates.{
  Update, unchanged, renewed, removed, unsubscribe-Update, mark_ready-Update, close_source-Update,
  release_source-Update, transition-Update,
}

-- Two open sources have different keys.
abbrev pub IsShared : Table Source → Type 0
IsShared t =
    (j k : Text) (s u : Source)
    → get j t ≡ some s
    → get k t ≡ some u
    → s.state ≢ SourceState.closing
    → u.state ≢ SourceState.closing
    → s.key ≡ u.key
    → j ≡ k

-- A source set to one whose key no other open source has.
set-IsShared :
    (k : Text) (s : Source) (t : Table Source)
    → IsShared t
    → ((j : Text) (x : Source)
        → get j t ≡ some x
        → x.state ≢ SourceState.closing
        → s.state ≢ SourceState.closing
        → x.key ≡ s.key
        → k ≡ j)
    → IsShared (set k s t)
set-IsShared k s t l other i j x y hx hy ox oy keys = elim (dec_text k i) [
  | yes e ↦ elim (dec_text k j) [
    | yes e' ↦ sym e ∙ e'
    | no n' ↦
        let here : x ≡ s = ground (arith, get-set i k s t) in
        sym e ∙ other j y (ground (arith, get-set j k s t)) oy (λ q. ox (cc here)) (cc here)
  ]
  | no n ↦ elim (dec_text k j) [
    | yes e' ↦
        let here : y ≡ s = ground (arith, get-set j k s t) in
        sym (other i x (ground (arith, get-set i k s t)) ox (λ q. oy (cc here)) (cc here)) ∙ e'
    | no n' ↦
        l i j x y (ground (arith, get-set i k s t)) (ground (arith, get-set j k s t)) ox oy keys
  ]
]

Update-IsShared : {t u : Table Source} → IsShared t → Update t u → IsShared u
Update-IsShared l (unchanged e) = subst IsShared (sym e) l
Update-IsShared {t} l (renewed k s s' found e (same_key, _) still) = subst IsShared (sym e) (
    set-IsShared k s' t l (λ j x there active open_s q.
      l k j s x found there (still open_s) active (sym same_key ∙ sym q)))
Update-IsShared {t} l (removed k e) = subst IsShared (sym e) (λ i j x y hx hy ox oy keys.
    l i j x y (ground (arith, get-delete i k t)) (ground (arith, get-delete j k t)) ox oy keys)

-- A subscription joins the source that `find` finds, or a new one when there is none.
pub choose_source-found :
    (r : Registry) (plan : Plan) (n : ℕ) (id : Text) (s : Source) (created : Bool)
    → choose_source r plan n id ≡ ok (s, created)
    → (find (reusable (source_key plan)) (values r.sources) ≡ some s) × (created ≡ false)
      ⊎ (find (reusable (source_key plan)) (values r.sources) ≡ none)
        × (s ≡ new_source plan n id)
        × (created ≡ true)
unfolding choose_source
choose_source-found r plan n id s created h =
    elim (Option-cases (find (reusable (source_key plan)) (values r.sources))) [
      | inl e ↦ inr (e, ground arith, ground arith)
      | inr (x, e) ↦ inl (ground arith, ground arith)
    ]

-- An open source that `find` did not find has another key.
closed_or_other :
    (key : Text) (s : Source) → reusable key s ≡ false → s.state ≢ SourceState.closing → s.key ≢ key
closed_or_other key s h active e = ground arith

reusable_open : (key : Text) (s : Source) → reusable key s ≡ true → s.state ≢ SourceState.closing
reusable_open key s h e = ground arith

reusable_key : (key : Text) (s : Source) → reusable key s ≡ true → s.key ≡ key
reusable_key key s h = ground arith

Step-IsShared : {r r' : Registry} → Weighs r → IsShared r.sources → Step r r' → IsShared r'.sources
Step-IsShared {r} w l (subscribes session plan source_id stream_id r' a fresh fresh' h) =
    let done = subscribe-Subscribed r session plan source_id stream_id r' a h in
    subst (λ x. IsShared x.sources) (sym done.result)
      (elim (choose_source-found r plan done.amount source_id done.source done.created
        done.chosen) [
          | inl (found, _) ↦
              let ((k, held), _) =
                find-values (reusable (source_key plan)) done.source r.sources w.once found in
              let here : get done.source.id r.sources ≡ some done.source =
                cc (held, w.named k done.source held) in
              set-IsShared done.source.id _ r.sources l (λ j x there active open_s q.
                l done.source.id j done.source x here there open_s active (sym q))
          | inr (none_found, made, _) ↦
              set-IsShared done.source.id _ r.sources l (λ j x there active open_s q. absurd (
                closed_or_other (source_key plan) x
                  (find-none (reusable (source_key plan)) j x r.sources none_found there) active
                  (q ∙ (cc made))))
        ])
Step-IsShared {r} w l (unsubscribes id) = Update-IsShared l (unsubscribe-Update r id)
Step-IsShared {r} w l (marks id) = Update-IsShared l (mark_ready-Update r id)
Step-IsShared {r} w l (closes id r' done h) = Update-IsShared l (close_source-Update r r' id done h)
Step-IsShared {r} w l (releases id) = Update-IsShared l (release_source-Update r id)
Step-IsShared {r} w l (moves session id state) =
    Update-IsShared l (transition-Update r session id state)

opened-IsShared : (l : Limits) (r : Registry) → open_registry l ≡ ok r → IsShared r.sources
unfolding open_registry get
opened-IsShared l r h =
    let e : [] ≡ r.sources = ground arith in subst IsShared e (λ j k s u hj hk oj ok' keys. cc)

-- In every reachable registry two open sources have different keys.
pub Reach-IsShared : {l : Limits} {r : Registry} → Reach l r → IsShared r.sources
Reach-IsShared {l} (opened r h) = opened-IsShared l r h
Reach-IsShared (stepped h s) = Step-IsShared (Reach-Weighs h) (Reach-IsShared h) s

-- In a reachable registry with an open source for the plan's key, a subscription that succeeds
-- joins that source: it creates none, and leaves as many sources as there were.
pub subscribe-joins :
    {l : Limits} {r r' : Registry} (session : Text) (plan : Plan) (source_id stream_id k : Text)
    (s : Source) (a : Admitted)
    → Reach l r
    → get k r.sources ≡ some s
    → s.key ≡ source_key plan
    → s.state ≢ SourceState.closing
    → subscribe r session plan source_id stream_id ≡ ok (r', a)
    → (owner stream_id r'.subscriptions ≡ some k) × (length r'.sources ≡ length r.sources)
subscribe-joins {r = r} {r' = r'} session plan source_id stream_id k s a reach held key active h =
    let w = Reach-Weighs reach in
    let done = subscribe-Subscribed r session plan source_id stream_id r' a h in
    elim (choose_source-found r plan done.amount source_id done.source done.created done.chosen) [
      | inl (found, _) ↦
          let ((j, there), passes) =
            find-values (reusable (source_key plan)) done.source r.sources w.once found in
          let at : get done.source.id r.sources ≡ some done.source =
            cc (there, w.named j done.source there) in
          let stream = new_stream session plan done.source.id stream_id in
          let next : Source = record done.source {
            subscriptions = done.source.subscriptions ++ stream_id ∷ [];
          } in
          let one =
            Reach-IsShared reach done.source.id k done.source s at held
              (reusable_open (source_key plan) done.source passes) active
              (reusable_key (source_key plan) done.source passes ∙ sym key) in
          (
            ground (arith, done.result, get-set stream_id stream_id stream r.subscriptions, one),
            cc (done.result, length-set_old done.source.id next done.source r.sources at),
          )
      | inr (none_found, _, _) ↦ absurd (
          closed_or_other (source_key plan) s
            (find-none (reusable (source_key plan)) k s r.sources none_found held) active key)
    ]
