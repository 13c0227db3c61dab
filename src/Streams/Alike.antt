-- ===== src/Streams/Alike.antt =====
-- Plans that ask for the same pictures or sound share a source of apps/server/src/stream-registry.mjs.
use vidvnc.Base.{
  ◌++◌, length, ◌≡◌, sym, ap, ◌∙◌, ◌≢◌, refl, some, inl, inr, [], ◌∷◌, Text, codes, same, dec_text,
  ok, arith, Bool-cases, subst,
}
use vidvnc.Base.Table.{find-values, Table, get, set, get-set, get-delete}
use vidvnc.Streams.Joining.{Admitted, open_registry, reusable, subscribe}
use vidvnc.Streams.State.{Registry, Source, Limits, SourceState}
use vidvnc.Streams.Plans.{
  Profile, Plan, audio, video, or_else, rate_key, size_key, video_key, source_key,
}
use vidvnc.Streams.Reach.{
  Step, subscribes, unsubscribes, marks, closes, releases, moves, Reach, opened, stepped,
}
use vidvnc.Streams.Admission.{subscribe-Subscribed}
use vidvnc.Streams.Weights.{Weighs}
use vidvnc.Streams.Budget.{Reach-Weighs}
use vidvnc.Streams.Links.{owner}
use vidvnc.Streams.Updates.{
  Update, unchanged, renewed, removed, unsubscribe-Update, mark_ready-Update, close_source-Update,
  release_source-Update, transition-Update,
}
use vidvnc.Streams.Sharing.{choose_source-found, subscribe-joins}

abbrev mode_of : Profile → Text
mode_of p = or_else p.bitrate_mode (codes "cbr")

-- The profiles encode alike: quality is of account under VBR only, and the names never are.
pub record EncodesAlike (p q : Profile) : Type 0 where
  pub same_width : p.width ≡ q.width
  pub same_height : p.height ≡ q.height
  pub same_fps : p.fps ≡ q.fps
  pub same_stretch : p.stretch ≡ q.stretch
  pub same_bitrate : p.bitrate_kbps ≡ q.bitrate_kbps
  pub same_mode : mode_of p ≡ mode_of q
  pub same_quality :
      mode_of p ≡ codes "vbr"
      → or_else p.quality (codes "balanced") ≡ or_else q.quality (codes "balanced")

-- The plans have the same format of sound, or the same display, revision and codec and profiles that
-- encode alike.
pub data IsAlike (a b : Plan) : Type 0 where
  sounds : a.kind ≡ audio → b.kind ≡ audio → a.format ≡ b.format → IsAlike a b
  pictures :
      (p q : Profile)
      → a.kind ≡ video
      → b.kind ≡ video
      → a.profile ≡ some p
      → b.profile ≡ some q
      → a.display ≡ b.display
      → a.revision ≡ b.revision
      → or_else a.codec (codes "h264") ≡ or_else b.codec (codes "h264")
      → EncodesAlike p q
      → IsAlike a b

rate_key_alike : (p q : Profile) → EncodesAlike p q → rate_key p ≡ rate_key q
unfolding rate_key
rate_key_alike p q e =
    let mode = e.same_mode in
    elim (Bool-cases (same (mode_of p) (codes "vbr"))) [
      | inl v ↦ let quality = e.same_quality (ground (arith, v)) in ground (arith, v, mode, quality)
      | inr v ↦ ground (arith, v, mode)
    ]

size_key_alike : (p q : Profile) → EncodesAlike p q → size_key p ≡ size_key q
size_key_alike p q e = rw (e.same_width, e.same_height, e.same_fps, e.same_stretch) refl

alike-source_key : (a b : Plan) → IsAlike a b → source_key a ≡ source_key b
unfolding source_key video_key
alike-source_key a b (sounds ka kb f) = ground (arith, ka, kb, f)
alike-source_key a b (pictures p q ka kb pa pb d v c e) =
    let rate = rate_key_alike p q e in
    let size = size_key_alike p q e in rw (ka, kb, pa, pb, d, v, c, rate, size, e.same_bitrate) refl

-- Each source has the key of its plan.
abbrev IsKeyed : Table Source → Type 0
IsKeyed t = (k : Text) (s : Source) → get k t ≡ some s → s.key ≡ source_key s.plan

set-IsKeyed :
    (k : Text) (s : Source) (t : Table Source)
    → IsKeyed t
    → s.key ≡ source_key s.plan
    → IsKeyed (set k s t)
set-IsKeyed k s t l own j x h = elim (dec_text k j) [
  | yes e ↦
      let here : s ≡ x = ground (arith, h, get-set j k s t) in
      subst (λ (y : Source). y.key ≡ source_key y.plan) here own
  | no n ↦ l j x (ground (arith, h, get-set j k s t))
]

Update-IsKeyed : {t u : Table Source} → IsKeyed t → Update t u → IsKeyed u
Update-IsKeyed l (unchanged e) = subst IsKeyed (sym e) l
Update-IsKeyed {t} l (renewed k s s' found e (same_key, same_plan) still) =
    subst IsKeyed (sym e)
      (set-IsKeyed k s' t l (same_key ∙ l k s found ∙ ap source_key (sym same_plan)))
Update-IsKeyed {t} l (removed k e) =
    subst IsKeyed (sym e) (λ j x h. l j x (ground (arith, h, get-delete j k t)))

Step-IsKeyed : {r r' : Registry} → Weighs r → IsKeyed r.sources → Step r r' → IsKeyed r'.sources
Step-IsKeyed {r} w l (subscribes session plan source_id stream_id r' a fresh fresh' h) =
    let done = subscribe-Subscribed r session plan source_id stream_id r' a h in
    let next : Source = record done.source {
      subscriptions = done.source.subscriptions ++ stream_id ∷ [];
    } in
    subst (λ x. IsKeyed x.sources) (sym done.result)
      (elim (choose_source-found r plan done.amount source_id done.source done.created
        done.chosen) [
          | inl (found, _) ↦
              let ((k, held), _) =
                find-values (reusable (source_key plan)) done.source r.sources w.once found in
              set-IsKeyed done.source.id next r.sources l (l k done.source held)
          | inr (none_found, made, _) ↦ set-IsKeyed done.source.id next r.sources l (cc made)
        ])
Step-IsKeyed {r} w l (unsubscribes id) = Update-IsKeyed l (unsubscribe-Update r id)
Step-IsKeyed {r} w l (marks id) = Update-IsKeyed l (mark_ready-Update r id)
Step-IsKeyed {r} w l (closes id r' done h) = Update-IsKeyed l (close_source-Update r r' id done h)
Step-IsKeyed {r} w l (releases id) = Update-IsKeyed l (release_source-Update r id)
Step-IsKeyed {r} w l (moves session id state) =
    Update-IsKeyed l (transition-Update r session id state)

opened-IsKeyed : (l : Limits) (r : Registry) → open_registry l ≡ ok r → IsKeyed r.sources
unfolding open_registry get
opened-IsKeyed l r h = let e : [] ≡ r.sources = ground arith in subst IsKeyed e (λ k s held. cc)

Reach-IsKeyed : {l : Limits} {r : Registry} → Reach l r → IsKeyed r.sources
Reach-IsKeyed {l} (opened r h) = opened-IsKeyed l r h
Reach-IsKeyed (stepped h s) = Step-IsKeyed (Reach-Weighs h) (Reach-IsKeyed h) s

-- In a reachable registry, where an open source has a plan of the same format of sound, or of the same
-- display, revision and codec and of a profile that encodes alike, whatever its name, a subscription that
-- succeeds joins that source and creates none.
pub subscribe-alike :
    {l : Limits} {r r' : Registry} (session : Text) (plan : Plan) (source_id stream_id k : Text)
    (s : Source) (a : Admitted)
    → Reach l r
    → get k r.sources ≡ some s
    → s.state ≢ SourceState.closing
    → IsAlike plan s.plan
    → subscribe r session plan source_id stream_id ≡ ok (r', a)
    → (owner stream_id r'.subscriptions ≡ some k) × (length r'.sources ≡ length r.sources)
subscribe-alike session plan source_id stream_id k s a reach held active alike h =
    subscribe-joins session plan source_id stream_id k s a reach held
      (Reach-IsKeyed reach k s held ∙ sym (alike-source_key plan s.plan alike)) active h
