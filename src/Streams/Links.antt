-- ===== src/Streams/Links.antt =====
-- How sources and subscriptions name one another, and the lists that they do it by.
use vidvnc.Base.{
  ◌≡◌, refl, ◌≢◌, true, not, Option, none, some, inl, inr, List, [], ◌∷◌, ◌++◌, Text, same, keep,
  arith, if◌then◌else◌, Option-cases, ◌&&◌, ◌||◌,
}
use vidvnc.Base.Table.{Table, get, set, delete, get-set, get-delete}
use vidvnc.Streams.State.{Registry, Source, Stream, SourceState, StreamState}
use vidvnc.Streams.Leaving.{close_streams, delete_all}
use vidvnc.Streams.Plans.{includes}

-- The source that a subscription belongs to.
abbrev pub owner : Text → Table Stream → Option Text
owner id t = elim (get id t) [ none ↦ none | some s ↦ some s.source_id ]

pub record IsLinked (r : Registry) : Type 0 where
  -- The source of a subscription is there, and lists it.
  pub listed :
      (id k : Text)
      → owner id r.subscriptions ≡ some k
      → (s : Source) × (get k r.sources ≡ some s) × (includes s.subscriptions id ≡ true)
  -- A listed subscription is there, and belongs to the source.
  pub held :
      (k : Text) (s : Source) (id : Text)
      → get k r.sources ≡ some s
      → includes s.subscriptions id ≡ true
      → owner id r.subscriptions ≡ some k
  -- A source that is not closing has a subscription.
  pub busy :
      (k : Text) (s : Source)
      → get k r.sources ≡ some s
      → s.state ≢ SourceState.closing
      → s.subscriptions ≢ []

pub includes-append :
    (l : List Text) (a b : Text) → includes (l ++ a ∷ []) b ≡ (includes l b || same b a)
includes-append [] a b = ground arith
includes-append (x ∷ l) a b = ground (arith, includes-append l a b)

pub includes-keep :
    (l : List Text) (a b : Text)
    → includes (keep (λ j. not (same j a)) l) b ≡ (includes l b && not (same b a))
includes-keep [] a b = ground arith
includes-keep (x ∷ l) a b = ground (arith, includes-keep l a b)

pub append-ne-nil : (l : List Text) (a : Text) → l ++ a ∷ [] ≢ []
append-ne-nil [] a h = cc
append-ne-nil (x ∷ l) a h = cc

pub get-delete_all {ℓ} :
    {V : Type ℓ} (ids : List Text) (j : Text) (t : Table V)
    → get j (delete_all ids t) ≡ (if includes ids j then none else get j t)
unfolding delete_all
get-delete_all [] j t = refl
get-delete_all (id ∷ ids) j t =
    ground (arith, get-delete_all ids j (delete id t), get-delete j id t)

pub close_streams-owner :
    (ids : List Text) (t u : Table Stream) (j : Text)
    → close_streams ids t ≡ some u
    → owner j u ≡ owner j t
unfolding close_streams
close_streams-owner [] t u j h = ground arith
close_streams-owner (id ∷ ids) t u j h = elim (Option-cases (get id t)) [
  | inl e ↦ absurd (ground arith)
  | inr (s, e) ↦
      let s' : Stream = record s { state = StreamState.closing } in
      ground (arith, close_streams-owner ids (set id s' t) u j, get-set j id s' t)
]

pub close_streams_total :
    (ids : List Text) (t : Table Stream)
    → ((id : Text) → includes ids id ≡ true → owner id t ≢ none)
    → (u : Table Stream) × (close_streams ids t ≡ some u)
unfolding close_streams
close_streams_total [] t h = (t, refl)
close_streams_total (id ∷ ids) t h = elim (Option-cases (get id t)) [
  | inl e ↦ absurd (h id (ground arith) (ground arith))
  | inr (s, e) ↦
      let s' : Stream = record s { state = StreamState.closing } in
      let (u, closed) =
        close_streams_total ids (set id s' t) (λ j m. ground (arith, get-set j id s' t, h j)) in
      (u, ground arith)
]
