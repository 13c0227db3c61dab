-- ===== src/Streams/Leaving.antt =====
-- apps/server/src/stream-registry.mjs: how subscriptions and sources change and go, and the lookups.
use vidvnc.Base.{
  Bool, true, false, not, ◌&&◌, Option, none, some, List, [], ◌∷◌, Text, same, keep, if◌then◌else◌,
}
use vidvnc.Base.Table.{Table, get, set, delete, values}
use vidvnc.Streams.Plans.{Kind}
use vidvnc.Streams.State.{
  Registry, Source, SourceState, Stream, StreamState, is_closing, is_video, same_kind,
}

-- What `unsubscribe` returns: the source, and whether its last stream has left.
pub record Left : Type 0 where
  pub source : Option Source
  pub last : Bool

abbrev pub is_empty {ℓ} : {A : Type ℓ} → List A → Bool
is_empty [] = true
is_empty (x ∷ xs) = false

-- The source without the stream; it closes when its last stream leaves.
unfoldable pub leave_source : Text → Source → Source × Bool
leave_source id s =
    let rest = keep (λ j. not (same j id)) s.subscriptions in
    let last = is_empty rest && not (is_closing s.state) in
    (record s { state = if last then SourceState.closing else s.state; subscriptions = rest }, last)

unfoldable pub unsubscribe : Registry → Text → Registry × Left
unfolding leave_source
unsubscribe r id = elim (get id r.subscriptions) [
  | none ↦ (r, record { source = none; last = false })
  | some stream ↦
      let subscriptions = delete id r.subscriptions in
      elim (get stream.source_id r.sources) [
        | none ↦
            (record r { subscriptions = subscriptions }, record { source = none; last = false })
        | some s ↦
            let (s', last) = leave_source id s in
            (
              record r {
                sources = set stream.source_id s' r.sources;
                subscriptions = subscriptions;
              },
              record { source = some s'; last = last },
            )
      ]
]

abbrev pub mark : SourceState → Source → Option Source
mark SourceState.starting s = some (record s { state = SourceState.ready })
mark _ s = none

unfoldable pub mark_ready : Registry → Text → Registry × Bool
mark_ready r id = elim (get id r.sources) [
  | none ↦ (r, false)
  | some s ↦ elim (mark s.state s) [
    | none ↦ (r, false)
    | some s' ↦ (record r { sources = set id s' r.sources }, true)
  ]
]

-- The loop of `closeSource`; `none` is the TypeError of a listed stream that is not there.
unfoldable pub close_streams : List Text → Table Stream → Option (Table Stream)
close_streams [] t = some t
close_streams (id ∷ ids) t = elim (get id t) [
  | none ↦ none
  | some s ↦ close_streams ids (set id (record s { state = StreamState.closing }) t)
]

unfoldable pub close_source : Registry → Text → Option (Registry × Bool)
unfolding close_streams
close_source r id = elim (get id r.sources) [
  | none ↦ some (r, false)
  | some s ↦ elim (close_streams s.subscriptions r.subscriptions) [
    | none ↦ none
    | some subscriptions ↦ some (
      record r {
        sources = set id (record s { state = SourceState.closing }) r.sources;
        subscriptions = subscriptions;
      },
      true,
    )
  ]
]

unfoldable pub delete_all {ℓ} : {V : Type ℓ} → List Text → Table V → Table V
delete_all [] t = t
delete_all (id ∷ ids) t = delete_all ids (delete id t)

unfoldable pub release_source : Registry → Text → Registry × Bool
unfolding delete_all
release_source r id = elim (get id r.sources) [
  | none ↦ (r, false)
  | some s ↦ (
    record r {
      sources = delete id r.sources;
      subscriptions = delete_all s.subscriptions r.subscriptions;
    },
    true,
  )
]

unfoldable pub source_of : Registry → Text → Option Source
source_of r id = elim (get id r.subscriptions) [
  | none ↦ none
  | some stream ↦ get stream.source_id r.sources
]

-- `get(sessionId, id)`: a client sees its own video streams only.
unfoldable pub get_own : Registry → Text → Text → Option Stream
get_own r session id = elim (get id r.subscriptions) [
  | none ↦ none
  | some s ↦ if same s.session_id session && is_video s.kind then some s else none
]

unfoldable pub list : Registry → Option Text → Kind → List Stream
list r session kind =
    keep
      (λ s.
        same_kind s.kind kind && (elim session [ none ↦ true | some id ↦ same s.session_id id ]))
      (values r.subscriptions)

-- SUBSCRIPTION_STATES
abbrev pub may_become : StreamState → StreamState → Bool
may_become StreamState.starting StreamState.live = true
may_become StreamState.starting StreamState.closing = true
may_become StreamState.live StreamState.closing = true
may_become _ _ = false

unfoldable pub transition : Registry → Text → Text → StreamState → Registry × Bool
transition r session id state = elim (get id r.subscriptions) [
  | none ↦ (r, false)
  | some s ↦
      if same s.session_id session && may_become s.state state
      then (record r { subscriptions = set id (record s { state = state }) r.subscriptions }, true)
      else (r, false)
]
