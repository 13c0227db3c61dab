-- ===== src/Control/Lease.antt =====
-- apps/server/src/control-lease.mjs: one session at a time has control of the host. Its changes run
-- one after the other; `media` and `isActive` answer as an argument of each run says.
use vidvnc.Base.{
  Bool, true, false, not, ◌&&◌, ◌||◌, Option, none, some, List, [], ◌∷◌, ◌++◌, Text, keep, same,
  if◌then◌else◌, Result, ok, err, is_some,
}

pub record Owner : Type 0 where
  pub session_id : Text
  pub stream_id : Text
  pub explicit_owner : Bool

-- What `setPermission` answers: a Boolean, another value, or an exception.
pub data Answer : Type 0 where
  yields : Bool → Answer
  odd throws : Answer

-- The operations that wait for their turn.
pub data Change : Type 0 where
  grant : Owner → (only_if_available : Bool) → Change
  revoke : Option Text → Change
  renew : Change

-- The lease. `waiting` are the changes that have not settled, of which the first is under way, and
-- `held` the streams that the worker may still let control the host: control was asked for them,
-- and neither was its revocation acknowledged nor their peer removed since.
pub record Lease : Type 0 where
  pub owner : Option Owner
  pub waiting : List Change
  pub held : List Text

-- What the media and `isActive` answer in one run, in the order of the calls: `active` to the three
-- tests, `revoked` and `removed` to the first release, `allowed` to the grant or the renewal,
-- `again_revoked` and `again_removed` to a second release, and `dropped` to the removal of a peer
-- whose grant failed. A removal is acknowledged or throws.
pub record Answers : Type 0 where
  pub active_first : Bool
  pub active_then : Bool
  pub active_last : Bool
  pub revoked : Answer
  pub removed : Bool
  pub allowed : Answer
  pub again_revoked : Answer
  pub again_removed : Bool
  pub dropped : Bool

pub data Released : Type 0 where
  native_ack peer_terminated : Released

pub data ControlError : Type 0 where
  change_pending inactive_target worker_refused removal_failed : ControlError

-- What a call answers.
pub data Answered : Type 0 where
  unavailable granted nothing : Answered
  released : Released → Answered

abbrev pub is_yes : Answer → Bool
is_yes (yields b) = b
is_yes a = false

abbrev pub is_no : Answer → Bool
is_no (yields b) = not b
is_no a = false

abbrev pub without : Text → List Text → List Text
without stream = keep (λ s. not (same s stream))

abbrev pub is_owned_by : Text → Option Owner → Bool
is_owned_by session none = false
is_owned_by session (some o) = same o.session_id session

-- `removePeer(streamId)`
abbrev pub remove_peer : Lease → Text → (removed : Bool) → Lease
remove_peer l stream removed = record l { held = if removed then without stream l.held else l.held }

-- `#release()`
unfoldable pub release : Lease → Answer → Bool → Lease × Result ControlError Released
release l revoked removed = elim l.owner [
  | none ↦ (l, ok native_ack)
  | some o ↦
      let freed : Lease = record l { owner = none } in
      if is_no revoked
      then (record freed { held = without o.stream_id l.held }, ok native_ack)
      else (
        remove_peer freed o.stream_id removed,
        (if removed then ok peer_terminated else err removal_failed),
      )
]

-- The end of a grant that failed: the peer is removed, and the call throws.
abbrev pub abandon : Lease → Text → Bool → ControlError → Lease × Result ControlError Answered
abandon l stream dropped e =
    (remove_peer l stream dropped, err (if dropped then e else removal_failed))

-- The `try` block of a grant, from the call of `setPermission` on, with its `catch`.
unfoldable pub allow : Lease → Owner → Answers → Lease × Result ControlError Answered
unfolding release
allow l o a =
    let asked : Lease = record l { held = o.stream_id ∷ l.held } in
    if not (is_yes a.allowed)
    then abandon asked o.stream_id a.dropped worker_refused
    else (let owned : Lease = record asked { owner = some o } in
        if a.active_last
        then (owned, ok granted)
        else (let (freed, done) = release owned a.again_revoked a.again_removed in
            elim done [
              | ok r ↦ abandon freed o.stream_id a.dropped inactive_target
              | err e ↦ abandon freed o.stream_id a.dropped e
            ]))

-- The body of `grant`
unfoldable pub run_grant : Lease → Owner → Bool → Answers → Lease × Result ControlError Answered
unfolding release allow
run_grant l o only_if_available a =
    if only_if_available && is_some l.owner
    then (l, ok unavailable)
    else if not a.active_first
    then (l, err inactive_target)
    else (let (freed, done) = release l a.revoked a.removed in
        elim done [
          | err e ↦ (freed, err e)
          | ok r ↦ if not a.active_then then (freed, err inactive_target) else allow freed o a
        ])

abbrev pub as_answer : Lease × Result ControlError Released → Lease × Result ControlError Answered
as_answer (l, ok r) = (l, ok (released r))
as_answer (l, err e) = (l, err e)

-- The body of `revoke`
unfoldable pub run_revoke : Lease → Option Text → Answers → Lease × Result ControlError Answered
unfolding release
run_revoke l session a =
    if (elim session [ none ↦ true | some id ↦ is_owned_by id l.owner ])
    then as_answer (release l a.revoked a.removed)
    else (l, ok (released native_ack))

-- The rest of `renew`, where there is an owner. A release inside its `try` that throws is followed
-- by the one of `catch`.
unfoldable pub renew_owner : Lease → Owner → Answers → Lease × Result ControlError Answered
unfolding release
renew_owner l o a =
    if not a.active_first
    then as_answer (release l a.revoked a.removed)
    else (let asked : Lease = record l { held = o.stream_id ∷ l.held } in
        let (freed, done) = release asked a.revoked a.removed in
        if not (is_yes a.allowed)
        then (freed, elim done [ ok r ↦ ok nothing | err e ↦ err e ])
        else if a.active_last
        then (asked, ok nothing)
        else (elim done [
          | ok r ↦ (freed, ok nothing)
          | err e ↦ ((release freed a.again_revoked a.again_removed).0, ok nothing)
        ]))

-- The body of `renew`
unfoldable pub run_renew : Lease → Answers → Lease × Result ControlError Answered
unfolding renew_owner
run_renew l a = elim l.owner [ none ↦ (l, ok nothing) | some o ↦ renew_owner l o a ]

unfoldable pub change : Lease → Change → Answers → Lease × Result ControlError Answered
unfolding run_grant run_revoke run_renew
change l (grant o only_if_available) a = run_grant l o only_if_available a
change l (revoke session) a = run_revoke l session a
change l renew a = run_renew l a

-- `this.#pending` is not 0
abbrev pub is_pending : Lease → Bool
is_pending l = elim l.waiting [ [] ↦ false | c ∷ cs ↦ true ]

-- A call: it answers at once, or waits for its turn.
unfoldable pub ask : Lease → Change → Lease × Option (Result ControlError Answered)
ask l (grant o only_if_available) =
    if only_if_available && (is_pending l || is_some l.owner)
    then (l, some (ok unavailable))
    else if is_pending l
    then (l, some (err change_pending))
    else (record l { waiting = l.waiting ++ grant o only_if_available ∷ [] }, none)
ask l (revoke session) = (record l { waiting = l.waiting ++ revoke session ∷ [] }, none)
ask l renew =
    if is_pending l
    then (l, some (ok nothing))
    else (record l { waiting = l.waiting ++ renew ∷ [] }, none)

-- The first change runs and settles; then the next may begin.
unfoldable pub settle : Lease → Answers → Lease × Option (Result ControlError Answered)
unfolding change
settle l a = elim l.waiting [
  | [] ↦ (l, none)
  | c ∷ cs ↦ let (next, answer) = change l c a in (record next { waiting = cs }, some answer)
]

abbrev pub new_lease : Lease
new_lease = record { owner = none; waiting = []; held = [] }
