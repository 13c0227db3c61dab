-- ===== src/Latency/Probes.antt =====
-- apps/server/src/latency-probes.mjs: the measurement that is under way and those that have ended.
use vidvnc.Base.{
  ℕ, ◌+◌, Bool, true, false, not, ◌&&◌, ◌||◌, Option, none, some, List, [], ◌∷◌, Text, codes, same,
  ltb, take, if◌then◌else◌, Result, ok, err,
}
use vidvnc.Base.Table.{Table, get, set}

pub data ProbeState : Type 0 where
  requested running failed done : ProbeState

abbrev pub is_requested : ProbeState → Bool
is_requested requested = true
is_requested running = false
is_requested failed = false
is_requested done = false

abbrev pub is_running : ProbeState → Bool
is_running requested = false
is_running running = true
is_running failed = false
is_running done = false

-- PICKUP_TIMEOUT_MS, RUN_TIMEOUT_MS and HISTORY
abbrev pub pickup_timeout : ℕ
pickup_timeout = 15000

abbrev pub run_timeout : ℕ
run_timeout = 120000

abbrev pub history_limit : ℕ
history_limit = 5

-- LATENCY_REASONS of latency-results.mjs
abbrev pub latency_reasons : List Text
latency_reasons =
    codes "no-control"
    ∷ codes "no-probe-page"
    ∷ codes "unsupported"
    ∷ codes "cancelled"
    ∷ codes "stream-changed"
    ∷ codes "control-lost"
    ∷ []

pub data RequestError : Type 0 where
  busy : RequestError

pub data ReportError : Type 0 where
  invalid_report : ReportError

pub record Probe (Results : Type 0) : Type 0 where
  pub id : Text
  pub stream_id : Text
  pub session_id : Text
  pub state : ProbeState
  pub reason : Option Text
  pub requested_at : ℕ
  pub running_at : Option ℕ
  pub planned_ms : Option ℕ
  pub ended_at : Option ℕ
  pub results : Option Results
  pub picked_up : Bool

pub record LatencyProbes (Results : Type 0) : Type 0 where
  pub active : Option (Probe Results)
  pub history : Table (List (Probe Results))

-- What a viewer reports. An absent field is `none`; a planned time that is no natural number is
-- `some none`; `has_more` says that there is a field besides.
pub record Report (Raw : Type 0) : Type 0 where
  pub stream_id : Text
  pub id : Text
  pub state : Text
  pub reason : Option Text
  pub results : Option Raw
  pub planned_ms : Option (Option ℕ)
  pub has_more : Bool

module _ {Results : Type 0} where
  abbrev pub past : LatencyProbes Results → Text → List (Probe Results)
  past b stream_id = elim (get stream_id b.history) [ none ↦ [] | some ps ↦ ps ]

  -- `#finish` of the active measurement
  unfoldable pub finish :
      LatencyProbes Results
      → Probe Results
      → ProbeState
      → Option Text
      → Option Results
      → ℕ
      → LatencyProbes Results
  finish b active state reason results now =
      let ended : Probe Results = record active {
        state = state;
        reason = reason;
        results = results;
        ended_at = some now;
      } in
      record b {
        active = none;
        history =
            set active.stream_id (take history_limit (ended ∷ past b active.stream_id)) b.history;
      }

  -- Whether the measurement has run out of time.
  abbrev pub overdue : Probe Results → ℕ → Bool
  overdue p now =
      (is_requested p.state && ltb (p.requested_at + pickup_timeout) now)
      || (is_running p.state
          && (elim p.running_at [ none ↦ false | some t ↦ ltb (t + run_timeout) now ]))

  -- `#settle`
  unfoldable pub settle : (Text → Text → Bool) → LatencyProbes Results → ℕ → LatencyProbes Results
  settle is_live b now = elim b.active [
    | none ↦ b
    | some p ↦
        if not (is_live p.session_id p.stream_id)
        then finish b p failed (some (codes "ended")) none now
        else if overdue p now
        then finish b p failed (some (codes "expired")) none now
        else b
  ]

  abbrev pub new_probe : (id stream_id session_id : Text) → ℕ → Probe Results
  new_probe id stream_id session_id now = record {
    id = id;
    stream_id = stream_id;
    session_id = session_id;
    state = requested;
    reason = none;
    requested_at = now;
    running_at = none;
    planned_ms = none;
    ended_at = none;
    results = none;
    picked_up = false;
  }

  unfoldable pub request :
      (Text → Text → Bool)
      → LatencyProbes Results
      → (id stream_id session_id : Text) → ℕ
      → LatencyProbes Results × Result RequestError Text
  request is_live b id stream_id session_id now =
      let settled = settle is_live b now in
      elim settled.active [
        | some p ↦ (settled, err busy)
        | none ↦ (record settled { active = some (new_probe id stream_id session_id now) }, ok id)
      ]

  abbrev pub is_of : Probe Results → (session_id stream_id : Text) → Bool
  is_of p session_id stream_id = same p.session_id session_id && same p.stream_id stream_id

  unfoldable pub pickup :
      (Text → Text → Bool)
      → LatencyProbes Results
      → (session_id stream_id : Text) → ℕ
      → LatencyProbes Results × Option Text
  pickup is_live b session_id stream_id now =
      let settled = settle is_live b now in
      elim settled.active [
        | none ↦ (settled, none)
        | some p ↦
            if is_requested p.state && not p.picked_up && is_of p session_id stream_id
            then (record settled { active = some (record p { picked_up = true }) }, some p.id)
            else (settled, none)
      ]

  -- `current`
  unfoldable pub current :
      (Text → Text → Bool)
      → LatencyProbes Results
      → (session_id stream_id id : Text) → ℕ
      → LatencyProbes Results × Bool
  current is_live b session_id stream_id id now =
      let settled = settle is_live b now in
      (
        settled,
        (elim settled.active [
          | none ↦ false
          | some p ↦ same p.id id && is_of p session_id stream_id
        ]),
      )

  unfoldable pub cancel :
      (Text → Text → Bool) → LatencyProbes Results → (id : Text) → ℕ → LatencyProbes Results × Bool
  cancel is_live b id now =
      let settled = settle is_live b now in
      elim settled.active [
        | none ↦ (settled, false)
        | some p ↦
            if same p.id id
            then (finish settled p failed (some (codes "host-cancelled")) none now, true)
            else (settled, false)
      ]

  unfoldable pub allows_asset :
      (Text → Text → Bool)
      → LatencyProbes Results
      → (session_id : Text) → ℕ
      → LatencyProbes Results × Bool
  allows_asset is_live b session_id now =
      let settled = settle is_live b now in
      (settled, (elim settled.active [ none ↦ false | some p ↦ same p.session_id session_id ]))

  -- `snapshot`: the active measurement of a stream, and the ended ones
  unfoldable pub snapshot :
      (Text → Text → Bool)
      → LatencyProbes Results
      → (stream_id : Text) → ℕ
      → LatencyProbes Results × (Option (Probe Results) × List (Probe Results))
  snapshot is_live b stream_id now =
      let settled = settle is_live b now in
      (
        settled,
        (
          (elim settled.active [
            | none ↦ none
            | some p ↦ if same p.stream_id stream_id then some p else none
          ]),
          past settled stream_id,
        ),
      )
