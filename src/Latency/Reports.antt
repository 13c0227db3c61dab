-- ===== src/Latency/Reports.antt =====
-- apps/server/src/latency-probes.mjs: what a viewer reports. The results are checked by `validate`
-- (`validateLatencyResults`).
use vidvnc.Base.{
  ℕ, Bool, true, false, not, ◌&&◌, Option, none, some, Text, codes, same, leb, any, is_some,
  if◌then◌else◌, Result, ok, err,
}
use vidvnc.Latency.Probes.{
  LatencyProbes, Probe, Report, ReportError, done, failed, finish, invalid_report, is_of,
  is_requested, is_running, latency_reasons, run_timeout, running, settle,
}

abbrev pub valid_plan : Option (Option ℕ) → Bool
valid_plan none = true
valid_plan (some none) = false
valid_plan (some (some n)) = leb n run_timeout

abbrev pub planned : Option (Option ℕ) → Option ℕ
planned none = none
planned (some n) = n

module _ {Raw Results : Type 0} (validate : Raw → Option Results) where
  abbrev pub validated : Option Raw → Option Results
  validated none = none
  validated (some raw) = validate raw

  -- What a report makes of the active measurement; `none` where it is refused.
  unfoldable pub apply_report :
      LatencyProbes Results → Probe Results → Report Raw → ℕ → Option (LatencyProbes Results)
  apply_report b p r now =
      if r.has_more
      then none
      else if same r.state (codes "running")
          && (is_requested p.state
              && not (is_some r.reason)
              && not (is_some r.results)
              && valid_plan r.planned_ms)
      then some (record b {
        active = some (record p {
          state = running;
          running_at = some now;
          planned_ms = planned r.planned_ms;
        });
      })
      else if same r.state (codes "failed")
          && ((elim r.reason [ none ↦ false | some why ↦ any (same why) latency_reasons ])
              && not (is_some r.results)
              && not (is_some r.planned_ms))
      then some (finish b p failed r.reason none now)
      else if same r.state (codes "done")
          && (is_running p.state && not (is_some r.reason) && not (is_some r.planned_ms))
      then (elim (validated r.results) [
        | none ↦ none
        | some results ↦ some (finish b p done none (some results) now)
      ])
      else none

  unfoldable pub report :
      (Text → Text → Bool)
      → LatencyProbes Results
      → (session_id : Text) → Report Raw
      → ℕ
      → LatencyProbes Results × Result ReportError Bool
  report is_live b session_id r now =
      let settled = settle is_live b now in
      elim settled.active [
        | none ↦ (settled, ok false)
        | some p ↦
            if not (same p.id r.id && is_of p session_id r.stream_id)
            then (settled, ok false)
            else (elim (apply_report settled p r now) [
              | some b' ↦ (b', ok true)
              | none ↦ (
                finish settled p failed (some (codes "invalid-report")) none now,
                err invalid_report,
              )
            ])
      ]
