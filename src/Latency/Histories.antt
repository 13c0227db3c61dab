-- ===== src/Latency/Histories.antt =====
-- Calls of the latency measurements one after the other (apps/server/src/latency-probes.mjs).
use vidvnc.Base.{
  ℕ, ◌≤◌, ◌≡◌, subst, refl, Bool, false, not, ◌&&◌, Option, none, some, List, [], ◌∷◌, Text, codes,
  same, All, any, is_some, arith, Bool-cases, Option-cases, inl, inr,
}
use vidvnc.Base.Table.{get}
use vidvnc.Latency.Probes.{
  running, failed, done, is_requested, is_running, Probe, LatencyProbes, Report, finish, settle,
  request, pickup, current, cancel, allows_asset, snapshot, latency_reasons, is_of,
}
use vidvnc.Latency.Reports.{apply_report, report, validated, valid_plan, planned}
use vidvnc.Latency.Bounded.{
  Kept, Open, settle-Kept, active-Kept, Open-active, request-Kept, pickup-Kept, cancel-Kept,
  finish-Kept, fail-Kept, done-Ended,
}

pub data Call (Raw : Type 0) : Type 0 where
  requests : (id stream_id session_id : Text) → Call Raw
  picks_up : (session_id stream_id : Text) → Call Raw
  reports : (session_id : Text) → Report Raw → Call Raw
  checks : (session_id stream_id id : Text) → Call Raw
  cancels : (id : Text) → Call Raw
  asks_asset : (session_id : Text) → Call Raw
  looks : (stream_id : Text) → Call Raw

-- A call, with the streams that are live and the time then.
pub record Timed (Raw : Type 0) : Type 0 where
  pub call : Call Raw
  pub is_live : Text → Text → Bool
  pub now : ℕ

abbrev pub new_probes : {Results : Type 0} → LatencyProbes Results
new_probes = record { active = none; history = [] }

module _ {Raw Results : Type 0} where
  abbrev starts : Probe Results → Report Raw → Bool
  starts p r =
      same r.state (codes "running")
      && (is_requested p.state
          && not (is_some r.reason)
          && not (is_some r.results)
          && valid_plan r.planned_ms)

  abbrev ends : Probe Results → Report Raw → Bool
  ends p r =
      same r.state (codes "done")
      && (is_running p.state && not (is_some r.reason) && not (is_some r.planned_ms))

abbrev fails : {Raw : Type 0} → Report Raw → Bool
fails r =
    same r.state (codes "failed")
    && ((elim r.reason [ none ↦ false | some why ↦ any (same why) latency_reasons ])
        && not (is_some r.results)
        && not (is_some r.planned_ms))

module _ {Raw Results : Type 0} (validate : Raw → Option Results) where
  unfoldable pub call_on : LatencyProbes Results → Timed Raw → LatencyProbes Results
  call_on b t = elim t.call [
    | requests id stream_id session_id ↦ (request t.is_live b id stream_id session_id t.now).0
    | picks_up session_id stream_id ↦ (pickup t.is_live b session_id stream_id t.now).0
    | reports session_id r ↦ (report validate t.is_live b session_id r t.now).0
    | checks session_id stream_id id ↦ (current t.is_live b session_id stream_id id t.now).0
    | cancels id ↦ (cancel t.is_live b id t.now).0
    | asks_asset session_id ↦ (allows_asset t.is_live b session_id t.now).0
    | looks stream_id ↦ (snapshot t.is_live b stream_id t.now).0
  ]

  unfoldable pub run : LatencyProbes Results → List (Timed Raw) → LatencyProbes Results
  unfolding call_on
  run b [] = b
  run b (t ∷ ts) = run (call_on b t) ts

module _ {Raw Results : Type 0} (validate : Raw → Option Results) (latest : ℕ) where
  apply_report-Kept :
      (b b' : LatencyProbes Results) (p : Probe Results) (r : Report Raw) (now : ℕ)
      → now ≤ latest
      → Kept latest b
      → Open latest p
      → apply_report validate b p r now ≡ some b'
      → Kept latest b'
  unfolding apply_report
  apply_report-Kept b b' p r now le k o h = elim (Bool-cases r.has_more) [
    | inl m ↦ absurd (cc ((rw (apply_report, m) at h)))
    | inr m ↦ elim (Bool-cases (starts p r)) [
      | inl s ↦
          let begun : Probe Results = record p {
            state = running;
            running_at = some now;
            planned_ms = planned r.planned_ms;
          } in
          let found : some (record b { active = some begun }) ≡ some b' =
            rw (apply_report, m, s) at h in
          let one : record b { active = some begun } ≡ b' = cc (found) in
          subst (Kept latest) one (
            active-Kept latest b begun k (record {
              is_open = refl;
              has_start = refl;
              no_results = o.no_results;
              asked_by = o.asked_by;
              started_by = le;
            }))
      | inr s ↦ elim (Bool-cases (fails r)) [
        | inl f ↦
            let found : some (finish b p failed r.reason none now) ≡ some b' =
              rw (apply_report, m, s, f) at h in
            let one : finish b p failed r.reason none now ≡ b' = cc (found) in
            subst (Kept latest) one (fail-Kept latest b p r.reason now k)
        | inr f ↦ elim (Bool-cases (ends p r)) [
          | inr e ↦ absurd (cc ((rw (apply_report, m, s, f, e) at h)))
          | inl e ↦ elim (Option-cases (validated validate r.results)) [
            | inl v ↦ absurd (cc ((rw (apply_report, m, s, f, e, v) at h)))
            | inr (results, v) ↦
                let found : some (finish b p done none (some results) now) ≡ some b' =
                  rw (apply_report, m, s, f, e, v) at h in
                let one : finish b p done none (some results) now ≡ b' = cc (found) in
                subst (Kept latest) one
                  (finish-Kept latest b p done none (some results) now k (done-Ended p results now))
          ]
        ]
      ]
    ]
  ]

  report-Kept :
      (is_live : Text → Text → Bool) (b : LatencyProbes Results) (session_id : Text)
      (r : Report Raw) (now : ℕ)
      → now ≤ latest
      → Kept latest b
      → Kept latest (report validate is_live b session_id r now).0
  unfolding report
  report-Kept is_live b session_id r now le k =
      let settled = settle is_live b now in
      let kept = settle-Kept latest is_live b now k in
      elim (Option-cases settled.active) [
        | inl e ↦ rw (report, e) kept
        | inr (p, e) ↦ elim (Bool-cases (same p.id r.id && is_of p session_id r.stream_id)) [
          | inr f ↦ rw (report, e, f) kept
          | inl f ↦ elim (Option-cases (apply_report validate settled p r now)) [
            | inl g ↦
                rw (report, e, f, g)
                  (fail-Kept latest settled p (some (codes "invalid-report")) now kept)
            | inr (b', g) ↦
                rw (report, e, f, g)
                  (apply_report-Kept settled b' p r now le kept
                    (Open-active latest settled p kept e) g)
          ]
        ]
      ]

  call_on-Kept :
      (b : LatencyProbes Results) (t : Timed Raw)
      → t.now ≤ latest
      → Kept latest b
      → Kept latest (call_on validate b t)
  unfolding call_on current allows_asset snapshot
  call_on-Kept b t le k =
      elim t.call as (λ c. Kept latest (call_on validate b (record t { call = c }))) [
        | requests id stream_id session_id ↦
            request-Kept latest t.is_live b id stream_id session_id t.now le k
        | picks_up session_id stream_id ↦
            pickup-Kept latest t.is_live b session_id stream_id t.now k
        | reports session_id r ↦ report-Kept t.is_live b session_id r t.now le k
        | checks session_id stream_id id ↦ settle-Kept latest t.is_live b t.now k
        | cancels id ↦ cancel-Kept latest t.is_live b id t.now k
        | asks_asset session_id ↦ settle-Kept latest t.is_live b t.now k
        | looks stream_id ↦ settle-Kept latest t.is_live b t.now k
      ]

  run-from :
      (b : LatencyProbes Results) (ts : List (Timed Raw))
      → All (λ t. t.now ≤ latest) ts
      → Kept latest b
      → Kept latest (run validate b ts)
  unfolding run
  run-from b [] a k = k
  run-from b (t ∷ ts) (le, a) k = run-from (call_on validate b t) ts a (call_on-Kept b t le k)

  new_probes-Kept : Kept latest (new_probes {Results = Results})
  unfolding get
  new_probes-Kept = record { few = λ j. omega arith; ended = λ j. tt; active-Open = tt }

  -- After any calls up to a time, at most five ended measurements of each stream are kept; each has
  -- the time of its end, and has results exactly if it is done. The active one is asked for or
  -- runs, without results, since that time at the latest; it has the time of its start exactly if it
  -- runs.
  pub run-Kept :
      (ts : List (Timed Raw))
      → All (λ t. t.now ≤ latest) ts
      → Kept latest (run validate new_probes ts)
  run-Kept ts a = run-from new_probes ts a new_probes-Kept
