-- ===== src/Latency/Slots.antt =====
-- When a new measurement can start (apps/server/src/latency-probes.mjs).
use vidvnc.Base.{
  ℕ, ◌+◌, ◌≤◌, ◌<◌, ◌≡◌, refl, Bool, true, Option, none, some, List, Text, codes, All, ok, arith,
  Bool-cases, Option-cases, inl, inr, ltb,
}
use vidvnc.Latency.Probes.{
  ProbeState, failed, Probe, LatencyProbes, finish, settle, overdue, request, run_timeout,
  pickup_timeout, is_requested, is_running,
}
use vidvnc.Latency.Bounded.{Kept, Open, Open-active}
use vidvnc.Latency.Histories.{Timed, run, new_probes, run-Kept}

module _ {Results : Type 0} where
  finish-active :
      (b : LatencyProbes Results) (p : Probe Results) (state : ProbeState) (reason : Option Text)
      (results : Option Results) (now : ℕ)
      → (finish b p state reason results now).active ≡ none
  unfolding finish
  finish-active b p state reason results now = refl

  -- A measurement that is open cannot be so for more than the time of a run.
  Open-overdue :
      (latest now : ℕ) (p : Probe Results)
      → latest + run_timeout < now
      → Open latest p
      → overdue p now ≡ true
  Open-overdue latest now p h o =
      let asked = o.asked_by in
      let begun = o.started_by in
      let known = o.has_start in
      let is_open = o.is_open in
      elim (Bool-cases (is_requested p.state)) [
        | inl e ↦
            let gone : ltb (p.requested_at + pickup_timeout) now ≡ true =
              ground (arith, asked, h) in
            rw (e, gone) refl
        | inr e ↦ elim (Option-cases p.running_at) [
          | inl f ↦ absurd (ground (arith, is_open, known, e, f))
          | inr (t, f) ↦
              let runs : is_running p.state ≡ true = ground (arith, is_open, e) in
              let since : t ≤ latest = rw (f) at begun in
              let late : ltb (t + run_timeout) now ≡ true = ground (arith, since, h) in
              rw (e, runs, f, late) refl
        ]
      ]

  settle-active :
      (is_live : Text → Text → Bool) (latest : ℕ) (b : LatencyProbes Results) (now : ℕ)
      → latest + run_timeout < now
      → Kept latest b
      → (settle is_live b now).active ≡ none
  unfolding settle
  settle-active is_live latest b now h k = elim (Option-cases b.active) [
    | inl e ↦ rw (settle, e) e
    | inr (p, e) ↦ elim (Bool-cases (is_live p.session_id p.stream_id)) [
      | inr f ↦ rw (settle, e, f) (finish-active b p failed (some (codes "ended")) none now)
      | inl f ↦
          rw (settle, e, f, Open-overdue latest now p h (Open-active latest b p k e))
            (finish-active b p failed (some (codes "expired")) none now)
    ]
  ]

module _ {Raw Results : Type 0} (validate : Raw → Option Results) where
  -- Two minutes after the last of any calls, whatever these were, a new measurement is accepted.
  pub request-free :
      (ts : List (Timed Raw)) (latest now : ℕ) (is_live : Text → Text → Bool)
      (id stream_id session_id : Text)
      → All (λ t. t.now ≤ latest) ts
      → latest + run_timeout < now
      → (request is_live (run validate new_probes ts) id stream_id session_id now).1 ≡ ok id
  unfolding request
  request-free ts latest now is_live id stream_id session_id a h =
      let free =
        settle-active is_live latest (run validate new_probes ts) now h
          (run-Kept validate latest ts a) in
      rw (request, free) refl
