-- ===== src/Latency/Bounded.antt =====
-- What the server keeps of its measurements (apps/server/src/latency-probes.mjs), over all calls.
use mathlib.Core.Logic.{ite}
use vidvnc.Base.{
  ℕ, zero, suc, ◌≤◌, ◌≡◌, subst, refl, Bool, true, false, not, ◌&&◌, ◌||◌, Option, none, some, List,
  [], ◌∷◌, Text, codes, same, take, length, length-take-le, All, is_some, arith, Bool-cases,
  Option-cases, inl, inr, dec_text,
}
use vidvnc.Base.Table.{set, get-set}
use vidvnc.Latency.Probes.{
  ProbeState, requested, running, failed, done, is_requested, is_running, Probe, LatencyProbes,
  past, finish, settle, overdue, new_probe, request, pickup, cancel, history_limit, is_of,
}

module _ {Results : Type 0} where
  -- A measurement that has ended: done with results, or failed without.
  pub record Ended (p : Probe Results) : Type 0 where
    pub is_over : is_requested p.state || is_running p.state ≡ false
    pub has_end : is_some p.ended_at ≡ true
    pub has_results :
        is_some p.results
        ≡ (elim p.state [ requested ↦ false | running ↦ false | failed ↦ false | done ↦ true ])

  All-take : (n : ℕ) (ps : List (Probe Results)) → All Ended ps → All Ended (take n ps)
  All-take zero ps a = tt
  All-take (suc n) [] a = tt
  All-take (suc n) (p ∷ ps) (a, rest) = (a, All-take n ps rest)

  -- The histories after one of them is set.
  past-set :
      (b : LatencyProbes Results) (j k : Text) (ps : List (Probe Results))
      → past (record b { active = none; history = set k ps b.history }) j
        ≡ ite (dec_text k j) ps (past b j)
  past-set b j k ps = rw (past, get-set j k ps b.history) (ground arith)

  failed-Ended :
      (p : Probe Results) (reason : Option Text) (now : ℕ)
      → Ended (record p { state = failed; reason = reason; results = none; ended_at = some now })
  failed-Ended p reason now = record { is_over = refl; has_end = refl; has_results = refl }

  pub done-Ended :
      (p : Probe Results) (results : Results) (now : ℕ)
      → Ended
          (record p { state = done; reason = none; results = some results; ended_at = some now })
  done-Ended p results now = record { is_over = refl; has_end = refl; has_results = refl }

-- A time, 0 where there is none
abbrev pub time_of : Option ℕ → ℕ
time_of none = 0
time_of (some t) = t

module _ {Results : Type 0} (latest : ℕ) where
  -- A measurement that is under way, with its times.
  pub record Open (p : Probe Results) : Type 0 where
    pub is_open : is_requested p.state || is_running p.state ≡ true
    pub has_start : is_running p.state ≡ is_some p.running_at
    pub no_results : p.results ≡ none
    pub asked_by : p.requested_at ≤ latest
    pub started_by : time_of p.running_at ≤ latest

  abbrev pub ActiveOpen : Option (Probe Results) → Type 0
  ActiveOpen none = Unit
  ActiveOpen (some p) = Open p

  -- Five ended measurements of each stream at most, and one open one.
  pub record Kept (b : LatencyProbes Results) : Type 0 where
    pub few : (stream_id : Text) → length (past b stream_id) ≤ history_limit
    pub ended : (stream_id : Text) → All Ended (past b stream_id)
    pub active-Open : ActiveOpen b.active

  pub finish-Kept :
      (b : LatencyProbes Results) (p : Probe Results) (state : ProbeState) (reason : Option Text)
      (results : Option Results) (now : ℕ)
      → Kept b
      → Ended (record p { state = state; reason = reason; results = results; ended_at = some now })
      → Kept (finish b p state reason results now)
  unfolding finish
  finish-Kept b p state reason results now k e =
      let over : Probe Results = record p {
        state = state;
        reason = reason;
        results = results;
        ended_at = some now;
      } in
      let kept = take history_limit (over ∷ past b p.stream_id) in
      record {
        few = λ j.
            rw (past-set b j p.stream_id kept)
              (elim (dec_text p.stream_id j)
                as (λ d. length (ite d kept (past b j)) ≤ history_limit) [
                  | yes one ↦ length-take-le history_limit (over ∷ past b p.stream_id)
                  | no ne ↦ k.few j
                ]);
        ended = λ j.
            rw (past-set b j p.stream_id kept)
              (elim (dec_text p.stream_id j) as (λ d. All Ended (ite d kept (past b j))) [
                | yes one ↦
                    All-take history_limit (over ∷ past b p.stream_id) (e, k.ended p.stream_id)
                | no ne ↦ k.ended j
              ]);
        active-Open = tt;
      }

  pub fail-Kept :
      (b : LatencyProbes Results) (p : Probe Results) (reason : Option Text) (now : ℕ)
      → Kept b
      → Kept (finish b p failed reason none now)
  fail-Kept b p reason now k = finish-Kept b p failed reason none now k (failed-Ended p reason now)

  pub settle-Kept :
      (is_live : Text → Text → Bool) (b : LatencyProbes Results) (now : ℕ)
      → Kept b
      → Kept (settle is_live b now)
  unfolding settle
  settle-Kept is_live b now k = elim (Option-cases b.active) [
    | inl e ↦ rw (settle, e) k
    | inr (p, e) ↦ elim (Bool-cases (is_live p.session_id p.stream_id)) [
      | inr f ↦ rw (settle, e, f) (fail-Kept b p (some (codes "ended")) now k)
      | inl f ↦ elim (Bool-cases (overdue p now)) [
        | inl g ↦ rw (settle, e, f, g) (fail-Kept b p (some (codes "expired")) now k)
        | inr g ↦ rw (settle, e, f, g) k
      ]
    ]
  ]

  -- Another measurement becomes the active one.
  pub active-Kept :
      (b : LatencyProbes Results) (p : Probe Results)
      → Kept b
      → Open p
      → Kept (record b { active = some p })
  active-Kept b p k o = record { few = k.few; ended = k.ended; active-Open = o }

  pub Open-active :
      (b : LatencyProbes Results) (p : Probe Results) → Kept b → b.active ≡ some p → Open p
  Open-active b p k e = subst ActiveOpen e k.active-Open

  pub request-Kept :
      (is_live : Text → Text → Bool) (b : LatencyProbes Results) (id stream_id session_id : Text)
      (now : ℕ)
      → now ≤ latest
      → Kept b
      → Kept (request is_live b id stream_id session_id now).0
  unfolding request
  request-Kept is_live b id stream_id session_id now le k =
      let settled = settle is_live b now in
      let kept = settle-Kept is_live b now k in
      elim (Option-cases settled.active) [
        | inr (p, e) ↦ rw (request, e) kept
        | inl e ↦
            rw (request, e)
              (active-Kept settled (new_probe id stream_id session_id now) kept (record {
                is_open = refl;
                has_start = refl;
                no_results = refl;
                asked_by = le;
                started_by = omega arith;
              }))
      ]

  pub pickup-Kept :
      (is_live : Text → Text → Bool) (b : LatencyProbes Results) (session_id stream_id : Text)
      (now : ℕ)
      → Kept b
      → Kept (pickup is_live b session_id stream_id now).0
  unfolding pickup
  pickup-Kept is_live b session_id stream_id now k =
      let settled = settle is_live b now in
      let kept = settle-Kept is_live b now k in
      elim (Option-cases settled.active) [
        | inl e ↦ rw (pickup, e) kept
        | inr (p, e) ↦
            let o = Open-active settled p kept e in
            elim (Bool-cases
              (is_requested p.state && not p.picked_up && is_of p session_id stream_id)) [
                | inr f ↦ rw (pickup, e, f) kept
                | inl f ↦
                    rw (pickup, e, f)
                      (active-Kept settled (record p { picked_up = true }) kept
                        (record {
                          is_open = o.is_open;
                          has_start = o.has_start;
                          no_results = o.no_results;
                          asked_by = o.asked_by;
                          started_by = o.started_by;
                        }))
              ]
      ]

  pub cancel-Kept :
      (is_live : Text → Text → Bool) (b : LatencyProbes Results) (id : Text) (now : ℕ)
      → Kept b
      → Kept (cancel is_live b id now).0
  unfolding cancel
  cancel-Kept is_live b id now k =
      let settled = settle is_live b now in
      let kept = settle-Kept is_live b now k in
      elim (Option-cases settled.active) [
        | inl e ↦ rw (cancel, e) kept
        | inr (p, e) ↦ elim (Bool-cases (same p.id id)) [
          | inl f ↦ rw (cancel, e, f) (fail-Kept settled p (some (codes "host-cancelled")) now kept)
          | inr f ↦ rw (cancel, e, f) kept
        ]
      ]
