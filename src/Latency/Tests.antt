-- ===== src/Latency/Tests.antt =====
-- A measurement from its request to its results, and the theorems at it.
use vidvnc.Base.{
  ℕ, ◌≡◌, refl, Bool, true, false, Option, none, some, List, [], ◌∷◌, Text, codes, length, dec_text,
  ok, err, arith, leb, if◌then◌else◌,
}
use vidvnc.Base.Table.{get, set}
use vidvnc.Latency.Probes.{
  LatencyProbes, Report, busy, past, finish, settle, request, pickup, current, cancel, allows_asset,
  snapshot,
}
use vidvnc.Latency.Reports.{apply_report, report}
use vidvnc.Latency.Histories.{Call, requests, picks_up, reports, Timed, call_on, run, new_probes}
use vidvnc.Latency.Slots.{request-free}

runs : Unit {0}
unfolding dec_text get set finish settle request pickup current cancel allows_asset snapshot
    apply_report report call_on run
runs = tt

-- Results are numbers here, valid up to 100.
abbrev validate : ℕ → Option ℕ
validate n = if leb n 100 then some n else none

abbrev live : Text → Text → Bool
live session_id stream_id = true

abbrev word : Text → Option ℕ → Report ℕ
word state results = record {
  stream_id = codes "s1";
  id = codes "m1";
  state = state;
  reason = none;
  results = results;
  planned_ms = none;
  has_more = false;
}

abbrev at : ℕ → Call ℕ → Timed ℕ
at now call = record { call = call; is_live = live; now = now }

abbrev calls : List (Timed ℕ)
calls =
    at 10 (requests (codes "m1") (codes "s1") (codes "anna"))
    ∷ at 20 (picks_up (codes "anna") (codes "s1"))
    ∷ at 30 (reports (codes "anna") (word (codes "running") none))
    ∷ []

abbrev measured : LatencyProbes ℕ
unfolding runs
measured = run validate new_probes calls

taken : (request live measured (codes "m2") (codes "s1") (codes "anna") 40).1 ≡ err busy
unfolding runs
taken = refl

told : (report validate live measured (codes "anna") (word (codes "done") (some 7)) 50).1 ≡ ok true
unfolding runs
told = refl

kept :
    length (
      past
        (report validate live measured (codes "anna") (word (codes "done") (some 7)) 50).0
        (codes "s1"))
    ≡ 1
unfolding runs
kept = refl

request-free_example :
    (request live (run validate new_probes calls) (codes "m2") (codes "s1") (codes "anna") 120031).1
    ≡ ok (codes "m2")
request-free_example =
    request-free validate calls 30 120031 live (codes "m2") (codes "s1") (codes "anna")
      (omega arith, (omega arith, (omega arith, tt))) (omega arith)
