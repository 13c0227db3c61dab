-- ===== src/Control/Tests.antt =====
-- Concrete runs of the lease, and its theorems at them.
use vidvnc.Base.{
  ◌≡◌, ◌≢◌, ◌⊎◌, refl, true, false, none, some, List, [], ◌∷◌, codes, same, any, ok, err, dec_text,
}
use vidvnc.Control.Lease.{
  Owner, yields, odd, throws, Answers, grant, revoke, Lease, granted, nothing, removal_failed,
  release, allow, run_grant, run_revoke, run_renew, renew_owner, change, ask, settle, new_lease,
}
use vidvnc.Control.Exclusive.{Event, asks, settles, event, run, stream_of, run-exclusive}
use vidvnc.Control.Order.{run_grant-owner}

runs : Unit {0}
unfolding dec_text release allow run_grant run_revoke run_renew renew_owner change ask settle event
    run
runs = tt

-- Every answer is the one that the lease hopes for.
abbrev fine : Answers
fine = record {
  active_first = true;
  active_then = true;
  active_last = true;
  revoked = yields false;
  removed = true;
  allowed = yields true;
  again_revoked = yields false;
  again_removed = true;
  dropped = true;
}

abbrev alice : Owner
alice = record { session_id = codes "alice"; stream_id = codes "a1"; explicit_owner = false }

abbrev bob : Owner
bob = record { session_id = codes "bob"; stream_id = codes "b1"; explicit_owner = true }

-- Alice gets control; Bob's grant takes it from her, though her worker does not acknowledge.
abbrev day : List Event
day =
    asks (grant alice true)
    ∷ settles fine
    ∷ asks (grant bob false)
    ∷ asks (revoke (some (codes "alice")))
    ∷ settles (record fine { revoked = throws })
    ∷ []

day_held : (run new_lease day).held ≡ codes "b1" ∷ []
unfolding runs
day_held = refl

day_holds : any (λ s. same s (codes "b1")) (run new_lease day).held ≡ true
unfolding runs
day_holds = refl

run-exclusive_example : stream_of (run new_lease day).owner ≡ some (codes "b1")
run-exclusive_example =
    run-exclusive day (codes "b1") (refl, (refl, (refl, (refl, (refl, tt))))) day_holds

abbrev taken : Lease
taken = record { owner = some alice; waiting = []; held = codes "a1" ∷ [] }

-- A renewal that is refused ends the control, and so does one that finds the owner inactive.
refused_renewal :
    run_renew taken (record fine { allowed = yields false })
    ≡ (record { owner = none; waiting = []; held = [] }, ok nothing)
unfolding runs
refused_renewal = refl

-- Where the peer cannot be removed either, its stream stays held and the grant of another throws.
stuck_worker :
    run_grant taken bob false (record fine { revoked = throws; removed = false })
    ≡ (record { owner = none; waiting = []; held = codes "a1" ∷ [] }, err removal_failed)
unfolding runs
stuck_worker = refl

-- A renewal whose removal fails ends well all the same, once its owner is found inactive.
silent_renewal :
    run_renew taken (record fine { active_last = false; revoked = throws; removed = false })
    ≡ (record { owner = none; waiting = []; held = codes "a1" ∷ codes "a1" ∷ [] }, ok nothing)
unfolding runs
silent_renewal = refl

run_grant-owner_example :
    (((run_grant taken bob false (record fine { allowed = odd })).1 ≡ ok granted)
      × ((run_grant taken bob false (record fine { allowed = odd })).0.owner ≡ some bob)
      × (false ≡ true)
      × (true ≡ true))
    ⊎ (((run_grant taken bob false (record fine { allowed = odd })).1 ≢ ok granted)
        × (((run_grant taken bob false (record fine { allowed = odd })).0.owner ≡ none)
            ⊎ ((run_grant taken bob false (record fine { allowed = odd })).0 ≡ taken)))
run_grant-owner_example = run_grant-owner taken bob false (record fine { allowed = odd })
