-- ===== src/Control/Order.antt =====
-- Which changes of a lease wait, and whom a grant leaves in control
-- (apps/server/src/control-lease.mjs).
use vidvnc.Base.{
  ◌≡◌, ◌≢◌, ◌⊎◌, refl, subst, Bool, true, false, ◌&&◌, ◌||◌, Option, none, some, List, [], ◌∷◌,
  ◌++◌, Text, drop, Result, ok, is_some, All, All-append, arith, inl, inr, Bool-cases, Option-cases,
  Result-cases, List-cases,
}
use vidvnc.Control.Lease.{
  Owner, Answer, Answers, Change, grant, revoke, renew, Lease, Answered, granted, ControlError,
  is_yes, release, allow, run_grant, is_pending, ask, settle, new_lease,
}
use vidvnc.Control.Exclusive.{Event, asks, settles, event, run}

abbrev pub is_revoke : Change → Bool
is_revoke (revoke session) = true
is_revoke c = false

-- Only revocations wait behind the first change.
abbrev Behind : List Change → Type 0
Behind cs = All (λ c. is_revoke c ≡ true) (drop 1 cs)

Behind-append :
    (cs : List Change) (session : Option Text) → Behind cs → Behind (cs ++ revoke session ∷ [])
Behind-append [] session h = tt
Behind-append (c ∷ cs) session h =
    All-append (λ d. is_revoke d ≡ true) cs (revoke session ∷ []) h (refl, tt)

Behind-one : (l : Lease) (c : Change) → is_pending l ≡ false → Behind (l.waiting ++ c ∷ [])
Behind-one l c h = elim (List-cases l.waiting) [
  | inl e ↦ rw e tt
  | inr (d, cs, e) ↦ absurd (ground arith)
]

Behind-tail : (c : Change) (cs : List Change) → Behind (c ∷ cs) → Behind cs
Behind-tail c [] h = tt
Behind-tail c (d ∷ cs) (h, hs) = hs

ask-Behind : (l : Lease) (c : Change) → Behind l.waiting → Behind (ask l c).0.waiting
unfolding ask
ask-Behind l (grant o only) h = elim (Bool-cases (only && (is_pending l || is_some l.owner))) [
  | inl p ↦ rw (p, ask) h
  | inr p ↦ elim (Bool-cases (is_pending l)) [
    | inl e ↦ rw (p, ask, e) h
    | inr e ↦ rw (p, ask, e) (Behind-one l (grant o only) e)
  ]
]
ask-Behind l (revoke session) h = Behind-append l.waiting session h
ask-Behind l renew h = elim (Bool-cases (is_pending l)) [
  | inl e ↦ rw (e, ask) h
  | inr e ↦ rw (e, ask) (Behind-one l renew e)
]

settle-Behind : (l : Lease) (a : Answers) → Behind l.waiting → Behind (settle l a).0.waiting
unfolding settle
settle-Behind l a h = elim (List-cases l.waiting) [
  | inl e ↦ rw (e, settle) h
  | inr (c, cs, e) ↦ rw (e, settle) (Behind-tail c cs (subst Behind e h))
]

event-Behind : (l : Lease) (e : Event) → Behind l.waiting → Behind (event l e).waiting
unfolding event
event-Behind l (asks c) h = ask-Behind l c h
event-Behind l (settles a) h = settle-Behind l a h

run-Behind : (l : Lease) (es : List Event) → Behind l.waiting → Behind (run l es).waiting
unfolding run
run-Behind l [] h = h
run-Behind l (e ∷ es) h = run-Behind (event l e) es (event-Behind l e h)

-- After any calls and answers, all the changes that wait behind the first one are revocations.
pub run-behind :
    (es : List Event) → All (λ c. is_revoke c ≡ true) (drop 1 (run new_lease es).waiting)
run-behind es = run-Behind new_lease es tt

release-owner :
    (l : Lease) (revoked : Answer) (removed : Bool) → (release l revoked removed).0.owner ≡ none
unfolding release
release-owner l revoked removed = elim (Option-cases l.owner) [
  | inl e ↦ rw (e, release) e
  | inr (o, e) ↦ ground arith
]

-- How a grant may end.
abbrev Ends : Lease → Owner → Answers → Lease × Result ControlError Answered → Type 0
Ends l o a r =
    ((r.1 ≡ ok granted) × (r.0.owner ≡ some o) × (is_yes a.allowed ≡ true) × (a.active_last ≡ true))
    ⊎ ((r.1 ≢ ok granted) × ((r.0.owner ≡ none) ⊎ (r.0 ≡ l)))

allow-Ends : (l m : Lease) (o : Owner) (a : Answers) → l.owner ≡ none → Ends m o a (allow l o a)
unfolding allow
allow-Ends l m o a free =
    let owned : Lease = record l { held = o.stream_id ∷ l.held; owner = some o } in
    elim (Bool-cases (is_yes a.allowed)) [
      | inr y ↦ rw (y, allow) (inr ((λ h. cc), inl free))
      | inl y ↦ elim (Bool-cases a.active_last) [
        | inl t ↦ rw (y, allow, t) (inl (refl, refl, refl, refl))
        | inr t ↦
            let freed = release-owner owned a.again_revoked a.again_removed in
            elim (Result-cases (release owned a.again_revoked a.again_removed).1) [
              | inl (x, q) ↦ rw (y, allow, t, q) (inr ((λ h. cc), inl freed))
              | inr (x, q) ↦ rw (y, allow, t, q) (inr ((λ h. cc), inl freed))
            ]
      ]
    ]

-- A grant that answers `granted` leaves its session in control, with the worker's agreement and its
-- target still active; any other answer leaves nobody in control or the lease as it was.
pub run_grant-owner :
    (l : Lease) (o : Owner) (only_if_available : Bool) (a : Answers)
    → (((run_grant l o only_if_available a).1 ≡ ok granted)
        × ((run_grant l o only_if_available a).0.owner ≡ some o)
        × (is_yes a.allowed ≡ true)
        × (a.active_last ≡ true))
      ⊎ (((run_grant l o only_if_available a).1 ≢ ok granted)
          × (((run_grant l o only_if_available a).0.owner ≡ none)
              ⊎ ((run_grant l o only_if_available a).0 ≡ l)))
unfolding run_grant
run_grant-owner l o only a =
    let freed = release-owner l a.revoked a.removed in
    elim (Bool-cases (only && is_some l.owner)) [
      | inl p ↦ rw (p, run_grant) (inr ((λ h. cc), inr refl))
      | inr p ↦ elim (Bool-cases a.active_first) [
        | inr f ↦ rw (p, run_grant, f) (inr ((λ h. cc), inr refl))
        | inl f ↦ elim (Result-cases (release l a.revoked a.removed).1) [
          | inr (x, q) ↦ rw (p, run_grant, f, q) (inr ((λ h. cc), inl freed))
          | inl (x, q) ↦ elim (Bool-cases a.active_then) [
            | inr t ↦ rw (p, run_grant, f, q, t) (inr ((λ h. cc), inl freed))
            | inl t ↦
                rw (p, run_grant, f, q, t)
                  (allow-Ends (release l a.revoked a.removed).0 l o a freed)
          ]
        ]
      ]
    ]
