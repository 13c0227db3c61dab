-- ===== src/Control/Exclusive.antt =====
-- Which streams may control the host along the histories of a lease
-- (apps/server/src/control-lease.mjs).
use vidvnc.Base.{
  ◌≡◌, refl, sym, ap, ◌∙◌, subst, Bool, true, ◌&&◌, Option, none, some, List, [], ◌∷◌, Text, same,
  dec_text, Result, ok, err, is_some, All, arith, inl, inr, Bool-cases, Option-cases, Result-cases,
  List-cases, any,
}
use vidvnc.Control.Lease.{
  Owner, Answer, Answers, Change, grant, revoke, renew, Lease, Released, ControlError, is_yes,
  without, remove_peer, release, allow, run_grant, run_revoke, run_renew, renew_owner, is_owned_by,
  as_answer, change, ask, settle, new_lease,
}

-- What happens to a lease: a call, or the next change settles.
pub data Event : Type 0 where
  asks : Change → Event
  settles : Answers → Event

unfoldable pub event : Lease → Event → Lease
event l (asks c) = (ask l c).0
event l (settles a) = (settle l a).0

unfoldable pub run : Lease → List Event → Lease
run l [] = l
run l (e ∷ es) = run (event l e) es

abbrev pub removes : Answers → Bool
removes a = a.removed && a.again_removed && a.dropped

-- Each removal of a peer is acknowledged.
abbrev pub Removes : List Event → Type 0
Removes = All (λ e. (elim e [ asks c ↦ true | settles a ↦ removes a ]) ≡ true)

abbrev pub stream_of : Option Owner → Option Text
stream_of none = none
stream_of (some o) = some o.stream_id

abbrev Owned : Option Owner → List Text → Type 0
Owned o = All (λ s. stream_of o ≡ some s)

none-Owned : (held : List Text) → Owned none held → held ≡ []
none-Owned [] h = refl
none-Owned (s ∷ held) (h, hs) = cc

without-Owned : (o : Owner) (held : List Text) → Owned (some o) held → without o.stream_id held ≡ []
without-Owned o [] h = refl
without-Owned o (s ∷ held) (h, hs) = ground (arith, without-Owned o held hs)

IsFree : Lease → Type 0
IsFree l = (l.owner ≡ none) × (l.held ≡ [])

release-IsFree :
    (l : Lease) (revoked : Answer) (removed : Bool)
    → Owned l.owner l.held
    → removed ≡ true
    → IsFree (release l revoked removed).0
unfolding release IsFree
release-IsFree l revoked removed h r = elim (Option-cases l.owner) [
  | inl e ↦ ground (arith, none-Owned l.held (subst (λ o. Owned o l.held) e h))
  | inr (o, e) ↦ ground (arith, without-Owned o l.held (subst (λ o'. Owned o' l.held) e h))
]

IsFree-Owned : (l : Lease) → IsFree l → Owned l.owner l.held
unfolding IsFree
IsFree-Owned l (e, h) = subst (Owned l.owner) (sym h) tt

-- A stream that is removed, where no other was held.
remove_peer-IsFree :
    (l : Lease) (stream : Text) (dropped : Bool)
    → l.owner ≡ none
    → without stream l.held ≡ []
    → dropped ≡ true
    → IsFree (remove_peer l stream dropped)
unfolding IsFree
remove_peer-IsFree l stream dropped e h d = (e, ground (arith, h, d))

allow-Owned :
    (l : Lease) (o : Owner) (a : Answers)
    → IsFree l
    → removes a ≡ true
    → Owned (allow l o a).0.owner (allow l o a).0.held
unfolding allow IsFree
allow-Owned l o a (e, h) r =
    let asked : Lease = record l { held = o.stream_id ∷ l.held } in
    let owned : Lease = record asked { owner = some o } in
    let alone : Owned (some o) asked.held = (refl, subst (Owned (some o)) (sym h) tt) in
    let d : a.dropped ≡ true = ground arith in
    let freed = (release owned a.again_revoked a.again_removed).0 in
    elim (Bool-cases (is_yes a.allowed)) [
      | inr y ↦
          rw (y, allow)
            (IsFree-Owned (remove_peer asked o.stream_id a.dropped) (
              remove_peer-IsFree asked o.stream_id a.dropped e (without-Owned o asked.held alone)
                d))
      | inl y ↦ elim (Bool-cases a.active_last) [
        | inl t ↦ rw (y, allow, t) alone
        | inr t ↦
            let (free, nobody) =
              release-IsFree owned a.again_revoked a.again_removed alone (ground arith) in
            let gone =
              remove_peer-IsFree freed o.stream_id a.dropped free (ground (arith, nobody)) d in
            elim (Result-cases (release owned a.again_revoked a.again_removed).1) [
              | inl (x, q) ↦
                  rw (y, allow, t, q) (IsFree-Owned (remove_peer freed o.stream_id a.dropped) gone)
              | inr (x, q) ↦
                  rw (y, allow, t, q) (IsFree-Owned (remove_peer freed o.stream_id a.dropped) gone)
            ]
      ]
    ]

run_grant-Owned :
    (l : Lease) (o : Owner) (only : Bool) (a : Answers)
    → Owned l.owner l.held
    → removes a ≡ true
    → Owned (run_grant l o only a).0.owner (run_grant l o only a).0.held
unfolding run_grant
run_grant-Owned l o only a h r =
    let freed = (release l a.revoked a.removed).0 in
    let free = release-IsFree l a.revoked a.removed h (ground arith) in
    elim (Bool-cases (only && is_some l.owner)) [
      | inl p ↦ rw (p, run_grant) h
      | inr p ↦ elim (Bool-cases a.active_first) [
        | inr f ↦ rw (p, run_grant, f) h
        | inl f ↦ elim (Result-cases (release l a.revoked a.removed).1) [
          | inr (x, q) ↦ rw (p, run_grant, f, q) (IsFree-Owned freed free)
          | inl (x, q) ↦ elim (Bool-cases a.active_then) [
            | inr t ↦ rw (p, run_grant, f, q, t) (IsFree-Owned freed free)
            | inl t ↦ rw (p, run_grant, f, q, t) (allow-Owned freed o a free r)
          ]
        ]
      ]
    ]

as_answer-lease : (p : Lease × Result ControlError Released) → (as_answer p).0 ≡ p.0
as_answer-lease (l, ok r) = refl
as_answer-lease (l, err e) = refl

released-Owned :
    (l : Lease) (revoked : Answer) (removed : Bool)
    → Owned l.owner l.held
    → removed ≡ true
    → Owned
        (as_answer (release l revoked removed)).0.owner
        (as_answer (release l revoked removed)).0.held
released-Owned l revoked removed h r =
    subst (λ (n : Lease). Owned n.owner n.held) (sym (as_answer-lease (release l revoked removed)))
      (IsFree-Owned (release l revoked removed).0 (release-IsFree l revoked removed h r))

run_revoke-Owned :
    (l : Lease) (session : Option Text) (a : Answers)
    → Owned l.owner l.held
    → removes a ≡ true
    → Owned (run_revoke l session a).0.owner (run_revoke l session a).0.held
unfolding run_revoke
run_revoke-Owned l none a h r = released-Owned l a.revoked a.removed h (ground arith)
run_revoke-Owned l (some id) a h r = elim (Bool-cases (is_owned_by id l.owner)) [
  | inl e ↦ rw (e, run_revoke) (released-Owned l a.revoked a.removed h (ground arith))
  | inr e ↦ rw (e, run_revoke) h
]

renew_owner-Owned :
    (l : Lease) (o : Owner) (a : Answers)
    → Owned l.owner l.held
    → l.owner ≡ some o
    → removes a ≡ true
    → Owned (renew_owner l o a).0.owner (renew_owner l o a).0.held
unfolding renew_owner
renew_owner-Owned l o a h e r =
    let asked : Lease = record l { held = o.stream_id ∷ l.held } in
    let alone : Owned l.owner asked.held = (ap stream_of e, h) in
    let freed = (release asked a.revoked a.removed).0 in
    let free = release-IsFree asked a.revoked a.removed alone (ground arith) in
    elim (Bool-cases a.active_first) [
      | inr f ↦ rw (f, renew_owner) (released-Owned l a.revoked a.removed h (ground arith))
      | inl f ↦ elim (Bool-cases (is_yes a.allowed)) [
        | inr y ↦ rw (f, renew_owner, y) (IsFree-Owned freed free)
        | inl y ↦ elim (Bool-cases a.active_last) [
          | inl t ↦ rw (f, renew_owner, y, t) alone
          | inr t ↦ elim (Result-cases (release asked a.revoked a.removed).1) [
            | inl (x, q) ↦ rw (f, renew_owner, y, t, q) (IsFree-Owned freed free)
            | inr (x, q) ↦
                let again = (release freed a.again_revoked a.again_removed).0 in
                rw (f, renew_owner, y, t, q)
                  (IsFree-Owned again (
                    release-IsFree freed a.again_revoked a.again_removed (IsFree-Owned freed free)
                      (ground arith)))
          ]
        ]
      ]
    ]

run_renew-Owned :
    (l : Lease) (a : Answers)
    → Owned l.owner l.held
    → removes a ≡ true
    → Owned (run_renew l a).0.owner (run_renew l a).0.held
unfolding run_renew
run_renew-Owned l a h r = elim (Option-cases l.owner) [
  | inl e ↦ rw (e, run_renew) h
  | inr (o, e) ↦ rw (e, run_renew) (renew_owner-Owned l o a h e r)
]

change-Owned :
    (l : Lease) (c : Change) (a : Answers)
    → Owned l.owner l.held
    → removes a ≡ true
    → Owned (change l c a).0.owner (change l c a).0.held
unfolding change
change-Owned l (grant o only) a h r = run_grant-Owned l o only a h r
change-Owned l (revoke session) a h r = run_revoke-Owned l session a h r
change-Owned l renew a h r = run_renew-Owned l a h r

settle-Owned :
    (l : Lease) (a : Answers)
    → Owned l.owner l.held
    → removes a ≡ true
    → Owned (settle l a).0.owner (settle l a).0.held
unfolding settle
settle-Owned l a h r = elim (List-cases l.waiting) [
  | inl e ↦ rw (e, settle) h
  | inr (c, cs, e) ↦ rw (e, settle) (change-Owned l c a h r)
]

ask-same : (l : Lease) (c : Change) → ((ask l c).0.owner ≡ l.owner) × ((ask l c).0.held ≡ l.held)
unfolding ask
ask-same l (grant o only) = ground arith
ask-same l (revoke session) = ground arith
ask-same l renew = ground arith

event-Owned :
    (l : Lease) (e : Event)
    → Owned l.owner l.held
    → (elim e [ asks c ↦ true | settles a ↦ removes a ]) ≡ true
    → Owned (event l e).owner (event l e).held
unfolding event
event-Owned l (asks c) h r =
    let (same_owner, same_held) = ask-same l c in
    subst (λ o. Owned o (ask l c).0.held) (sym same_owner) (subst (Owned l.owner) (sym same_held) h)
event-Owned l (settles a) h r = settle-Owned l a h r

run-Owned :
    (l : Lease) (es : List Event)
    → Owned l.owner l.held
    → Removes es
    → Owned (run l es).owner (run l es).held
unfolding run
run-Owned l [] h r = h
run-Owned l (e ∷ es) h (r, rs) = run-Owned (event l e) es (event-Owned l e h r) rs

Owned-any :
    (o : Option Owner) (held : List Text) (s : Text)
    → Owned o held
    → any (λ x. same x s) held ≡ true
    → stream_of o ≡ some s
Owned-any o [] s h p = cc
Owned-any o (x ∷ held) s (e, h) p = elim (dec_text x s) [
  | yes q ↦ e ∙ ap some q
  | no n ↦ Owned-any o held s h (ground arith)
]

-- After any calls and answers in which each removal of a peer is acknowledged, a stream that the
-- worker may still let control the host is the owner's.
pub run-exclusive :
    (es : List Event) (stream : Text)
    → Removes es
    → any (λ s. same s stream) (run new_lease es).held ≡ true
    → stream_of (run new_lease es).owner ≡ some stream
run-exclusive es stream r h =
    Owned-any (run new_lease es).owner (run new_lease es).held stream (run-Owned new_lease es tt r)
      h
