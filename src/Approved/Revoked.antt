-- ===== src/Approved/Revoked.antt =====
-- A client that was removed or whose permission was changed, whatever the store does from then on
-- (apps/server/src/approved-clients.mjs).
use vidvnc.Base.{
  ℕ, ◌+◌, ◌<◌, ◌≡◌, ◌≢◌, ◌⊎◌, sym, ap, ◌∙◌, true, false, Option, none, some, List, [], ◌∷◌, Text,
  same, arith, inl, inr, Option-cases, Result-cases, Result, ok, find, if◌then◌else◌,
}
use vidvnc.Base.Table.{get, get-set}
use vidvnc.Approved.State.{
  Verifier, Client, Store, StoreError, Denial, removal, downgrade, generation_of, was_removed,
  invalidate, authorization, Authorization, still_authorized, client_of,
}
use vidvnc.Approved.Authentication.{
  Credentials, Check, Authenticated, begin_authenticate, end_authenticate,
}
use vidvnc.Approved.Changes.{remove, set_permission}
use vidvnc.Approved.Calls.{Event, run}
use vidvnc.Approved.Withdrawn.{run-Kept, Kept, Rights-Kept}
use vidvnc.Approved.Rights.{begin_authenticate-Rights}

invalidate-ok :
    (s : Store) (id : Text) (kind : Denial) (g : ℕ)
    → (invalidate s id kind).1 ≡ ok g
    → (generation_of (invalidate s id kind).0 id ≡ generation_of s id + 1)
      × (get id (invalidate s id kind).0.denied ≡ some (if was_removed s id then removal else kind))
unfolding invalidate
invalidate-ok s id kind g h =
    let one = get-set id id (generation_of s id + 1) s.generations in
    let two = get-set id id (if was_removed s id then removal else kind) s.denied in
    ground (arith, one, two)

remove-ok :
    (s : Store) (id : Text)
    → (remove s id).1 ≡ ok tt
    → (generation_of (remove s id).0 id ≡ generation_of s id + 1)
      × (was_removed (remove s id).0 id ≡ true)
unfolding remove
remove-ok s id h = elim (Result-cases (invalidate s id removal).1) [
  | inr (e, q) ↦ absurd (ground (arith, q))
  | inl (g, q) ↦ let (one, two) = invalidate-ok s id removal g q in ground (arith, q, one, two)
]

set_permission-ok :
    (s : Store) (id name : Text)
    → (set_permission s id name).1 ≡ ok tt
    → generation_of (set_permission s id name).0 id ≡ generation_of s id + 1
unfolding set_permission
set_permission-ok s id name h = elim (Result-cases (invalidate s id downgrade).1) [
  | inr (e, q) ↦ absurd (ground (arith, q))
  | inl (g, q) ↦ let (one, two) = invalidate-ok s id downgrade g q in ground (arith, q, one)
]

was_removed-authorization :
    (s : Store) (id : Text) (now : ℕ) → was_removed s id ≡ true → authorization s id now ≡ none
unfolding authorization
was_removed-authorization s id now h = ground arith

authorization-generation :
    (s : Store) (id : Text) (now : ℕ) (a : Authorization)
    → authorization s id now ≡ some a
    → a.generation ≡ generation_of s id
unfolding authorization
authorization-generation s id now a h = ground arith

-- Once the removal of a client is accepted, and whatever calls, waits and writes follow, the client has
-- no authorization.
pub remove-authorization :
    (is_ip : Text → ℕ) (hash : Text → Text) (s : Store) (id : Text)
    → (remove s id).1 ≡ ok tt
    → (es : List Event) (now : ℕ) → authorization (run is_ip hash (remove s id).0 es) id now ≡ none
remove-authorization is_ip hash s id h es now =
    let (one, two) = remove-ok s id h in
    let kept = run-Kept is_ip hash id (remove s id).0 es in
    was_removed-authorization (run is_ip hash (remove s id).0 es) id now (kept.removed two)

begin_authenticate-check :
    (is_ip : Text → ℕ) (hash : Text → Text) (s : Store) (c : Credentials) (key : Text) (now : ℕ)
    (check : Check)
    → (begin_authenticate is_ip hash s c key now).1 ≡ some check
    → check.authorized.generation ≡ generation_of s c.client_id
unfolding begin_authenticate
begin_authenticate-check is_ip hash s c key now check h =
    elim (Option-cases (authorization s c.client_id now)) [
      | inl e ↦ absurd (ground (arith, e))
      | inr (a, e) ↦
          let law = authorization-generation s c.client_id now a e in ground (arith, law, e)
    ]

find-client :
    (id : Text) (cs : List Client) (c : Client) → find (λ x. same x.id id) cs ≡ some c → c.id ≡ id
find-client id [] c h = cc
find-client id (x ∷ xs) c h = ground (arith, find-client id xs c)

authorization-id :
    (s : Store) (id : Text) (now : ℕ) (a : Authorization)
    → authorization s id now ≡ some a
    → a.id ≡ id
unfolding authorization
authorization-id s id now a h = elim (Option-cases (client_of s id)) [
  | inl e ↦ absurd (ground (arith, e))
  | inr (c, e) ↦ let law = find-client id s.clients c e in ground (arith, law, e)
]

begin_authenticate-id :
    (is_ip : Text → ℕ) (hash : Text → Text) (s : Store) (c : Credentials) (key : Text) (now : ℕ)
    (check : Check)
    → (begin_authenticate is_ip hash s c key now).1 ≡ some check
    → check.authorized.id ≡ c.client_id
unfolding begin_authenticate
begin_authenticate-id is_ip hash s c key now check h =
    elim (Option-cases (authorization s c.client_id now)) [
      | inl e ↦ absurd (ground (arith, e))
      | inr (a, e) ↦ let law = authorization-id s c.client_id now a e in ground (arith, law, e)
    ]

still_authorized-stale :
    (s : Store) (id : Text) (g now : ℕ)
    → g < generation_of s id
    → still_authorized s id g now ≡ false
unfolding still_authorized
still_authorized-stale s id g now h = elim (Option-cases (authorization s id now)) [
  | inl e ↦ ground (arith, e)
  | inr (a, e) ↦ let law = authorization-generation s id now a e in ground (arith, law, e)
]

end_authenticate-stale :
    (s : Store) (c : Check) (v : Result StoreError (Option Verifier)) (now : ℕ) (a : Authenticated)
    → still_authorized s c.authorized.id c.authorized.generation now ≡ false
    → (end_authenticate s c v now).1 ≢ ok (some a)
unfolding end_authenticate
end_authenticate-stale s c v now a h k = ground arith

-- A sign-in that is under way when its client is removed, or when its permission is changed, gives nobody
-- in, whatever happens before and after that and whatever its password is.
pub end_authenticate-withdrawn :
    (is_ip : Text → ℕ) (hash : Text → Text) (s : Store) (c : Credentials) (key : Text) (now : ℕ)
    (check : Check)
    → (begin_authenticate is_ip hash s c key now).1 ≡ some check
    → (before : List Event) (name : Text) (t : Store)
    → (remove (run is_ip hash (begin_authenticate is_ip hash s c key now).0 before) c.client_id
        ≡ (t, ok tt))
      ⊎ (set_permission
            (run is_ip hash (begin_authenticate is_ip hash s c key now).0 before)
            c.client_id
            name
          ≡ (t, ok tt))
    → (after : List Event) (candidate : Result StoreError (Option Verifier)) (later : ℕ)
      (a : Authenticated)
    → (end_authenticate (run is_ip hash t after) check candidate later).1 ≢ ok (some a)
end_authenticate-withdrawn is_ip hash s c key now check h before name t cut after candidate later
      a =
    let id = c.client_id in
    let begun = (begin_authenticate is_ip hash s c key now).0 in
    let middle = run is_ip hash begun before in
    let last = run is_ip hash t after in
    let first : Kept id s begun =
      Rights-Kept id s begun (begin_authenticate-Rights hash is_ip s c key now) in
    let one = first.risen in
    let two = (run-Kept is_ip hash id begun before).risen in
    let three = (run-Kept is_ip hash id t after).risen in
    let risen : generation_of t id ≡ generation_of middle id + 1 = elim cut [
      | inl e ↦
          let law = remove-ok middle id (ap (λ r. r.1) e) in
          ap (λ r. generation_of r.0 id) (sym e) ∙ law.0
      | inr e ↦
          ap (λ r. generation_of r.0 id) (sym e)
          ∙ set_permission-ok middle id name (ap (λ r. r.1) e)
    ] in
    let old = begin_authenticate-check is_ip hash s c key now check h in
    let same_id = begin_authenticate-id is_ip hash s c key now check h in
    let stale =
      still_authorized-stale last id check.authorized.generation later
        (omega (arith, old, one, two, three, risen)) in
    end_authenticate-stale last check candidate later a
      (ap (λ i. still_authorized last i check.authorized.generation later) same_id ∙ stale)
