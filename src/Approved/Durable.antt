-- ===== src/Approved/Durable.antt =====
-- What the file keeps of a client that was removed (apps/server/src/approved-clients.mjs).
use vidvnc.Base.{
  ℕ, ◌≡◌, ◌≢◌, refl, sym, ap, ◌∙◌, subst, Bool, true, false, none, some, List, [], ◌∷◌, Text, same,
  arith, inl, inr, Result-cases, ok, All, find,
}
use vidvnc.Approved.State.{Client, Operation, removing, writing, Store, authorization}
use vidvnc.Approved.Sweeps.{finish, end_sweep}
use vidvnc.Approved.Changes.{begin_change, end_change, after_sweep, advance}
use vidvnc.Approved.Calls.{Event, run, open_store}
use vidvnc.Approved.Advancing.{saved, advance-cases}
use vidvnc.Approved.Listed.{has_client, makes, makes_client}
use vidvnc.Approved.Written.{Written, IsWritten, run-IsWritten}
use vidvnc.Approved.Absent.{IsAbsent, finish-IsAbsent, end_change-Kept_lists, run-IsAbsent}

open_store-IsWritten :
    (rows : List Client) (max_attempts window : ℕ) → IsWritten (open_store rows max_attempts window)
unfolding IsWritten
open_store-IsWritten rows max_attempts window = tt

removing-goes_on :
    (hash : Text → Text) (s : Store) (id : Text) (now : ℕ)
    → (after_sweep hash s (removing id) now).1 ≢ some (ok tt)
removing-goes_on hash s id now h = elim (Result-cases (begin_change hash s (removing id) now)) [
  | inr (x, f) ↦ ground (arith, f)
  | inl (s', f) ↦ ground (arith, f)
]

-- The removal's own end leaves neither a client nor a row of the file.
end-IsAbsent :
    (s : Store) (id : Text) (ops : List Operation) (now : ℕ)
    → s.queue ≡ removing id ∷ ops
    → s.stage ≡ writing
    → IsWritten s
    → All (λ op. makes id op ≡ false) ops
    → IsAbsent id (finish (end_change (saved s true) (removing id) now).0)
unfolding IsWritten
end-IsAbsent s id ops now q g w h =
    let gone =
      subst (λ o. Written writing o s.clients) q (subst (λ x. Written x s.queue s.clients) g w) in
    let t = (end_change (saved s true) (removing id) now).0 in
    let (one, two, three) = end_change-Kept_lists (saved s true) (removing id) now in
    finish-IsAbsent id t (record {
      not_listed = ap (has_client id) one ∙ gone;
      not_stored = ap (has_client id) two ∙ gone;
      not_made = subst (All (λ op. makes id op ≡ false)) (sym (three ∙ q)) (refl, h);
    })

advance-removed :
    (hash : Text → Text) (s : Store) (id : Text) (ops : List Operation) (written : Bool) (now : ℕ)
    → s.queue ≡ removing id ∷ ops
    → IsWritten s
    → All (λ op. makes id op ≡ false) ops
    → (advance hash s written now).1 ≡ some (ok tt)
    → IsAbsent id (advance hash s written now).0
advance-removed hash s id ops written now q w h =
    advance-cases hash s written now (λ r. r.1 ≡ some (ok tt) → IsAbsent id r.0)
      (λ none_waits e. cc) (λ g e. cc) (λ e. cc)
      (λ op rest q' g w' e.
        let one : op ≡ removing id = cc (q, q') in
        subst (λ o. IsAbsent id (finish (end_change (saved s true) o now).0)) (sym one)
          (end-IsAbsent s id ops now q g w h))
      (λ op rest ks wrote q' g e.
        let one : op ≡ removing id = cc (q, q') in
        absurd (
          removing-goes_on hash (end_sweep (saved s wrote) ks now) id now (
            subst
              (λ o. (after_sweep hash (end_sweep (saved s wrote) ks now) o now).1 ≡ some (ok tt))
              one e)))

has_client-client_of :
    (id : Text) (cs : List Client) → has_client id cs ≡ false → find (λ c. same c.id id) cs ≡ none
has_client-client_of id [] h = refl
has_client-client_of id (c ∷ cs) h = ground (arith, has_client-client_of id cs)

absent-authorization :
    (s : Store) (id : Text) (now : ℕ)
    → has_client id s.clients ≡ false
    → authorization s id now ≡ none
unfolding authorization
absent-authorization s id now h = ground (arith, has_client-client_of id s.clients h)

-- Once a removal has ended well, a store that is opened on the file at any later time gives the client no
-- authorization, where no later approval makes a client with its identifier.
pub advance-durable :
    (is_ip : Text → ℕ) (hash : Text → Text) (rows : List Client) (max_attempts window : ℕ)
    (before : List Event) (id : Text) (ops : List Operation) (written : Bool) (now : ℕ)
    → (run is_ip hash (open_store rows max_attempts window) before).queue ≡ removing id ∷ ops
    → All (λ op. makes id op ≡ false) ops
    → (advance hash (run is_ip hash (open_store rows max_attempts window) before) written now).1
      ≡ some (ok tt)
    → (after : List Event) → All (λ e. makes_client id e ≡ false) after
    → (later : ℕ)
    → authorization
        (open_store
          (run is_ip hash
            (advance hash
              (run is_ip hash (open_store rows max_attempts window) before)
              written
              now).0
            after).disk
          max_attempts
          window)
        id
        later
      ≡ none
advance-durable is_ip hash rows max_attempts window before id ops written now q h e after ms later =
    let s = run is_ip hash (open_store rows max_attempts window) before in
    let w =
      run-IsWritten is_ip hash (open_store rows max_attempts window) before
        (open_store-IsWritten rows max_attempts window) in
    let t = (advance hash s written now).0 in
    let a =
      run-IsAbsent is_ip hash id t after ms (advance-removed hash s id ops written now q w h e) in
    absent-authorization (open_store (run is_ip hash t after).disk max_attempts window) id later
      a.not_stored
