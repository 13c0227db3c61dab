-- ===== src/Keys/Spent.antt =====
-- Single-use keys that are used up, over the later calls of the registry
-- (apps/server/src/connection-keys.mjs).
use vidvnc.Base.{ℕ, ◌≡◌, Bool, true, false, ◌||◌, none, some, List, [], ◌∷◌, Text, arith}
use vidvnc.Keys.Password.{normalize_password}
use vidvnc.Keys.Codes.{Keys, KeyRecord, Purpose, setup, once, single_use, is_single}
use vidvnc.Keys.Registry.{
  rotate_session, create_setup, create_one_time_connection, inspect, use_key,
}
use vidvnc.Keys.Histories.{
  Call, rotates, creates_setup, creates_once, inspects, uses, clears, call, run, inspect-gone,
  use_key-deletes,
}
use vidvnc.Keys.Absent.{
  IsAbsent, is_drawn, is_made, inspect-IsAbsent, use_key-IsAbsent, clear_purpose-IsAbsent,
  create-IsAbsent, rotate_session-IsAbsent,
}

module _ (digest : Text → Text) where
  -- The call makes up a key with the digest.
  unfoldable pub draws : Text → Keys → Call → Bool
  draws l self (rotates a limits now bytes g) =
      is_drawn digest l (rotate_session digest self a limits now bytes g).1
  draws l self (creates_setup ttl a limits now bytes g) =
      is_made digest l (create_setup digest self ttl a limits now bytes g).1
  draws l self (creates_once ttl a limits now bytes g) =
      is_made digest l (create_one_time_connection digest self ttl a limits now bytes g).1
  draws l self (inspects value now) = false
  draws l self (uses value p now) = false
  draws l self (clears p now) = false

  -- Some call of the history makes up a key with the digest.
  unfoldable pub redraws : Text → Keys → List Call → Bool
  unfolding draws
  redraws l self [] = false
  redraws l self (c ∷ cs) = draws l self c || redraws l (call digest self c) cs

  call-IsAbsent :
      (self : Keys) (c : Call) (l : Text)
      → draws l self c ≡ false
      → IsAbsent digest l self
      → IsAbsent digest l (call digest self c)
  unfolding call draws create_setup create_one_time_connection
  call-IsAbsent self (rotates a limits now bytes g) l other h =
      rotate_session-IsAbsent digest self a l limits now bytes g other h
  call-IsAbsent self (creates_setup ttl a limits now bytes g) l other h =
      create-IsAbsent digest self setup (some ttl) single_use a l limits now bytes g other h
  call-IsAbsent self (creates_once ttl a limits now bytes g) l other h =
      create-IsAbsent digest self once (some ttl) single_use a l limits now bytes g other h
  call-IsAbsent self (inspects value now) l other h = inspect-IsAbsent digest self value l now h
  call-IsAbsent self (uses value p now) l other h = use_key-IsAbsent digest self value l p now h
  call-IsAbsent self (clears p now) l other h = clear_purpose-IsAbsent digest self p l now h

  run-IsAbsent :
      (self : Keys) (cs : List Call) (l : Text)
      → redraws l self cs ≡ false
      → IsAbsent digest l self
      → IsAbsent digest l (run digest self cs)
  unfolding run redraws
  run-IsAbsent self [] l other h = h
  run-IsAbsent self (c ∷ cs) l other h =
      run-IsAbsent (call digest self c) cs l (ground arith)
        (call-IsAbsent self c l (ground arith) h)

  -- A single-use key that has been used is refused after any later calls of the registry, however it is
  -- typed again and at whatever time, as long as none of them makes up a key with the same digest.
  pub use_key-spent :
      (self next : Keys) (value again key : Text) (p : Purpose) (now later : ℕ) (r : KeyRecord)
      (cs : List Call)
      → normalize_password value ≡ some key
      → normalize_password again ≡ some key
      → use_key digest self value p now ≡ (next, some r)
      → is_single r.usage ≡ true
      → redraws (digest key) next cs ≡ false
      → (inspect digest (run digest next cs) again later).1 ≡ none
  use_key-spent self next value again key p now later r cs n n' h u other =
      inspect-gone digest (run digest next cs) again key later n' (
        run-IsAbsent next cs (digest key) other
          (use_key-deletes digest self next value key p now r n h u))
