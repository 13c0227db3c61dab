-- ===== src/Sessions/Loads.antt =====
-- Sums over the sessions that depend on the approved clients alone, and the calls that admit nobody
-- (apps/server/src/session-store.mjs).
use vidvnc.Base.{
  ℕ, ◌+◌, ◌≤◌, ◌≡◌, refl, ap, Bool, false, Option, some, [], ◌∷◌, Text, arith, inl, inr,
  Option-cases, if◌then◌else◌,
}
use vidvnc.Base.Table.{
  Table, get, set, delete, weigh, weigh-set-le, weigh-set_old, weigh-delete-le, get-set,
}
use vidvnc.Sessions.State.{Store, Session, disconnect, sweep_sessions, sweep, gone}
use vidvnc.Sessions.Admit.{disconnect_all}
use vidvnc.Sessions.Access.{peek, get_session, replace_session, set_control, amend}

weigh-delete :
    (f : Session → ℕ) (k : Text) (w : Session) (t : Table Session)
    → get k t ≡ some w
    → weigh f (delete k t) + f w ≤ weigh f t
unfolding weigh get delete
weigh-delete f k w [] h = cc
weigh-delete f k w ((j, x) ∷ t) h = ground (arith, weigh-delete f k w t, weigh-delete-le f k t)

-- A weight of the sessions that depends on the approved client alone.
module _ (g : Option Text → ℕ) where
  abbrev pub by_client : Session → ℕ
  by_client x = g x.approved_client_id

  abbrev pub load : Store → ℕ
  load s = weigh by_client s.sessions

  pub disconnect-load : (s : Store) (j : Text) → load (disconnect s j).0 ≤ load s
  unfolding disconnect
  disconnect-load s j = ground (arith, weigh-delete-le by_client j s.sessions)

  disconnect-moves :
      (s : Store) (j : Text) (x : Session)
      → get j s.sessions ≡ some x
      → load (disconnect s j).0 + by_client x ≤ load s
  unfolding disconnect
  disconnect-moves s j x h = ground (arith, weigh-delete by_client j x s.sessions h)

  sweep_sessions-load :
      (now : ℕ) (t : Table Session) (s : Store) → load (sweep_sessions now t s) ≤ load s
  unfolding sweep_sessions
  sweep_sessions-load now [] s = omega arith
  sweep_sessions-load now ((j, x) ∷ t) s = ground (
    arith,
    sweep_sessions-load now t (if gone s now x then (disconnect s j).0 else s),
    disconnect-load s j,
  )

  pub disconnect_all-load : (t : Table Session) (s : Store) → load (disconnect_all t s) ≤ load s
  unfolding disconnect_all
  disconnect_all-load [] s = omega arith
  disconnect_all-load ((j, x) ∷ t) s =
      omega (arith, disconnect_all-load t (disconnect s j).0, disconnect-load s j)

  pub sweep-load : (s : Store) (now : ℕ) → load (sweep s now) ≤ load s
  unfolding sweep
  sweep-load s now = sweep_sessions-load now s.sessions s

  -- A session that takes another's place, for the same client.
  set-load :
      (s : Store) (j : Text) (x y : Session)
      → get j s.sessions ≡ some x
      → y.approved_client_id ≡ x.approved_client_id
      → load (record s { sessions = set j y s.sessions }) ≤ load s
  set-load s j x y h e = omega (arith, weigh-set_old by_client j y x s.sessions h, ap g e)

  pub peek-load : (s : Store) (j : Text) (now : ℕ) → load (peek s j now).0 ≤ load s
  unfolding peek
  peek-load s j now = ground (arith, disconnect-load s j)

  peek-get :
      (s : Store) (j : Text) (now : ℕ) (x : Session)
      → (peek s j now).1 ≡ some x
      → get j (peek s j now).0.sessions ≡ some x
  unfolding peek
  peek-get s j now x h = ground arith

  pub get_session-load : (s : Store) (j : Text) (now : ℕ) → load (get_session s j now).0 ≤ load s
  unfolding get_session
  get_session-load s j now = elim (Option-cases (peek s j now).1) [
    | inl e ↦ rw (e, get_session) (peek-load s j now)
    | inr (x, e) ↦
        rw (e, get_session)
          (omega (
            arith,
            peek-load s j now,
            set-load (peek s j now).0 j x (record x { last_seen_at = now }) (peek-get s j now x e)
                refl,
          ))
  ]

  get_session-get :
      (s : Store) (j : Text) (now : ℕ) (x : Session)
      → (get_session s j now).1 ≡ some x
      → get j (get_session s j now).0.sessions ≡ some x
  unfolding get_session
  get_session-get s j now x h = elim (Option-cases (peek s j now).1) [
    | inl e ↦ absurd (ground arith)
    | inr (y, e) ↦
        ground (arith, get-set j j (record y { last_seen_at = now }) (peek s j now).0.sessions)
  ]

  pub amend-load :
      (f : Session → Session) (s : Store) (j : Text)
      → ((x : Session) → (f x).approved_client_id ≡ x.approved_client_id)
      → load (amend f s j).0 ≤ load s
  unfolding amend
  amend-load f s j same_client = elim (Option-cases (get j s.sessions)) [
    | inl e ↦ rw (e, amend) (omega arith)
    | inr (x, e) ↦ rw (e, amend) (set-load s j x (f x) e (same_client x))
  ]

  pub replace_session-load :
      (s : Store) (j new_id : Text) (now : ℕ) → load (replace_session s j new_id now).0 ≤ load s
  unfolding replace_session
  replace_session-load s j new_id now = elim (Option-cases (get_session s j now).1) [
    | inl e ↦ rw (e, replace_session) (get_session-load s j now)
    | inr (x, e) ↦
        let seen = (get_session s j now).0 in
        let next : Session = record x {
          session_id = new_id;
          created_at = now;
          last_seen_at = now;
          control_enabled = false;
        } in
        rw (e, replace_session)
          (omega (
            arith,
            get_session-load s j now,
            disconnect-moves seen j x (get_session-get s j now x e),
            weigh-set-le by_client new_id next (disconnect seen j).0.sessions,
          ))
  ]

  pub set_control-load :
      (s : Store) (j : Text) (enabled : Bool) (now : ℕ)
      → load (set_control s j enabled now).0 ≤ load s
  unfolding set_control
  set_control-load s j enabled now = elim (Option-cases (get_session s j now).1) [
    | inl e ↦ rw (e, set_control) (get_session-load s j now)
    | inr (x, e) ↦
        rw (e, set_control)
          (omega (
            arith,
            get_session-load s j now,
            set-load (get_session s j now).0 j x
                (record x { control_enabled = enabled; last_seen_at = now })
                (get_session-get s j now x e) refl,
          ))
  ]
