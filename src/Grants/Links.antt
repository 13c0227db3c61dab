-- ===== src/Grants/Links.antt =====
-- The grants and their sessions along the histories of apps/server/src/viewer-asset-grants.mjs.
use vidvnc.Base.{
  ℕ, ◌≡◌, ◌≢◌, refl, sym, ap, ◌∙◌, subst, true, ◌||◌, none, some, List, [], ◌∷◌, Text, same,
  dec_text, arith, inl, inr, Bool-cases, Option-cases,
}
use vidvnc.Base.Table.{get, set, delete, get-set, get-delete}
use vidvnc.Sessions.State.{Session}
use vidvnc.Sessions.State as Sessions
use vidvnc.Sessions.Access.{peek}
use vidvnc.Grants.Cookies.{normalize_peer, read_viewer_cookie}
use vidvnc.Grants.Store.{Grant, Grants, revoke, unused_token, issue, session_of, session_for, clear}

-- The token of each grant is the one that its session has.
abbrev pub IsLinked : Grants → Type 0
IsLinked g =
    (v : Text) (x : Grant) → get v g.by_token ≡ some x → get x.session_id g.by_session ≡ some v

revoke-IsLinked : (g : Grants) (session : Text) → IsLinked g → IsLinked (revoke g session)
unfolding revoke
revoke-IsLinked g session l v x h = elim (Option-cases (get session g.by_session)) [
  | inl e ↦ ground (arith, e, l v x, get-delete x.session_id session g.by_session)
  | inr (value, e) ↦
      ground (
        arith,
        e,
        l v x,
        get-delete v value g.by_token,
        get-delete x.session_id session g.by_session,
      )
]

-- After a revocation no grant is the session's.
pub revoke-none :
    (g : Grants) (session v : Text) (x : Grant)
    → IsLinked g
    → get v (revoke g session).by_token ≡ some x
    → x.session_id ≢ session
unfolding revoke
revoke-none g session v x l h q = elim (Option-cases (get session g.by_session)) [
  | inl e ↦
      let there : get v g.by_token ≡ some x = ground (arith, e, h) in
      let mine : get x.session_id g.by_session ≡ some v = l v x there in
      let other : get x.session_id g.by_session ≡ none = ap (λ k. get k g.by_session) q ∙ e in cc
  | inr (value, e) ↦
      let kept : get v (delete value g.by_token) ≡ some x = ground (arith, e, h) in
      let there : get v g.by_token ≡ some x = ground (arith, kept, get-delete v value g.by_token) in
      let mine : get x.session_id g.by_session ≡ some v = l v x there in
      let same_value : value ≡ v = ground (arith, mine, e, ap (λ k. get k g.by_session) q) in
      ground (arith, kept, get-delete v value g.by_token, same_value)
]

-- A new grant of a session that has none.
set-IsLinked :
    (g : Grants) (session value : Text) (y : Grant)
    → IsLinked g
    → ((v : Text) (x : Grant) → get v g.by_token ≡ some x → x.session_id ≢ session)
    → y.session_id ≡ session
    → IsLinked
        (record { by_token = set value y g.by_token; by_session = set session value g.by_session })
set-IsLinked g session value y l free q v x h = elim (dec_text value v) [
  | yes e ↦
      let same_grant : y ≡ x = ground (arith, h, get-set v value y g.by_token) in
      let mine : session ≡ x.session_id = sym q ∙ ap (λ (z : Grant). z.session_id) same_grant in
      ground (arith, get-set x.session_id session value g.by_session, mine, e)
  | no n ↦
      let old : get v g.by_token ≡ some x = ground (arith, h, get-set v value y g.by_token) in
      ground (arith, l v x old, free v x old, get-set x.session_id session value g.by_session)
]

issue-IsLinked :
    (g : Grants) (session peer : Text) (tokens : List Text)
    → IsLinked g
    → IsLinked (issue g session peer tokens).0
unfolding issue
issue-IsLinked g session peer tokens l =
    let free = revoke g session in
    let linked = revoke-IsLinked g session l in
    elim (Bool-cases (same session [] || same (normalize_peer peer) [])) [
      | inl e ↦ rw (e, issue) l
      | inr e ↦ elim (Option-cases (unused_token tokens free.by_token)) [
        | inl u ↦ rw (e, issue, u) linked
        | inr (value, u) ↦
            rw (e, issue, u)
              (set-IsLinked free session value
                (record { session_id = session; peer = normalize_peer peer }) linked
                (λ v x h. revoke-none g session v x l h) refl)
      ]
    ]

session_of-IsLinked :
    (g : Grants) (x : Grant) (peer : Text) (store : Sessions.Store) (now : ℕ)
    → IsLinked g
    → IsLinked (session_of g x peer store now).0
unfolding session_of
session_of-IsLinked g x peer store now l = ground (arith, l, revoke-IsLinked g x.session_id l)

session_for-IsLinked :
    (g : Grants) (header peer : Text) (store : Sessions.Store) (now : ℕ)
    → IsLinked g
    → IsLinked (session_for g header peer store now).0
unfolding session_for
session_for-IsLinked g header peer store now l = elim (Bool-cases (same (normalize_peer peer) [])) [
  | inl e ↦ rw (e, session_for) l
  | inr e ↦ elim (Option-cases (read_viewer_cookie header)) [
    | inl c ↦ rw (e, session_for, c) l
    | inr (value, c) ↦ elim (Option-cases (get value g.by_token)) [
      | inl t ↦ rw (e, session_for, c, t) l
      | inr (x, t) ↦
          rw (e, session_for, c, t) (session_of-IsLinked g x (normalize_peer peer) store now l)
    ]
  ]
]

-- A call of the grants; `asks` is `sessionFor` and `allows`, with the session store of that time.
pub data Call : Type 0 where
  issues : (session peer : Text) (tokens : List Text) → Call
  asks : (header peer : Text) → Sessions.Store → ℕ → Call
  revokes : (session : Text) → Call
  clears : Call

unfoldable pub call : Grants → Call → Grants
call g (issues session peer tokens) = (issue g session peer tokens).0
call g (asks header peer store now) = (session_for g header peer store now).0
call g (revokes session) = revoke g session
call g clears = clear

unfoldable pub run : Grants → List Call → Grants
run g [] = g
run g (c ∷ cs) = run (call g c) cs

pub clear-IsLinked : IsLinked clear
unfolding get
clear-IsLinked v x h = cc

call-IsLinked : (g : Grants) (c : Call) → IsLinked g → IsLinked (call g c)
unfolding call
call-IsLinked g (issues session peer tokens) l = issue-IsLinked g session peer tokens l
call-IsLinked g (asks header peer store now) l = session_for-IsLinked g header peer store now l
call-IsLinked g (revokes session) l = revoke-IsLinked g session l
call-IsLinked g clears l = clear-IsLinked

pub run-IsLinked : (g : Grants) (cs : List Call) → IsLinked g → IsLinked (run g cs)
unfolding run
run-IsLinked g [] l = l
run-IsLinked g (c ∷ cs) l = run-IsLinked (call g c) cs (call-IsLinked g c l)

same-eq : (a b : Text) → same a b ≡ true → a ≡ b
same-eq a b h = ground arith

session_of-some :
    (g : Grants) (x : Grant) (peer : Text) (store : Sessions.Store) (now : ℕ) (id : Text)
    → (session_of g x peer store now).2 ≡ some id
    → (s : Session) × (x.session_id ≡ id)
      × (x.peer ≡ peer)
      × ((peek store id now).1 ≡ some s)
      × (normalize_peer s.client_key ≡ peer)
unfolding session_of
session_of-some g x peer store now id h = elim (Bool-cases (same x.peer peer)) [
  | inr p ↦ absurd (ground arith)
  | inl p ↦ elim (Option-cases (peek store x.session_id now).1) [
    | inl e ↦ absurd (ground arith)
    | inr (s, e) ↦ elim (Bool-cases (same (normalize_peer s.client_key) peer)) [
      | inr k ↦ absurd (ground arith)
      | inl k ↦
          let mine : x.session_id ≡ id = ground arith in
          (
            s,
            mine,
            same-eq x.peer peer p,
            subst (λ i. (peek store i now).1 ≡ some s) mine e,
            same-eq (normalize_peer s.client_key) peer k,
          )
    ]
  ]
]

-- When `sessionFor` returns a session, the cookie's token has a grant of that session, the grant's
-- peer is the one that asks, and the session is active with a client at that same peer.
pub session_for-some :
    (g : Grants) (header peer : Text) (store : Sessions.Store) (now : ℕ) (id : Text)
    → (session_for g header peer store now).2 ≡ some id
    → (value : Text) × (x : Grant) × (s : Session) × (read_viewer_cookie header ≡ some value)
      × (get value g.by_token ≡ some x)
      × (x.session_id ≡ id)
      × (x.peer ≡ normalize_peer peer)
      × ((peek store id now).1 ≡ some s)
      × (normalize_peer s.client_key ≡ normalize_peer peer)
unfolding session_for
session_for-some g header peer store now id h = elim (Bool-cases (same (normalize_peer peer) [])) [
  | inl e ↦ absurd (ground arith)
  | inr e ↦ elim (Option-cases (read_viewer_cookie header)) [
    | inl c ↦ absurd (ground arith)
    | inr (value, c) ↦ elim (Option-cases (get value g.by_token)) [
      | inl t ↦ absurd (ground arith)
      | inr (x, t) ↦
          let (s, mine, from, there, at) =
            session_of-some g x (normalize_peer peer) store now id (ground (arith, h)) in
          (value, x, s, c, t, mine, from, there, at)
    ]
  ]
]
