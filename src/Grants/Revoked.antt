-- ===== src/Grants/Revoked.antt =====
-- Sessions that are revoked, over the later calls of the grants
-- (apps/server/src/viewer-asset-grants.mjs).
use vidvnc.Base.{
  ℕ, ◌≡◌, ◌≢◌, Bool, false, ◌||◌, some, List, [], ◌∷◌, Text, same, All, arith, inl, inr, Bool-cases,
  Option-cases, dec_text,
}
use vidvnc.Base.Table.{get, get-set, get-delete}
use vidvnc.Sessions.State as Sessions
use vidvnc.Grants.Cookies.{normalize_peer, read_viewer_cookie}
use vidvnc.Grants.Store.{Grant, Grants, revoke, unused_token, issue, session_of, session_for, clear}
use vidvnc.Grants.Links.{
  Call, issues, asks, revokes, clears, call, run, revoke-none, run-IsLinked, clear-IsLinked,
  session_for-some,
}

-- No grant is the session's.
abbrev IsUngranted : Text → Grants → Type 0
IsUngranted session g = (v : Text) (x : Grant) → get v g.by_token ≡ some x → x.session_id ≢ session

revoke-IsUngranted :
    (g : Grants) (other session : Text)
    → IsUngranted session g
    → IsUngranted session (revoke g other)
unfolding revoke
revoke-IsUngranted g other session n v x h = elim (Option-cases (get other g.by_session)) [
  | inl e ↦ n v x (ground (arith, e, h))
  | inr (value, e) ↦ n v x (ground (arith, e, h, get-delete v value g.by_token))
]

issue-IsUngranted :
    (g : Grants) (other peer : Text) (tokens : List Text) (session : Text)
    → same other session ≡ false
    → IsUngranted session g
    → IsUngranted session (issue g other peer tokens).0
unfolding issue
issue-IsUngranted g other peer tokens session apart n =
    let free = revoke g other in
    let kept = revoke-IsUngranted g other session n in
    elim (Bool-cases (same other [] || same (normalize_peer peer) [])) [
      | inl e ↦ rw (e, issue) n
      | inr e ↦ elim (Option-cases (unused_token tokens free.by_token)) [
        | inl u ↦ rw (e, issue, u) kept
        | inr (value, u) ↦
            let made : Grant = record { session_id = other; peer = normalize_peer peer } in
            rw (e, issue, u)
              (λ v x h q. elim (dec_text value v) [
                | yes same_token ↦
                    ground (arith, h, q, apart, same_token, get-set v value made free.by_token)
                | no other_token ↦
                    kept v x (ground (arith, h, other_token, get-set v value made free.by_token)) q
              ])
      ]
    ]

session_of-IsUngranted :
    (g : Grants) (x : Grant) (peer : Text) (store : Sessions.Store) (now : ℕ) (session : Text)
    → IsUngranted session g
    → IsUngranted session (session_of g x peer store now).0
unfolding session_of
session_of-IsUngranted g x peer store now session n =
    ground (arith, n, revoke-IsUngranted g x.session_id session n)

session_for-IsUngranted :
    (g : Grants) (header peer : Text) (store : Sessions.Store) (now : ℕ) (session : Text)
    → IsUngranted session g
    → IsUngranted session (session_for g header peer store now).0
unfolding session_for
session_for-IsUngranted g header peer store now session n =
    elim (Bool-cases (same (normalize_peer peer) [])) [
      | inl e ↦ rw (e, session_for) n
      | inr e ↦ elim (Option-cases (read_viewer_cookie header)) [
        | inl c ↦ rw (e, session_for, c) n
        | inr (value, c) ↦ elim (Option-cases (get value g.by_token)) [
          | inl t ↦ rw (e, session_for, c, t) n
          | inr (x, t) ↦
              rw (e, session_for, c, t)
                (session_of-IsUngranted g x (normalize_peer peer) store now session n)
        ]
      ]
    ]

-- The call asks for a grant of the session.
abbrev pub issues_to : Text → Call → Bool
issues_to session (issues other peer tokens) = same other session
issues_to session (asks header peer store now) = false
issues_to session (revokes other) = false
issues_to session clears = false

call-IsUngranted :
    (g : Grants) (c : Call) (session : Text)
    → issues_to session c ≡ false
    → IsUngranted session g
    → IsUngranted session (call g c)
unfolding call get
call-IsUngranted g (issues other peer tokens) session apart n =
    issue-IsUngranted g other peer tokens session apart n
call-IsUngranted g (asks header peer store now) session apart n =
    session_for-IsUngranted g header peer store now session n
call-IsUngranted g (revokes other) session apart n = revoke-IsUngranted g other session n
call-IsUngranted g clears session apart n = λ v x h. cc

run-IsUngranted :
    (g : Grants) (cs : List Call) (session : Text)
    → All (λ c. issues_to session c ≡ false) cs
    → IsUngranted session g
    → IsUngranted session (run g cs)
unfolding run
run-IsUngranted g [] session hs n = n
run-IsUngranted g (c ∷ cs) session (h, hs) n =
    run-IsUngranted (call g c) cs session hs (call-IsUngranted g c session h n)

-- After any calls, a session that is then revoked is not admitted after any later calls that issue
-- no grant for it, whatever cookie is sent and whatever the session store holds.
pub revoke-refuses :
    (cs ds : List Call) (session header peer : Text) (store : Sessions.Store) (now : ℕ)
    → All (λ c. issues_to session c ≡ false) ds
    → (session_for (run (revoke (run clear cs) session) ds) header peer store now).2 ≢ some session
revoke-refuses cs ds session header peer store now hs h =
    let g = revoke (run clear cs) session in
    let (value, x, s, c, there, mine, _, _, _) =
      session_for-some (run g ds) header peer store now session h in
    run-IsUngranted g ds session hs
      (λ v x held.
        revoke-none (run clear cs) session v x (run-IsLinked clear cs clear-IsLinked) held)
      value x there mine
