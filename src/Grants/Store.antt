-- ===== src/Grants/Store.antt =====
-- apps/server/src/viewer-asset-grants.mjs: the grants by which a viewer's page loads its assets.
use vidvnc.Base.{
  ℕ, true, false, not, ◌||◌, Option, none, some, List, [], ◌∷◌, Text, same, if◌then◌else◌, Result,
  ok, err,
}
use vidvnc.Base.Table.{Table, get, has, set, delete}
use vidvnc.Sessions.State.{Session}
use vidvnc.Sessions.State as Sessions
use vidvnc.Sessions.Access.{peek}
use vidvnc.Grants.Cookies.{normalize_peer, read_viewer_cookie}

pub record Grant : Type 0 where
  pub session_id : Text
  pub peer : Text

pub record Grants : Type 0 where
  pub by_token : Table Grant
  pub by_session : Table Text

pub data GrantError : Type 0 where
  no_session_or_peer no_more_tokens : GrantError

-- `revoke(sessionId)`; a token is never empty.
unfoldable pub revoke : Grants → Text → Grants
revoke g session = record {
  by_token = elim (get session g.by_session) [
    | none ↦ g.by_token
    | some value ↦ delete value g.by_token
  ];
  by_session = delete session g.by_session;
}

-- The first of the random tokens that no grant has.
unfoldable pub unused_token : List Text → Table Grant → Option Text
unused_token [] t = none
unused_token (v ∷ vs) t = elim (has v t) [ true ↦ unused_token vs t | false ↦ some v ]

unfoldable pub issue : Grants → Text → Text → List Text → Grants × Result GrantError Text
unfolding revoke unused_token normalize_peer
issue g session peer tokens =
    if same session [] || same (normalize_peer peer) []
    then (g, err no_session_or_peer)
    else (let free = revoke g session in
        elim (unused_token tokens free.by_token) [
          | none ↦ (free, err no_more_tokens)
          | some value ↦ (
            record {
              by_token =
                  set value (record { session_id = session; peer = normalize_peer peer })
                    free.by_token;
              by_session = set session value free.by_session;
            },
            ok value,
          )
        ])

-- A grant that was looked up under its token.
unfoldable pub session_of :
    Grants → Grant → Text → Sessions.Store → ℕ → Grants × Sessions.Store × Option Text
unfolding revoke peek normalize_peer
session_of g x peer store now =
    if not (same x.peer peer)
    then (g, store, none)
    else (let (seen, found) = peek store x.session_id now in
        elim found [
          | none ↦ (revoke g x.session_id, seen, none)
          | some s ↦ (
            g,
            seen,
            (if same (normalize_peer s.client_key) peer then some x.session_id else none),
          )
        ])

-- `sessionFor`: the session that a valid grant belongs to.
unfoldable pub session_for :
    Grants → Text → Text → Sessions.Store → ℕ → Grants × Sessions.Store × Option Text
unfolding read_viewer_cookie session_of
session_for g header peer store now =
    if same (normalize_peer peer) [] then (g, store, none) else (elim (read_viewer_cookie header) [
      | none ↦ (g, store, none)
      | some value ↦ elim (get value g.by_token) [
        | none ↦ (g, store, none)
        | some x ↦ session_of g x (normalize_peer peer) store now
      ]
    ])

abbrev pub clear : Grants
clear = record { by_token = []; by_session = [] }
