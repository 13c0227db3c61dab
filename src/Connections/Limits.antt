-- ===== src/Connections/Limits.antt =====
-- apps/server/src/server-limits.mjs: the connections of each source. A socket is known by a number; the
-- server keeps the sockets whose closing it waits for, with the source that each was counted for.
use vidvnc.Base.{
  ℕ, ◌+◌, ◌-◌, Bool, true, false, ◌||◌, Option, none, some, List, [], ◌∷◌, Text, codes, same, leb,
  ◌==◌, if◌then◌else◌,
}
use vidvnc.Base.Table.{Table, get, set, delete}
use vidvnc.Peers.Addresses.{plain_address, source_group}

-- SERVER_LIMITS.maxConnectionsPerSource
abbrev pub max_connections_per_source : ℕ
max_connections_per_source = 12

pub record Socket : Type 0 where
  pub id : ℕ
  pub source : Text

pub record Server : Type 0 where
  pub counts : Table ℕ
  pub sockets : List Socket

abbrev pub count : Text → Table ℕ → ℕ
count source counts = elim (get source counts) [ none ↦ 0 | some n ↦ n ]

-- `address.startsWith('127.')`
abbrev pub is_127 : Text → Bool
is_127 (a ∷ b ∷ c ∷ d ∷ s) = same (a ∷ b ∷ c ∷ d ∷ []) (codes "127.")
is_127 s = false

-- Addresses that are not counted.
abbrev pub is_exempt : Text → Bool
is_exempt address = same address [] || same address (codes "::1") || is_127 address

-- The first socket with that number, and the others.
unfoldable pub take_socket : ℕ → List Socket → Option (Socket × List Socket)
take_socket id [] = none
take_socket id (x ∷ xs) =
    let rest = take_socket id xs in
    if x.id == id
    then some (x, xs)
    else (elim rest [ none ↦ none | some (y, ys) ↦ some (y, x ∷ ys) ])

-- The listener of 'close'.
unfoldable pub closed : Server → ℕ → Server
closed s id = elim (take_socket id s.sockets) [
  | none ↦ s
  | some (x, xs) ↦
      let left = count x.source s.counts - 1 in
      record {
        counts = if leb 1 left then set x.source left s.counts else delete x.source s.counts;
        sockets = xs;
      }
]

module _ (is_ip : Text → ℕ) where
  -- The listener of 'connection', and whether the socket is kept.
  unfoldable pub connection : Server → ℕ → (remote_address : Text) → Server × Bool
  connection s id remote_address =
      let address = plain_address remote_address in
      let source = source_group is_ip address in
      if is_exempt address
      then (s, true)
      else if leb max_connections_per_source (count source s.counts)
      then (s, false)
      else (
        record {
          counts = set source (count source s.counts + 1) s.counts;
          sockets = record { id = id; source = source } ∷ s.sockets;
        },
        true,
      )
