-- ===== src/Connections/Capped.antt =====
-- The sockets of each source over any connections and closings (apps/server/src/server-limits.mjs).
use mathlib.Core.Logic.{ite}
use vidvnc.Base.{
  ℕ, ◌+◌, ◌-◌, ◌≤◌, ◌≡◌, refl, ap, ◌∙◌, sym, subst, ◌<◌, Bool, true, false, some, List, [], ◌∷◌,
  Text, same, leb, ◌==◌, length, keep, arith, Bool-cases, Option-cases, inl, inr, dec_text,
}
use vidvnc.Base.Table.{Table, get, set, delete, get-set, get-delete}
use vidvnc.Peers.Addresses.{plain_address, source_group}
use vidvnc.Connections.Limits.{
  Socket, Server, count, is_exempt, max_connections_per_source, take_socket, closed, connection,
}

abbrev pub sockets_of : Text → List Socket → ℕ
sockets_of source xs = length (keep (λ x. same x.source source) xs)

-- The server counts each source's sockets, and there are at most twelve of one source.
pub record Capped (s : Server) : Type 0 where
  pub counted : (source : Text) → count source s.counts ≡ sockets_of source s.sockets
  pub limited : (source : Text) → sockets_of source s.sockets ≤ max_connections_per_source

abbrev one_if : Bool → ℕ
one_if true = 1
one_if false = 0

count-set :
    (j k : Text) (n : ℕ) (t : Table ℕ) → count j (set k n t) ≡ ite (dec_text k j) n (count j t)
count-set j k n t = rw (count, get-set j k n t) (ground arith)

count-delete : (j k : Text) (t : Table ℕ) → count j (delete k t) ≡ ite (dec_text k j) 0 (count j t)
count-delete j k t = rw (count, get-delete j k t) (ground arith)

sockets_of-cons :
    (source : Text) (x : Socket) (xs : List Socket)
    → sockets_of source (x ∷ xs) ≡ one_if (same x.source source) + sockets_of source xs
sockets_of-cons source x xs = elim (Bool-cases (same x.source source)) [
  | inl e ↦ rw (e) (omega arith)
  | inr e ↦ rw (e) (omega arith)
]

-- A socket and the others: what the others are short of is the socket.
abbrev Parts : Text → List Socket → Socket × List Socket → Type 0
Parts source xs q = sockets_of source xs ≡ one_if (same q.0.source source) + sockets_of source q.1

sockets_of-take :
    (source : Text) (id : ℕ) (xs : List Socket) (q : Socket × List Socket)
    → take_socket id xs ≡ some q
    → Parts source xs q
unfolding take_socket
sockets_of-take source id [] q h = absurd (cc (h))
sockets_of-take source id (z ∷ zs) q h = elim (Bool-cases (z.id == id)) [
  | inl e ↦
      let found : some (z, zs) ≡ some q = rw (take_socket, e) at h in
      let here : (z, zs) ≡ q = cc (found) in
      subst (Parts source (z ∷ zs)) here (sockets_of-cons source z zs)
  | inr e ↦ elim (Option-cases (take_socket id zs)) [
    | inl f ↦ absurd (cc ((rw (take_socket, e, f) at h)))
    | inr (r, f) ↦
        let found : some (r.0, z ∷ r.1) ≡ some q = rw (take_socket, e, f) at h in
        let here : (r.0, z ∷ r.1) ≡ q = cc (found) in
        let one = sockets_of-cons source z zs in
        let two = sockets_of-cons source z r.1 in
        let three = sockets_of-take source id zs r f in
        subst (Parts source (z ∷ zs)) here (omega (arith, one, two, three))
  ]
]

-- What is left of a source, in one and the same way for all sources.
left-counted :
    (s : Server) (x : Socket) (xs : List Socket) (j : Text)
    → Capped s
    → ((source : Text) → Parts source s.sockets (x, xs))
    → ite (dec_text x.source j) (count x.source s.counts - 1) (count j s.counts) ≡ sockets_of j xs
left-counted s x xs j c parts =
    let own = c.counted x.source in
    let split = parts x.source in
    let one : one_if (same x.source x.source) ≡ 1 = ground arith in
    elim (dec_text x.source j)
      as (λ d. ite d (count x.source s.counts - 1) (count j s.counts) ≡ sockets_of j xs) [
        | yes e ↦ omega (arith, own, split, one) ∙ ap (λ k. sockets_of k xs) e
        | no ne ↦
            let there = c.counted j in
            let part = parts j in
            let none_of : one_if (same x.source j) ≡ 0 = ground (arith, ne) in
            omega (arith, there, part, none_of)
      ]

sockets_of-left :
    (s : Server) (q : Socket × List Socket) (j : Text)
    → Capped s
    → Parts j s.sockets q
    → sockets_of j q.1 ≤ max_connections_per_source
sockets_of-left s q j c part = let most = c.limited j in omega (arith, most, part)

closed-Capped : (s : Server) (id : ℕ) → Capped s → Capped (closed s id)
unfolding closed
closed-Capped s id c = elim (Option-cases (take_socket id s.sockets)) [
  | inl e ↦ rw (closed, e) c
  | inr ((x, xs), e) ↦
      let parts : (j : Text) → Parts j s.sockets (x, xs) =
        λ j. sockets_of-take j id s.sockets (x, xs) e in
      let left = count x.source s.counts - 1 in
      elim (Bool-cases (leb 1 left)) [
        | inl f ↦
            rw (closed, e, f)
              (record {
                counted = λ j. count-set j x.source left s.counts ∙ left-counted s x xs j c parts;
                limited = λ j. sockets_of-left s (x, xs) j c (parts j);
              })
        | inr f ↦
            let gone : left ≡ 0 = ground (arith, f) in
            rw (closed, e, f)
              (record {
                counted = λ j.
                    count-delete j x.source s.counts
                    ∙ (ap (λ n. ite (dec_text x.source j) n (count j s.counts)) (sym gone)
                        ∙ left-counted s x xs j c parts);
                limited = λ j. sockets_of-left s (x, xs) j c (parts j);
              })
      ]
]

added-counted :
    (s : Server) (x : Socket) (j : Text)
    → Capped s
    → ite (dec_text x.source j) (count x.source s.counts + 1) (count j s.counts)
      ≡ sockets_of j (x ∷ s.sockets)
added-counted s x j c =
    let own = c.counted x.source in
    let there = c.counted j in
    let more = sockets_of-cons j x s.sockets in
    let at_source = sockets_of-cons x.source x s.sockets in
    let one : one_if (same x.source x.source) ≡ 1 = ground arith in
    elim (dec_text x.source j)
      as (λ d.
        ite d (count x.source s.counts + 1) (count j s.counts) ≡ sockets_of j (x ∷ s.sockets)) [
          | yes e ↦ omega (arith, own, at_source, one) ∙ ap (λ k. sockets_of k (x ∷ s.sockets)) e
          | no ne ↦
              let none_of : one_if (same x.source j) ≡ 0 = ground (arith, ne) in
              omega (arith, there, more, none_of)
        ]

added-limited :
    (s : Server) (x : Socket) (j : Text)
    → Capped s
    → count x.source s.counts < max_connections_per_source
    → sockets_of j (x ∷ s.sockets) ≤ max_connections_per_source
added-limited s x j c room =
    let own = c.counted x.source in
    let most = c.limited j in
    let at_source = sockets_of-cons x.source x s.sockets in
    let more = sockets_of-cons j x s.sockets in
    let one : one_if (same x.source x.source) ≡ 1 = ground arith in
    elim (dec_text x.source j) [
      | yes e ↦
          subst (λ (k : Text). sockets_of k (x ∷ s.sockets) ≤ max_connections_per_source) e
            (omega (arith, own, at_source, one, room))
      | no ne ↦
          let none_of : one_if (same x.source j) ≡ 0 = ground (arith, ne) in
          omega (arith, most, more, none_of)
    ]

-- What happens at the server: a socket connects or closes.
pub data Event : Type 0 where
  connects : (id : ℕ) (remote_address : Text) → Event
  closes : (id : ℕ) → Event

module _ (is_ip : Text → ℕ) where
  connection-Capped :
      (s : Server) (id : ℕ) (remote_address : Text)
      → Capped s
      → Capped (connection is_ip s id remote_address).0
  unfolding connection
  connection-Capped s id remote_address c =
      let source = source_group is_ip (plain_address remote_address) in
      elim (Bool-cases (is_exempt (plain_address remote_address))) [
        | inl e ↦ rw (connection, e) c
        | inr e ↦ elim (Bool-cases (leb max_connections_per_source (count source s.counts))) [
          | inl f ↦ rw (connection, e, f) c
          | inr f ↦
              let x : Socket = record { id = id; source = source } in
              let room : count source s.counts < max_connections_per_source = ground (arith, f) in
              rw (connection, e, f)
                (record {
                  counted = λ j.
                      count-set j source (count source s.counts + 1) s.counts
                      ∙ added-counted s x j c;
                  limited = λ j. added-limited s x j c room;
                })
        ]
      ]

  unfoldable pub run : Server → List Event → Server
  run s [] = s
  run s (connects id remote_address ∷ events) = run (connection is_ip s id remote_address).0 events
  run s (closes id ∷ events) = run (closed s id) events

  run-from : (s : Server) (events : List Event) → Capped s → Capped (run s events)
  unfolding run
  run-from s [] c = c
  run-from s (connects id remote_address ∷ events) c =
      run-from (connection is_ip s id remote_address).0 events
        (connection-Capped s id remote_address c)
  run-from s (closes id ∷ events) c = run-from (closed s id) events (closed-Capped s id c)

  new-Capped : Capped (record { counts = []; sockets = [] })
  unfolding get
  new-Capped = record { counted = λ j. refl; limited = λ j. omega arith }

  -- After any connections and closings, the server has counted each source's open sockets exactly, and
  -- no source has more than twelve that count.
  pub run-Capped :
      (events : List Event) → Capped (run (record { counts = []; sockets = [] }) events)
  run-Capped events = run-from (record { counts = []; sockets = [] }) events new-Capped
