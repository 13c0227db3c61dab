-- ===== src/Relay/Traffic.antt =====
-- apps/server/src/media-relay/relay.mjs: the lanes of the budget, and what a pin sends on.
use vidvnc.Base.{
  ℕ, ◌+◌, Bool, true, false, not, ◌&&◌, ◌||◌, Option, none, some, List, [], ◌∷◌, ◌++◌, Text, codes,
  same, leb, ltb, ◌==◌, length, find, if◌then◌else◌,
}
use vidvnc.Base.Table.{Table, get, set}
use vidvnc.Streams.Plans.{decimal}
use vidvnc.Peers.Addresses.{plain_address}
use vidvnc.Relay.Stun.{Bytes, Stun}
use vidvnc.Relay.State.{
  Limits, Registration, Pin, Window, Relay, Drop, loopback_source, to_worker, to_client,
}
use vidvnc.Relay.Registrations.{add}

-- `#drop`
abbrev pub drop_datagram : Relay → Drop → Relay
drop_datagram r why = record r { dropped = why ∷ r.dropped }

pub data Class : Type 0 where
  stun dtls rtp : Class

-- `datagramClass`
unfoldable pub datagram_class : ℕ → Option Class
datagram_class byte =
    if leb byte 3
    then some stun
    else if leb 20 byte && leb byte 63
    then some dtls
    else if leb 128 byte && leb byte 191
    then some rtp
    else none

abbrev pub count_of : Text → Table ℕ → ℕ
count_of k t = elim (get k t) [ none ↦ 0 | some n ↦ n ]

-- The window of this time: a new one where the last began a second ago.
unfoldable pub current_window : Window → ℕ → Window
current_window w now =
    let fresh : Window = record {
      start = some now;
      total = 0;
      per_source = [];
      per_registration = [];
    } in
    elim w.start [ none ↦ fresh | some start ↦ if leb (start + 1000) now then fresh else w ]

-- The first registration with that hint that has room left.
unfoldable pub hint_lane : ℕ → Table ℕ → List Text → Option Text
hint_lane limit used ids = find (λ id. ltb (count_of id used) limit) ids

-- The two lanes of `#budget`.
unfoldable pub spend : Limits → Window → (hinted : List Text) → (group : Text) → Window × Bool
spend l w hinted group = elim (hint_lane l.hint_lane_per_second w.per_registration hinted) [
  | some id ↦ (
    record w { per_registration = set id (count_of id w.per_registration + 1) w.per_registration },
    true,
  )
  | none ↦
      if leb l.stranger_total w.total
      then (w, false)
      else if leb l.stranger_per_source (count_of group w.per_source)
      then (w, false)
      else (
        record w {
          total = w.total + 1;
          per_source = set group (count_of group w.per_source + 1) w.per_source;
        },
        true,
      )
]

abbrev pub ids_of : Text → Table (List Text) → List Text
ids_of k t = elim (get k t) [ none ↦ [] | some ids ↦ ids ]

-- `${plain}|${port}`
abbrev pub pin_key : Text → ℕ → Text
pin_key plain port = plain ++ (codes "|" ++ decimal port)

abbrev pub full_name : Registration → Text
full_name x = x.allowed.ufrag ++ (codes ":" ++ x.allowed.client_ufrag)

abbrev pub is_named : Stun → Text → Bool
is_named m name = elim m.username [ none ↦ false | some u ↦ same u name ]

-- `#toWorker` of a pin that is there
unfoldable pub deliver : Relay → Text → Pin → Bytes → ℕ → Relay
deliver r key p message now =
    let seen : Pin = record p { last_seen = now } in
    if not p.ready
    then record r {
      pins =
          set key
            (if ltb (length p.queue) r.limits.queued_per_pin
              then record seen { queue = p.queue ++ message ∷ [] }
              else seen)
            r.pins;
    }
    else (elim (get p.stream_id r.registrations) [
      | none ↦ record r { pins = set key seen r.pins }
      | some x ↦ record r {
        pins = set key seen r.pins;
        sent = to_worker key message x.allowed.worker_port ∷ r.sent;
      }
    ])

-- `pin.queue.splice(0)`, sent one after the other
unfoldable pub flush : Text → List Bytes → ℕ → Relay → Relay
unfolding deliver
flush key [] now r = r
flush key (m ∷ ms) now r =
    flush key ms now (elim (get key r.pins) [ none ↦ r | some p ↦ deliver r key p m now ])

-- The socket of a pin is bound.
unfoldable pub socket_ready : Relay → Text → ℕ → Relay
unfolding flush
socket_ready r key now = elim (get key r.pins) [
  | none ↦ r
  | some p ↦
      flush key p.queue now
        (record r { pins = set key (record p { ready = true; queue = [] }) r.pins })
]

-- A datagram on the socket of a pin, which is for the worker's port.
unfoldable pub from_worker :
    Relay → Text → (worker_port : ℕ) → Bytes → (address : Text) → (port : ℕ) → ℕ → Relay
unfolding plain_address
from_worker r key worker_port message address port now =
    if not (same (plain_address address) (codes "127.0.0.1")) || not (port == worker_port)
    then drop_datagram r loopback_source
    else (elim (get key r.pins) [
      | none ↦ r
      | some p ↦ record r {
        pins = set key (record p { last_seen = now }) r.pins;
        sent = if r.is_open then to_client message p.port p.send_address ∷ r.sent else r.sent;
      }
    ])

-- `#pin`, of a registration under its stream
unfoldable pub add_pin : Relay → Registration → Text → (plain address : Text) → ℕ → ℕ → Relay
add_pin r x key plain address port now = record r {
  registrations =
      set x.allowed.stream_id (record x { pins = add key x.pins; pinned_once = true })
        r.registrations;
  pins =
      set key
        (record {
          send_address = address;
          plain = plain;
          port = port;
          stream_id = x.allowed.stream_id;
          last_seen = now;
          ready = false;
          queue = [];
        })
        r.pins;
}
