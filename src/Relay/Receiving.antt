-- ===== src/Relay/Receiving.antt =====
-- apps/server/src/media-relay/relay.mjs: the datagrams on the public port.
use vidvnc.Base.{
  ℕ, ◌+◌, Bool, true, false, not, Option, none, some, List, [], ◌∷◌, Text, same, leb, ◌==◌, length,
  if◌then◌else◌,
}
use vidvnc.Base.Table.{get, has}
use vidvnc.Peers.Addresses.{plain_address, source_group}
use vidvnc.Relay.Stun.{Bytes, Stun, binding_request, parse_stun, verify_integrity, receiver_ufrag}
use vidvnc.Relay.State.{
  Registration, Pin, Relay, Drop, budget, malformed, unknown_ufrag, bad_integrity, username, class,
  cross_registration, pins, address_differs, pinned,
}
use vidvnc.Relay.Traffic.{
  datagram_class, add_pin, current_window, deliver, drop_datagram, full_name, ids_of, is_named,
  pin_key, spend, stun,
}

module _ (is_ip : Text → ℕ) where
  -- `#budget`
  unfoldable pub charge : Relay → Text → ℕ → Relay × Bool
  unfolding source_group spend current_window
  charge r plain now =
      let group = source_group is_ip plain in
      let (w, free) = spend r.limits (current_window r.window now) (ids_of group r.by_hint) group in
      (record r { window = w }, free)

  -- Whether the sender is at the hinted address: `none` where the hint says nothing.
  abbrev pub hint_matched : Registration → Text → Option Bool
  hint_matched x plain = elim x.hint_group [
    | none ↦ none
    | some group ↦
        if x.hint_family == is_ip plain then some (same (source_group is_ip plain) group) else none
  ]

  -- The first mismatch of a registration is reported, each is counted.
  unfoldable pub note_mismatch : Relay → Registration → Text → ℕ → Relay
  note_mismatch r x plain port = elim (hint_matched x plain) [
    | none ↦ r
    | some matched ↦ if matched then r else record r {
      address_differs_count = r.address_differs_count + 1;
      events =
          if x.mismatch_reported
          then r.events
          else address_differs x.allowed.stream_id plain port ∷ r.events;
    }
  ]

  abbrev pub reported : Registration → Text → Registration
  reported x plain = elim (hint_matched x plain) [
    | none ↦ x
    | some matched ↦ if matched then x else record x { mismatch_reported = true }
  ]

  -- The end of `receive`, where the sender has proved the password.
  unfoldable pub admit : Relay → Registration → Bytes → (plain address : Text) → ℕ → ℕ → Relay
  unfolding note_mismatch add_pin deliver
  admit r x message plain address port now =
      let key = pin_key plain port in
      let noted = note_mismatch r x plain port in
      let added = add_pin noted (reported x plain) key plain address port now in
      let told : Relay = record added {
        events = pinned x.allowed.stream_id plain port (hint_matched x plain) ∷ added.events;
      } in
      elim (get key told.pins) [ none ↦ told | some p ↦ deliver told key p message now ]

module _ (hmac : Text → Bytes → Bytes) where
  -- The registration under whose password the message is signed.
  unfoldable pub signer : Relay → Bytes → Stun → List Text → Option Registration
  unfolding verify_integrity
  signer r message m [] = none
  signer r message m (id ∷ ids) = elim (get id r.registrations) [
    | none ↦ signer r message m ids
    | some x ↦ elim (verify_integrity hmac message m x.allowed.pwd) [
      | true ↦ some x
      | false ↦ signer r message m ids
    ]
  ]

  -- The answer to a STUN message of a pin: what it is dropped for, if it is.
  unfoldable pub refuse_stun : Relay → Registration → Bytes → Option Drop
  unfolding parse_stun verify_integrity
  refuse_stun r x message = elim (parse_stun message) [
    | none ↦ some malformed
    | some m ↦
        if m.kind == binding_request
        then (if not (is_named m (full_name x))
            then some (
                if (elim (receiver_ufrag m) [ none ↦ false | some u ↦ has u r.by_ufrag ])
                then cross_registration
                else unknown_ufrag)
            else if verify_integrity hmac message m x.allowed.pwd
            then none
            else some bad_integrity)
        else if verify_integrity hmac message m x.allowed.client_pwd
        then none
        else some bad_integrity
  ]

  -- `#fromPinned`
  unfoldable pub from_pinned : Relay → Text → Pin → Registration → Bytes → ℕ → Relay
  unfolding datagram_class refuse_stun deliver
  from_pinned r key p x message now = elim message [
    | [] ↦ drop_datagram r class
    | byte ∷ rest ↦ elim (datagram_class byte) [
      | none ↦ drop_datagram r class
      | some stun ↦ elim (refuse_stun r x (byte ∷ rest)) [
        | some why ↦ drop_datagram r why
        | none ↦ deliver r key p (byte ∷ rest) now
      ]
      | some other ↦ deliver r key p (byte ∷ rest) now
    ]
  ]

module _ (is_ip : Text → ℕ) (hmac : Text → Bytes → Bytes) where
  -- The checks of `receive` for a sender without a pin, once it is within the budget.
  unfoldable pub check_in : Relay → Bytes → (plain address : Text) → ℕ → ℕ → Relay
  unfolding parse_stun signer admit
  check_in r message plain address port now = elim (parse_stun message) [
    | none ↦ drop_datagram r malformed
    | some m ↦
        if not (m.kind == binding_request)
        then drop_datagram r malformed
        else (elim (receiver_ufrag m) [
          | none ↦ drop_datagram r unknown_ufrag
          | some ufrag ↦ elim (get ufrag r.by_ufrag) [
            | none ↦ drop_datagram r unknown_ufrag
            | some ids ↦ elim (signer hmac r message m ids) [
              | none ↦ drop_datagram r bad_integrity
              | some x ↦
                  if not (is_named m (full_name x))
                  then drop_datagram r username
                  else if leb r.limits.pins_per_registration (length x.pins)
                  then drop_datagram r pins
                  else admit is_ip r x message plain address port now
            ]
          ]
        ])
  ]

  -- `receive(message, rinfo)`. The registration of a pin is there: `revoke` unpins all of its pins first.
  unfoldable pub receive : Relay → Bytes → (address : Text) → (port : ℕ) → ℕ → Relay
  unfolding plain_address charge check_in from_pinned
  receive r message address port now =
      let plain = plain_address address in
      let key = pin_key plain port in
      elim (get key r.pins) [
        | some p ↦ elim (get p.stream_id r.registrations) [
          | none ↦ r
          | some x ↦ from_pinned hmac r key p x message now
        ]
        | none ↦
            let (charged, free) = charge is_ip r plain now in
            if free
            then check_in charged message plain address port now
            else drop_datagram charged budget
      ]
