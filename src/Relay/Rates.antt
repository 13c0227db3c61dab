-- ===== src/Relay/Rates.antt =====
-- How many datagrams without a pin are looked at in a second (apps/server/src/media-relay/relay.mjs).
use vidvnc.Base.{ℕ, ◌≡◌, refl, ◌∙◌, [], ◌∷◌, Text, inl, inr, Bool-cases, Option-cases}
use vidvnc.Base.Table.{get}
use vidvnc.Peers.Addresses.{plain_address, source_group}
use vidvnc.Relay.Stun.{Bytes}
use vidvnc.Relay.State.{pinned, Relay, Registration, Pin}
use vidvnc.Relay.Trust.{check_in-cases}
use vidvnc.Relay.Traffic.{
  stun, dtls, rtp, pin_key, add_pin, datagram_class, current_window, ids_of, deliver,
}
use vidvnc.Relay.Receiving.{
  hint_matched, reported, refuse_stun, charge, note_mismatch, admit, check_in, from_pinned, receive,
}
use vidvnc.Relay.Windows.{Within, current_window-Within, spend-Within}

-- What a step that gets no new datagram leaves alone.
abbrev pub Steady : Relay → Relay → Type 0
Steady r r' = (r'.window ≡ r.window) × (r'.limits ≡ r.limits)

deliver-Steady :
    (r : Relay) (key : Text) (p : Pin) (message : Bytes) (now : ℕ)
    → Steady r (deliver r key p message now)
unfolding deliver
deliver-Steady r key p message now = elim (Bool-cases p.ready) [
  | inr e ↦ rw (e, deliver) (refl, refl)
  | inl e ↦ elim (Option-cases (get p.stream_id r.registrations)) [
    | inl g ↦ rw (e, deliver, g) (refl, refl)
    | inr (x, g) ↦ rw (e, deliver, g) (refl, refl)
  ]
]

module _ (is_ip : Text → ℕ) where
  note_mismatch-Steady :
      (r : Relay) (x : Registration) (plain : Text) (port : ℕ)
      → Steady r (note_mismatch is_ip r x plain port)
  unfolding note_mismatch
  note_mismatch-Steady r x plain port = elim (Option-cases (hint_matched is_ip x plain)) [
    | inl e ↦ rw (note_mismatch, e) (refl, refl)
    | inr (b, e) ↦ elim (Bool-cases b) [
      | inl t ↦ rw (note_mismatch, e, t) (refl, refl)
      | inr t ↦ rw (note_mismatch, e, t) (refl, refl)
    ]
  ]

  admit-Steady :
      (r : Relay) (x : Registration) (message plain address : Text) (port now : ℕ)
      → Steady r (admit is_ip r x message plain address port now)
  unfolding admit add_pin
  admit-Steady r x message plain address port now =
      let noted = note_mismatch is_ip r x plain port in
      let (one, two) = note_mismatch-Steady r x plain port in
      let added =
        add_pin noted (reported is_ip x plain) (pin_key plain port) plain address port now in
      let told : Relay = record added {
        events = pinned x.allowed.stream_id plain port (hint_matched is_ip x plain) ∷ added.events;
      } in
      elim (Option-cases (get (pin_key plain port) told.pins)) [
        | inl e ↦ rw (admit, e) (one, two)
        | inr (p, e) ↦
            let (three, four) = deliver-Steady told (pin_key plain port) p message now in
            rw (admit, e) (three ∙ one, four ∙ two)
      ]

module _ (is_ip : Text → ℕ) (hmac : Text → Bytes → Bytes) where
  check_in-Steady :
      (r : Relay) (message : Bytes) (plain address : Text) (port now : ℕ)
      → Steady r (check_in is_ip hmac r message plain address port now)
  check_in-Steady r message plain address port now =
      elim (check_in-cases is_ip hmac r message plain address port now) [
        | inl (why, e) ↦ rw (e) (refl, refl)
        | inr (q, e) ↦ rw (e) (admit-Steady is_ip r q.registration message plain address port now)
      ]

  from_pinned-Steady :
      (r : Relay) (key : Text) (p : Pin) (x : Registration) (message : Bytes) (now : ℕ)
      → Steady r (from_pinned hmac r key p x message now)
  unfolding from_pinned
  from_pinned-Steady r key p x [] now = (refl, refl)
  from_pinned-Steady r key p x (byte ∷ rest) now = elim (Option-cases (datagram_class byte)) [
    | inl c ↦ rw (from_pinned, c) (refl, refl)
    | inr (dtls, c) ↦ rw (from_pinned, c) (deliver-Steady r key p (byte ∷ rest) now)
    | inr (rtp, c) ↦ rw (from_pinned, c) (deliver-Steady r key p (byte ∷ rest) now)
    | inr (stun, c) ↦ elim (Option-cases (refuse_stun hmac r x (byte ∷ rest))) [
      | inl e ↦ rw (from_pinned, c, e) (deliver-Steady r key p (byte ∷ rest) now)
      | inr (why, e) ↦ rw (from_pinned, c, e) (refl, refl)
    ]
  ]

  charge-Within :
      (r : Relay) (plain : Text) (now : ℕ)
      → Within r.limits r.window
      → Within r.limits (charge is_ip r plain now).0.window
  unfolding charge
  charge-Within r plain now h =
      spend-Within r.limits (current_window r.window now)
        (ids_of (source_group is_ip plain) r.by_hint) (source_group is_ip plain)
        (current_window-Within r.limits r.window now h)

  charge-limits :
      (r : Relay) (plain : Text) (now : ℕ) → (charge is_ip r plain now).0.limits ≡ r.limits
  unfolding charge
  charge-limits r plain now = refl

  -- Every datagram keeps the counts of the second within the relay's limits: the total of the senders
  -- without a hint, the count of each source group, and the count of each registration's lane.
  pub receive-Within :
      (r : Relay) (message : Bytes) (address : Text) (port now : ℕ)
      → Within r.limits r.window
      → Within
          (receive is_ip hmac r message address port now).limits
          (receive is_ip hmac r message address port now).window
  unfolding receive
  receive-Within r message address port now h =
      let plain : Text = plain_address address in
      let charged : Relay = (charge is_ip r plain now).0 in
      elim (Option-cases (get (pin_key plain port) r.pins)) [
        | inr (p, e) ↦ elim (Option-cases (get p.stream_id r.registrations)) [
          | inl g ↦ rw (e, receive, g) h
          | inr (x, g) ↦
              let (one, two) = from_pinned-Steady r (pin_key plain port) p x message now in
              rw (e, receive, g, one, two) h
        ]
        | inl e ↦ elim (Bool-cases (charge is_ip r plain now).1) [
          | inr f ↦ rw (e, receive, f) (charge-Within r plain now h)
          | inl f ↦
              let (one, two) = check_in-Steady charged message plain address port now in
              rw (e, receive, f, one, two) (charge-Within r plain now h)
        ]
      ]
