-- ===== src/Relay/Trust.antt =====
-- Whose datagrams the relay lets through (apps/server/src/media-relay/relay.mjs).
use vidvnc.Base.{
  ℕ, ◌≡◌, ◌≢◌, ◌⊎◌, refl, sym, ap, ◌∙◌, subst, true, none, some, List, [], ◌∷◌, Text, leb, ==→≡,
  ◌==◌, length, arith, inl, inr, Bool-cases, Option-cases,
}
use vidvnc.Base.Table.{get}
use vidvnc.Peers.Addresses.{plain_address}
use vidvnc.Relay.Stun.{Bytes, Stun, binding_request, parse_stun, verify_integrity, receiver_ufrag}
use vidvnc.Relay.State.{
  Registration, Pin, Relay, Drop, malformed, unknown_ufrag, bad_integrity, username, pins,
}
use vidvnc.Relay.Traffic.{datagram_class, stun, pin_key, full_name, is_named, drop_datagram}
use vidvnc.Relay.Receiving.{charge, signer, admit, check_in, refuse_stun, from_pinned, receive}

-- Nothing goes on: the pins and what was sent are as they were.
abbrev pub Ignored : Relay → Relay → Type 0
Ignored r r' = (r'.pins ≡ r.pins) × (r'.sent ≡ r.sent)

module _ (hmac : Text → Bytes → Bytes) where
  -- A request that a registration's stream and both its passwords' owner can have made.
  pub record Proved (r : Relay) (message : Bytes) : Type 0 where
    pub parsed : Stun
    pub id : Text
    pub registration : Registration
    pub is_parsed : parse_stun message ≡ some parsed
    pub is_request : parsed.kind ≡ binding_request
    pub is_registered : get id r.registrations ≡ some registration
    pub is_signed : verify_integrity hmac message parsed registration.allowed.pwd ≡ true
    pub is_addressed : is_named parsed (full_name registration) ≡ true

  signer-some :
      (r : Relay) (message : Bytes) (m : Stun) (ids : List Text) (x : Registration)
      → signer hmac r message m ids ≡ some x
      → (id : Text) × (get id r.registrations ≡ some x)
        × (verify_integrity hmac message m x.allowed.pwd ≡ true)
  unfolding signer
  signer-some r message m [] x h = cc
  signer-some r message m (id ∷ ids) x h = elim (Option-cases (get id r.registrations)) [
    | inl e ↦ signer-some r message m ids x (rw (e, signer) at h)
    | inr (y, e) ↦ elim (Bool-cases (verify_integrity hmac message m y.allowed.pwd)) [
      | inl v ↦
          let one : y ≡ x = ground (arith, e, v) in
          (
            id,
            e ∙ ap some one,
            subst (λ (z : Registration). verify_integrity hmac message m z.allowed.pwd ≡ true) one
                v,
          )
      | inr v ↦ signer-some r message m ids x (ground (arith, e, v))
    ]
  ]

  -- What a pinned sender's STUN message has to be: a request that names both sides, signed with the
  -- registration's password, or another message, signed with the client's.
  pub record Answered (x : Registration) (message : Bytes) : Type 0 where
    pub parsed : Stun
    pub is_parsed : parse_stun message ≡ some parsed
    pub is_checked :
        ((parsed.kind ≡ binding_request)
          × (is_named parsed (full_name x) ≡ true)
          × (verify_integrity hmac message parsed x.allowed.pwd ≡ true))
        ⊎ ((parsed.kind ≢ binding_request)
            × (verify_integrity hmac message parsed x.allowed.client_pwd ≡ true))

  refuse_stun-none :
      (r : Relay) (x : Registration) (message : Bytes)
      → refuse_stun hmac r x message ≡ none
      → Answered x message
  unfolding refuse_stun
  refuse_stun-none r x message h = elim (Option-cases (parse_stun message)) [
    | inl e ↦ absurd (ground (arith, e))
    | inr (m, e) ↦ elim (Bool-cases (m.kind == binding_request)) [
      | inl k ↦ elim (Bool-cases (is_named m (full_name x))) [
        | inr n ↦ absurd (ground (arith, e, k, n))
        | inl n ↦ elim (Bool-cases (verify_integrity hmac message m x.allowed.pwd)) [
          | inr v ↦ absurd (ground (arith, e, k, n, v))
          | inl v ↦ record {
            parsed = m;
            is_parsed = e;
            is_checked = inl (==→≡ m.kind binding_request k, n, v);
          }
        ]
      ]
      | inr k ↦ elim (Bool-cases (verify_integrity hmac message m x.allowed.client_pwd)) [
        | inr v ↦ absurd (ground (arith, e, k, v))
        | inl v ↦ record {
          parsed = m;
          is_parsed = e;
          is_checked = inr (λ q. absurd (ground (arith, q, k)), v);
        }
      ]
    ]
  ]

module _ (is_ip : Text → ℕ) where
  charge-pins : (r : Relay) (plain : Text) (now : ℕ) → (charge is_ip r plain now).0.pins ≡ r.pins
  unfolding charge
  charge-pins r plain now = refl

  charge-sent : (r : Relay) (plain : Text) (now : ℕ) → (charge is_ip r plain now).0.sent ≡ r.sent
  unfolding charge
  charge-sent r plain now = refl

  charge-registrations :
      (r : Relay) (plain : Text) (now : ℕ)
      → (charge is_ip r plain now).0.registrations ≡ r.registrations
  unfolding charge
  charge-registrations r plain now = refl

module _ (is_ip : Text → ℕ) (hmac : Text → Bytes → Bytes) where
  -- How a sender's datagram ends that has no pin: dropped, or let in as a proved request.
  pub check_in-cases :
      (r : Relay) (message : Bytes) (plain address : Text) (port now : ℕ)
      → ((why : Drop) × (check_in is_ip hmac r message plain address port now
            ≡ drop_datagram r why))
        ⊎ ((q : Proved hmac r message) × (check_in is_ip hmac r message plain address port now
              ≡ admit is_ip r q.registration message plain address port now))
  unfolding check_in
  check_in-cases r message plain address port now = elim (Option-cases (parse_stun message)) [
    | inl e ↦ inl (malformed, rw (e, check_in) refl)
    | inr (m, e) ↦ elim (Bool-cases (m.kind == binding_request)) [
      | inr k ↦ inl (malformed, rw (e, check_in, k) refl)
      | inl k ↦ elim (Option-cases (receiver_ufrag m)) [
        | inl u ↦ inl (unknown_ufrag, rw (e, check_in, k, u) refl)
        | inr (ufrag, u) ↦ elim (Option-cases (get ufrag r.by_ufrag)) [
          | inl i ↦ inl (unknown_ufrag, rw (e, check_in, k, u, i) refl)
          | inr (ids, i) ↦ elim (Option-cases (signer hmac r message m ids)) [
            | inl s ↦ inl (bad_integrity, rw (e, check_in, k, u, i, s) refl)
            | inr (x, s) ↦ elim (Bool-cases (is_named m (full_name x))) [
              | inr n ↦ inl (username, rw (e, check_in, k, u, i, s, n) refl)
              | inl n ↦ elim (Bool-cases (leb r.limits.pins_per_registration (length x.pins))) [
                | inl f ↦ inl (pins, rw (e, check_in, k, u, i, s, n, f) refl)
                | inr f ↦
                    let (id, held, signed) = signer-some hmac r message m ids x s in
                    inr (
                      record {
                        parsed = m;
                        id = id;
                        registration = x;
                        is_parsed = e;
                        is_request = ==→≡ m.kind binding_request k;
                        is_registered = held;
                        is_signed = signed;
                        is_addressed = n;
                      },
                      rw (e, check_in, k, u, i, s, n, f) refl,
                    )
              ]
            ]
          ]
        ]
      ]
    ]
  ]

  charge-Proved :
      (r : Relay) (message plain : Text) (now : ℕ)
      → Proved hmac (charge is_ip r plain now).0 message
      → Proved hmac r message
  charge-Proved r message plain now p = record {
    parsed = p.parsed;
    id = p.id;
    registration = p.registration;
    is_parsed = p.is_parsed;
    is_request = p.is_request;
    is_registered = ap (get p.id) (sym (charge-registrations is_ip r plain now)) ∙ p.is_registered;
    is_signed = p.is_signed;
    is_addressed = p.is_addressed;
  }

  -- A datagram of a sender that has no pin makes no pin and is not sent on, unless it is a STUN
  -- binding request for both sides of a registration, signed with that registration's password.
  pub receive-stranger :
      (r : Relay) (message : Bytes) (address : Text) (port now : ℕ)
      → get (pin_key (plain_address address) port) r.pins ≡ none
      → Ignored r (receive is_ip hmac r message address port now) ⊎ Proved hmac r message
  unfolding receive
  receive-stranger r message address port now h =
      elim (Bool-cases (charge is_ip r (plain_address address) now).1) [
        | inr f ↦
            rw (h, receive, f)
              (inl (
                charge-pins is_ip r (plain_address address) now,
                charge-sent is_ip r (plain_address address) now,
              ))
        | inl f ↦
            rw (h, receive, f)
              (elim (check_in-cases (charge is_ip r (plain_address address) now).0 message
                (plain_address address) address port now) [
                  | inl (why, e) ↦ rw (e) (
                      inl (
                        charge-pins is_ip r (plain_address address) now,
                        charge-sent is_ip r (plain_address address) now,
                      ))
                  | inr (q, e) ↦ inr (charge-Proved r message (plain_address address) now q)
                ])
      ]

  -- A STUN datagram of a sender with a pin of a registration is not sent on, unless it is signed with
  -- the password that its kind asks for; a request has to name both sides besides.
  pub receive-pinned_stun :
      (r : Relay) (byte : ℕ) (rest : Bytes) (address : Text) (port now : ℕ) (p : Pin)
      (x : Registration)
      → get (pin_key (plain_address address) port) r.pins ≡ some p
      → get p.stream_id r.registrations ≡ some x
      → datagram_class byte ≡ some stun
      → Ignored r (receive is_ip hmac r (byte ∷ rest) address port now)
        ⊎ Answered hmac x (byte ∷ rest)
  unfolding receive from_pinned
  receive-pinned_stun r byte rest address port now p x h l c =
      elim (Option-cases (refuse_stun hmac r x (byte ∷ rest))) [
        | inl e ↦ inr (refuse_stun-none hmac r x (byte ∷ rest) e)
        | inr (why, e) ↦ rw (h, receive, l, from_pinned, c, e) (inl (refl, refl))
      ]
