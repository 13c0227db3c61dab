-- ===== src/Peers/Ranges.antt =====
-- The internet clients by the numbers of their IPv4 addresses (apps/server/src/peer-network.mjs).
use vidvnc.Base.{
  ℕ, ◌+◌, ◌-◌, ◌*◌, ◌/◌, ◌^◌, ◌≡◌, refl, ap, ◌∙◌, Bool, true, false, not, ◌&&◌, ◌||◌, Option, none,
  some, List, [], ◌∷◌, Text, codes, map, leb, ◌==◌, any, length, split_on, arith, inl, inr,
  Bool-cases, Option-cases,
}
use vidvnc.Peers.Addresses.{plain_address, Bits, bits, number, packed, inside, words, lower}
use vidvnc.Peers.Network.{
  Row, private_ranges, cgnat, is_in, is_private_address, cgnat_adapter, on_link_ipv6, is_on_link,
  is_internet, rows_of,
}
use vidvnc.Peers.Forms.{plain_address_idempotent}

-- The number of a dotted address.
abbrev pub v4_number : Text → ℕ
v4_number address = packed 256 (number 10 0) 0 (split_on b'.' address)

abbrev pub v4 : (a b c d : ℕ) → ℕ
v4 a b c d = ((a * 256 + b) * 256 + c) * 256 + d

abbrev between : ℕ → ℕ → ℕ → Bool
between lo hi n = leb lo n && leb n hi

-- RFC 1918, loopback and link-local
abbrev pub private_v4 : ℕ → Bool
private_v4 n =
    between (v4 10 0 0 0) (v4 10 255 255 255) n
    || (between (v4 172 16 0 0) (v4 172 31 255 255) n
        || (between (v4 192 168 0 0) (v4 192 168 255 255) n
            || (between (v4 127 0 0 0) (v4 127 255 255 255) n
                || between (v4 169 254 0 0) (v4 169 254 255 255) n)))

-- 100.64.0.0 to 100.127.255.255
abbrev pub shared_v4 : ℕ → Bool
shared_v4 = between (v4 100 64 0 0) (v4 100 127 255 255)

-- What `isIP` says of the constants of the source.
pub record KnowsRanges (is_ip : Text → ℕ) : Type 0 where
  pub ten : is_ip (codes "10.0.0.0") ≡ 4
  pub twelve : is_ip (codes "172.16.0.0") ≡ 4
  pub sixteen : is_ip (codes "192.168.0.0") ≡ 4
  pub loopback : is_ip (codes "127.0.0.0") ≡ 4
  pub link_local : is_ip (codes "169.254.0.0") ≡ 4
  pub shared : is_ip (codes "100.64.0.0") ≡ 4
  pub loopback_v6 : is_ip (codes "::1") ≡ 6
  pub link_local_v6 : is_ip (codes "fe80::") ≡ 6
  pub local_v6 : is_ip (codes "fc00::") ≡ 6

module _ (is_ip : Text → ℕ) where
  bits-v4 :
      (a : Text)
      → is_ip a ≡ 4
      → bits is_ip a ≡ some (record { family = 4; width = 32; value = v4_number a })
  unfolding bits
  bits-v4 a h = rw (h, bits)

  inside-v4 :
      (a b : Text) (p : ℕ)
      → is_ip a ≡ 4
      → is_ip b ≡ 4
      → inside is_ip a b p ≡ (v4_number a / 2 ^ (32 - p) == v4_number b / 2 ^ (32 - p))
  unfolding inside
  inside-v4 a b p h k = rw (bits-v4 a h, inside, bits-v4 b k)

  bits-v6 : (b : Text) (x : Bits) → is_ip b ≡ 6 → bits is_ip b ≡ some x → x.family ≡ 6
  unfolding bits
  bits-v6 b x h e = elim (Bool-cases (any (λ c. c == b'.') b)) [
    | inl d ↦ let none_here : bits is_ip b ≡ none = rw (h, bits, d) in absurd (cc)
    | inr d ↦ elim (Bool-cases (length (words (map lower b)) == 8)) [
      | inl l ↦
          let here : bits is_ip b
              ≡ some (record {
                family = 6;
                width = 128;
                value = packed 65536 (number 16 0) 0 (words (map lower b));
              }) =
            rw (h, bits, d, l) in
          cc
      | inr l ↦ let none_here : bits is_ip b ≡ none = rw (h, bits, d, l) in absurd (cc)
    ]
  ]

  inside_mixed : (a b : Text) (p : ℕ) → is_ip a ≡ 4 → is_ip b ≡ 6 → inside is_ip a b p ≡ false
  unfolding inside
  inside_mixed a b p h k = elim (Option-cases (bits is_ip b)) [
    | inl e ↦ rw (bits-v4 a h, inside, e)
    | inr (x, e) ↦ rw (bits-v4 a h, inside, e, bits-v6 b x k e)
  ]

div_ten : (n : ℕ) → (n / 2 ^ 24 == 10) ≡ between (v4 10 0 0 0) (v4 10 255 255 255) n
div_ten n = ground arith

div_shared : (n : ℕ) → (n / 2 ^ 22 == 401) ≡ shared_v4 n
div_shared n = ground arith

div_twelve : (n : ℕ) → (n / 2 ^ 20 == 2753) ≡ between (v4 172 16 0 0) (v4 172 31 255 255) n
div_twelve n = ground arith

div_sixteen : (n : ℕ) → (n / 2 ^ 16 == 49320) ≡ between (v4 192 168 0 0) (v4 192 168 255 255) n
div_sixteen n = ground arith

div_loopback : (n : ℕ) → (n / 2 ^ 24 == 127) ≡ between (v4 127 0 0 0) (v4 127 255 255 255) n
div_loopback n = ground arith

div_link_local : (n : ℕ) → (n / 2 ^ 16 == 43518) ≡ between (v4 169 254 0 0) (v4 169 254 255 255) n
div_link_local n = ground arith

disjoint : (n : ℕ) → shared_v4 n ≡ true → private_v4 n ≡ false
disjoint n h = ground arith

regroup :
    (a b c d e f : Bool)
    → (a || (b || (c || (d || (e || (f || false)))))) ≡ (a || (b || (c || (d || e)))) || f
regroup true b c d e f = refl
regroup false true c d e f = refl
regroup false false true d e f = refl
regroup false false false true e f = refl
regroup false false false false true f = refl
regroup false false false false false true = refl
regroup false false false false false false = refl

module _ (is_ip : Text → ℕ) (k : KnowsRanges is_ip) where
  in_shared : (a : Text) → is_ip a ≡ 4 → is_in is_ip a cgnat ≡ shared_v4 (v4_number a)
  unfolding split_on
  in_shared a h = inside-v4 is_ip a (codes "100.64.0.0") 10 h k.shared ∙ div_shared (v4_number a)

  -- The nine ranges of PRIVATE, for an IPv4 address.
  in_private :
      (a : Text)
      → is_ip a ≡ 4
      → any (is_in is_ip a) private_ranges ≡ private_v4 (v4_number a) || shared_v4 (v4_number a)
  unfolding split_on
  in_private a h =
      let ten = inside-v4 is_ip a (codes "10.0.0.0") 8 h k.ten ∙ div_ten (v4_number a) in
      let twelve =
        inside-v4 is_ip a (codes "172.16.0.0") 12 h k.twelve ∙ div_twelve (v4_number a) in
      let sixteen =
        inside-v4 is_ip a (codes "192.168.0.0") 16 h k.sixteen ∙ div_sixteen (v4_number a) in
      let loopback =
        inside-v4 is_ip a (codes "127.0.0.0") 8 h k.loopback ∙ div_loopback (v4_number a) in
      let link_local =
        inside-v4 is_ip a (codes "169.254.0.0") 16 h k.link_local ∙ div_link_local (v4_number a) in
      let one = inside_mixed is_ip a (codes "::1") 128 h k.loopback_v6 in
      let two = inside_mixed is_ip a (codes "fe80::") 10 h k.link_local_v6 in
      let three = inside_mixed is_ip a (codes "fc00::") 7 h k.local_v6 in
      rw (ten, twelve, sixteen, loopback, link_local, in_shared a h, one, two, three)
        (regroup (between (v4 10 0 0 0) (v4 10 255 255 255) (v4_number a))
          (between (v4 172 16 0 0) (v4 172 31 255 255) (v4_number a))
          (between (v4 192 168 0 0) (v4 192 168 255 255) (v4_number a))
          (between (v4 127 0 0 0) (v4 127 255 255 255) (v4_number a))
          (between (v4 169 254 0 0) (v4 169 254 255 255) (v4_number a)) (shared_v4 (v4_number a)))

  no_link : (a : Text) (rows : List Row) → is_ip a ≡ 4 → any (is_on_link is_ip a) rows ≡ false
  no_link a [] h = refl
  no_link a (r ∷ rows) h = elim (Option-cases r.cidr) [
    | inl e ↦ ground (arith, no_link a rows h)
    | inr (c, e) ↦ ground (arith, no_link a rows h)
  ]

  off_link :
      (plain : Text) (rows : Option (List Row))
      → is_ip plain ≡ 4
      → on_link_ipv6 is_ip rows plain ≡ false
  unfolding on_link_ipv6
  off_link plain rows h = no_link plain (rows_of rows) h

  private_address :
      (address : Text)
      → is_ip (plain_address address) ≡ 4
      → is_private_address is_ip (plain_address address)
        ≡ private_v4 (v4_number (plain_address address))
          || shared_v4 (v4_number (plain_address address))
  unfolding is_private_address
  private_address address h =
      ap (λ p. any (is_in is_ip p) private_ranges) (plain_address_idempotent address)
      ∙ in_private (plain_address address) h

  -- An IPv4 client counts as local exactly when its number is in a private range, or in the shared
  -- range 100.64.0.0/10 while an adapter of the PC is in that range too.
  pub is_internet-v4 :
      (rows : Option (List Row)) (address : Text)
      → is_ip (plain_address address) ≡ 4
      → is_internet is_ip rows address
        ≡ not (
            private_v4 (v4_number (plain_address address))
            || (shared_v4 (v4_number (plain_address address)) && cgnat_adapter is_ip rows))
  unfolding is_internet
  is_internet-v4 rows address h =
      let plain = plain_address address in
      let n = v4_number plain in
      let off = off_link plain rows h in
      let shared = in_shared plain h in
      let private = private_address address h in
      elim (Bool-cases (shared_v4 n)) [
        | inl e ↦ rw (h, is_internet, shared, e, disjoint n e) refl
        | inr e ↦ elim (Bool-cases (private_v4 n)) [
          | inl q ↦ rw (h, is_internet, shared, e, private, off, e, q)
          | inr q ↦ rw (h, is_internet, shared, e, private, off, e, q)
        ]
      ]
