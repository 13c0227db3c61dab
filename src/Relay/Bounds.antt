-- ===== src/Relay/Bounds.antt =====
-- What `parseStun` of apps/server/src/media-relay/stun.mjs accepts.
use vidvnc.Base.{
  ℕ, zero, suc, ◌+◌, ◌*◌, ◌/◌, ◌%◌, ◌≤◌, ◌≡◌, refl, subst, Bool, true, false, not, ◌&&◌, Option,
  none, some, leb, ltb, ◌==◌, length, is_some, leb→le, arith, inl, inr, Bool-cases, Option-cases,
}
use vidvnc.Relay.Stun.{
  Bytes, byte_at, read32, read16, slice, binding_request, is_known, valid_username, Seen,
  add_attribute, attribute, attributes, Stun, valid_header, valid_fingerprint, accept, parse_stun,
}

abbrev pub ValidName : Option Bytes → Type 0
ValidName none = Unit
ValidName (some u) = valid_username u ≡ true

-- An integrity check of 20 bytes stands behind the header and before the offset.
abbrev IntegrityBefore : ℕ → Option ℕ → Type 0
IntegrityBefore offset none = Unit
IntegrityBefore offset (some i) = (20 ≤ i) × (i + 24 ≤ offset)

-- A fingerprint stands at the very end.
abbrev pub FingerprintLast : Bytes → Option ℕ → Type 0
FingerprintLast b none = Unit
FingerprintLast b (some f) = f + 8 ≡ length b

record InOrder (b : Bytes) (offset : ℕ) (seen : Seen) : Type 0 where
  name : ValidName seen.username
  check : IntegrityBefore offset seen.integrity
  last : FingerprintLast b seen.fingerprint

IntegrityBefore-le : (o p : ℕ) (i : Option ℕ) → o ≤ p → IntegrityBefore o i → IntegrityBefore p i
IntegrityBefore-le o p none h k = tt
IntegrityBefore-le o p (some i) h (a, c) = (a, omega arith)

add_attribute-InOrder :
    (b : Bytes) (seen seen' : Seen) (kind size offset : ℕ) (value : Bytes)
    → 20 ≤ offset
    → InOrder b offset seen
    → add_attribute seen kind size offset (offset + 4 + (size + 3) / 4 * 4 == length b) value
      ≡ some seen'
    → InOrder b (offset + 4 + (size + 3) / 4 * 4) seen'
unfolding add_attribute
add_attribute-InOrder b seen seen' kind size offset value low v h =
    let check =
      IntegrityBefore-le offset (offset + 4 + (size + 3) / 4 * 4) seen.integrity (omega arith)
        v.check in
    elim (Bool-cases (kind == 0x0006)) [
      | inl a ↦ ground (arith, check)
      | inr a ↦ elim (Bool-cases (kind == 0x0008)) [
        | inl c ↦ ground (arith, check)
        | inr c ↦ elim (Bool-cases (kind == 0x001c)) [
          | inl d ↦ ground (arith, check)
          | inr d ↦ ground (arith, check)
        ]
      ]
    ]

attribute-InOrder :
    (b : Bytes) (offset next : ℕ) (seen seen' : Seen)
    → 20 ≤ offset
    → InOrder b offset seen
    → attribute b offset seen ≡ some (next, seen')
    → InOrder b next seen' × (offset ≤ next) × (next ≤ length b)
unfolding attribute
attribute-InOrder b offset next seen seen' low v h =
    let size = read16 b (offset + 2) in
    let kind = read16 b offset in
    let far = offset + 4 + (size + 3) / 4 * 4 in
    elim (Option-cases (
      add_attribute seen kind size offset (far == length b)
        (slice b (offset + 4) (offset + 4 + size)))) [
          | inl e ↦ absurd (ground arith)
          | inr (s, e) ↦
              let kept =
                add_attribute-InOrder b seen s kind size offset
                  (slice b (offset + 4) (offset + 4 + size)) low v e in
              let here : far ≡ next = ground (arith, e) in
              let same_seen : s ≡ seen' = ground (arith, e) in
              (
                subst (InOrder b next) same_seen (subst (λ o. InOrder b o s) here kept),
                omega (arith, here),
                ground (arith, e),
              )
        ]

attributes-InOrder :
    (left : ℕ) (b : Bytes) (offset : ℕ) (seen seen' : Seen)
    → 20 ≤ offset
    → offset ≤ length b
    → InOrder b offset seen
    → attributes left b offset seen ≡ some seen'
    → InOrder b (length b) seen'
unfolding attributes
attributes-InOrder zero b offset seen seen' low high v h =
    let end : offset ≡ length b = ground arith in
    let same_seen : seen ≡ seen' = ground arith in
    subst (InOrder b (length b)) same_seen (subst (λ o. InOrder b o seen) end v)
attributes-InOrder (suc left) b offset seen seen' low high v h =
    elim (Bool-cases (ltb offset (length b))) [
      | inr e ↦
          let end : offset ≡ length b = ground arith in
          let same_seen : seen ≡ seen' = ground arith in
          subst (InOrder b (length b)) same_seen (subst (λ o. InOrder b o seen) end v)
      | inl e ↦ elim (Option-cases (attribute b offset seen)) [
        | inl n ↦ absurd (ground (arith, n))
        | inr ((next, s), n) ↦
            let (kept, more, within) = attribute-InOrder b offset next seen s low v n in
            attributes-InOrder left b next s seen' (omega arith) within kept (ground (arith, n))
      ]
    ]

-- What `accept` has checked.
accept-some :
    (b : Bytes) (seen : Seen) (m : Stun)
    → accept b seen ≡ some m
    → (seen.integrity ≡ some m.integrity_offset)
      × (seen.username ≡ m.username)
      × (seen.fingerprint ≡ m.fingerprint_offset)
      × (read16 b 0 ≡ m.kind)
      × (read16 b 0 == binding_request && not (is_some m.username) ≡ false)
unfolding accept
accept-some b seen m h = elim (Option-cases seen.integrity) [
  | inl e ↦ absurd (ground arith)
  | inr (i, e) ↦ elim (Bool-cases (read16 b 0 == binding_request && not (is_some seen.username))) [
    | inl q ↦ absurd (ground arith)
    | inr q ↦ elim (Bool-cases (valid_fingerprint b seen.fingerprint)) [
      | inr f ↦ absurd (ground arith)
      | inl f ↦
          let made : Stun = record {
            kind = read16 b 0;
            transaction_id = slice b 8 20;
            username = seen.username;
            integrity_offset = i;
            fingerprint_offset = seen.fingerprint;
          } in
          let here : accept b seen ≡ some made = rw (e, accept, q, f) in
          let one : made ≡ m = cc in
          subst
            (λ (x : Stun).
              (seen.integrity ≡ some x.integrity_offset)
              × (seen.username ≡ x.username)
              × (seen.fingerprint ≡ x.fingerprint_offset)
              × (read16 b 0 ≡ x.kind)
              × (read16 b 0 == binding_request && not (is_some x.username) ≡ false))
            one (e, refl, refl, refl, q)
    ]
  ]
]

all_seven :
    (a b c d e f g : Bool)
    → a && b && c && d && e && f && g ≡ true
    → (a ≡ true) × (b ≡ true) × (d ≡ true)
all_seven a b c d e f g h = ground arith

header_facts :
    (b : Bytes)
    → valid_header b ≡ true
    → (20 ≤ length b) × (length b ≤ 1280) × (is_known (read16 b 0) ≡ true)
header_facts b h =
    let (low, high, known) =
      all_seven (leb 20 (length b)) (leb (length b) 1280) (ltb (byte_at b 0) 64)
        (is_known (read16 b 0)) (read16 b 2 % 4 == 0) (read16 b 2 + 20 == length b)
        (read32 b 4 == 0x2112a442) h in
    (leb→le 20 (length b) low, leb→le (length b) 1280 high, known)

-- A message that `parseStun` accepts is a Binding request or response of 1280 bytes at most. Its
-- integrity check lies inside it, behind the header; a fingerprint is its last attribute; a username
-- is well formed, and a request has one.
pub parse_stun_bounds :
    (b : Bytes) (m : Stun)
    → parse_stun b ≡ some m
    → (is_known m.kind ≡ true)
      × (length b ≤ 1280)
      × (20 ≤ m.integrity_offset)
      × (m.integrity_offset + 24 ≤ length b)
      × FingerprintLast b m.fingerprint_offset
      × ValidName m.username
      × (m.kind == binding_request && not (is_some m.username) ≡ false)
unfolding parse_stun
parse_stun_bounds b m h = elim (Bool-cases (valid_header b)) [
  | inr e ↦ absurd (ground (arith, e))
  | inl e ↦
      let (least, most, known) = header_facts b e in
      let start : Seen = record {
        username = none;
        integrity = none;
        fingerprint = none;
        sha256 = false;
      } in
      elim (Option-cases (attributes 32 b 20 start)) [
        | inl n ↦ absurd (cc ((rw (e, parse_stun, n) at h)))
        | inr (seen, n) ↦
            let taken : accept b seen ≡ some m = rw (e, parse_stun, n) at h in
            let (check, name, last, kind, named) = accept-some b seen m taken in
            let v =
              attributes-InOrder 32 b 20 start seen (omega arith) least
                (record { name = tt; check = tt; last = tt }) n in
            let (low, high) = subst (IntegrityBefore (length b)) check v.check in
            (
              subst (λ k. is_known k ≡ true) kind known,
              most,
              low,
              high,
              subst (FingerprintLast b) last v.last,
              subst ValidName name v.name,
              subst (λ k. k == binding_request && not (is_some m.username) ≡ false) kind named,
            )
      ]
]
