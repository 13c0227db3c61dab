-- ===== src/Relay/Stun.antt =====
-- apps/server/src/media-relay/stun.mjs: the checks of the STUN messages of senders that have not proved
-- anything yet. A buffer is the list of its bytes; `hmac` is HMAC-SHA1 of a key and a text.
use Prim.Native.Nat.{bit_and, bit_xor}
use vidvnc.Base.{
  ℕ, zero, suc, ◌+◌, ◌-◌, ◌*◌, ◌/◌, ◌%◌, Bool, true, false, not, ◌&&◌, ◌||◌, Option, none, some,
  List, [], ◌∷◌, ◌++◌, Text, leb, ltb, ◌==◌, length, get_elem?, take, drop, keep, all, is_some,
  if◌then◌else◌, same, before,
}

abbrev pub Bytes : Type 0
Bytes = List ℕ

abbrev pub byte_at : Bytes → ℕ → ℕ
byte_at b i = elim (get_elem? b i) [ none ↦ 0 | some c ↦ c ]

-- `readUInt16BE` and `readUInt32BE`
abbrev pub read16 : Bytes → ℕ → ℕ
read16 b i = byte_at b i * 256 + byte_at b (i + 1)

abbrev pub read32 : Bytes → ℕ → ℕ
read32 b i = read16 b i * 65536 + read16 b (i + 2)

-- `subarray(from, to)`
abbrev pub slice : Bytes → (from to : ℕ) → Bytes
slice b from to = take (to - from) (drop from b)

-- TYPES
abbrev pub binding_request : ℕ
binding_request = 0x0001

abbrev pub binding_success : ℕ
binding_success = 0x0101

abbrev pub binding_error : ℕ
binding_error = 0x0111

abbrev pub is_known : ℕ → Bool
is_known t = t == binding_request || (t == binding_success || t == binding_error)

-- The rounds of an entry of CRC_TABLE.
unfoldable pub crc_entry : ℕ → ℕ → ℕ
crc_entry zero c = c
crc_entry (suc k) c = crc_entry k (if c % 2 == 1 then bit_xor 0xedb88320 (c / 2) else c / 2)

-- The loop of `crc32`, on 32-bit patterns.
unfoldable pub crc_bytes : ℕ → Bytes → ℕ
unfolding crc_entry
crc_bytes crc [] = crc
crc_bytes crc (b ∷ bytes) =
    crc_bytes (bit_xor (crc_entry 8 (bit_and (bit_xor crc b) 0xff)) (crc / 256)) bytes

unfoldable pub crc32 : Bytes → ℕ
unfolding crc_bytes
crc32 bytes = bit_xor (crc_bytes 0xffffffff bytes) 0xffffffff

unfoldable pub valid_username : Bytes → Bool
valid_username bytes =
    leb 3 (length bytes)
    && leb (length bytes) 512
    && all (λ c. leb 0x21 c && leb c 0x7e) bytes
    && length (keep (λ c. c == 0x3a) bytes) == 1

-- What the loop of `parseStun` has seen; an offset of -1 is `none`.
pub record Seen : Type 0 where
  pub username : Option Bytes
  pub integrity : Option ℕ
  pub fingerprint : Option ℕ
  pub sha256 : Bool

-- What an attribute adds, once its place in the message is in order.
unfoldable pub add_attribute :
    Seen → (kind size offset : ℕ) (last : Bool) (value : Bytes) → Option Seen
unfolding valid_username
add_attribute seen kind size offset last value =
    if kind == 0x0006
    then (if is_some seen.username || not (valid_username value)
        then none
        else some (record seen { username = some value }))
    else if kind == 0x0008
    then (if is_some seen.integrity || not (size == 20)
        then none
        else some (record seen { integrity = some offset }))
    else if kind == 0x001c
    then (if not (is_some seen.integrity)
          || seen.sha256
          || ltb size 16
          || ltb 32 size
          || not (size % 4 == 0)
        then none
        else some (record seen { sha256 = true }))
    else if kind == 0x8028
    then (if not (size == 4) || not last
        then none
        else some (record seen { fingerprint = some offset }))
    else some seen

-- The attribute at an offset: where the next one stands, and what has been seen then.
unfoldable pub attribute : Bytes → ℕ → Seen → Option (ℕ × Seen)
unfolding add_attribute
attribute b offset seen =
    let kind = read16 b offset in
    let size = read16 b (offset + 2) in
    let next = offset + 4 + (size + 3) / 4 * 4 in
    if ltb (length b) (offset + 4)
    then none
    else if ltb (length b) next
    then none
    else if is_some seen.fingerprint
    then none
    else if is_some seen.integrity && not (kind == 0x8028) && not (kind == 0x001c)
    then none
    else (elim (add_attribute seen kind size offset (next == length b)
        (slice b (offset + 4) (offset + 4 + size))) [
          | none ↦ none
          | some seen' ↦ some (next, seen')
        ])

-- The loop, with the number of attributes that it still accepts.
unfoldable pub attributes : ℕ → Bytes → ℕ → Seen → Option Seen
unfolding attribute
attributes zero b offset seen = if ltb offset (length b) then none else some seen
attributes (suc left) b offset seen =
    if ltb offset (length b)
    then (elim (attribute b offset seen) [
      | none ↦ none
      | some (next, seen') ↦ attributes left b next seen'
    ])
    else some seen

pub record Stun : Type 0 where
  pub kind : ℕ
  pub transaction_id : Bytes
  pub username : Option Bytes
  pub integrity_offset : ℕ
  pub fingerprint_offset : Option ℕ

abbrev pub valid_header : Bytes → Bool
valid_header b =
    leb 20 (length b)
    && leb (length b) 1280
    && ltb (byte_at b 0) 64
    && is_known (read16 b 0)
    && read16 b 2 % 4 == 0
    && read16 b 2 + 20 == length b
    && read32 b 4 == 0x2112a442

abbrev pub valid_fingerprint : Bytes → Option ℕ → Bool
valid_fingerprint b none = true
valid_fingerprint b (some offset) =
    read32 b (offset + 4) == bit_xor (crc32 (take offset b)) 0x5354554e

-- What `parseStun` makes of the attributes.
unfoldable pub accept : Bytes → Seen → Option Stun
unfolding crc32
accept b seen = elim seen.integrity [
  | none ↦ none
  | some i ↦
      if read16 b 0 == binding_request && not (is_some seen.username)
      then none
      else if not (valid_fingerprint b seen.fingerprint)
      then none
      else some (record {
        kind = read16 b 0;
        transaction_id = slice b 8 20;
        username = seen.username;
        integrity_offset = i;
        fingerprint_offset = seen.fingerprint;
      })
]

unfoldable pub parse_stun : Bytes → Option Stun
unfolding attributes accept
parse_stun b =
    if not (valid_header b)
    then none
    else (elim (attributes 32 b 20
        (record { username = none; integrity = none; fingerprint = none; sha256 = false })) [
          | none ↦ none
          | some seen ↦ accept b seen
        ])

-- The bytes under the integrity check, whose length field counts up to the check's end.
abbrev pub signed_bytes : Bytes → ℕ → Bytes
signed_bytes b end = take 2 b ++ (((end + 4) / 256 % 256) ∷ ((end + 4) % 256) ∷ slice b 4 end)

module _ (hmac : Text → Bytes → Bytes) where
  unfoldable pub verify_integrity : Bytes → Stun → Text → Bool
  verify_integrity b parsed password =
      let end = parsed.integrity_offset in
      not (length password == 0)
      && same (hmac password (signed_bytes b end)) (slice b (end + 4) (end + 24))

-- `receiverUfrag`
abbrev pub receiver_ufrag : Stun → Option Text
receiver_ufrag parsed = elim parsed.username [ none ↦ none | some u ↦ some (before b':' u) ]
