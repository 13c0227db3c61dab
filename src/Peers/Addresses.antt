-- ===== src/Peers/Addresses.antt =====
-- apps/server/src/peer-network.mjs: addresses, their numbers and their groups. `is_ip` is `isIP` of
-- Node's net module, which answers 4, 6 or 0; an address that it accepts is ASCII.
use Prim.Native.Nat.{bit_or}
use vidvnc.Base.{
  ℕ, zero, suc, ◌+◌, ◌-◌, ◌*◌, ◌/◌, ◌^◌, Bool, false, not, ◌&&◌, ◌||◌, Option, none, some, List, [],
  ◌∷◌, ◌++◌, map, Text, codes, same, leb, ◌==◌, length, take, any, if◌then◌else◌, split_on, before,
  join,
}
use vidvnc.Grants.Cookies.{normalize_peer}

-- `plainAddress`: no zone, and IPv4 where it is mapped into IPv6.
unfoldable pub plain_address : Text → Text
unfolding before normalize_peer
plain_address address = normalize_peer (before b'%' address)

-- `toLowerCase` on ASCII
abbrev pub lower : ℕ → ℕ
lower c = if leb b'A' c && leb c b'Z' then c + 32 else c

-- The parts of `split('::')`: the first, and the second where there is one.
unfoldable pub head_part : Text → Text
head_part [] = []
head_part (c ∷ []) = c ∷ []
head_part (c ∷ d ∷ s) = if c == b':' && d == b':' then [] else c ∷ head_part (d ∷ s)

unfoldable pub after_head : Text → Option Text
after_head [] = none
after_head (c ∷ []) = none
after_head (c ∷ d ∷ s) = if c == b':' && d == b':' then some s else after_head (d ∷ s)

-- `part ? part.split(':') : []`
unfoldable pub words_of : Text → List Text
unfolding split_on
words_of [] = []
words_of (c ∷ s) = split_on b':' (c ∷ s)

abbrev pub zeros : ℕ → List Text
zeros zero = []
zeros (suc n) = codes "0" ∷ zeros n

-- The words of an IPv6 address, with the zeros that `::` stands for.
unfoldable pub words : Text → List Text
unfolding head_part after_head words_of
words address =
    let left = words_of (head_part address) in
    elim (after_head address) [
      | none ↦ left
      | some rest ↦
          let right = words_of (head_part rest) in
          left ++ (zeros (8 - length left - length right) ++ right)
    ]

abbrev digit_value : ℕ → ℕ
digit_value c = if leb b'a' c then c - 87 else c - 48

-- `word.replace(/^0+(?=.)/, '')`
unfoldable pub strip_zeros : Text → Text
strip_zeros [] = []
strip_zeros (c ∷ []) = c ∷ []
strip_zeros (c ∷ d ∷ s) = if c == b'0' then strip_zeros (d ∷ s) else c ∷ d ∷ s

-- A number in some base, of digits that are valid in it.
abbrev pub number : (base : ℕ) → ℕ → Text → ℕ
number base n [] = n
number base n (c ∷ s) = number base (n * base + digit_value c) s

-- `parts.reduce((n, part) => (n << k) | value(part), 0)` with `size` for 2 to the k
abbrev pub packed : (size : ℕ) → (Text → ℕ) → ℕ → List Text → ℕ
packed size value n [] = n
packed size value n (p ∷ ps) = packed size value (bit_or (n * size) (value p)) ps

pub record Bits : Type 0 where
  pub family : ℕ
  pub width : ℕ
  pub value : ℕ

module _ (is_ip : Text → ℕ) where
  unfoldable pub bits : Text → Option Bits
  unfolding split_on words
  bits address =
      if is_ip address == 4
      then some (record {
        family = 4;
        width = 32;
        value = packed 256 (number 10 0) 0 (split_on b'.' address);
      })
      else if not (is_ip address == 6) || any (λ c. c == b'.') address
      then none
      else (let ws = words (map lower address) in
          if not (length ws == 8)
          then none
          else some (record { family = 6; width = 128; value = packed 65536 (number 16 0) 0 ws }))

  abbrev pub same_prefix : Bits → Bits → ℕ → Bool
  same_prefix a b prefix =
      let size = 2 ^ (a.width - prefix) in a.family == b.family && a.value / size == b.value / size

  unfoldable pub inside : Text → Text → ℕ → Bool
  unfolding bits
  inside address base prefix = elim (bits address) [
    | none ↦ false
    | some a ↦ elim (bits base) [ none ↦ false | some b ↦ same_prefix a b prefix ]
  ]

  unfoldable pub source_group : Text → Text
  unfolding plain_address words strip_zeros
  source_group address =
      let plain = plain_address address in
      if not (is_ip plain == 6)
      then (if same plain [] then address else plain)
      else join (codes ":") (map strip_zeros (take 4 (words (map lower plain)))) ++ codes "::/64"
