-- ===== src/Scope/Nested.antt =====
-- Networks within networks (apps/server/src/local-session-scope.mjs).
use native.Mathlib.Nat.{div-div-eq-div-mul, pow-suc}
use vidvnc.Base.{
  ℕ, zero, suc, ◌+◌, ◌-◌, ◌*◌, ◌/◌, ◌^◌, ◌≤◌, ◌≡◌, sym, ap, ◌∙◌, subst, Bool, true, ◌&&◌, Option,
  none, some, Text, leb, ◌==◌, if◌then◌else◌, arith, inl, inr, Option-cases,
}
use vidvnc.Peers.Addresses.{Bits, bits}
use vidvnc.Scope.Networks.{Network, contains, ip_bits, network}
use vidvnc.Scope.Sessions.{host}

abbrev width_of : ℕ → ℕ
width_of family = if family == 4 then 32 else 128

pub record IsSound (n : Network) : Type 0 where
  pub width_known : n.width ≡ width_of n.family
  pub prefix_fits : n.prefix_length ≤ n.width

module _ (is_ip : Text → ℕ) where
  bits-width : (a : Text) (b : Bits) → bits is_ip a ≡ some b → b.width ≡ width_of b.family
  unfolding bits
  bits-width a b h = ground arith

  ip_bits-width : (a : Text) (b : Bits) → ip_bits is_ip a ≡ some b → b.width ≡ width_of b.family
  unfolding ip_bits
  ip_bits-width a b h = ground (arith, bits-width a b)

  pub network-IsSound :
      (a : Text) (p : Option ℕ) (n : Network) → network is_ip a p ≡ some n → IsSound n
  unfolding network
  network-IsSound a none n h = cc
  network-IsSound a (some p) n h = elim (Option-cases (ip_bits is_ip a)) [
    | inl e ↦ absurd (ground (arith, e))
    | inr (b, e) ↦
        let law = ip_bits-width a b e in
        record { width_known = ground (arith, e, law); prefix_fits = ground (arith, e) }
  ]

  pub host-IsSound : (peer : Text) (n : Network) → host is_ip peer ≡ some n → IsSound n
  host-IsSound peer n h = elim (Option-cases (ip_bits is_ip peer)) [
    | inl e ↦ absurd (ground (arith, e))
    | inr (b, e) ↦
        let law = ip_bits-width peer b e in
        record { width_known = ground (arith, e, law); prefix_fits = ground (arith, e) }
  ]

add_zero : (m : ℕ) → m + 0 ≡ m
add_zero m = omega arith

add_suc : (m n : ℕ) → m + suc n ≡ suc (m + n)
add_suc m n = omega arith

mul_one : (m : ℕ) → m * 1 ≡ m
mul_one m = omega arith

mul_two : (m n : ℕ) → m * n * 2 ≡ m * (n * 2)
mul_two m n = grind arith

pow-add : (m n : ℕ) → 2 ^ (m + n) ≡ 2 ^ m * 2 ^ n
pow-add m zero = ap (λ k. 2 ^ k) (add_zero m) ∙ sym (mul_one (2 ^ m))
pow-add m (suc n) =
    ap (λ k. 2 ^ k) (add_suc m n)
    ∙ pow-suc 2 (m + n)
    ∙ ap (λ x. x * 2) (pow-add m n)
    ∙ mul_two (2 ^ m) (2 ^ n)
    ∙ ap (λ x. 2 ^ m * x) (sym (pow-suc 2 n))

-- What agrees after a shift agrees after a longer one.
shift_more :
    (m n w p q : ℕ)
    → p ≤ q
    → q ≤ w
    → m / 2 ^ (w - q) ≡ n / 2 ^ (w - q)
    → m / 2 ^ (w - p) ≡ n / 2 ^ (w - p)
shift_more m n w p q pq qw h =
    let split : 2 ^ (w - p) ≡ 2 ^ (w - q) * 2 ^ (q - p) =
      ap (λ k. 2 ^ k) (omega arith) ∙ pow-add (w - q) (q - p) in
    ap (λ d. m / d) split
    ∙ sym (div-div-eq-div-mul m (2 ^ (w - q)) (2 ^ (q - p)))
    ∙ ap (λ x. x / 2 ^ (q - p)) h
    ∙ div-div-eq-div-mul n (2 ^ (w - q)) (2 ^ (q - p))
    ∙ ap (λ d. n / d) (sym split)

joined : (x y z : Bool) → x ≡ true → y ≡ true → z ≡ true → (x && (y && z)) ≡ true
joined x y z h k l = ground arith

pub contains_trans :
    (a b c : Network)
    → IsSound a
    → IsSound b
    → contains a b ≡ true
    → contains b c ≡ true
    → contains a c ≡ true
contains_trans a b c sa sb h k =
    let wa = sa.width_known in
    let wb = sb.width_known in
    let fits = sb.prefix_fits in
    let family : a.family ≡ c.family = ground arith in
    let width : b.width ≡ a.width = ground arith in
    let ordered : a.prefix_length ≤ b.prefix_length = ground arith in
    let longer : b.prefix_length ≤ c.prefix_length = ground arith in
    let near : c.base / 2 ^ (b.width - b.prefix_length) ≡ b.base / 2 ^ (b.width - b.prefix_length) =
      ground arith in
    let far : b.base / 2 ^ (a.width - a.prefix_length) ≡ a.base / 2 ^ (a.width - a.prefix_length) =
      ground arith in
    let shifted =
      shift_more c.base b.base b.width a.prefix_length b.prefix_length ordered fits near in
    let whole : c.base / 2 ^ (a.width - a.prefix_length)
        ≡ a.base / 2 ^ (a.width - a.prefix_length) =
      subst (λ w. c.base / 2 ^ (w - a.prefix_length) ≡ b.base / 2 ^ (w - a.prefix_length)) width
        shifted
      ∙ far in
    joined (a.family == c.family) (leb a.prefix_length c.prefix_length)
      (c.base / 2 ^ (a.width - a.prefix_length) == a.base / 2 ^ (a.width - a.prefix_length))
      (ground arith) (ground arith) (ground (arith, whole))
