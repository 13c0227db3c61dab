-- ===== src/Keys/Forms.antt =====
-- What normalizing a key gives.
use vidvnc.Base.{
  ℕ, ◌≤◌, ◌≡◌, refl, sym, ap, ◌∙◌, true, false, some, [], ◌∷◌, ◌++◌, Text, ◌==◌, any, take, drop,
  trim, trim_start, is_space, arith, inl, inr, Bool-cases, All, All-append, take-append-drop, ==→≡,
  ◌⊎◌, subst,
}
use mathlib.Core.Bool.{and-eq-true_iff}
use mathlib.Core.List.{reverse, reverse_aux, reverse-reverse}
use vidvnc.Keys.Password.{
  is_symbol, code_symbols, upper, to_upper, four_symbols, skip_dash, drop_dash, is_code,
  is_valid_password_format, normalize_password,
}

abbrev Between : ℕ → Type 0
Between c = (45 ≤ c) × (c ≤ 90)

any-Between : (l : Text) (c : ℕ) → All Between l → any (λ s. c == s) l ≡ true → Between c
any-Between [] c h e = cc
any-Between (x ∷ l) c (h, hs) e = ground (arith, any-Between l c hs)

is_symbol-Between : (c : ℕ) → is_symbol c ≡ true → Between c
unfolding is_symbol
is_symbol-Between c h = any-Between code_symbols c (omega arith) h

is_symbol-dash : is_symbol 45 ≡ false
unfolding is_symbol
is_symbol-dash = refl

upper-Between : (c : ℕ) → Between c → upper c ≡ c ∷ []
unfolding upper
upper-Between c h = ground arith

is_space-Between : (c : ℕ) → Between c → is_space c ≡ false
unfolding is_space
is_space-Between c h = ground arith

to_upper_plain : (s : Text) → All Between s → to_upper s ≡ s
unfolding to_upper
to_upper_plain [] h = refl
to_upper_plain (c ∷ s) (b, h) = rw (upper-Between c b, to_upper_plain s h)

trim_start_plain : (s : Text) → All Between s → trim_start s ≡ s
unfolding trim_start
trim_start_plain [] h = refl
trim_start_plain (c ∷ s) (b, h) = rw (is_space-Between c b)

reverse_aux-Between : (s t : Text) → All Between s → All Between t → All Between (reverse_aux s t)
reverse_aux-Between [] t h k = k
reverse_aux-Between (c ∷ s) t (b, h) k = reverse_aux-Between s (c ∷ t) h (b, k)

trim_plain : (s : Text) → All Between s → trim s ≡ s
unfolding trim
trim_plain s h =
    rw (trim_start_plain s h, trim_start_plain (reverse s) (reverse_aux-Between s [] h tt))
      (reverse-reverse s)

-- A symbol, and four of them.
abbrev pub IsFour : Text → Type 0
IsFour s =
    (a b c d : ℕ) × (s ≡ a ∷ b ∷ c ∷ d ∷ [])
    × (is_symbol a ≡ true)
    × (is_symbol b ≡ true)
    × (is_symbol c ≡ true)
    × (is_symbol d ≡ true)

four_symbols-IsFour : (s : Text) → four_symbols s ≡ true → IsFour s
four_symbols-IsFour [] h = cc
four_symbols-IsFour (a ∷ []) h = cc
four_symbols-IsFour (a ∷ b ∷ []) h = cc
four_symbols-IsFour (a ∷ b ∷ c ∷ []) h = cc
four_symbols-IsFour (a ∷ b ∷ c ∷ d ∷ []) h =
    (a, b, c, d, refl, ground arith, ground arith, ground arith, ground arith)
four_symbols-IsFour (a ∷ b ∷ c ∷ d ∷ e ∷ s) h = absurd (ground arith)

-- A code in its normal form: four symbols, a dash and four symbols.
pub record IsNormal (s : Text) : Type 0 where
  pub left : Text
  pub right : Text
  pub left_four : IsFour left
  pub right_four : IsFour right
  pub whole : s ≡ left ++ b'-' ∷ right

IsFour-Between : (s : Text) → IsFour s → All Between s
IsFour-Between s (a, b, c, d, e, ha, hb, hc, hd) = subst (All Between) (sym e) (
  is_symbol-Between a ha,
  (is_symbol-Between b hb, (is_symbol-Between c hc, (is_symbol-Between d hd, tt))),
)

IsNormal-Between : (s : Text) → IsNormal s → All Between s
IsNormal-Between s n = subst (All Between) (sym n.whole) (
    All-append Between n.left (b'-' ∷ n.right) (IsFour-Between n.left n.left_four)
      (omega arith, IsFour-Between n.right n.right_four))

symbol-ne-dash : (c : ℕ) → is_symbol c ≡ true → (c == b'-') ≡ false
symbol-ne-dash c h = ground (arith, is_symbol-dash)

four_of : (s : Text) → IsFour s → four_symbols s ≡ true
four_of s (a, b, c, d, e, ha, hb, hc, hd) = rw (e, ha, hb, hc, hd)

-- The two spellings of a code.
code-forms :
    (s : Text)
    → is_code s ≡ true
    → (t u : Text) × IsFour t × IsFour u × ((s ≡ t ++ u) ⊎ (s ≡ t ++ b'-' ∷ u))
unfolding is_code
code-forms s h =
    let (left, right) = (and-eq-true_iff _ _).0 h in
    (
      take 4 s,
      skip_dash (drop 4 s),
      four_symbols-IsFour _ left,
      four_symbols-IsFour _ right,
      forms (drop 4 s) (take-append-drop 4 s),
    )
  where
    forms :
        (r : Text)
        → s ≡ take 4 s ++ r
        → (s ≡ take 4 s ++ skip_dash r) ⊎ (s ≡ take 4 s ++ b'-' ∷ skip_dash r)
    forms [] e = inl e
    forms (c ∷ r) e = elim (Bool-cases (c == b'-')) [
      | inl dash ↦ inr (rw (dash, skip_dash) (cc (e, ==→≡ c b'-' dash)))
      | inr other ↦ inl (rw (other, skip_dash) e)
    ]

-- The code that both spellings give.
normal_form :
    (s t u : Text)
    → IsFour t
    → IsFour u
    → (s ≡ t ++ u) ⊎ (s ≡ t ++ b'-' ∷ u)
    → take 4 (drop_dash s) ++ b'-' ∷ drop 4 (drop_dash s) ≡ t ++ b'-' ∷ u
normal_form s t u (a, b, c, d, e, ha, hb, hc, hd) (a', b', c', d', e', ha', hb', hc', hd') (inl h) =
    rw (
      h,
      e,
      e',
      symbol-ne-dash a ha,
      symbol-ne-dash b hb,
      symbol-ne-dash c hc,
      symbol-ne-dash d hd,
      symbol-ne-dash a' ha',
      symbol-ne-dash b' hb',
      symbol-ne-dash c' hc',
      symbol-ne-dash d' hd',
    )
normal_form s t u (a, b, c, d, e, ha, hb, hc, hd) four (inr h) =
    rw (h, e, symbol-ne-dash a ha, symbol-ne-dash b hb, symbol-ne-dash c hc, symbol-ne-dash d hd)

-- What `normalizePassword` returns is in the normal form.
pub normalize_password-IsNormal :
    (value key : Text) → normalize_password value ≡ some key → IsNormal key
unfolding normalize_password
normalize_password-IsNormal value key h = elim (Bool-cases (is_code (to_upper (trim value)))) [
  | inr e ↦ absurd (ground arith)
  | inl e ↦
      let (t, u, ft, fu, forms) = code-forms (to_upper (trim value)) e in
      record {
        left = t;
        right = u;
        left_four = ft;
        right_four = fu;
        whole = ground (arith, normal_form (to_upper (trim value)) t u ft fu forms);
      }
]

IsNormal-is_code : (s : Text) → IsNormal s → is_code s ≡ true
unfolding is_code
IsNormal-is_code s n =
    let (a, b, c, d, e, ha, hb, hc, hd) = n.left_four in
    rw (n.whole, e, ha, hb, hc, hd) (four_of n.right n.right_four)

-- A code in the normal form normalizes to itself.
pub normalize_password_normal : (key : Text) → IsNormal key → normalize_password key ≡ some key
unfolding normalize_password
normalize_password_normal key n =
    rw
      (
        trim_plain key (IsNormal-Between key n),
        to_upper_plain key (IsNormal-Between key n),
        IsNormal-is_code key n,
      )
      (ap some
        (normal_form key n.left n.right n.left_four n.right_four (inr n.whole) ∙ sym n.whole))

valid-IsNormal : (s : Text) → IsNormal s → is_valid_password_format s ≡ true
unfolding is_valid_password_format
valid-IsNormal s n =
    let (a, b, c, d, e, ha, hb, hc, hd) = n.left_four in
    rw (n.whole, e, ha, hb, hc, hd) (four_of n.right n.right_four)

-- Every key that `normalizePassword` returns has the format that `isValidPasswordFormat` accepts,
-- and normalizes to itself.
pub normalize_password-canonical :
    (value key : Text)
    → normalize_password value ≡ some key
    → (is_valid_password_format key ≡ true) × (normalize_password key ≡ some key)
normalize_password-canonical value key h =
    let n = normalize_password-IsNormal value key h in
    (valid-IsNormal key n, normalize_password_normal key n)
