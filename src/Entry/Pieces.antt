-- ===== src/Entry/Pieces.antt =====
-- Pieces of the symbols that are typed (apps/web-client/src/password-entry.js).
use vidvnc.Base.{
  ℕ, zero, suc, ◌-◌, ◌≤◌, ◌≡◌, refl, ap, ◌∙◌, List, [], ◌∷◌, ◌++◌, Text, length, take, drop, arith,
}
use vidvnc.Entry.Symbols.{symbols_in}

pub symbols_in-append : (s t : Text) → symbols_in (s ++ t) ≡ symbols_in s ++ symbols_in t
unfolding symbols_in
symbols_in-append [] t = refl
symbols_in-append (c ∷ s) t = ground (arith, symbols_in-append s t)

less_one : (n m : ℕ) → n - m ≡ suc n - suc m
less_one n m = omega arith

same_n : (n : ℕ) → n ≡ n - 0
same_n n = omega arith

module _ {ℓ} {A : Type ℓ} where
  pub take_more :
      (xs ys : List A) (n : ℕ) → length xs ≤ n → take n (xs ++ ys) ≡ xs ++ take (n - length xs) ys
  take_more [] ys n h = ap (λ k. take k ys) (same_n n)
  take_more (x ∷ xs) ys zero h = absurd (omega arith)
  take_more (x ∷ xs) ys (suc n) h =
      ap (◌∷◌ x)
        (take_more xs ys n (omega arith) ∙ ap (λ k. xs ++ take k ys) (less_one n (length xs)))

  pub take_within : (xs ys : List A) (n : ℕ) → n ≤ length xs → take n (xs ++ ys) ≡ take n xs
  take_within xs ys zero h = refl
  take_within [] ys (suc n) h = absurd (omega arith)
  take_within (x ∷ xs) ys (suc n) h = ap (◌∷◌ x) (take_within xs ys n (omega arith))

  pub drop_whole : (xs ys : List A) → drop (length xs) (xs ++ ys) ≡ ys
  drop_whole [] ys = refl
  drop_whole (x ∷ xs) ys = drop_whole xs ys

  pub take_all : (xs : List A) (n : ℕ) → length xs ≤ n → take n xs ≡ xs
  take_all [] zero h = refl
  take_all [] (suc n) h = refl
  take_all (x ∷ xs) zero h = absurd (omega arith)
  take_all (x ∷ xs) (suc n) h = ap (◌∷◌ x) (take_all xs n (omega arith))

  pub append_assoc : (xs ys zs : List A) → (xs ++ ys) ++ zs ≡ xs ++ (ys ++ zs)
  append_assoc [] ys zs = refl
  append_assoc (x ∷ xs) ys zs = ap (◌∷◌ x) (append_assoc xs ys zs)
