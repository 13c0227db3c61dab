-- ===== src/Base/Table/Weights.antt =====
-- Sums over the values of a table, and where its values are found.
use Prim.Native.Nat.{ℕ, ◌+◌, ◌≤◌}
use mathlib.Core.Path.{◌≡◌, refl}
use mathlib.Core.Logic.{inl, inr}
use mathlib.Core.Bool.{Bool, true, false}
use mathlib.Core.List.{[], ◌∷◌, ◌++◌}
use mathlib.Core.Option.{none, some}
use native.Mathlib.Omega.{arith}
use vidvnc.Base.Tests.{if◌then◌else◌, Bool-cases}
use vidvnc.Base.Lists.{length, keep, find}
use vidvnc.Base.Texts.{Text, dec_text}
use vidvnc.Base.Table.Defs.{Table, get, set, delete, values, IsMap, Fresh}
use vidvnc.Base.Table.Laws.{get-Fresh}

module _ {ℓ} {V : Type ℓ} where
  -- The sum of a weight over the values.
  unfoldable pub weigh : (V → ℕ) → Table V → ℕ
  weigh f [] = 0
  weigh f ((k, v) ∷ t) = f v + weigh f t

  pub weigh-append : (f : V → ℕ) (t u : Table V) → weigh f (t ++ u) ≡ weigh f t + weigh f u
  unfolding weigh
  weigh-append f [] u = omega arith
  weigh-append f ((k, v) ∷ t) u = omega (arith, weigh-append f t u)

  -- A new value adds its weight at most.
  pub weigh-set-le :
      (f : V → ℕ) (k : Text) (v : V) (t : Table V) → weigh f (set k v t) ≤ weigh f t + f v
  unfolding weigh set
  weigh-set-le f k v [] = omega arith
  weigh-set-le f k v ((j, w) ∷ t) = ground (arith, weigh-set-le f k v t)

  pub weigh-set_old :
      (f : V → ℕ) (k : Text) (v w : V) (t : Table V)
      → get k t ≡ some w
      → weigh f (set k v t) + f w ≡ weigh f t + f v
  unfolding weigh get set
  weigh-set_old f k v w [] h = cc
  weigh-set_old f k v w ((j, u) ∷ t) h = ground (arith, weigh-set_old f k v w t)

  pub weigh-delete-le : (f : V → ℕ) (k : Text) (t : Table V) → weigh f (delete k t) ≤ weigh f t
  unfolding weigh delete
  weigh-delete-le f k [] = omega arith
  weigh-delete-le f k ((j, w) ∷ t) = ground (arith, weigh-delete-le f k t)

  -- How many values pass a test.
  abbrev pub one_if : (V → Bool) → V → ℕ
  one_if p v = if p v then 1 else 0

  pub length-keep-weigh :
      (p : V → Bool) (t : Table V) → length (keep p (values t)) ≡ weigh (one_if p) t
  unfolding weigh values
  length-keep-weigh p [] = refl
  length-keep-weigh p ((k, v) ∷ t) = ground (arith, length-keep-weigh p t)

  -- The values that a table holds.
  abbrev pub Holds : V → Table V → Type ℓ
  Holds v t = (k : Text) × (get k t ≡ some v)

  Holds-cons : (k : Text) (w v : V) (t : Table V) → Fresh k t → Holds v t → Holds v ((k, w) ∷ t)
  unfolding get
  Holds-cons k w v t fresh (j, h) = elim (dec_text k j) [
    | yes e ↦ absurd (cc (get-Fresh k t fresh))
    | no n ↦ (j, ground arith)
  ]

  -- What `find` finds is held, and passes the test.
  pub find-values :
      (p : V → Bool) (v : V) (t : Table V)
      → IsMap t
      → find p (values t) ≡ some v
      → Holds v t × (p v ≡ true)
  unfolding values get
  find-values p v [] m h = cc
  find-values p v ((k, w) ∷ t) (fresh, m) h = elim (Bool-cases (p w)) [
    | inl e ↦ ((k, ground arith), ground arith)
    | inr e ↦
        let (held, passes) = find-values p v t m (ground arith) in
        (Holds-cons k w v t fresh held, passes)
  ]

  -- What `find` does not find is not held.
  pub find-none :
      (p : V → Bool) (k : Text) (v : V) (t : Table V)
      → find p (values t) ≡ none
      → get k t ≡ some v
      → p v ≡ false
  unfolding values get
  find-none p k v [] h e = cc
  find-none p k v ((j, w) ∷ t) h e = ground (arith, find-none p k v t)
