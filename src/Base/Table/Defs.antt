-- ===== src/Base/Table/Defs.antt =====
-- JavaScript's Map with string keys, in insertion order: `set` of a present key keeps its place,
-- `set` of a new key appends, and `delete` removes.
use mathlib.Core.Logic.{◌≢◌, ite}
use mathlib.Core.Bool.{Bool}
use mathlib.Core.List.{List, [], ◌∷◌}
use mathlib.Core.Option.{Option, none, some}
use vidvnc.Base.Tests.{is_some}
use vidvnc.Base.Texts.{Text, dec_text}

abbrev pub Table {ℓ} : Type ℓ → Type ℓ
Table V = List (Text × V)

module _ {ℓ} {V : Type ℓ} where
  unfoldable pub get : Text → Table V → Option V
  unfolding dec_text
  get k [] = none
  get k ((j, v) ∷ t) = ite (dec_text j k) (some v) (get k t)

  abbrev pub has : Text → Table V → Bool
  has k t = is_some (get k t)

  unfoldable pub set : Text → V → Table V → Table V
  unfolding dec_text
  set k v [] = (k, v) ∷ []
  set k v ((j, w) ∷ t) = ite (dec_text j k) ((j, v) ∷ t) ((j, w) ∷ set k v t)

  unfoldable pub delete : Text → Table V → Table V
  unfolding dec_text
  delete k [] = []
  delete k ((j, v) ∷ t) = ite (dec_text j k) (delete k t) ((j, v) ∷ delete k t)

  unfoldable pub values : Table V → List V
  values [] = []
  values ((k, v) ∷ t) = v ∷ values t

  unfoldable pub keys : Table V → List Text
  keys [] = []
  keys ((k, v) ∷ t) = k ∷ keys t

  -- `map.delete(map.keys().next().value)`: forgets the oldest entry.
  unfoldable pub evict : Table V → Table V
  unfolding delete
  evict [] = []
  evict ((k, v) ∷ t) = delete k ((k, v) ∷ t)

  -- An entry is not in the table.
  abbrev pub Fresh : Text → Table V → Type 0
  Fresh k [] = Unit
  Fresh k ((j, v) ∷ t) = (j ≢ k) × Fresh k t

  -- Each key once, which every Map is.
  abbrev pub IsMap : Table V → Type 0
  IsMap [] = Unit
  IsMap ((k, v) ∷ t) = Fresh k t × IsMap t
