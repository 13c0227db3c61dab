-- ===== src/Base/Table/Laws.antt =====
-- The laws of the tables: what a lookup finds after a change, keys once, and sizes.
use Prim.Native.Nat.{◌+◌, ◌≤◌}
use mathlib.Core.Path.{◌≡◌, refl}
use mathlib.Core.Logic.{◌≢◌, ite}
use mathlib.Core.List.{[], ◌∷◌, ◌++◌}
use mathlib.Core.Option.{none, some}
use native.Mathlib.Omega.{arith}
use vidvnc.Base.Lists.{length}
use vidvnc.Base.Texts.{Text, dec_text}
use vidvnc.Base.Table.Defs.{Table, get, set, delete, evict, Fresh, IsMap}

module _ {ℓ} {V : Type ℓ} where
  pub Fresh-of_none : (k : Text) (t : Table V) → get k t ≡ none → Fresh k t
  unfolding get
  Fresh-of_none k [] h = tt
  Fresh-of_none k ((j, v) ∷ t) h = ground (arith, Fresh-of_none k t)

  pub get-Fresh : (k : Text) (t : Table V) → Fresh k t → get k t ≡ none
  unfolding get
  get-Fresh k [] h = refl
  get-Fresh k ((j, v) ∷ t) h = ground (arith, get-Fresh k t)

  pub get-set :
      (j k : Text) (v : V) (t : Table V) → get j (set k v t) ≡ ite (dec_text k j) (some v) (get j t)
  unfolding get set
  get-set j k v [] = refl
  get-set j k v ((i, w) ∷ t) = ground (arith, get-set j k v t)

  pub get-delete :
      (j k : Text) (t : Table V) → get j (delete k t) ≡ ite (dec_text k j) none (get j t)
  unfolding get delete
  get-delete j k [] = ground arith
  get-delete j k ((i, w) ∷ t) = ground (arith, get-delete j k t)

  pub Fresh-set : (j k : Text) (v : V) (t : Table V) → j ≢ k → Fresh j t → Fresh j (set k v t)
  unfolding set
  Fresh-set j k v [] h f = ground arith
  Fresh-set j k v ((i, w) ∷ t) h f = ground (arith, Fresh-set j k v t)

  pub set-IsMap : (k : Text) (v : V) (t : Table V) → IsMap t → IsMap (set k v t)
  unfolding set
  set-IsMap k v [] m = ground arith
  set-IsMap k v ((i, w) ∷ t) m = ground (arith, set-IsMap k v t, Fresh-set i k v t)

  pub Fresh-delete : (j k : Text) (t : Table V) → Fresh j t → Fresh j (delete k t)
  unfolding delete
  Fresh-delete j k [] f = tt
  Fresh-delete j k ((i, w) ∷ t) f = ground (arith, Fresh-delete j k t)

  pub delete-Fresh : (k : Text) (t : Table V) → Fresh k t → delete k t ≡ t
  unfolding delete
  delete-Fresh k [] f = refl
  delete-Fresh k ((i, w) ∷ t) f = ground (arith, delete-Fresh k t)

  pub delete-IsMap : (k : Text) (t : Table V) → IsMap t → IsMap (delete k t)
  unfolding delete
  delete-IsMap k [] m = tt
  delete-IsMap k ((i, w) ∷ t) m = ground (arith, delete-IsMap k t, Fresh-delete i k t)

  pub evict-IsMap : (t : Table V) → IsMap t → IsMap (evict t)
  unfolding evict
  evict-IsMap [] m = tt
  evict-IsMap ((k, v) ∷ t) m = delete-IsMap k ((k, v) ∷ t) m

  pub length-delete-le : (k : Text) (t : Table V) → length (delete k t) ≤ length t
  unfolding delete
  length-delete-le k [] = omega arith
  length-delete-le k ((i, w) ∷ t) = ground (arith, length-delete-le k t)

  pub length-delete :
      (k : Text) (v : V) (t : Table V) → get k t ≡ some v → length (delete k t) + 1 ≤ length t
  unfolding get delete
  length-delete k v [] h = cc
  length-delete k v ((i, w) ∷ t) h = ground (arith, length-delete k v t, length-delete-le k t)

  pub length-evict : (t : Table V) → t ≢ [] → length (evict t) + 1 ≤ length t
  unfolding evict delete
  length-evict [] h = absurd (h refl)
  length-evict ((k, v) ∷ t) h = ground (arith, length-delete-le k t)

  pub length-set-le : (k : Text) (v : V) (t : Table V) → length (set k v t) ≤ length t + 1
  unfolding set
  length-set-le k v [] = omega arith
  length-set-le k v ((i, w) ∷ t) = ground (arith, length-set-le k v t)

  pub length-set_old :
      (k : Text) (v w : V) (t : Table V) → get k t ≡ some w → length (set k v t) ≡ length t
  unfolding get set
  length-set_old k v w [] h = cc
  length-set_old k v w ((i, u) ∷ t) h = ground (arith, length-set_old k v w t)

  pub set_new : (k : Text) (v : V) (t : Table V) → Fresh k t → set k v t ≡ t ++ (k, v) ∷ []
  unfolding set
  set_new k v [] f = refl
  set_new k v ((i, u) ∷ t) f = ground (arith, set_new k v t)
