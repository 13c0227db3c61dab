-- ===== src/Profiles/Order.antt =====
-- apps/server/src/profile-order.mjs: the order in which the owner wants the profiles shown.
use vidvnc.Base.{
  Bool, true, not, ◌&&◌, ◌||◌, Option, none, some, List, [], ◌∷◌, ◌++◌, Text, same, leb, ◌==◌, any,
  all, keep, length, if◌then◌else◌,
}

abbrev pub is_listed : Text → List Text → Bool
is_listed id ids = any (λ k. same k id) ids

abbrev pub is_profile_id : Text → Bool
is_profile_id id =
    leb 1 (length id)
    && (leb (length id) 64
        && all
            (λ c.
              (leb b'a' c && leb c b'z')
              || ((leb b'A' c && leb c b'Z') || ((leb b'0' c && leb c b'9') || c == b'-')))
            id)

-- `new Set(ids).size === ids.length`
unfoldable pub is_distinct : List Text → Bool
is_distinct [] = true
is_distinct (id ∷ ids) = let rest = is_distinct ids in not (is_listed id ids) && rest

-- `validProfileOrder` of a list of strings
abbrev pub valid_profile_order : List Text → Bool
valid_profile_order ids = leb (length ids) 64 && (is_distinct ids && all is_profile_id ids)

module _ {A : Type 0} (id_of : A → Text) where
  -- `available.get(id)`: the last profile with the identifier
  unfoldable pub profile_of : Text → List A → Option A
  profile_of id [] = none
  profile_of id (p ∷ ps) =
      let rest = profile_of id ps in
      elim rest [ some q ↦ some q | none ↦ if same id (id_of p) then some p else none ]

  -- The profiles that the order names
  unfoldable pub named : List Text → List A → List A
  named [] ps = []
  named (id ∷ ids) ps =
      let rest = named ids ps in elim (profile_of id ps) [ none ↦ rest | some p ↦ p ∷ rest ]

  abbrev pub unnamed : List Text → List A → List A
  unnamed ids ps = keep (λ p. not (is_listed (id_of p) ids)) ps

  -- `applyProfileOrder`, with what the file says: `none` where it is missing, too long, or no list of strings
  unfoldable pub apply_profile_order : Option (List Text) → List A → List A
  apply_profile_order none ps = ps
  apply_profile_order (some ids) ps =
      if not (valid_profile_order ids) then ps else named ids ps ++ unnamed ids ps
