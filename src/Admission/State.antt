-- ===== src/Admission/State.antt =====
-- apps/server/src/admission-budget.mjs: the state of the budget, its bounded maps and its rolling
-- windows. Each reading of the clock is an argument; an object that a caller's closure still holds
-- after it has left its map is told apart by its serial.
use vidvnc.Base.{
  ℕ, ◌-◌, Bool, true, false, Option, none, some, List, [], ◌∷◌, ◌++◌, Text, leb, ltb, length, keep,
  take, if◌then◌else◌,
}
use vidvnc.Base.Table.{Table, get, set, delete, evict}
use vidvnc.Peers.Addresses.{source_group}

-- The failed and the unfinished tries of a source.
pub record Row : Type 0 where
  pub serial : ℕ
  pub failures : ℕ
  pub pending : ℕ

-- The tries of a class of keys, of one generation.
pub record ClassState : Type 0 where
  pub serial : ℕ
  pub generation : Text
  pub failures : ℕ
  pub pending : ℕ
  pub sources : Table Row

pub record Rolling : Type 0 where
  pub global : List ℕ
  pub sources : Table (List ℕ)
  pub identities : Table (List ℕ)

-- What `#reserveClass` returns.
pub record Item : Type 0 where
  pub serial : ℕ
  pub kind : Text
  pub source_id : Text
  pub state : ℕ
  pub row : ℕ

-- The budget. `unfinished` holds the reservations that are not finished, `closed` the serials of the key
-- starts that are, `next` is the next serial.
pub record AdmissionBudget : Type 0 where
  pub max_sources : ℕ
  pub classes : Table ClassState
  pub rolling : Table Rolling
  pub last_now : ℕ
  pub active_scrypt : ℕ
  pub unfinished : List Item
  pub closed : List ℕ
  pub next : ℕ

-- MINUTE
abbrev pub minute : ℕ
minute = 60000

-- `recent`
unfoldable pub recent : List ℕ → (now window : ℕ) → List ℕ
recent times now window = keep (λ time. ltb (now - time) window) times

-- `Math.max(this.#lastNow, this.clock())`
abbrev pub later : ℕ → ℕ → ℕ
later a b = if leb a b then b else a

-- `#boundedRow`: the row of a key, which becomes the youngest; a new one may cost the oldest.
unfoldable pub bounded_row {ℓ} : {V : Type ℓ} → ℕ → Table V → Text → V → Table V × V
bounded_row max map key fresh = elim (get key map) [
  | some row ↦ (set key row (delete key map), row)
  | none ↦ (set key fresh (if leb max (length map) then evict map else map), fresh)
]

abbrev no_rolling : Rolling
no_rolling = record { global = []; sources = []; identities = [] }

abbrev pub rolling_of : AdmissionBudget → Text → Rolling
rolling_of b kind = elim (get kind b.rolling) [ none ↦ no_rolling | some w ↦ w ]

module _ (is_ip : Text → ℕ) where
  -- `#reserveRolling` on the windows of a kind, at a time.
  unfoldable pub roll :
      ℕ → Rolling → Text → (global_limit source_limit window now : ℕ) → Rolling × Bool
  unfolding recent bounded_row source_group
  roll max w source global_limit source_limit window now =
      let global = recent w.global now window in
      let key = source_group is_ip source in
      let (sources, times) = bounded_row max w.sources key [] in
      let fresh = recent times now window in
      if leb global_limit (length global)
      then (record w { global = global }, false)
      else if leb source_limit (length fresh)
      then (record w { global = global; sources = set key fresh sources }, false)
      else (
        record w { global = global ++ now ∷ []; sources = set key (fresh ++ now ∷ []) sources },
        true,
      )

  -- `#reserveRolling`
  unfoldable pub reserve_rolling :
      AdmissionBudget
      → Text
      → Text
      → (global_limit source_limit window time : ℕ) → AdmissionBudget × Bool
  unfolding roll
  reserve_rolling b kind source global_limit source_limit window time =
      let now = later b.last_now time in
      let (w, free) =
        roll b.max_sources (rolling_of b kind) source global_limit source_limit window now in
      (record b { last_now = now; rolling = set kind w b.rolling }, free)

-- `#reserveIdentity`, with the two readings of the clock; `none` where the kind is not there.
unfoldable pub reserve_identity :
    AdmissionBudget
    → Text
    → Text
    → (limit window first second : ℕ) → Option (AdmissionBudget × Bool)
unfolding recent bounded_row
reserve_identity b kind identity limit window first second = elim (get kind b.rolling) [
  | none ↦ none
  | some w ↦
      let key = take 128 identity in
      let now = later b.last_now first in
      let (identities, times) = bounded_row b.max_sources w.identities key [] in
      let fresh = recent times now window in
      if leb limit (length fresh)
      then some (
        record b {
          last_now = now;
          rolling = set kind (record w { identities = set key fresh identities }) b.rolling;
        },
        false,
      )
      else some (
        record b {
          last_now = later now second;
          rolling =
              set kind
                (record w { identities = set key (fresh ++ later now second ∷ []) identities })
                b.rolling;
        },
        true,
      )
]
