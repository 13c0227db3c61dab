-- ===== src/Admission/Classes.antt =====
-- apps/server/src/admission-budget.mjs: the reservations of a class of keys.
use vidvnc.Base.{
  ℕ, ◌+◌, ◌-◌, Bool, true, false, not, ◌&&◌, Option, none, some, List, [], ◌∷◌, Text, codes, same,
  leb, ◌==◌, any, if◌then◌else◌, Result, ok, err,
}
use vidvnc.Base.Table.{Table, get, set}
use vidvnc.Peers.Addresses.{source_group}
use vidvnc.Admission.State.{Row, ClassState, Item, AdmissionBudget, bounded_row}

pub record Policy : Type 0 where
  pub generation : Text
  pub global_limit : ℕ
  pub source_limit : ℕ

pub data PolicyError : Type 0 where
  invalid_policy : PolicyError

abbrev pub valid_policy : Policy → Bool
valid_policy p =
    leb 1 p.global_limit
    && leb p.global_limit 20
    && leb 1 p.source_limit
    && leb p.source_limit 5
    && leb p.source_limit p.global_limit

-- What a key of the class may be used for.
pub data Purpose : Type 0 where
  session approved_client_setup one_time_connection : Purpose

abbrev pub is_session : Purpose → Bool
is_session session = true
is_session approved_client_setup = false
is_session one_time_connection = false

-- `accepts`
abbrev pub accepts : Item → Purpose → Bool
accepts item purpose =
    if same item.kind (codes "session") then is_session purpose else not (is_session purpose)

abbrev pub new_class : ℕ → Text → ClassState
new_class serial generation = record {
  serial = serial;
  generation = generation;
  failures = 0;
  pending = 0;
  sources = [];
}

-- A budget that has the class's state of that generation.
unfoldable pub open_class : AdmissionBudget → Text → Text → AdmissionBudget × ClassState
open_class b kind generation =
    let fresh = new_class b.next generation in
    let opened : AdmissionBudget = record b {
      classes = set kind fresh b.classes;
      next = b.next + 1;
    } in
    elim (get kind b.classes) [
      | none ↦ (opened, fresh)
      | some st ↦ if same st.generation generation then (b, st) else (opened, fresh)
    ]

-- The end of `#reserveClass`, once the class has room.
unfoldable pub take_row :
    AdmissionBudget → Text → ClassState → Policy → Text → AdmissionBudget × Option Item
unfolding bounded_row
take_row b kind st p source_id =
    let (sources, row) =
      bounded_row b.max_sources st.sources source_id
        (record { serial = b.next; failures = 0; pending = 0 }) in
    let item : Item = record {
      serial = b.next + 1;
      kind = kind;
      source_id = source_id;
      state = st.serial;
      row = row.serial;
    } in
    if leb p.source_limit (row.failures + row.pending)
    then (
      record b {
        classes = set kind (record st { sources = sources }) b.classes;
        next = b.next + 2;
      },
      none,
    )
    else (
      record b {
        classes =
            set kind
              (record st {
                pending = st.pending + 1;
                sources = set source_id (record row { pending = row.pending + 1 }) sources;
              })
              b.classes;
        unfinished = item ∷ b.unfinished;
        next = b.next + 2;
      },
      some item,
    )

-- `#reserveClass`
unfoldable pub reserve_class :
    (is_ip : Text → ℕ)
    → AdmissionBudget
    → Text
    → Text
    → Option Policy
    → AdmissionBudget × Result PolicyError (Option Item)
unfolding source_group open_class take_row
reserve_class is_ip b kind source none = (b, ok none)
reserve_class is_ip b kind source (some p) =
    let (opened, st) = open_class b kind p.generation in
    let (taken, item) = take_row opened kind st p (source_group is_ip source) in
    if not (valid_policy p)
    then (b, err invalid_policy)
    else if leb p.global_limit (st.failures + st.pending)
    then (opened, ok none)
    else (taken, ok item)

abbrev pub same_item : Item → Item → Bool
same_item i j =
    i.serial == j.serial
    && same i.kind j.kind
    && same i.source_id j.source_id
    && i.state == j.state
    && i.row == j.row

abbrev pub remove_item : Item → List Item → List Item
remove_item i [] = []
remove_item i (j ∷ js) = if same_item i j then js else j ∷ remove_item i js

-- An outcome: `some false` is a failure, `none` is null.
abbrev pub failed : Option Bool → ℕ
failed none = 0
failed (some true) = 0
failed (some false) = 1

abbrev pub settle_row : Table Row → Item → Option Bool → Table Row
settle_row sources item outcome = elim (get item.source_id sources) [
  | none ↦ sources
  | some row ↦
      if row.serial == item.row
      then set item.source_id
          (record row { pending = row.pending - 1; failures = row.failures + failed outcome })
          sources
      else sources
]

abbrev pub settle : ClassState → Item → Option Bool → ClassState
settle st item outcome = record st {
  pending = st.pending - 1;
  failures = st.failures + failed outcome;
  sources = settle_row st.sources item outcome;
}

-- `finish` of a reservation. A state or a row that its map no longer holds is not seen again.
unfoldable pub finish_item : AdmissionBudget → Item → Option Bool → AdmissionBudget
finish_item b item outcome =
    let closed : AdmissionBudget = record b { unfinished = remove_item item b.unfinished } in
    if not (any (same_item item) b.unfinished) then b else (elim (get item.kind b.classes) [
      | none ↦ closed
      | some st ↦
          if st.serial == item.state
          then record closed { classes = set item.kind (settle st item outcome) b.classes }
          else closed
    ])
