-- ===== src/Approved/Advancing.antt =====
-- The ways in which the operation under way goes on (apps/server/src/approved-clients.mjs).
use vidvnc.Base.{
  ℕ, ◌≡◌, ◌⊎◌, refl, sym, subst, Bool, true, false, not, ◌&&◌, Option, none, some, List, [], ◌∷◌,
  Text, arith, inl, inr, Bool-cases, List-cases, Result, err, if◌then◌else◌,
}
use vidvnc.Approved.State.{
  Operation, Stage, waiting, swept, writing, Store, StoreError, write_failed,
}
use vidvnc.Approved.Sweeps.{finish, begin_sweep, end_sweep}
use vidvnc.Approved.Changes.{end_change, after_sweep, advance}

Stage-cases :
    (g : Stage)
    → (g ≡ waiting) ⊎ ((g ≡ writing) ⊎ ((ks : List Text) × (wrote : Bool) × (g ≡ swept ks wrote)))
Stage-cases waiting = inl refl
Stage-cases writing = inr (inl refl)
Stage-cases (swept ks wrote) = inr (inr (ks, wrote, refl))

-- The clients are on the disk, where the sweep wrote.
abbrev pub saved : Store → (wrote : Bool) → Store
saved s wrote = record s { disk = if wrote then s.clients else s.disk }

module _ (hash : Text → Text) (s : Store) (written : Bool) (now : ℕ) where
  idle : s.queue ≡ [] → advance hash s written now ≡ (s, none)
  unfolding advance
  idle q = ground arith

  module _ (op : Operation) (ops : List Operation) (q : s.queue ≡ op ∷ ops) where
    sweeps : s.stage ≡ waiting → advance hash s written now ≡ (begin_sweep s now, none)
    unfolding advance
    sweeps g = ground arith

    fails :
        s.stage ≡ writing
        → written ≡ false
        → advance hash s written now ≡ (finish s, some (err write_failed))
    unfolding advance
    fails g w = ground arith

    ends :
        s.stage ≡ writing
        → written ≡ true
        → advance hash s written now
          ≡ (finish (end_change (saved s true) op now).0, some (end_change (saved s true) op now).1)
    unfolding advance
    ends g w = ground arith

    module _ (ks : List Text) (wrote : Bool) (g : s.stage ≡ swept ks wrote) where
      sweep_fails :
          (wrote && not written) ≡ true
          → advance hash s written now ≡ (finish s, some (err write_failed))
      unfolding advance
      sweep_fails w = ground arith

      changes :
          (wrote && not written) ≡ false
          → advance hash s written now ≡ after_sweep hash (end_sweep (saved s wrote) ks now) op now
      unfolding advance
      changes w = ground arith

  -- What holds of the store whichever way the operation goes on.
  pub advance-cases :
      (P : Store × Option (Result StoreError (Unit {0})) → Type 0)
      → (s.queue ≡ [] → P (s, none))
      → (s.stage ≡ waiting → P (begin_sweep s now, none))
      → P (finish s, some (err write_failed))
      → ((op : Operation) (ops : List Operation)
          → s.queue ≡ op ∷ ops
          → s.stage ≡ writing
          → written ≡ true
          → P (
            finish (end_change (saved s true) op now).0,
            some (end_change (saved s true) op now).1,
          ))
      → ((op : Operation) (ops : List Operation) (ks : List Text) (wrote : Bool)
          → s.queue ≡ op ∷ ops
          → s.stage ≡ swept ks wrote
          → P (after_sweep hash (end_sweep (saved s wrote) ks now) op now))
      → P (advance hash s written now)
  advance-cases P one two three four five = elim (List-cases s.queue) [
    | inl q ↦ subst P (sym (idle q)) (one q)
    | inr (op, ops, q) ↦ elim (Stage-cases s.stage) [
      | inl g ↦ subst P (sym (sweeps op ops q g)) (two g)
      | inr (inl g) ↦ elim (Bool-cases written) [
        | inr w ↦ subst P (sym (fails op ops q g w)) three
        | inl w ↦ subst P (sym (ends op ops q g w)) (four op ops q g w)
      ]
      | inr (inr (ks, wrote, g)) ↦ elim (Bool-cases (wrote && not written)) [
        | inl w ↦ subst P (sym (sweep_fails op ops q ks wrote g w)) three
        | inr w ↦ subst P (sym (changes op ops q ks wrote g w)) (five op ops ks wrote q g)
      ]
    ]
  ]
