-- ===== src/Profiles/Reordered.antt =====
-- An order leaves out no profile and adds none (apps/server/src/profile-order.mjs).
use mathlib.Core.List.{Perm, perm_middle}
use mathlib.Core.List.Perm
use vidvnc.Base.{
  ◌≡◌, refl, sym, ap, ◌∙◌, subst, true, false, Option, none, some, List, [], ◌∷◌, ◌++◌, Text, same,
  All, arith, inl, inr, Bool-cases, Option-cases, dec_text,
}
use vidvnc.Profiles.Order.{
  is_listed, is_distinct, valid_profile_order, profile_of, named, unnamed, apply_profile_order,
}

module _ {A : Type 0} (id_of : A → Text) where
  -- Each identifier once
  abbrev pub AllOnce : List A → Type 0
  AllOnce [] = Unit
  AllOnce (p ∷ ps) = All (λ q. same (id_of p) (id_of q) ≡ false) ps × AllOnce ps

  unnamed_apart :
      (id : Text) (ids : List Text) (ps : List A)
      → profile_of id_of id ps ≡ none
      → unnamed id_of (id ∷ ids) ps ≡ unnamed id_of ids ps
  unfolding profile_of
  unnamed_apart id ids [] h = refl
  unnamed_apart id ids (p ∷ ps) h = elim (Option-cases (profile_of id_of id ps)) [
    | inl e ↦ let rest = unnamed_apart id ids ps e in ground (arith, e, rest)
    | inr (q, e) ↦ absurd (ground (arith, e))
  ]

  apart-profile_of :
      (id : Text) (ps : List A)
      → All (λ q. same id (id_of q) ≡ false) ps
      → profile_of id_of id ps ≡ none
  unfolding profile_of
  apart-profile_of id [] hs = refl
  apart-profile_of id (p ∷ ps) (h, hs) = ground (arith, apart-profile_of id ps hs)

  unnamed-one :
      (id : Text) (ids : List Text) (ps : List A) (p : A)
      → AllOnce ps
      → is_listed id ids ≡ false
      → profile_of id_of id ps ≡ some p
      → Perm (p ∷ unnamed id_of (id ∷ ids) ps) (unnamed id_of ids ps)
  unfolding profile_of
  unnamed-one id ids [] p os n h = cc
  unnamed-one id ids (q ∷ ps) p (o, os) n h = elim (dec_text id (id_of q)) [
    | yes e ↦
        let alone =
          apart-profile_of id ps (subst (λ i. All (λ r. same i (id_of r) ≡ false) ps) (sym e) o) in
        let rest = unnamed_apart id ids ps alone in
        let one : p ≡ q = ground (arith, alone) in
        let free : is_listed (id_of q) ids ≡ false = ap (λ i. is_listed i ids) (sym e) ∙ n in
        let left : unnamed id_of (id ∷ ids) (q ∷ ps) ≡ unnamed id_of ids ps =
          ground (arith, rest) in
        let right : unnamed id_of ids (q ∷ ps) ≡ q ∷ unnamed id_of ids ps = rw free refl in
        subst (Perm (p ∷ unnamed id_of (id ∷ ids) (q ∷ ps)))
          (ap (◌∷◌ p) left ∙ ap (λ r. r ∷ unnamed id_of ids ps) one ∙ sym right)
          (Perm.refl (p ∷ unnamed id_of (id ∷ ids) (q ∷ ps)))
    | no ne ↦
        let later : profile_of id_of id ps ≡ some p = elim (Option-cases (profile_of id_of id ps)) [
          | inl x ↦ absurd (ground (arith, x))
          | inr (r, x) ↦ ground (arith, x)
        ] in
        let rest = unnamed-one id ids ps p os n later in
        elim (Bool-cases (is_listed (id_of q) ids)) [
          | inl l ↦
              let left : unnamed id_of (id ∷ ids) (q ∷ ps) ≡ unnamed id_of (id ∷ ids) ps =
                ground (arith, l) in
              let right : unnamed id_of ids (q ∷ ps) ≡ unnamed id_of ids ps = rw l refl in
              subst (λ x. Perm (p ∷ x) (unnamed id_of ids (q ∷ ps))) (sym left)
                (subst (Perm (p ∷ unnamed id_of (id ∷ ids) ps)) (sym right) rest)
          | inr l ↦
              let left : unnamed id_of (id ∷ ids) (q ∷ ps) ≡ q ∷ unnamed id_of (id ∷ ids) ps =
                ground (arith, l) in
              let right : unnamed id_of ids (q ∷ ps) ≡ q ∷ unnamed id_of ids ps = rw l refl in
              subst (λ x. Perm (p ∷ x) (unnamed id_of ids (q ∷ ps))) (sym left)
                (subst (Perm (p ∷ q ∷ unnamed id_of (id ∷ ids) ps)) (sym right)
                  (Perm.trans (Perm.swap q p (unnamed id_of (id ∷ ids) ps)) (Perm.cons q rest)))
        ]
  ]

  unnamed-none : (ps : List A) → unnamed id_of [] ps ≡ ps
  unnamed-none [] = refl
  unnamed-none (p ∷ ps) = ap (◌∷◌ p) (unnamed-none ps)

  named-unnamed :
      (ids : List Text) (ps : List A)
      → AllOnce ps
      → is_distinct ids ≡ true
      → Perm (named id_of ids ps ++ unnamed id_of ids ps) ps
  unfolding named is_distinct
  named-unnamed [] ps os d =
      subst (Perm (unnamed id_of [] ps)) (unnamed-none ps) (Perm.refl (unnamed id_of [] ps))
  named-unnamed (id ∷ ids) ps os d =
      let rest = named-unnamed ids ps os (ground arith) in
      elim (Option-cases (profile_of id_of id ps)) [
        | inl e ↦ rw (e, named, unnamed_apart id ids ps e) rest
        | inr (p, e) ↦
            let one = unnamed-one id ids ps p os (ground arith) e in
            let whole =
              Perm.trans
                (Perm.symm (perm_middle (named id_of ids ps) (unnamed id_of (id ∷ ids) ps)))
                (Perm.trans (Perm.append_left (named id_of ids ps) one) rest) in
            rw (e, named) whole
      ]

  -- Where the profiles have an identifier each, whatever the file says, the profiles that are shown are the
  -- profiles, in some order.
  pub apply_profile_order-Perm :
      (order : Option (List Text)) (ps : List A)
      → AllOnce ps
      → Perm (apply_profile_order id_of order ps) ps
  unfolding apply_profile_order
  apply_profile_order-Perm none ps os = Perm.refl ps
  apply_profile_order-Perm (some ids) ps os = elim (Bool-cases (valid_profile_order ids)) [
    | inr v ↦ rw (v, apply_profile_order) (Perm.refl ps)
    | inl v ↦ rw (v, apply_profile_order) (named-unnamed ids ps os (ground arith))
  ]
