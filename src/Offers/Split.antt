-- ===== src/Offers/Split.antt =====
-- Splitting into lines and joining them (apps/server/src/sdp-candidates.mjs).
use vidvnc.Base.{
  ◌≡◌, refl, sym, ap, ◌∙◌, subst, Bool, true, false, not, ◌&&◌, List, [], ◌∷◌, ◌++◌, Text, ◌==◌,
  All, arith, inl, inr, Bool-cases, List-cases,
}
use vidvnc.Offers.Lines.{starts_lf, split_lines, join_lines}

-- No line ends in the text.
abbrev pub is_line : Text → Bool
is_line [] = true
is_line (c ∷ s) = not (c == 13 && starts_lf s) && is_line s

-- There is a first line.
split_lines-cases : (s : Text) → (l : Text) × (ls : List Text) × (split_lines s ≡ l ∷ ls)
unfolding split_lines
split_lines-cases [] = ([], [], refl)
split_lines-cases (c ∷ s) =
    let (l, ls, e) = split_lines-cases s in
    elim (Bool-cases (c == 13 && starts_lf s)) [
      | inr f ↦ (c ∷ l, ls, ground (arith, e, f))
      | inl f ↦ elim (List-cases l) [
        | inl n ↦ ([], [] ∷ ls, ground (arith, e, f, n))
        | inr (d, m, n) ↦ ([], m ∷ ls, ground (arith, e, f, n))
      ]
    ]

-- The first line begins with a line feed where the text does.
first_lf : (s l : Text) (ls : List Text) → split_lines s ≡ l ∷ ls → starts_lf l ≡ starts_lf s
unfolding split_lines
first_lf [] l ls h = let none_left : [] ≡ l = cc (h) in ap starts_lf (sym none_left)
first_lf (c ∷ s) l ls h =
    let (m, ms, e) = split_lines-cases s in
    elim (Bool-cases (c == 13 && starts_lf s)) [
      | inr f ↦ let first : c ∷ m ≡ l = ground (arith, e, f) in ap starts_lf (sym first)
      | inl f ↦ elim (List-cases m) [
        | inl n ↦
            let first : [] ≡ l = ground (arith, e, f, n) in ap starts_lf (sym first) ∙ ground arith
        | inr (d, k, n) ↦
            let first : [] ≡ l = ground (arith, e, f, n) in ap starts_lf (sym first) ∙ ground arith
      ]
    ]

abbrev AllLines : List Text → Type 0
AllLines = All (λ l. is_line l ≡ true)

pub split_lines-lines : (s : Text) → AllLines (split_lines s)
unfolding split_lines
split_lines-lines [] = (refl, tt)
split_lines-lines (c ∷ s) =
    let (m, ms, e) = split_lines-cases s in
    let (h, hs) = subst AllLines e (split_lines-lines s) in
    let lf = first_lf s m ms e in
    elim (Bool-cases (c == 13 && starts_lf s)) [
      | inr f ↦
          let one : is_line (c ∷ m) ≡ true = rw (lf, f, h) refl in
          let whole : (c ∷ m) ∷ ms ≡ split_lines (c ∷ s) = ground (arith, e, f) in
          subst AllLines whole (one, hs)
      | inl f ↦ elim (List-cases m) [
        | inl n ↦
            let whole : [] ∷ [] ∷ ms ≡ split_lines (c ∷ s) = ground (arith, e, f, n) in
            subst AllLines whole (refl, (refl, hs))
        | inr (d, k, n) ↦
            let whole : [] ∷ k ∷ ms ≡ split_lines (c ∷ s) = ground (arith, e, f, n) in
            let longer : is_line (d ∷ k) ≡ true = ap is_line (sym n) ∙ h in
            subst AllLines whole (refl, (ground arith, hs))
      ]
    ]

split_lines-one : (l : Text) → is_line l ≡ true → split_lines l ≡ l ∷ []
unfolding split_lines
split_lines-one [] h = refl
split_lines-one (c ∷ l) h = let rest = split_lines-one l (ground arith) in ground (arith, rest)

starts_lf-append : (l t : Text) → starts_lf (l ++ 13 ∷ t) ≡ starts_lf l
starts_lf-append [] t = refl
starts_lf-append (c ∷ l) t = refl

split_lines-append :
    (l t : Text) → is_line l ≡ true → split_lines (l ++ 13 ∷ 10 ∷ t) ≡ l ∷ split_lines t
unfolding split_lines
split_lines-append [] t h = let (m, ms, e) = split_lines-cases t in ground (arith, e)
split_lines-append (c ∷ l) t h =
    let rest = split_lines-append l t (ground arith) in
    let lf = starts_lf-append l (10 ∷ t) in
    let apart : (c == 13 && starts_lf (l ++ 13 ∷ 10 ∷ t)) ≡ false = rw lf (ground arith) in
    rw (apart, rest) refl

-- Lines that hold no line end come back from their join.
pub split_lines-join :
    (l : Text) (ls : List Text)
    → is_line l ≡ true
    → All (λ m. is_line m ≡ true) ls
    → split_lines (join_lines (l ∷ ls)) ≡ l ∷ ls
split_lines-join l [] h hs = split_lines-one l h
split_lines-join l (m ∷ ls) h (k, ks) =
    split_lines-append l (join_lines (m ∷ ls)) h ∙ ap (◌∷◌ l) (split_lines-join m ls k ks)
