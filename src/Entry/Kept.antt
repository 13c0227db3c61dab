-- ===== src/Entry/Kept.antt =====
-- What the field keeps (apps/web-client/src/password-entry.js).
use vidvnc.Base.{
  ℕ, ◌+◌, ◌-◌, ◌≤◌, min, max, ◌≡◌, ◌⊎◌, sym, ap, ◌∙◌, subst, ◌++◌, Text, codes, leb, ltb, length,
  length-append, length-take-le, take-append-drop, take, drop, if◌then◌else◌, arith, inl, inr,
  Bool-cases,
}
use vidvnc.Entry.Symbols.{symbols_in, count, accept, shown, caret_of, format_password_entry}
use vidvnc.Entry.Pieces.{
  symbols_in-append, take_more, take_within, drop_whole, take_all, append_assoc,
}

-- How many symbols in front of the anchor are kept.
room : (a m b : ℕ) → ℕ
room a m b = (a + m) - min ((a + m + b) - 8) (a + m)

room-cases :
    (a m b : ℕ)
    → a + b ≤ 8
    → ((room a m b - a ≡ 8 - a - b) ⊎ ((room a m b - a ≡ m) × (m ≤ 8 - a - b)))
      × (a ≤ room a m b)
      × (room a m b ≤ a + m)
      × (room a m b + b ≤ 8)
unfolding room
room-cases a m b h = elim (Bool-cases (leb (a + m + b) 8)) [
  | inl l ↦ (inr (ground arith, ground arith), ground arith, ground arith, ground arith)
  | inr l ↦ (inl (ground arith), ground arith, ground arith, ground arith)
]

take-room :
    (p i q : Text)
    → length p + length q ≤ 8
    → take (room (length p) (length i) (length q) - length p) i ≡ take (8 - length p - length q) i
take-room p i q h = elim (room-cases (length p) (length i) (length q) h).0 [
  | inl e ↦ ap (λ k. take k i) e
  | inr (e, l) ↦
      ap (λ k. take k i) e
      ∙ take_all i (length i) (omega arith)
      ∙ sym (take_all i (8 - length p - length q) l)
]

take_front :
    (p i q : Text) (k : ℕ)
    → length p ≤ k
    → k ≤ length p + length i
    → take k ((p ++ i) ++ q) ≡ p ++ take (k - length p) i
take_front p i q k l u =
    take_within (p ++ i) q k (let law = length-append p i in omega (arith, law)) ∙ take_more p i k l

-- What is kept of symbols `p`, `i` and `q`, with the anchor behind `i`, where there is room for `p` and `q`.
kept_middle :
    (p i q : Text)
    → length p + length q ≤ 8
    → take 8 (
        take (room (length p) (length i) (length q)) ((p ++ i) ++ q)
        ++ drop (length (p ++ i)) ((p ++ i) ++ q))
      ≡ p ++ (take (8 - length p - length q) i ++ q)
kept_middle p i q h =
    let k = room (length p) (length i) (length q) in
    let (cases, low, high, fits) = room-cases (length p) (length i) (length q) h in
    let front = take_front p i q k low high in
    let middle = take (k - length p) i in
    let short : length ((p ++ middle) ++ q) ≤ 8 =
      (let one = length-append (p ++ middle) q in
        let two = length-append p middle in
        let three = length-take-le (k - length p) i in omega (arith, one, two, three, fits, low)) in
    ap (λ x. take 8 (x ++ drop (length (p ++ i)) ((p ++ i) ++ q))) front
    ∙ ap (λ x. take 8 ((p ++ middle) ++ x)) (drop_whole (p ++ i) q)
    ∙ take_all ((p ++ middle) ++ q) 8 short
    ∙ append_assoc p middle q
    ∙ ap (λ x. p ++ (x ++ q)) (take-room p i q h)

take_anchor : (p i q : Text) → take (length (p ++ i)) (p ++ (i ++ q)) ≡ p ++ i
take_anchor p i q =
    ap (take (length (p ++ i))) (sym (append_assoc p i q))
    ∙ take_within (p ++ i) q (length (p ++ i)) (omega arith)
    ∙ take_all (p ++ i) (length (p ++ i)) (omega arith)

-- What is typed or pasted is cut, and what stands around it is kept: where the symbols before and behind it fit,
-- they stay, and as many of the new symbols as there is room for, the first ones, stand between them.
pub accept-kept :
    (before typed behind : Text)
    → length (symbols_in before) + length (symbols_in behind) ≤ 8
    → (accept (before ++ (typed ++ behind)) (length (before ++ typed))).kept
      ≡ symbols_in before
        ++ (take (8 - length (symbols_in before) - length (symbols_in behind)) (symbols_in typed)
            ++ symbols_in behind)
unfolding accept room
accept-kept before typed behind h =
    let p = symbols_in before in
    let i = symbols_in typed in
    let q = symbols_in behind in
    let all : symbols_in (before ++ (typed ++ behind)) ≡ (p ++ i) ++ q =
      symbols_in-append before (typed ++ behind)
      ∙ ap (λ x. p ++ x) (symbols_in-append typed behind)
      ∙ sym (append_assoc p i q) in
    let front : symbols_in (take (length (before ++ typed)) (before ++ (typed ++ behind)))
        ≡ p ++ i =
      ap symbols_in (take_anchor before typed behind) ∙ symbols_in-append before typed in
    let sizes : length (p ++ i) ≡ length p + length i = length-append p i in
    let total : length ((p ++ i) ++ q) ≡ length p + length i + length q =
      length-append (p ++ i) q ∙ ap (λ n. n + length q) sizes in
    ap
      (λ n. take 8 (
        take (n - min (length (symbols_in (before ++ (typed ++ behind))) - 8) n)
          (symbols_in (before ++ (typed ++ behind)))
        ++ drop n (symbols_in (before ++ (typed ++ behind)))))
      (ap length front)
    ∙ ap
        (λ x. take 8 (
          take (length (p ++ i) - min (length x - 8) (length (p ++ i))) x
          ++ drop (length (p ++ i)) x))
        all
    ∙ ap
        (λ n. take 8 (
          take (n - min (length ((p ++ i) ++ q) - 8) n) ((p ++ i) ++ q)
          ++ drop (length (p ++ i)) ((p ++ i) ++ q)))
        sizes
    ∙ ap
        (λ n. take 8 (
          take ((length p + length i) - min (n - 8) (length p + length i)) ((p ++ i) ++ q)
          ++ drop (length (p ++ i)) ((p ++ i) ++ q)))
        total
    ∙ kept_middle p i q h

accept-length : (value : Text) (anchor : ℕ) → length (accept value anchor).kept ≤ 8
unfolding accept
accept-length value anchor = length-take-le 8 (
    take (count value anchor - min (length (symbols_in value) - 8) (count value anchor))
      (symbols_in value)
    ++ drop (count value anchor) (symbols_in value))

shown-length :
    (kept : Text)
    → length kept ≤ 8
    → (length (shown kept) ≤ 9)
      × (length kept + (if ltb 4 (length kept) then 1 else 0) ≡ length (shown kept))
shown-length kept h = elim (Bool-cases (ltb 4 (length kept))) [
  | inr l ↦ rw l (omega arith, omega arith)
  | inl l ↦
      let one = length-append (take 4 kept) (codes "-" ++ drop 4 kept) in
      let two = length-append (take 4 kept) (drop 4 kept) in
      let three = ap length (take-append-drop 4 kept) in
      rw l (omega (arith, one, two, three), omega (arith, one, two, three))
]

mapped-within : (n m : ℕ) → n ≤ m → n + (if ltb 4 n then 1 else 0) ≤ m + (if ltb 4 m then 1 else 0)
mapped-within n m h = ground arith

-- The field shows nine characters at most, and its caret stands within them.
pub format_password_entry-within :
    (value : Text) (caret : ℕ)
    → (length (format_password_entry value caret).0 ≤ 9)
      × ((format_password_entry value caret).1 ≤ length (format_password_entry value caret).0)
unfolding format_password_entry
format_password_entry-within value caret =
    let a = accept value caret in
    let (small, whole) = shown-length a.kept (accept-length value caret) in
    let n = count value caret in
    let inner = if leb n (a.end - a.cut) then n else max (a.end - a.cut) (n - a.cut) in
    let le = mapped-within (min (length a.kept) inner) (length a.kept) (omega arith) in
    (small, subst (λ k. caret_of value a caret ≤ k) whole le)
