-- ===== src/Cli/Quotes.antt =====
-- Words in quotes, and what apps/server/src/cli/tokenize.mjs reads of them.
use vidvnc.Base.{
  ℕ, ◌≤◌, ◌≡◌, ◌∙◌, refl, sym, ap, true, false, ◌&&◌, List, [], ◌∷◌, ◌++◌, Text, ltb-false, ◌==◌,
  length, is_space, if◌then◌else◌, ok, arith, Bool-cases, inl, inr,
}
use vidvnc.Cli.Tokens.{
  max_line, quote_mark, backslash, is_special, Scan, read, scan, start, tokenize,
}

-- A word with its quotes and backslashes escaped.
abbrev pub escape : Text → Text
escape [] = []
escape (c ∷ s) = if is_special c then backslash ∷ c ∷ escape s else c ∷ escape s

abbrev pub quote : Text → Text
quote s = quote_mark ∷ (escape s ++ quote_mark ∷ [])

-- The words in quotes, each with a space behind it.
abbrev pub write : List Text → Text
write [] = []
write (t ∷ ts) = quote t ++ b' ' ∷ write ts

scan-plain :
    (c : ℕ) (rest : Text) (s : Scan)
    → (c == backslash) ≡ false
    → scan (c ∷ rest) s ≡ scan rest (read c s)
unfolding scan
scan-plain c [] s h = refl
scan-plain c (d ∷ rest) s h =
    let e : s.quoted && c == backslash && is_special d ≡ false = ground (arith, h) in
    rw (scan, e) refl

append_assoc {ℓ} : {A : Type ℓ} (xs ys zs : List A) → (xs ++ ys) ++ zs ≡ xs ++ (ys ++ zs)
append_assoc [] ys zs = refl
append_assoc (x ∷ xs) ys zs = ap (◌∷◌ x) (append_assoc xs ys zs)

-- The state inside of quotes.
abbrev inside_quotes : List Text → Text → Scan
inside_quotes tokens current = record {
  tokens = tokens;
  current = current;
  started = true;
  quoted = true;
}

abbrev after_quotes : List Text → Text → Scan
after_quotes tokens current = record {
  tokens = tokens;
  current = current;
  started = true;
  quoted = false;
}

append_nil {ℓ} : {A : Type ℓ} (xs : List A) → xs ++ [] ≡ xs
append_nil [] = refl
append_nil (x ∷ xs) = ap (◌∷◌ x) (append_nil xs)

scan-escaped :
    (d : ℕ) (rest : Text) (tokens : List Text) (current : Text)
    → is_special d ≡ true
    → scan (backslash ∷ d ∷ rest) (inside_quotes tokens current)
      ≡ scan rest (inside_quotes tokens (current ++ d ∷ []))
unfolding scan
scan-escaped d rest tokens current h = rw (scan, h) refl

read-character :
    (c : ℕ) (tokens : List Text) (current : Text)
    → (c == quote_mark) ≡ false
    → read c (inside_quotes tokens current) ≡ inside_quotes tokens (current ++ c ∷ [])
unfolding read
read-character c tokens current h = rw (read, h) refl

scan-escape :
    (t rest : Text) (tokens : List Text) (current : Text)
    → scan (escape t ++ quote_mark ∷ rest) (inside_quotes tokens current)
      ≡ scan rest (after_quotes tokens (current ++ t))
unfolding read
scan-escape [] rest tokens current =
    scan-plain quote_mark rest (inside_quotes tokens current) refl
    ∙ ap (λ x. scan rest (after_quotes tokens x)) (sym (append_nil current))
scan-escape (c ∷ t) rest tokens current =
    let joined : scan rest (after_quotes tokens ((current ++ c ∷ []) ++ t))
        ≡ scan rest (after_quotes tokens (current ++ c ∷ t)) =
      ap (λ x. scan rest (after_quotes tokens x)) (append_assoc current (c ∷ []) t) in
    let onward = scan-escape t rest tokens (current ++ c ∷ []) in
    elim (Bool-cases (is_special c)) [
      | inl e ↦
          rw (e)
            (scan-escaped c (escape t ++ quote_mark ∷ rest) tokens current e ∙ (onward ∙ joined))
      | inr e ↦
          let no_mark : (c == quote_mark) ≡ false = ground (arith, e) in
          let no_slash : (c == backslash) ≡ false = ground (arith, e) in
          rw (e) (
            scan-plain c (escape t ++ quote_mark ∷ rest) (inside_quotes tokens current) no_slash
            ∙ (ap (scan (escape t ++ quote_mark ∷ rest)) (read-character c tokens current no_mark)
                ∙ (onward ∙ joined)))
    ]

-- A word in quotes and its space
scan-quote :
    (t rest : Text) (tokens : List Text)
    → scan (quote t ++ b' ' ∷ rest) (start tokens) ≡ scan rest (start (tokens ++ t ∷ []))
unfolding read is_space
scan-quote t rest tokens =
    let shape : quote t ++ b' ' ∷ rest ≡ quote_mark ∷ (escape t ++ quote_mark ∷ b' ' ∷ rest) =
      ap (◌∷◌ quote_mark) (append_assoc (escape t) (quote_mark ∷ []) (b' ' ∷ rest)) in
    ap (λ x. scan x (start tokens)) shape
    ∙ (scan-plain quote_mark (escape t ++ quote_mark ∷ b' ' ∷ rest) (start tokens) refl
        ∙ (scan-escape t (b' ' ∷ rest) tokens []
            ∙ scan-plain b' ' rest (after_quotes tokens t) refl))

scan-write : (ts tokens : List Text) → scan (write ts) (start tokens) ≡ start (tokens ++ ts)
unfolding scan
scan-write [] tokens = ap start (sym (append_nil tokens))
scan-write (t ∷ ts) tokens =
    scan-quote t (write ts) tokens
    ∙ (scan-write ts (tokens ++ t ∷ []) ∙ ap start (append_assoc tokens (t ∷ []) ts))

-- Any words, written in quotes with their quotes and backslashes escaped, are read back as they were,
-- where the line is within the limit.
pub tokenize-write : (ts : List Text) → length (write ts) ≤ max_line → tokenize (write ts) ≡ ok ts
unfolding tokenize
tokenize-write ts h =
    let short = ltb-false max_line (length (write ts)) h in
    let read_back = scan-write ts [] in rw (tokenize, short, read_back) refl
