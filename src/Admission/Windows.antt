-- ===== src/Admission/Windows.antt =====
-- The sliding windows of apps/server/src/admission-budget.mjs: a window's times against the times of all
-- that was let through.
use vidvnc.Base.{
  ℕ, ◌+◌, ◌-◌, ◌≤◌, ◌<◌, ◌≡◌, refl, Bool, ◌&&◌, List, [], ◌∷◌, ◌++◌, leb, ltb, length, keep, All,
  arith, Bool-cases, inl, inr,
}
use vidvnc.Admission.State.{recent}

-- How many of the times lie in the span that begins after.
abbrev pub count_in : (from window : ℕ) → List ℕ → ℕ
count_in from window times = length (keep (λ x. leb from x && ltb x (from + window)) times)

abbrev pub Past : ℕ → List ℕ → Type 0
Past now log = All (λ x. x ≤ now) log

length-keep-append :
    (p : ℕ → Bool) (xs ys : List ℕ)
    → length (keep p (xs ++ ys)) ≡ length (keep p xs) + length (keep p ys)
length-keep-append p [] ys = omega arith
length-keep-append p (x ∷ xs) ys = ground (arith, length-keep-append p xs ys)

-- A later look at what an earlier look has left
recent-recent :
    (times : List ℕ) (now after window : ℕ)
    → now ≤ after
    → recent (recent times now window) after window ≡ recent times after window
unfolding recent
recent-recent [] now after window h = refl
recent-recent (x ∷ xs) now after window h = ground (arith, recent-recent xs now after window h)

count_in-le-recent :
    (log : List ℕ) (from now window : ℕ)
    → Past now log
    → now < from + window
    → count_in from window log ≤ length (recent log now window)
unfolding recent
count_in-le-recent [] from now window past h = omega arith
count_in-le-recent (x ∷ xs) from now window (p, past) h =
    ground (arith, count_in-le-recent xs from now window past h)

-- A window that has kept what counts of a log, which is within the limit wherever a span begins.
pub record Paced (limit window now : ℕ) (global log : List ℕ) : Type 0 where
  pub kept :
      (after : ℕ)
      → now ≤ after
      → length (recent log after window) ≤ length (recent global after window)
  pub past : Past now log
  pub bounded : (from : ℕ) → count_in from window log ≤ limit

Past-later : (now after : ℕ) (log : List ℕ) → now ≤ after → Past now log → Past after log
Past-later now after [] h p = tt
Past-later now after (x ∷ log) h (p, ps) = (omega arith, Past-later now after log h ps)

-- Time goes by.
pub Paced-later :
    (limit window now after : ℕ) (global log : List ℕ)
    → now ≤ after
    → Paced limit window now global log
    → Paced limit window after global log
Paced-later limit window now after global log h p = record {
  kept = λ t le. p.kept t (omega arith);
  past = Past-later now after log h p.past;
  bounded = p.bounded;
}

-- The window forgets what is over.
pub Paced-recent :
    (limit window now : ℕ) (global log : List ℕ)
    → Paced limit window now global log
    → Paced limit window now (recent global now window) log
Paced-recent limit window now global log p = record {
  kept = λ t le. rw (recent-recent global now t window le) (p.kept t le);
  past = p.past;
  bounded = p.bounded;
}

length-recent-append :
    (times : List ℕ) (x after window : ℕ)
    → length (recent (times ++ x ∷ []) after window)
      ≡ length (recent times after window) + length (recent (x ∷ []) after window)
unfolding recent
length-recent-append times x after window =
    length-keep-append (λ t. ltb (after - t) window) times (x ∷ [])

length-recent-cons :
    (x : ℕ) (log : List ℕ) (after window : ℕ)
    → length (recent (x ∷ log) after window)
      ≡ length (recent (x ∷ []) after window) + length (recent log after window)
unfolding recent
length-recent-cons x log after window = ground arith

-- The window lets one through, which is logged or not.
pub Paced-push :
    (limit window now : ℕ) (global log : List ℕ)
    → length (recent global now window) < limit
    → Paced limit window now global log
    → Paced limit window now (recent global now window ++ now ∷ []) log
Paced-push limit window now global log h p = record {
  kept = λ t le.
      let less = p.kept t le in
      rw
        (
          length-recent-append (recent global now window) now t window,
          recent-recent global now t window le,
        )
        (omega (arith, less));
  past = p.past;
  bounded = p.bounded;
}

count_in-cons :
    (from window now : ℕ) (log : List ℕ) (limit : ℕ)
    → Past now log
    → length (recent log now window) < limit
    → count_in from window log ≤ limit
    → count_in from window (now ∷ log) ≤ limit
count_in-cons from window now log limit past h old =
    elim (Bool-cases (leb from now && ltb now (from + window))) [
      | inr e ↦ rw (e) old
      | inl e ↦
          let less = count_in-le-recent log from now window past (ground (arith, e)) in
          rw (e) (omega (arith, less, h))
    ]

pub Paced-admit :
    (limit window now : ℕ) (global log : List ℕ)
    → length (recent global now window) < limit
    → Paced limit window now global log
    → Paced limit window now (recent global now window ++ now ∷ []) (now ∷ log)
Paced-admit limit window now global log h p = record {
  kept = λ t le.
      let less = p.kept t le in
      rw
        (
          length-recent-append (recent global now window) now t window,
          recent-recent global now t window le,
          length-recent-cons now log t window,
        )
        (omega (arith, less));
  past = (omega arith, p.past);
  bounded = λ from.
      count_in-cons from window now log limit p.past
        (let less = p.kept now (omega arith) in omega (arith, less, h)) (p.bounded from);
}
