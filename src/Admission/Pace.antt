-- ===== src/Admission/Pace.antt =====
-- How many requests of a kind get through in a minute (apps/server/src/admission-budget.mjs).
use vidvnc.Base.{
  ℕ, ◌≤◌, ◌<◌, ◌≡◌, ◌≢◌, ◌⊎◌, refl, true, false, List, [], ◌∷◌, ◌++◌, Text, leb, length, arith,
  Bool-cases, inl, inr, dec_text,
}
use mathlib.Core.Logic.{ite}
use vidvnc.Base.Table.{set, get-set}
use vidvnc.Peers.Addresses.{source_group}
use vidvnc.Admission.State.{
  AdmissionBudget, Rolling, recent, bounded_row, later, roll, rolling_of, reserve_rolling,
}
use vidvnc.Admission.Windows.{Paced, Paced-later, Paced-recent, Paced-push, Paced-admit}

abbrev pub global_of : AdmissionBudget → Text → List ℕ
global_of b kind = (rolling_of b kind).global

-- A budget that differs from another in no window, and whose clock may be ahead.
pub record Follows (b b' : AdmissionBudget) : Type 0 where
  pub same_windows : (kind : Text) → global_of b' kind ≡ global_of b kind
  pub same_clock : b.last_now ≤ b'.last_now

pub Follows-refl : (b : AdmissionBudget) → Follows b b
Follows-refl b = record { same_windows = λ k. refl; same_clock = omega arith }

pub later-le : (a b : ℕ) → a ≤ later a b
later-le a b = ground arith

pub global_of-set :
    (b : AdmissionBudget) (j k : Text) (w : Rolling) (now : ℕ)
    → global_of (record b { last_now = now; rolling = set k w b.rolling }) j
      ≡ ite (dec_text k j) w.global (global_of b j)
global_of-set b j k w now = rw (global_of, rolling_of, get-set j k w b.rolling) (ground arith)

module _ (is_ip : Text → ℕ) where
  -- How `roll` leaves the window over all sources.
  roll-cases :
      (max : ℕ) (w : Rolling) (source : Text) (global_limit source_limit window now : ℕ)
      → (((roll is_ip max w source global_limit source_limit window now).1 ≡ true)
          × ((roll is_ip max w source global_limit source_limit window now).0.global
              ≡ recent w.global now window ++ now ∷ [])
          × (length (recent w.global now window) < global_limit))
        ⊎ (((roll is_ip max w source global_limit source_limit window now).1 ≡ false)
            × ((roll is_ip max w source global_limit source_limit window now).0.global
                ≡ recent w.global now window))
  unfolding roll
  roll-cases max w source global_limit source_limit window now =
      let (sources, times) = bounded_row max w.sources (source_group is_ip source) [] in
      elim (Bool-cases (leb global_limit (length (recent w.global now window)))) [
        | inl e ↦ inr (rw (roll, e) refl, rw (roll, e) refl)
        | inr e ↦ elim (Bool-cases (leb source_limit (length (recent times now window)))) [
          | inl f ↦ inr (rw (roll, e, f) refl, rw (roll, e, f) refl)
          | inr f ↦ inl (rw (roll, e, f) refl, rw (roll, e, f) refl, ground (arith, e))
        ]
      ]

  -- The windows of one kind, where that kind is asked for.
  pub roll-Paced :
      (max : ℕ) (w : Rolling) (source : Text) (limit source_limit window was now : ℕ) (log : List ℕ)
      → was ≤ now
      → Paced limit window was w.global log
      → Paced limit window now (roll is_ip max w source limit source_limit window now).0.global log
        × ((roll is_ip max w source limit source_limit window now).1 ≡ true
            → Paced limit window now
                (roll is_ip max w source limit source_limit window now).0.global
                (now ∷ log))
  roll-Paced max w source limit source_limit window was now log h p =
      let here = Paced-later limit window was now w.global log h p in
      elim (roll-cases max w source limit source_limit window now) [
        | inl (e, g, room) ↦ (
          rw (g) (Paced-push limit window now w.global log room here),
          λ f. rw (g) (Paced-admit limit window now w.global log room here),
        )
        | inr (e, g) ↦ (
          rw (g) (Paced-recent limit window now w.global log here),
          λ f. absurd (ground (arith, e, f)),
        )
      ]

  pub reserve-Paced_own :
      (b : AdmissionBudget) (kind source : Text) (limit source_limit window time : ℕ) (log : List ℕ)
      → Paced limit window b.last_now (global_of b kind) log
      → Paced limit window
          (reserve_rolling is_ip b kind source limit source_limit window time).0.last_now
          (global_of (reserve_rolling is_ip b kind source limit source_limit window time).0 kind)
          log
        × ((reserve_rolling is_ip b kind source limit source_limit window time).1 ≡ true
            → Paced limit window
                (reserve_rolling is_ip b kind source limit source_limit window time).0.last_now
                (global_of
                  (reserve_rolling is_ip b kind source limit source_limit window time).0
                  kind)
                (later b.last_now time ∷ log))
  unfolding reserve_rolling
  reserve-Paced_own b kind source limit source_limit window time log p =
      let now : ℕ = later b.last_now time in
      let w : Rolling =
        (roll is_ip b.max_sources (rolling_of b kind) source limit source_limit window now).0 in
      let e : global_of (record b { last_now = now; rolling = set kind w b.rolling }) kind
          ≡ w.global =
        ground (arith, global_of-set b kind kind w now) in
      rw (e) (
        roll-Paced b.max_sources (rolling_of b kind) source limit source_limit window b.last_now now
          log (later-le b.last_now time) p)

  pub reserve-Paced_other :
      (b : AdmissionBudget) (kind k source : Text)
      (limit global_limit source_limit window span time : ℕ) (log : List ℕ)
      → kind ≢ k
      → Paced limit window b.last_now (global_of b k) log
      → Paced limit window
          (reserve_rolling is_ip b kind source global_limit source_limit span time).0.last_now
          (global_of (reserve_rolling is_ip b kind source global_limit source_limit span time).0 k)
          log
  unfolding reserve_rolling
  reserve-Paced_other b kind k source limit global_limit source_limit window span time log ne p =
      let now : ℕ = later b.last_now time in
      let w : Rolling =
        (roll is_ip b.max_sources (rolling_of b kind) source global_limit source_limit span
          now).0 in
      let e : global_of (record b { last_now = now; rolling = set kind w b.rolling }) k
          ≡ global_of b k =
        ground (arith, global_of-set b k kind w now) in
      rw (e)
        (Paced-later limit window b.last_now now (global_of b k) log (later-le b.last_now time) p)
