-- ===== src/Relay/Windows.antt =====
-- The counts of a second (apps/server/src/media-relay/relay.mjs).
use mathlib.Core.Logic.{ite}
use vidvnc.Base.{
  ℕ, ◌+◌, ◌≤◌, ◌<◌, ◌≡◌, refl, subst, Bool, true, some, List, [], ◌∷◌, Text, leb, ltb, arith, inl,
  inr, Bool-cases, Option-cases, dec_text, find, ◌++◌,
}
use vidvnc.Base.Table.{Table, get, set, get-set}
use vidvnc.Peers.Addresses.{source_group}
use vidvnc.Relay.State.{Limits, Window, Relay}
use vidvnc.Relay.Traffic.{count_of, current_window, hint_lane, spend, ids_of}
use vidvnc.Relay.Receiving.{charge}

-- No count of the table is above `n`.
abbrev pub Below : ℕ → Table ℕ → Type 0
Below n t = (k : Text) → count_of k t ≤ n

-- A window within the limits, in each of its three counts.
pub record Within (l : Limits) (w : Window) : Type 0 where
  pub total-le : w.total ≤ l.stranger_total
  pub sources-Below : Below l.stranger_per_source w.per_source
  pub registrations-Below : Below l.hint_lane_per_second w.per_registration

count_of-set :
    (j k : Text) (n : ℕ) (t : Table ℕ)
    → count_of j (set k n t) ≡ ite (dec_text k j) n (count_of j t)
count_of-set j k n t = rw (count_of, get-set j k n t) (ground arith)

set-Below : (n m : ℕ) (k : Text) (t : Table ℕ) → m ≤ n → Below n t → Below n (set k m t)
set-Below n m k t h b j = let old = b j in ground (arith, count_of-set j k m t)

pub count_of-empty : (n : ℕ) → Below n []
unfolding get
count_of-empty n k = omega arith

pub current_window-Within :
    (l : Limits) (w : Window) (now : ℕ) → Within l w → Within l (current_window w now)
unfolding current_window
current_window-Within l w now h = elim (Option-cases w.start) [
  | inl e ↦ rw (e) (record {
    total-le = omega arith;
    sources-Below = count_of-empty l.stranger_per_source;
    registrations-Below = count_of-empty l.hint_lane_per_second;
  })
  | inr (start, e) ↦ elim (Bool-cases (leb (start + 1000) now)) [
    | inl b ↦
        rw (e, b)
          (record {
            total-le = omega arith;
            sources-Below = count_of-empty l.stranger_per_source;
            registrations-Below = count_of-empty l.hint_lane_per_second;
          })
    | inr b ↦
        subst (Within l)
          (let same_window : w ≡ current_window w now = ground (arith, e, b) in same_window) h
  ]
]

find-holds {ℓ} : {A : Type ℓ} (p : A → Bool) (xs : List A) (x : A) → find p xs ≡ some x → p x ≡ true
find-holds p [] x h = cc
find-holds p (y ∷ ys) x h = elim (Bool-cases (p y)) [
  | inl e ↦ let one : y ≡ x = ground (arith, e) in subst (λ z. p z ≡ true) one e
  | inr e ↦ find-holds p ys x (rw (e) at h)
]

pub spend-Within :
    (l : Limits) (w : Window) (hinted : List Text) (group : Text)
    → Within l w
    → Within l (spend l w hinted group).0
unfolding spend hint_lane
spend-Within l w hinted group h =
    elim (Option-cases (hint_lane l.hint_lane_per_second w.per_registration hinted)) [
      | inr (id, e) ↦
          let room =
            find-holds (λ i. ltb (count_of i w.per_registration) l.hint_lane_per_second) hinted id
              e in
          rw (spend, e)
            (record {
              total-le = h.total-le;
              sources-Below = h.sources-Below;
              registrations-Below =
                  set-Below l.hint_lane_per_second (count_of id w.per_registration + 1) id
                    w.per_registration (ground (arith, room)) h.registrations-Below;
            })
      | inl e ↦ elim (Bool-cases (leb l.stranger_total w.total)) [
        | inl t ↦ rw (spend, e, t) h
        | inr t ↦ elim (Bool-cases (leb l.stranger_per_source (count_of group w.per_source))) [
          | inl s ↦ rw (spend, e, t, s) h
          | inr s ↦
              rw (spend, e, t, s)
                (record {
                  total-le = ground (arith, t);
                  sources-Below =
                      set-Below l.stranger_per_source (count_of group w.per_source + 1) group
                        w.per_source (ground (arith, s)) h.sources-Below;
                  registrations-Below = h.registrations-Below;
                })
        ]
      ]
    ]

find-some {ℓ} :
    {A : Type ℓ} (p : A → Bool) (xs ys : List A) (x : A)
    → p x ≡ true
    → (y : A) × (find p (xs ++ x ∷ ys) ≡ some y)
find-some p [] ys x h = (x, rw (h) refl)
find-some p (z ∷ xs) ys x h = elim (Bool-cases (p z)) [
  | inl e ↦ (z, rw (e) refl)
  | inr e ↦ let (y, f) = find-some p xs ys x h in (y, rw (e) f)
]

-- A datagram from the hinted source of a registration is within the budget as long as that
-- registration's own lane has room in this second, whatever other senders have used up.
pub charge-hinted :
    (is_ip : Text → ℕ) (r : Relay) (plain id : Text) (now : ℕ) (before after : List Text)
    → ids_of (source_group is_ip plain) r.by_hint ≡ before ++ id ∷ after
    → count_of id (current_window r.window now).per_registration < r.limits.hint_lane_per_second
    → (charge is_ip r plain now).1 ≡ true
unfolding charge spend hint_lane
charge-hinted is_ip r plain id now before after h room =
    let w : Window = current_window r.window now in
    let lane : Text → Bool =
      λ i. ltb (count_of i w.per_registration) r.limits.hint_lane_per_second in
    let (y, found) = find-some lane before after id (ground (arith, room)) in
    rw (charge, h, spend, found) refl
