-- ===== src/Keys/Draws.antt =====
-- New keys and the drawing of their symbols (`#create` and `randomIndex` of
-- apps/server/src/connection-keys.mjs).
use vidvnc.Base.{
  ℕ, zero, suc, ◌+◌, ◌/◌, ◌<◌, ◌≡◌, refl, subst, Bool, true, false, ◌&&◌, Option, none, some, List,
  [], ◌∷◌, Text, codes, length, if◌then◌else◌, ok, arith, inl, inr, Bool-cases, ◌==◌, ==→≡, same,
}
use vidvnc.Base.Table.{get, get-set}
use vidvnc.Keys.Password.{is_valid_password_format}
use vidvnc.Keys.Forms.{normalize_password-canonical, normalize_password_normal}
use vidvnc.Keys.Codes.{
  Keys, KeyRecord, Purpose, Usage, AttemptLimits, is_single, expired, random_index,
  alphabet_symbols,
}
use vidvnc.Keys.Registry.{create, forget, inspect}
use vidvnc.Keys.Made.{refused, starved, made, create-Created}
use vidvnc.Keys.Histories.{inspect-eq-some_iff}

-- A key that `#create` returns has the format of a password and the purpose and usage that it was made for,
-- and in the registry as `#create` leaves it, where no other call has come in between, `inspect` accepts it
-- at any time at which its record has not expired, and returns that record.
pub create-inspect :
    (digest : Text → Text) (self next : Keys) (purpose : Purpose) (ttl : Option ℕ) (usage : Usage)
    (alphabet : Text) (limits : AttemptLimits) (now : ℕ) (bytes : List ℕ) (generation key : Text)
    (r : KeyRecord) (later : ℕ)
    → create digest self purpose ttl usage alphabet limits now bytes generation
      ≡ (next, ok (key, r))
    → expired later r ≡ false
    → ((inspect digest next key later).1 ≡ some r)
      × (is_valid_password_format key ≡ true)
      × (r.purpose ≡ purpose)
      × (r.usage ≡ usage)
create-inspect digest self next purpose ttl usage alphabet limits now bytes generation key r later h
      live =
    elim (create-Created digest self purpose ttl usage alphabet limits now bytes generation) [
      | refused e h' ↦ absurd (ground arith)
      | starved h' ↦ absurd (ground arith)
      | made k x h' normal free (p, u) ↦
          let same_key : k ≡ key = ground arith in
          let same_record : x ≡ r = ground arith in
          let n = normalize_password_normal k normal in
          let held : get (digest key) next.records ≡ some r = ground (
            arith,
            get-set (digest k) (digest k) x (
                if is_single usage
                then forget digest self.ephemeral_key self.records
                else self.records),
          ) in
          (
            (inspect-eq-some_iff digest next key later r).1 (key, cc (n, same_key), held, live),
            cc ((normalize_password-canonical k k n).0, same_key),
            cc (p, same_record),
            cc (u, same_record),
          )
    ]

-- How many of the bytes below `n` give the index `i` at once.
unfoldable pub hits : ℕ → ℕ → ℕ → ℕ
unfolding random_index
hits zero limit i = 0
hits (suc n) limit i =
    (elim (random_index limit (n ∷ [])) [ none ↦ 0 | some (j, rest) ↦ if j == i then 1 else 0 ])
    + hits n limit i

-- The test holds of every index before the length.
each_index : (ℕ → Bool) → (length : ℕ) → Bool
each_index test zero = true
each_index test (suc k) = each_index test k && test k

each_index-at : (test : ℕ → Bool) (k i : ℕ) → i < k → each_index test k ≡ true → test i ≡ true
unfolding each_index
each_index-at test zero i before holds = absurd (omega arith)
each_index-at test (suc k) i before holds = ground (arith, each_index-at test k i)

even_31 : each_index (λ i. hits 256 31 i == 8) 31 ≡ true
unfolding each_index hits
even_31 = refl

even_23 : each_index (λ i. hits 256 23 i == 11) 23 ≡ true
unfolding each_index hits
even_23 = refl

-- The symbols of an alphabet are drawn evenly: of the 256 bytes, each symbol's index is given by as
-- many as each other's, the whole part of 256 divided by the number of symbols.
pub random_index_even :
    (name symbols : Text) (i : ℕ)
    → alphabet_symbols name ≡ some symbols
    → i < length symbols
    → hits 256 (length symbols) i ≡ 256 / length symbols
unfolding alphabet_symbols
random_index_even name symbols i h lt = elim (Bool-cases (same name (codes "letters-digits"))) [
  | inl e ↦
      let here : 31 ≡ length symbols = ground arith in
      subst (λ n. hits 256 n i ≡ 256 / n) here
        (==→≡ _ 8 (each_index-at (λ j. hits 256 31 j == 8) 31 i (omega (arith, here)) even_31))
  | inr e ↦
      let here : 23 ≡ length symbols = ground arith in
      subst (λ n. hits 256 n i ≡ 256 / n) here
        (==→≡ _ 11 (each_index-at (λ j. hits 256 23 j == 11) 23 i (omega (arith, here)) even_23))
]
