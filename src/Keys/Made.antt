-- ===== src/Keys/Made.antt =====
-- The keys that the registry makes up, and what `create` does to it.
use vidvnc.Base.{
  ℕ, zero, suc, ◌≡◌, refl, sym, ap, subst, true, Option, none, some, List, [], ◌∷◌, ◌++◌, Text,
  codes, get_elem?, take, drop, length, if◌then◌else◌, Result, ok, err, arith, inl, inr, Bool-cases,
  Option-cases, All, same, all,
}
use vidvnc.Base.Table.{Table, get, set}
use vidvnc.Keys.Password.{is_symbol}
use vidvnc.Keys.Forms.{IsNormal}
use vidvnc.Keys.Codes.{
  Keys, KeyRecord, KeyError, Purpose, Usage, AttemptLimits, invalid_lifetime, invalid_alphabet,
  invalid_limits, no_more_bytes, alphabet_symbols, random_index, draw, generate, valid_limits,
  bad_lifetime, is_single,
}
use vidvnc.Keys.Registry.{unused_key, forget, create}

abbrev IsSymbol : ℕ → Type 0
IsSymbol c = is_symbol c ≡ true

get_elem?-All : (l : Text) (i c : ℕ) → All IsSymbol l → get_elem? l i ≡ some c → IsSymbol c
get_elem?-All [] i c h e = cc
get_elem?-All (x ∷ l) zero c (h, hs) e = ground arith
get_elem?-All (x ∷ l) (suc i) c (h, hs) e = get_elem?-All l i c hs e

draw-All :
    (n : ℕ) (symbols raw : Text) (bytes rest : List ℕ)
    → All IsSymbol symbols
    → draw n symbols bytes ≡ some (raw, rest)
    → All IsSymbol raw × (length raw ≡ n)
unfolding draw
draw-All zero symbols raw bytes rest h e =
    let none_drawn : [] ≡ raw = ground arith in
    (subst (All IsSymbol) none_drawn tt, omega (arith, ap length (sym none_drawn)))
draw-All (suc n) symbols raw bytes rest h e =
    elim (Option-cases (random_index (length symbols) bytes)) [
      | inl m ↦ absurd (ground arith)
      | inr ((i, bytes'), m) ↦ elim (Option-cases (get_elem? symbols i)) [
        | inl m' ↦ absurd (ground arith)
        | inr (c, m') ↦ elim (Option-cases (draw n symbols bytes')) [
          | inl m'' ↦ absurd (ground arith)
          | inr ((raw', rest'), m'') ↦
              let (later, long) = draw-All n symbols raw' bytes' rest' h m'' in
              let here : raw ≡ c ∷ raw' = ground arith in
              (
                subst (All IsSymbol) (sym here) (get_elem?-All symbols i c h m', later),
                ground (arith, here, long),
              )
        ]
      ]
    ]

all-All : (l : Text) → all is_symbol l ≡ true → All IsSymbol l
all-All [] h = tt
all-All (c ∷ l) h = (ground arith, all-All l (ground arith))

alphabet_symbols-All :
    (name symbols : Text) → alphabet_symbols name ≡ some symbols → All IsSymbol symbols
unfolding alphabet_symbols is_symbol
alphabet_symbols-All name symbols h = elim (Bool-cases (same name (codes "letters-digits"))) [
  | inl e ↦
      let here : codes "23456789ABCDEFGHJKMNPQRSTUVWXYZ" ≡ symbols = ground arith in
      subst (All IsSymbol) here (all-All (codes "23456789ABCDEFGHJKMNPQRSTUVWXYZ") refl)
  | inr e ↦
      let here : codes "ABCDEFGHJKMNPQRSTUVWXYZ" ≡ symbols = ground arith in
      subst (All IsSymbol) here (all-All (codes "ABCDEFGHJKMNPQRSTUVWXYZ") refl)
]

eight-IsNormal :
    (raw : Text) → All IsSymbol raw → length raw ≡ 8 → IsNormal (take 4 raw ++ b'-' ∷ drop 4 raw)
eight-IsNormal (a ∷ b ∷ c ∷ d ∷ e ∷ f ∷ g ∷ h ∷ [])
      (pa, (pb, (pc, (pd, (pe, (pf, (pg, (ph, _)))))))) q =
    record {
      left = a ∷ b ∷ c ∷ d ∷ [];
      right = e ∷ f ∷ g ∷ h ∷ [];
      left_four = (a, b, c, d, refl, pa, pb, pc, pd);
      right_four = (e, f, g, h, refl, pe, pf, pg, ph);
      whole = refl;
    }
eight-IsNormal _ _ q = absurd (omega arith)

generate-IsNormal :
    (symbols key : Text) (bytes rest : List ℕ)
    → All IsSymbol symbols
    → generate symbols bytes ≡ some (key, rest)
    → IsNormal key
unfolding generate
generate-IsNormal symbols key bytes rest h e = elim (Option-cases (draw 8 symbols bytes)) [
  | inl m ↦ absurd (ground arith)
  | inr ((raw, rest'), m) ↦
      let (good, long) = draw-All 8 symbols raw bytes rest' h m in
      subst IsNormal (ground arith) (eight-IsNormal raw good long)
]

unused_key-IsNormal :
    (digest : Text → Text) (n : ℕ) (t : Table KeyRecord) (symbols key : Text) (bytes : List ℕ)
    → All IsSymbol symbols
    → unused_key digest n t symbols bytes ≡ some key
    → IsNormal key × (get (digest key) t ≡ none)
unfolding unused_key
unused_key-IsNormal digest zero t symbols key bytes h e = cc
unused_key-IsNormal digest (suc n) t symbols key bytes h e =
    elim (Option-cases (generate symbols bytes)) [
      | inl m ↦ absurd (ground arith)
      | inr ((made, rest), m) ↦ elim (Option-cases (get (digest made) t)) [
        | inl free ↦
            let here : made ≡ key = ground arith in
            (subst IsNormal here (generate-IsNormal symbols made bytes rest h m), ground arith)
        | inr (r, taken) ↦ unused_key-IsNormal digest n t symbols key rest h (ground arith)
      ]
    ]

-- What `create` does: it throws on what it is given, or the bytes run out, or it makes a key that
-- no record has yet.
pub data Created (digest : Text → Text) (self : Keys) (purpose : Purpose) (usage : Usage)
    (out : Keys × Result KeyError (Text × KeyRecord)) : Type 0 where
  refused : (e : KeyError) → out ≡ (self, err e) → Created digest self purpose usage out
  starved :
      out ≡ (
        record self {
          records =
              if is_single usage
              then forget digest self.ephemeral_key self.records
              else self.records;
        },
        err no_more_bytes,
      )
      → Created digest self purpose usage out
  made :
      (key : Text) (r : KeyRecord)
      → out ≡ (
        record self {
          records = set (digest key) r (
              if is_single usage
              then forget digest self.ephemeral_key self.records
              else self.records);
          ephemeral_key = if is_single usage then some key else self.ephemeral_key;
        },
        ok (key, r),
      )
      → IsNormal key
      → get
          (digest key)
          (if is_single usage then forget digest self.ephemeral_key self.records else self.records)
        ≡ none
      → (r.purpose ≡ purpose) × (r.usage ≡ usage)
      → Created digest self purpose usage out

pub create-Created :
    (digest : Text → Text) (self : Keys) (purpose : Purpose) (ttl : Option ℕ) (usage : Usage)
    (alphabet : Text) (limits : AttemptLimits) (now : ℕ) (bytes : List ℕ) (generation : Text)
    → Created digest self purpose usage
        (create digest self purpose ttl usage alphabet limits now bytes generation)
unfolding create
create-Created digest self purpose ttl usage alphabet limits now bytes generation =
    elim (Bool-cases (bad_lifetime ttl)) [
      | inl e ↦ rw (e, create) (refused invalid_lifetime refl)
      | inr e ↦ elim (Option-cases (alphabet_symbols alphabet)) [
        | inl e' ↦ rw (e, create, e') (refused invalid_alphabet refl)
        | inr (symbols, e') ↦ elim (Bool-cases (valid_limits limits)) [
          | inr e'' ↦ rw (e, create, e', e'') (refused invalid_limits refl)
          | inl e'' ↦
              let base =
                if is_single usage
                then forget digest self.ephemeral_key self.records
                else self.records in
              elim (Option-cases (unused_key digest (suc (length bytes)) base symbols bytes)) [
                | inl u ↦ rw (e, create, e', e'', u) (starved refl)
                | inr (key, u) ↦
                    let (normal, free) =
                      unused_key-IsNormal digest (suc (length bytes)) base symbols key bytes
                        (alphabet_symbols-All alphabet symbols e') u in
                    rw (e, create, e', e'', u) (made key _ refl normal free (refl, refl))
              ]
        ]
      ]
    ]
