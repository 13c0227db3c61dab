-- ===== src/Keys/Records.antt =====
-- The invariant of the registry of keys, and the changes of its records
-- (apps/server/src/connection-keys.mjs).
use vidvnc.Base.{
  ◌≡◌, ◌≢◌, refl, subst, true, false, not, Option, none, some, [], ◌∷◌, Text, if◌then◌else◌, arith,
  inl, inr, Bool-cases, dec_text,
}
use vidvnc.Base.Table.{
  Table, get, set, delete, get-set, get-delete, get-Fresh, IsMap, set-IsMap, delete-IsMap, Fresh,
}
use vidvnc.Keys.Forms.{IsNormal}
use vidvnc.Keys.Codes.{
  Keys, KeyRecord, Purpose, Usage, is_single, is_session, is_key, same_purpose, delete_purpose,
}
use vidvnc.Keys.Registry.{forget}

pub get-delete_purpose :
    (p : Purpose) (l : Text) (t : Table KeyRecord) (r : KeyRecord)
    → IsMap t
    → get l (delete_purpose p t) ≡ some r
    → (get l t ≡ some r) × (same_purpose r.purpose p ≡ false)
unfolding get delete_purpose
get-delete_purpose p l [] r m h = cc
get-delete_purpose p l ((k, x) ∷ t) r (fresh, m) h = elim (Bool-cases (same_purpose x.purpose p)) [
  | inl e ↦
      let (held, other) = get-delete_purpose p l t r m (ground arith) in
      (ground (arith, get-Fresh k t fresh), other)
  | inr e ↦ elim (dec_text k l) [
    | yes q ↦ (ground arith, ground arith)
    | no q ↦
        let (held, other) = get-delete_purpose p l t r m (ground arith) in (ground arith, other)
  ]
]

pub Fresh-delete_purpose :
    (p : Purpose) (l : Text) (t : Table KeyRecord) → Fresh l t → Fresh l (delete_purpose p t)
unfolding delete_purpose
Fresh-delete_purpose p l [] f = tt
Fresh-delete_purpose p l ((k, x) ∷ t) f = ground (arith, Fresh-delete_purpose p l t)

pub delete_purpose-IsMap :
    (p : Purpose) (t : Table KeyRecord) → IsMap t → IsMap (delete_purpose p t)
unfolding delete_purpose
delete_purpose-IsMap p [] m = tt
delete_purpose-IsMap p ((k, x) ∷ t) m =
    ground (arith, delete_purpose-IsMap p t, Fresh-delete_purpose p k t)

pub cleared-ephemeral :
    (old : Option Text) (key k : Text)
    → (if is_key old key then none else old) ≡ some k
    → old ≡ some k
cleared-ephemeral none key k h = cc
cleared-ephemeral (some x) key k h = ground arith

module _ (digest : Text → Text) where
  pub record IsSound (self : Keys) : Type 0 where
    -- A short code's record stands under the one short code, a standing key's under the one
    -- standing key.
    pub single :
        (l : Text) (r : KeyRecord)
        → get l self.records ≡ some r
        → is_single r.usage ≡ true
        → (key : Text) × (self.ephemeral_key ≡ some key) × (digest key ≡ l)
    pub multi :
        (l : Text) (r : KeyRecord)
        → get l self.records ≡ some r
        → is_single r.usage ≡ false
        → (key : Text) × (self.session_key ≡ some key) × (digest key ≡ l)
    pub purposes :
        (l : Text) (r : KeyRecord)
        → get l self.records ≡ some r
        → is_session r.purpose ≡ not (is_single r.usage)
    pub distinct : IsMap self.records
    pub normal_session : (key : Text) → self.session_key ≡ some key → IsNormal key
    pub normal_ephemeral : (key : Text) → self.ephemeral_key ≡ some key → IsNormal key

  pub get-forget :
      (l : Text) (key : Option Text) (t : Table KeyRecord) (r : KeyRecord)
      → get l (forget digest key t) ≡ some r
      → get l t ≡ some r
  get-forget l none t r h = h
  get-forget l (some key) t r h = ground (arith, get-delete l (digest key) t)

  pub forget-IsMap :
      (key : Option Text) (t : Table KeyRecord) → IsMap t → IsMap (forget digest key t)
  forget-IsMap none t m = m
  forget-IsMap (some key) t m = delete-IsMap (digest key) t m

  pub forget-other :
      (l : Text) (key : Text) (t : Table KeyRecord) (r : KeyRecord)
      → get l (forget digest (some key) t) ≡ some r
      → digest key ≢ l
  forget-other l key t r h e = ground (arith, get-delete l (digest key) t)

  -- Fewer records, under the same keys.
  pub fewer-IsSound :
      (self next : Keys)
      → IsSound self
      → ((l : Text) (r : KeyRecord) → get l next.records ≡ some r → get l self.records ≡ some r)
      → IsMap next.records
      → next.session_key ≡ self.session_key
      → next.ephemeral_key ≡ self.ephemeral_key
      → IsSound next
  fewer-IsSound self next s fewer distinct same_session same_ephemeral = record {
    single = λ l r h u. let (key, e, d) = s.single l r (fewer l r h) u in (key, cc, d);
    multi = λ l r h u. let (key, e, d) = s.multi l r (fewer l r h) u in (key, cc, d);
    purposes = λ l r h. s.purposes l r (fewer l r h);
    distinct = distinct;
    normal_session = λ key e. s.normal_session key (cc);
    normal_ephemeral = λ key e. s.normal_ephemeral key (cc);
  }

  -- A record is deleted under the short code's digest, and the short code is forgotten with it.
  pub drop-IsSound :
      (self : Keys) (key : Text)
      → IsSound self
      → IsSound (record self {
        records = delete (digest key) self.records;
        ephemeral_key = if is_key self.ephemeral_key key then none else self.ephemeral_key;
      })
  drop-IsSound self key s = record {
    single = λ l r h u.
        let (k, e, d) = s.single l r (ground (arith, get-delete l (digest key) self.records)) u in
        (k, rw (e) (ground (arith, get-delete l (digest key) self.records)), d);
    multi = λ l r h u. s.multi l r (ground (arith, get-delete l (digest key) self.records)) u;
    purposes = λ l r h. s.purposes l r (ground (arith, get-delete l (digest key) self.records));
    distinct = delete-IsMap (digest key) self.records s.distinct;
    normal_session = s.normal_session;
    normal_ephemeral = λ k e. s.normal_ephemeral k (ground arith);
  }

  -- The records that `#create` starts from.
  abbrev pub base : Usage → Keys → Table KeyRecord
  base usage self =
      if is_single usage then forget digest self.ephemeral_key self.records else self.records

  -- A short code is made: no other is left.
  pub made_single-IsSound :
      (self : Keys) (key : Text) (r : KeyRecord)
      → IsSound self
      → IsNormal key
      → is_single r.usage ≡ true
      → is_session r.purpose ≡ false
      → IsSound (record self {
        records = set (digest key) r (forget digest self.ephemeral_key self.records);
        ephemeral_key = some key;
      })
  made_single-IsSound self key r s normal u p = record {
    single = λ l x h v. elim (dec_text (digest key) l) [
      | yes q ↦ (key, refl, q)
      | no q ↦
          let old : get l (forget digest self.ephemeral_key self.records) ≡ some x =
            ground
              (arith, get-set l (digest key) r (forget digest self.ephemeral_key self.records)) in
          let (k, e, d) = s.single l x (get-forget l self.ephemeral_key self.records x old) v in
          absurd (forget-other l k self.records x (rw e at old) d)
    ];
    multi = λ l x h v. elim (dec_text (digest key) l) [
      | yes q ↦
          absurd (
            ground
              (arith, get-set l (digest key) r (forget digest self.ephemeral_key self.records)))
      | no q ↦
          s.multi l x
            (get-forget l self.ephemeral_key self.records x (
              ground
                (arith, get-set l (digest key) r (forget digest self.ephemeral_key self.records))))
            v
    ];
    purposes = λ l x h. elim (dec_text (digest key) l) [
      | yes q ↦
          ground (arith, get-set l (digest key) r (forget digest self.ephemeral_key self.records))
      | no q ↦ s.purposes l x (
          get-forget l self.ephemeral_key self.records x (
            ground
              (arith, get-set l (digest key) r (forget digest self.ephemeral_key self.records))))
    ];
    distinct = set-IsMap (digest key) r _ (forget-IsMap self.ephemeral_key self.records s.distinct);
    normal_session = s.normal_session;
    normal_ephemeral = λ k e. subst IsNormal (ground arith) normal;
  }

  -- A standing key is made: no other is left.
  pub made_multi-IsSound :
      (self : Keys) (key : Text) (r : KeyRecord)
      → IsSound self
      → IsNormal key
      → is_single r.usage ≡ false
      → is_session r.purpose ≡ true
      → IsSound (record self {
        records = set (digest key) r (forget digest self.session_key self.records);
        session_key = some key;
      })
  made_multi-IsSound self key r s normal u p = record {
    single = λ l x h v. elim (dec_text (digest key) l) [
      | yes q ↦
          absurd
            (ground (arith, get-set l (digest key) r (forget digest self.session_key self.records)))
      | no q ↦
          s.single l x
            (get-forget l self.session_key self.records x (
              ground
                (arith, get-set l (digest key) r (forget digest self.session_key self.records))))
            v
    ];
    multi = λ l x h v. elim (dec_text (digest key) l) [
      | yes q ↦ (key, refl, q)
      | no q ↦
          let old : get l (forget digest self.session_key self.records) ≡ some x =
            ground
              (arith, get-set l (digest key) r (forget digest self.session_key self.records)) in
          let (k, e, d) = s.multi l x (get-forget l self.session_key self.records x old) v in
          absurd (forget-other l k self.records x (rw e at old) d)
    ];
    purposes = λ l x h. elim (dec_text (digest key) l) [
      | yes q ↦
          ground (arith, get-set l (digest key) r (forget digest self.session_key self.records))
      | no q ↦ s.purposes l x (
          get-forget l self.session_key self.records x (
            ground (arith, get-set l (digest key) r (forget digest self.session_key self.records))))
    ];
    distinct = set-IsMap (digest key) r _ (forget-IsMap self.session_key self.records s.distinct);
    normal_session = λ k e. subst IsNormal (ground arith) normal;
    normal_ephemeral = s.normal_ephemeral;
  }
