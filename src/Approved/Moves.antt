-- ===== src/Approved/Moves.antt =====
-- What each call makes of the requests for access
-- (apps/server/src/approved-clients.mjs).
use vidvnc.Base.{
  ℕ, ◌≡◌, ◌⊎◌, refl, sym, ◌∙◌, subst, Bool, true, false, not, ◌||◌, none, some, List, [], ◌∷◌, Text,
  same, leb, arith, inl, inr, Bool-cases, Option-cases, Result-cases, Result, dec_text,
  if◌then◌else◌,
}
use vidvnc.Base.Table.{Table, get, set, delete}
use vidvnc.Approved.State.{
  Verifier, Ticket, Request, RequestState, is_pending, is_approved, is_rejected, waits, expired,
  Store, StoreError,
}
use vidvnc.Approved.Registration.{Details, new_request, end_submit, registration_status, reject}
use vidvnc.Approved.Sweeps.{delete_requests}
use vidvnc.Approved.Changes.{grant}
use vidvnc.Approved.Life.{
  Phase, gone, asked, granted, collected, Act, entry, refusal, claiming, progress, other, Move,
  approve, overrule, collect, forget, rest, enter, phase, phase_of, phase_of_state, set-Move,
  refused-Move, phase-set, phase-delete,
}

-- The act, where it is the request's own.
abbrev pub own : Act → (k id : Text) → Act
own a k id = if same k id then a else other

own-Move :
    (a : Act) (k id : Text) (p q : Phase) → Move a p q → same k id ≡ true → Move (own a k id) p q
own-Move a k id p q m e = rw e m

pub reject-Move :
    (id : Text) (s : Store) (k : Text) (now : ℕ)
    → Move (own refusal k id) (phase id s.pending) (phase id (reject s k now).0.pending)
unfolding reject
reject-Move id s k now = elim (Option-cases (get k s.pending)) [
  | inl e ↦ rw (reject, e) rest
  | inr (r, e) ↦ elim (Bool-cases (expired r now || not (waits r.state))) [
    | inl f ↦ rw (reject, e, f) rest
    | inr f ↦
        rw (reject, e, f)
          (set-Move (own refusal k id) id k r (record r { state = is_rejected; password = none })
            s.pending e (own-Move refusal k id _ _ (refused-Move r.claimed r.state (ground arith))))
  ]
]

pub state-cases :
    (st : RequestState) → (st ≡ is_pending) ⊎ ((st ≡ is_rejected) ⊎ (st ≡ is_approved))
state-cases is_pending = inl refl
state-cases is_rejected = inr (inl refl)
state-cases is_approved = inr (inr refl)

granted-Move :
    (claimed : Bool) (st : RequestState)
    → Move
        (progress true)
        (if claimed then collected else phase_of_state st)
        (if claimed then collected else granted)
granted-Move true st = rest
granted-Move false is_pending = approve
granted-Move false is_approved = rest
granted-Move false is_rejected = overrule

pub grant-Move :
    (id k client_id secret : Text) (t : Table Request)
    → Move (progress true) (phase id t) (phase id (grant k client_id secret t))
grant-Move id k client_id secret t = elim (Option-cases (get k t)) [
  | inl e ↦ rw (e, grant) rest
  | inr (r, e) ↦
      rw (e, grant)
        (set-Move (progress true) id k r
          (record r {
            state = is_approved;
            client_id = some client_id;
            client_secret = some secret;
          })
          t e (λ own_row. granted-Move r.claimed r.state))
]

delete_requests-phase :
    (id : Text) (ks : List Text) (t : Table Request)
    → (phase id (delete_requests ks t) ≡ gone) ⊎ (phase id (delete_requests ks t) ≡ phase id t)
unfolding delete_requests
delete_requests-phase id [] t = inr refl
delete_requests-phase id (k ∷ ks) t = elim (delete_requests-phase id ks (delete k t)) [
  | inl e ↦ inl e
  | inr e ↦ elim (dec_text k id) [
    | yes q ↦ let law = phase-delete id k t in inl (ground (arith, e, law))
    | no q ↦ let law = phase-delete id k t in inr (ground (arith, e, law))
  ]
]

pub delete_requests-Move :
    (written : Bool) (id : Text) (ks : List Text) (t : Table Request)
    → Move (progress written) (phase id t) (phase id (delete_requests ks t))
delete_requests-Move written id ks t = elim (delete_requests-phase id ks t) [
  | inl e ↦ subst (Move (progress written) (phase id t)) (sym e) forget
  | inr e ↦ subst (Move (progress written) (phase id t)) (sym e) rest
]

module _ (hash : Text → Text) where
  collected-Move :
      (id k : Text) (r : Request) (t : Table Request)
      → get k t ≡ some r
      → r.state ≡ is_approved
      → r.claimed ≡ false
      → Move
          (own claiming k id)
          (phase id t)
          (phase id (set k (record r { claimed = true; client_secret = none }) t))
  collected-Move id k r t e st c =
      let before : phase_of r ≡ granted = rw (c, st) refl in
      set-Move (own claiming k id) id k r (record r { claimed = true; client_secret = none }) t e
        (own-Move claiming k id (phase_of r) collected
          (subst (λ p. Move claiming p collected) (sym before) collect))

  pub registration_status-Move :
      (id : Text) (s : Store) (k claim_token : Text) (now : ℕ)
      → Move
          (own claiming k id)
          (phase id s.pending)
          (phase id (registration_status hash s k claim_token now).0.pending)
  unfolding registration_status
  registration_status-Move id s k claim_token now = elim (Option-cases (get k s.pending)) [
    | inl e ↦ rw (registration_status, e) rest
    | inr (r, e) ↦ elim (Bool-cases (expired r now || not (same r.claim_hash (hash claim_token)))) [
      | inl f ↦ rw (registration_status, e, f) rest
      | inr f ↦ elim (state-cases r.state) [
        | inl st ↦ rw (registration_status, e, f, st) rest
        | inr (inl st) ↦ rw (registration_status, e, f, st) rest
        | inr (inr st) ↦ elim (Bool-cases r.claimed) [
          | inl c ↦ rw (registration_status, e, f, st, c) rest
          | inr c ↦ rw (registration_status, e, f, st, c) (collected-Move id k r s.pending e st c)
        ]
      ]
    ]
  ]

  end_submit-cases :
      (s : Store) (token : Text) (t : Ticket) (d : Details) (v : Result StoreError Verifier)
      (k claim_token : Text) (now : ℕ)
      → ((end_submit hash s token t d v k claim_token now).0.pending ≡ s.pending)
        ⊎ ((password : Verifier) × ((end_submit hash s token t d v k claim_token now).0.pending
              ≡ set k (new_request d password (hash claim_token) now) s.pending))
  unfolding end_submit
  end_submit-cases s token t d v k claim_token now = elim (Result-cases v) [
    | inr (e, q) ↦ inl (ground (arith, q))
    | inl (password, q) ↦ elim (Bool-cases (leb t.expires_at now)) [
      | inl f ↦ inl (ground (arith, q))
      | inr f ↦ inr (password, ground (arith, q))
    ]
  ]

  pub end_submit-Move :
      (id : Text) (s : Store) (token : Text) (t : Ticket) (d : Details)
      (v : Result StoreError Verifier) (k claim_token : Text) (now : ℕ)
      → Move
          (own entry k id)
          (phase id s.pending)
          (phase id (end_submit hash s token t d v k claim_token now).0.pending)
  end_submit-Move id s token t d v k claim_token now =
      elim (end_submit-cases s token t d v k claim_token now) [
        | inl e ↦ rw e rest
        | inr (password, e) ↦
            let r = new_request d password (hash claim_token) now in
            let law = phase-set id k r s.pending in
            subst (λ p. Move (own entry k id) (phase id s.pending) (phase id p)) (sym e)
              (elim (Bool-cases (same k id)) [
                | inl q ↦
                    let two : phase id (set k r s.pending) ≡ asked = law ∙ rw q refl in
                    subst (Move (own entry k id) (phase id s.pending)) (sym two) (rw q enter)
                | inr q ↦
                    let two : phase id (set k r s.pending) ≡ phase id s.pending = law ∙ rw q refl in
                    subst (Move (own entry k id) (phase id s.pending)) (sym two) rest
              ])
      ]
