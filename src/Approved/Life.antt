-- ===== src/Approved/Life.antt =====
-- The life of a request for access, as its client and the owner see it
-- (apps/server/src/approved-clients.mjs).
use vidvnc.Base.{
  ◌≡◌, sym, ap, ◌∙◌, subst, Bool, true, false, none, some, List, [], ◌∷◌, Text, same, arith,
  dec_text, if◌then◌else◌,
}
use vidvnc.Base.Table.{Table, get, set, delete, get-set, get-delete}
use vidvnc.Approved.State.{Request, RequestState, is_pending, is_approved, is_rejected, waits}

-- Where a request stands: none with that identifier, waiting for the owner, refused, approved with its
-- secret to be collected, and collected.
pub data Phase : Type 0 where
  gone asked refused granted collected : Phase

-- What a call is to a request: it puts it in, refuses it, asks for its secret, lets the queue go on after a
-- write that was made or not, or is nothing to it.
pub data Act : Type 0 where
  entry refusal claiming : Act
  progress : (written : Bool) → Act
  other : Act

-- What may become of a request by such a call. Putting it in again writes over it.
pub data Move : Act → Phase → Phase → Type 0 where
  rest : {a : Act} {p : Phase} → Move a p p
  enter : {p : Phase} → Move entry p asked
  refuse : Move refusal asked refused
  approve : Move (progress true) asked granted
  overrule : Move (progress true) refused granted
  collect : Move claiming granted collected
  forget : {written : Bool} {p : Phase} → Move (progress written) p gone

-- Its way from one phase to another, by one call after the other.
pub data Way : List Act → Phase → Phase → Type 0 where
  here : {p : Phase} → Way [] p p
  then_on :
      {a : Act} {rest_of : List Act} {p q r : Phase}
      → Move a p q
      → Way rest_of q r
      → Way (a ∷ rest_of) p r

abbrev pub phase_of_state : RequestState → Phase
phase_of_state is_pending = asked
phase_of_state is_approved = granted
phase_of_state is_rejected = refused

abbrev pub phase_of : Request → Phase
phase_of r = if r.claimed then collected else phase_of_state r.state

unfoldable pub phase : Text → Table Request → Phase
phase id t = elim (get id t) [ none ↦ gone | some r ↦ phase_of r ]

pub phase-set :
    (id k : Text) (r : Request) (t : Table Request)
    → phase id (set k r t) ≡ (if same k id then phase_of r else phase id t)
unfolding phase
phase-set id k r t = let law = get-set id k r t in ground (arith, law)

pub phase-delete :
    (id k : Text) (t : Table Request)
    → phase id (delete k t) ≡ (if same k id then gone else phase id t)
unfolding phase
phase-delete id k t = let law = get-delete id k t in ground (arith, law)

pub phase-some :
    (k : Text) (t : Table Request) (r : Request) → get k t ≡ some r → phase k t ≡ phase_of r
unfolding phase
phase-some k t r h = ground arith

pub refused-Move :
    (claimed : Bool) (st : RequestState)
    → waits st ≡ true
    → Move refusal
        (if claimed then collected else phase_of_state st)
        (if claimed then collected else refused)
refused-Move true st h = rest
refused-Move false is_pending h = refuse
refused-Move false is_approved h = cc
refused-Move false is_rejected h = cc

-- A row that is written over makes its request's move, and no other.
pub set-Move :
    (a : Act) (id k : Text) (r r' : Request) (t : Table Request)
    → get k t ≡ some r
    → (same k id ≡ true → Move a (phase_of r) (phase_of r'))
    → Move a (phase id t) (phase id (set k r' t))
set-Move a id k r r' t h m = elim (dec_text k id) [
  | yes e ↦
      let law = phase-set id k r' t in
      let two : phase id (set k r' t) ≡ phase_of r' = ground (arith, law) in
      let one : phase id t ≡ phase_of r = ap (λ i. phase i t) (sym e) ∙ phase-some k t r h in
      subst (λ p. Move a p (phase id (set k r' t))) (sym one)
        (subst (Move a (phase_of r)) (sym two) (m (ground arith)))
  | no ne ↦
      let law = phase-set id k r' t in
      let two : phase id (set k r' t) ≡ phase id t = ground (arith, law) in
      subst (Move a (phase id t)) (sym two) rest
]
