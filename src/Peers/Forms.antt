-- ===== src/Peers/Forms.antt =====
-- The plain form of an address (apps/server/src/peer-network.mjs).
use vidvnc.Base.{
  ℕ, zero, suc, ◌≤◌, ◌≡◌, refl, ap, ◌∙◌, Bool, true, false, not, ◌&&◌, [], ◌∷◌, Text, codes, ◌==◌,
  drop, all, before, arith, inl, inr, Bool-cases,
}
use vidvnc.Sessions.Device.{starts_with, same_letter}
use vidvnc.Grants.Cookies.{normalize_peer, is_dotted}
use vidvnc.Peers.Addresses.{plain_address}

abbrev lacks : ℕ → Text → Bool
lacks sep = all (λ c. not (c == sep))

before-lacks : (sep : ℕ) (s : Text) → lacks sep (before sep s) ≡ true
unfolding before
before-lacks sep [] = refl
before-lacks sep (c ∷ s) = ground (arith, before-lacks sep s)

before_lacking : (sep : ℕ) (s : Text) → lacks sep s ≡ true → before sep s ≡ s
unfolding before
before_lacking sep [] h = refl
before_lacking sep (c ∷ s) h = ground (arith, before_lacking sep s)

drop-lacks : (sep n : ℕ) (s : Text) → lacks sep s ≡ true → lacks sep (drop n s) ≡ true
drop-lacks sep zero s h = h
drop-lacks sep (suc n) [] h = refl
drop-lacks sep (suc n) (c ∷ s) h = drop-lacks sep n s (ground arith)

dotted-head : (c : ℕ) (s : Text) → is_dotted 3 false (c ∷ s) ≡ true → (48 ≤ c) × (c ≤ 57)
unfolding is_dotted
dotted-head c s h = ground arith

colon-ne-digit : (c : ℕ) → 48 ≤ c → c ≤ 57 → same_letter b':' c ≡ false
colon-ne-digit c low high = ground arith

-- A dotted address is not mapped.
dotted-ne-mapped : (s : Text) → is_dotted 3 false s ≡ true → starts_with (codes "::ffff:") s ≡ false
unfolding is_dotted starts_with
dotted-ne-mapped [] h = refl
dotted-ne-mapped (c ∷ s) h =
    let (low, high) = dotted-head c s h in rw (colon-ne-digit c low high) refl

normalize_peer_twice : (s : Text) → normalize_peer (normalize_peer s) ≡ normalize_peer s
unfolding normalize_peer
normalize_peer_twice s =
    elim (Bool-cases (starts_with (codes "::ffff:") s && is_dotted 3 false (drop 7 s))) [
      | inl e ↦
          let d = dotted-ne-mapped (drop 7 s) (ground arith) in
          rw (e, normalize_peer) (rw (d, normalize_peer) refl)
      | inr e ↦ rw (e, normalize_peer) (rw (e, normalize_peer) refl)
    ]

normalize_peer-lacks :
    (sep : ℕ) (s : Text) → lacks sep s ≡ true → lacks sep (normalize_peer s) ≡ true
unfolding normalize_peer
normalize_peer-lacks sep s h =
    elim (Bool-cases (starts_with (codes "::ffff:") s && is_dotted 3 false (drop 7 s))) [
      | inl e ↦ rw (e, normalize_peer) (drop-lacks sep 7 s h)
      | inr e ↦ rw (e, normalize_peer) h
    ]

-- The plain form of an address is its own plain form.
pub plain_address_idempotent :
    (address : Text) → plain_address (plain_address address) ≡ plain_address address
unfolding plain_address
plain_address_idempotent address =
    let cut = before b'%' address in
    ap normalize_peer (
      before_lacking b'%' (normalize_peer cut)
        (normalize_peer-lacks b'%' cut (before-lacks b'%' address)))
    ∙ normalize_peer_twice cut
