-- ===== src/Scope/Sessions.antt =====
-- apps/server/src/local-session-scope.mjs: the scope, what changes it, and the peers that it allows.
use vidvnc.Base.{
  ℕ, Bool, true, false, not, ◌&&◌, ◌||◌, Option, none, some, List, [], ◌∷◌, Text, codes, same, leb,
  ◌==◌, any, all, keep, map, length, if◌then◌else◌, Result, ok, err,
}
use vidvnc.Grants.Cookies.{normalize_peer}
use vidvnc.Peers.Addresses.{number}
use vidvnc.Scope.Networks.{
  Network, contains, Adapter, throws, ip_bits, network, is_candidate, eligible_adapter,
}

-- The setting of the networks; an entry that is no string is `none`.
pub data Override : Type 0 where
  automatic : Override
  listed : List (Option Text) → Override
  malformed : Override

pub data Reason : Type 0 where
  detection_failed : (message : Text) → Reason
  off_link no_private_lan : Reason

abbrev same_reason : Option Reason → Option Reason → Bool
same_reason none none = true
same_reason none (some r) = false
same_reason (some r) none = false
same_reason (some (detection_failed m)) (some (detection_failed n)) = same m n
same_reason (some (detection_failed m)) (some off_link) = false
same_reason (some (detection_failed m)) (some no_private_lan) = false
same_reason (some off_link) (some (detection_failed n)) = false
same_reason (some off_link) (some off_link) = true
same_reason (some off_link) (some no_private_lan) = false
same_reason (some no_private_lan) (some (detection_failed n)) = false
same_reason (some no_private_lan) (some off_link) = false
same_reason (some no_private_lan) (some no_private_lan) = true

pub record Scope : Type 0 where
  pub allowed : List Network
  pub bind_addresses : List Text
  pub reason : Option Reason

pub data Listener : Type 0 where
  public_listener local_listener other_listener : Listener

pub data ScopeError : Type 0 where
  invalid_listener zoned_address : ScopeError

-- What stands before and after the last slash.
unfoldable pub cut_last : Text → Option (Text × Text)
cut_last [] = none
cut_last (c ∷ s) =
    let rest = cut_last s in
    elim rest [
      | some (before, after) ↦ some (c ∷ before, after)
      | none ↦ if c == b'/' then some ([], s) else none
    ]

-- `new Set(list)`
unfoldable pub distinct : List Text → List Text
distinct [] = []
distinct (t ∷ ts) = let rest = distinct ts in t ∷ keep (λ u. not (same u t)) rest

abbrev is_prefix : Text → Bool
is_prefix digits =
    leb 1 (length digits) && (leb (length digits) 3 && all (λ c. leb b'0' c && leb c b'9') digits)

-- `adapter.profile ?? profiles?.get?.(adapter.interfaceIndex)`
abbrev pub profile_of : (ℕ → Option Text) → Adapter → Option Text
profile_of profiles a = elim a.profile [ some p ↦ some p | none ↦ profiles a.interface_index ]

abbrev pub is_private_profile : Option Text → Bool
is_private_profile profile = elim profile [ none ↦ false | some p ↦ same p (codes "Private") ]

module _ (is_ip : Text → ℕ) where
  -- `eligibleAdapters`
  unfoldable pub eligible_adapters : List Adapter → (ℕ → Option Text) → List (Text × Network)
  eligible_adapters [] profiles = []
  eligible_adapters (a ∷ others) profiles =
      let rest = eligible_adapters others profiles in
      if not (is_private_profile (profile_of profiles a)) || not (eligible_adapter is_ip a)
      then rest
      else (elim (network is_ip a.address a.prefix_length) [
        | none ↦ rest
        | some n ↦ (a.address, n) ∷ rest
      ])

  -- One entry of `parseOverride`
  unfoldable pub parse_entry : Option Text → Option Network
  parse_entry none = none
  parse_entry (some cidr) = elim (cut_last cidr) [
    | none ↦ none
    | some (address, digits) ↦
        if leb 1 (length address) && is_prefix digits
        then network is_ip address (some (number 10 0 digits))
        else none
  ]

  unfoldable pub parse_entries : List (Option Text) → Option (List Network)
  parse_entries [] = some []
  parse_entries (e ∷ es) =
      let rest = parse_entries es in
      elim (parse_entry e) [
        | none ↦ none
        | some n ↦ elim rest [ none ↦ none | some ns ↦ some (n ∷ ns) ]
      ]

  -- The networks that the setting asks for: `err` for false, `none` for null.
  unfoldable pub parse_override : Override → Result (Unit {0}) (Option (List Network))
  parse_override automatic = ok none
  parse_override malformed = err tt
  parse_override (listed []) = err tt
  parse_override (listed (e ∷ es)) = elim (parse_entries (e ∷ es)) [
    | none ↦ err tt
    | some ns ↦ ok (some ns)
  ]

  -- The networks are allowed, and their absence is the reason.
  abbrev pub admitting : List Text → List Network → Scope
  admitting bind_addresses allowed = record {
    allowed = allowed;
    bind_addresses = bind_addresses;
    reason = elim allowed [ [] ↦ some no_private_lan | n ∷ ns ↦ none ];
  }

  -- `update` without an error
  unfoldable pub detected_scope : List Adapter → (ℕ → Option Text) → Override → Scope
  detected_scope rows profiles override =
      let eligible = eligible_adapters rows profiles in
      let detected = map (λ r. r.1) eligible in
      let bind_addresses = distinct (map (λ r. r.0) eligible) in
      let refused : Scope = record {
        allowed = [];
        bind_addresses = bind_addresses;
        reason = some off_link;
      } in
      elim (parse_override override) [
        | err e ↦ refused
        | ok none ↦ admitting bind_addresses detected
        | ok (some requested) ↦
            if all (λ entry. any (λ link. contains link entry) detected) requested
            then admitting bind_addresses requested
            else refused
      ]

  -- `update`, with what the detection gave or threw, where no address that it reads `throws`
  abbrev pub update : Result Text (List Adapter) → (ℕ → Option Text) → Override → Scope
  update (err message) profiles override = record {
    allowed = [];
    bind_addresses = [];
    reason = some (detection_failed message);
  }
  update (ok rows) profiles override = detected_scope rows profiles override

  -- `createLocalSessionScope`, where no address `throws`
  abbrev pub new_scope : List Adapter → (ℕ → Option Text) → Override → Scope
  new_scope rows profiles override = update (ok rows) profiles override

  -- `update` throws at a row: its address is read, and has a zone.
  abbrev pub row_throws : Adapter → Bool
  row_throws a = is_private_profile a.profile && (is_candidate a && throws is_ip a.address)

  -- `update` throws at an entry of the override.
  abbrev pub entry_throws : Option Text → Bool
  entry_throws none = false
  entry_throws (some cidr) = elim (cut_last cidr) [
    | none ↦ false
    | some (address, digits) ↦ leb 1 (length address) && is_prefix digits && throws is_ip address
  ]

  abbrev pub override_throws : Override → Bool
  override_throws automatic = false
  override_throws malformed = false
  override_throws (listed es) = any entry_throws es

  -- What `refresh` catches: the error of the detection, or the one of `BigInt` with its message.
  abbrev pub caught : Text → Result Text (List Adapter) → Override → Result Text (List Adapter)
  caught message (err e) override = err e
  caught message (ok rows) override =
      if any row_throws rows || override_throws override then err message else ok rows

  -- `refresh` of the controller, with what the detection gave or threw, and the message of an error that
  -- `BigInt` throws: the scope, and the reason that is logged where it is another than before.
  abbrev pub refresh :
      Scope
      → (message : Text) → Result Text (List Adapter)
      → Override
      → Scope × Option (Option Reason)
  refresh s message detection override =
      let next = update (caught message detection override) (λ i. none) override in
      (next, if same_reason s.reason next.reason then none else some next.reason)

  -- The address of a peer, as a network of one
  abbrev pub host : Text → Option Network
  host peer = elim (ip_bits is_ip peer) [
    | none ↦ none
    | some b ↦ some (record {
      family = b.family;
      width = b.width;
      value = b.value;
      prefix_length = b.width;
      base = b.value;
    })
  ]

  abbrev pub is_loopback : Text → Bool
  is_loopback peer = same peer (codes "127.0.0.1") || same peer (codes "::1")

  -- `allows`; a peer that is no string is `none`, and `zoned_address` is the error of `BigInt`.
  unfoldable pub allows : Scope → Option Text → Listener → Result ScopeError Bool
  allows s peer public_listener = ok false
  allows s peer other_listener = err invalid_listener
  allows s none local_listener = ok false
  allows s (some address) local_listener =
      let peer = normalize_peer address in
      if is_loopback peer
      then ok true
      else if throws is_ip peer
      then err zoned_address
      else (elim (host peer) [
        | none ↦ ok false
        | some h ↦ ok (any (λ link. contains link h) s.allowed)
      ])
