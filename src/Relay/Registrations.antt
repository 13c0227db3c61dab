-- ===== src/Relay/Registrations.antt =====
-- apps/server/src/media-relay/relay.mjs: registrations and pins come and go. Each call gets the time of
-- its clock.
use vidvnc.Base.{
  ℕ, ◌+◌, Bool, true, false, not, ◌&&◌, ◌||◌, Option, none, some, List, [], ◌∷◌, ◌++◌, Text, same,
  leb, ◌==◌, length, keep, any, all, if◌then◌else◌, Result, ok, err,
}
use vidvnc.Base.Table.{Table, get, has, set, delete}
use vidvnc.Peers.Addresses.{plain_address, source_group}
use vidvnc.Relay.State.{
  Allow, AllowError, Pin, Registration, Relay, Why, duplicate, expired, idle, invalid,
  limit_reached, revoked, too_many_sharing, unpinned,
}

abbrev is_alphanumeric : ℕ → Bool
is_alphanumeric c =
    (leb b'A' c && leb c b'Z') || ((leb b'a' c && leb c b'z') || (leb b'0' c && leb c b'9'))

-- `iceString`
abbrev pub ice_string : Text → ℕ → Bool
ice_string value min =
    leb min (length value)
    && leb (length value) 256
    && all (λ c. is_alphanumeric c || (c == b'+' || c == b'/')) value

-- STREAM_ID
abbrev pub is_stream_id : Text → Bool
is_stream_id s =
    leb 1 (length s) && leb (length s) 64 && all (λ c. is_alphanumeric c || c == b'-') s

-- `set.add(value)` and `set.delete(value)` of a Set of strings
abbrev pub add : Text → List Text → List Text
add k ks = if any (same k) ks then ks else ks ++ k ∷ []

abbrev pub remove : Text → List Text → List Text
remove k = keep (λ j. not (same j k))

-- `#index` and `#unindex`
unfoldable pub index : Table (List Text) → Text → Text → Table (List Text)
index map key value = elim (get key map) [
  | none ↦ set key (value ∷ []) map
  | some ks ↦ set key (add value ks) map
]

unfoldable pub unindex : Table (List Text) → Text → Text → Table (List Text)
unindex map key value = elim (get key map) [
  | none ↦ map
  | some ks ↦ elim (remove value ks) [ [] ↦ delete key map | j ∷ js ↦ set key (j ∷ js) map ]
]

abbrev pub index_hint : Table (List Text) → Option Text → Text → Table (List Text)
index_hint map none value = map
index_hint map (some group) value = index map group value

abbrev pub unindex_hint : Table (List Text) → Option Text → Text → Table (List Text)
unindex_hint map none value = map
unindex_hint map (some group) value = unindex map group value

abbrev pub sharing : Relay → Text → ℕ
sharing r ufrag = elim (get ufrag r.by_ufrag) [ none ↦ 0 | some ks ↦ length ks ]

module _ (is_ip : Text → ℕ) where
  -- `validateAllow`, of fields that have their types
  unfoldable pub validate_allow : Allow → Bool
  unfolding plain_address
  validate_allow m =
      is_stream_id m.stream_id
      && ice_string m.ufrag 4
      && ice_string m.client_ufrag 4
      && ice_string m.pwd 22
      && ice_string m.client_pwd 22
      && leb 1024 m.worker_port
      && leb m.worker_port 65535
      && (elim m.client_hint [ none ↦ true | some hint ↦ not (is_ip (plain_address hint) == 0) ])
      && leb 1 m.expires_ms
      && leb m.expires_ms 15000

  -- The registration of a message.
  unfoldable pub register : Allow → ℕ → Registration
  unfolding plain_address source_group
  register m now = record {
    allowed = m;
    hint_group = elim m.client_hint [
      | none ↦ none
      | some hint ↦ some (source_group is_ip (plain_address hint))
    ];
    hint_family = elim m.client_hint [ none ↦ 0 | some hint ↦ is_ip (plain_address hint) ];
    expires_at = now + m.expires_ms;
    pinned_once = false;
    mismatch_reported = false;
    pins = [];
  }

  unfoldable pub allow : Relay → Allow → ℕ → Relay × Result AllowError Text
  unfolding validate_allow register index
  allow r m now =
      if not (validate_allow m)
      then (r, err invalid)
      else if has m.stream_id r.registrations
      then (r, err duplicate)
      else if leb r.limits.registrations (length r.registrations)
      then (r, err limit_reached)
      else if has m.ufrag r.by_ufrag && leb r.limits.per_ufrag (sharing r m.ufrag)
      then (r, err too_many_sharing)
      else (
        record r {
          registrations = set m.stream_id (register m now) r.registrations;
          by_ufrag = index r.by_ufrag m.ufrag m.stream_id;
          by_hint = index_hint r.by_hint (register m now).hint_group m.stream_id;
        },
        ok m.stream_id,
      )

-- A registration without a pin.
abbrev pub release_pin : Text → Text → Table Registration → Table Registration
release_pin stream key t = elim (get stream t) [
  | none ↦ t
  | some x ↦ set stream (record x { pins = remove key x.pins }) t
]

-- `#unpin`
unfoldable pub unpin : Relay → Text → Why → Relay
unpin r key why = elim (get key r.pins) [
  | none ↦ r
  | some p ↦ record r {
    pins = delete key r.pins;
    registrations = release_pin p.stream_id key r.registrations;
    events = unpinned p.stream_id p.plain p.port why ∷ r.events;
  }
]

unfoldable pub unpin_all : List Text → Why → Relay → Relay
unfolding unpin
unpin_all [] why r = r
unpin_all (key ∷ keys) why r = unpin_all keys why (unpin r key why)

-- The rest of `revoke`, once the pins are gone.
abbrev pub forget : Relay → Text → Registration → Relay
forget r id x = record r {
  registrations = delete id r.registrations;
  by_ufrag = unindex r.by_ufrag x.allowed.ufrag id;
  by_hint = unindex_hint r.by_hint x.hint_group id;
  window = record r.window { per_registration = delete id r.window.per_registration };
}

unfoldable pub revoke : Relay → Text → Relay × Bool
unfolding unpin_all unindex
revoke r id = elim (get id r.registrations) [
  | none ↦ (r, false)
  | some x ↦ (forget (unpin_all x.pins revoked r) id x, true)
]

-- The first loop of `sweep`, over the registrations that are there when it begins.
unfoldable pub expire : ℕ → Table Registration → Relay → Relay
unfolding revoke
expire now [] r = r
expire now ((id, x) ∷ t) r = expire now t (
    if not x.pinned_once && leb x.expires_at now
    then (let gone = (revoke r id).0 in record gone { events = expired id ∷ gone.events })
    else r)

-- The second loop.
unfoldable pub quiet : ℕ → Table Pin → Relay → Relay
unfolding unpin
quiet now [] r = r
quiet now ((key, p) ∷ t) r =
    quiet now t (if leb (p.last_seen + r.limits.pin_idle) now then unpin r key idle else r)

unfoldable pub sweep : Relay → ℕ → Relay
unfolding expire quiet
sweep r now = let r' = expire now r.registrations r in quiet now r'.pins r'

unfoldable pub revoke_all : Table Registration → Relay → Relay
unfolding revoke
revoke_all [] r = r
revoke_all ((id, x) ∷ t) r = revoke_all t (revoke r id).0

unfoldable pub close : Relay → Relay
unfolding revoke_all
close r = record (revoke_all r.registrations r) { is_open = false }
