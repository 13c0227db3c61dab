-- ===== src/Relay/Tests.antt =====
-- A registration, its client's requests, and the theorems at them.
use vidvnc.Base.{
  ℕ, ◌+◌, ◌≡◌, ◌⊎◌, ◌≤◌, ◌<◌, refl, true, false, ◌&&◌, ◌||◌, not, none, some, [], ◌∷◌, ◌++◌, Text,
  codes, leb, ◌==◌, all, take, drop, is_some, length, if◌then◌else◌, ok, arith, before, split_on,
  dec_text,
}
use vidvnc.Base.Table.{get, set, delete}
use vidvnc.Streams.Plans.{decimal}
use vidvnc.Sessions.Device.{starts_with}
use vidvnc.Grants.Cookies.{normalize_peer, is_dotted}
use vidvnc.Peers.Addresses.{
  plain_address, head_part, after_head, words_of, words, bits, inside, strip_zeros, source_group,
}
use vidvnc.Relay.Stun.{
  Bytes, Stun, crc_entry, crc_bytes, crc32, valid_username, add_attribute, attribute, attributes,
  accept, parse_stun, verify_integrity, binding_request, is_known,
}
use vidvnc.Relay.State.{
  Allow, Relay, Registration, Pin, relay_limits, to_worker, to_client, bad_integrity,
}
use vidvnc.Relay.Registrations.{
  index, unindex, validate_allow, register, allow, unpin, unpin_all, revoke, expire, quiet, sweep,
  revoke_all, close,
}
use vidvnc.Relay.Traffic.{
  datagram_class, stun, current_window, hint_lane, spend, deliver, flush, socket_ready, from_worker,
  add_pin, pin_key, count_of, ids_of,
}
use vidvnc.Relay.Receiving.{
  charge, signer, note_mismatch, admit, check_in, refuse_stun, from_pinned, receive,
}
use vidvnc.Relay.Bounds.{parse_stun_bounds, FingerprintLast, ValidName}
use vidvnc.Relay.Trust.{Ignored, Proved, Answered, receive-stranger, receive-pinned_stun}
use vidvnc.Relay.Windows.{Within, charge-hinted, count_of-empty}
use vidvnc.Relay.Rates.{receive-Within}

runs : Unit {0}
unfolding dec_text before split_on starts_with is_dotted normalize_peer plain_address head_part
    after_head words_of words bits inside strip_zeros source_group decimal get set delete crc_entry
    crc_bytes crc32 valid_username add_attribute attribute attributes accept parse_stun
    verify_integrity index unindex validate_allow register allow unpin unpin_all revoke expire quiet
    sweep revoke_all close datagram_class current_window hint_lane spend deliver flush socket_ready
    from_worker add_pin charge signer note_mismatch admit check_in refuse_stun from_pinned receive
runs = tt

-- A coarse `isIP`: enough for the addresses of the tests.
abbrev is_ip : Text → ℕ
is_ip [] = 0
is_ip (c ∷ s) = if all (λ d. (leb b'0' d && leb d b'9') || d == b'.') (c ∷ s) then 4 else 0

-- In place of the digest: the first bytes of the key.
abbrev hmac : Text → Bytes → Bytes
hmac key text = take 20 key

abbrev empty : Relay
empty = record {
  limits = relay_limits;
  is_open = true;
  registrations = [];
  by_ufrag = [];
  by_hint = [];
  pins = [];
  window = record { start = none; total = 0; per_source = []; per_registration = [] };
  address_differs_count = 0;
  dropped = [];
  events = [];
  sent = [];
}

abbrev order : Allow
order = record {
  stream_id = codes "s1";
  ufrag = codes "abcd";
  pwd = codes "password-of-the-stream-1";
  client_ufrag = codes "efgh";
  client_pwd = codes "password-of-the-client-1";
  worker_port = 5000;
  client_hint = some (codes "203.0.113.9");
  expires_ms = 15000;
}

abbrev good : Allow
good = record order {
  pwd = codes "passwordOfTheFirstStream";
  client_pwd = codes "passwordOfTheFirstClient";
}

-- A dash is no character of an ICE password.
refused : (allow is_ip empty order 0).0 ≡ empty
unfolding runs
refused = refl

abbrev ready : Relay
unfolding runs
ready = (allow is_ip empty good 0).0

accepted : (allow is_ip empty good 0).1 ≡ ok (codes "s1")
unfolding runs
accepted = refl

abbrev zeros : Bytes
zeros = 0 ∷ 0 ∷ 0 ∷ 0 ∷ 0 ∷ 0 ∷ 0 ∷ 0 ∷ 0 ∷ 0 ∷ 0 ∷ 0 ∷ []

-- A Binding request for the user, with this check.
abbrev request : Bytes → Bytes
request digest =
    (0 ∷ 1 ∷ 0 ∷ 40 ∷ 0x21 ∷ 0x12 ∷ 0xa4 ∷ 0x42 ∷ zeros)
    ++ ((0 ∷ 6 ∷ 0 ∷ 9 ∷ codes "abcd:efgh") ++ (0 ∷ 0 ∷ 0 ∷ 0 ∷ 8 ∷ 0 ∷ 20 ∷ digest))

abbrev signed : Bytes
signed = request (codes "passwordOfTheFirstSt")

abbrev unsigned : Bytes
unsigned = request (codes "passwordOfTheOtherSt")

abbrev client : Text
client = codes "203.0.113.9"

abbrev joined : Relay
unfolding runs
joined = receive is_ip hmac ready signed client 40000 10

pinned_now : length joined.pins ≡ 1
unfolding runs
pinned_now = refl

dropped_now : (receive is_ip hmac ready unsigned client 40000 10).dropped ≡ bad_integrity ∷ []
unfolding runs
dropped_now = refl

-- The request waits for the socket, then goes to the worker.
flushed :
    (socket_ready joined (pin_key client 40000) 11).sent
    ≡ to_worker (pin_key client 40000) signed 5000 ∷ []
unfolding runs
flushed = refl

-- The answer of the worker goes to the client.
answered :
    (from_worker joined (pin_key client 40000) 5000 (1 ∷ []) (codes "127.0.0.1") 5000 12).sent
    ≡ to_client (1 ∷ []) 40000 client ∷ []
unfolding runs
answered = refl

-- A pin that says nothing for half a minute goes.
idle_now : length (sweep joined 30011).pins ≡ 0
unfolding runs
idle_now = refl

gone : (revoke joined (codes "s1")).0.by_ufrag ≡ []
unfolding runs
gone = refl

abbrev parsed : Stun
parsed = record {
  kind = 1;
  transaction_id = zeros;
  username = some (codes "abcd:efgh");
  integrity_offset = 36;
  fingerprint_offset = none;
}

reads : parse_stun signed ≡ some parsed
unfolding runs
reads = refl

parse_stun_bounds_example :
    (is_known parsed.kind ≡ true)
    × (length signed ≤ 1280)
    × (20 ≤ parsed.integrity_offset)
    × (parsed.integrity_offset + 24 ≤ length signed)
    × FingerprintLast signed parsed.fingerprint_offset
    × ValidName parsed.username
    × (parsed.kind == binding_request && not (is_some parsed.username) ≡ false)
parse_stun_bounds_example = parse_stun_bounds signed parsed reads

no_pin : get (pin_key (plain_address client) 40000) ready.pins ≡ none
unfolding runs
no_pin = refl

receive-stranger_example :
    Ignored ready (receive is_ip hmac ready unsigned client 40000 10) ⊎ Proved hmac ready unsigned
receive-stranger_example = receive-stranger is_ip hmac ready unsigned client 40000 10 no_pin

abbrev pin : Pin
pin = record {
  send_address = client;
  plain = client;
  port = 40000;
  stream_id = codes "s1";
  last_seen = 10;
  ready = false;
  queue = signed ∷ [];
}

abbrev registration : Registration
registration = record {
  allowed = good;
  hint_group = some (codes "203.0.113.9");
  hint_family = 4;
  expires_at = 15000;
  pinned_once = true;
  mismatch_reported = false;
  pins = codes "203.0.113.9|40000" ∷ [];
}

has_pin : get (pin_key (plain_address client) 40000) joined.pins ≡ some pin
unfolding runs
has_pin = refl

has_registration : get pin.stream_id joined.registrations ≡ some registration
unfolding runs
has_registration = refl

is_stun : datagram_class 0 ≡ some stun
unfolding runs
is_stun = refl

receive-pinned_stun_example :
    Ignored joined (receive is_ip hmac joined unsigned client 40000 20)
    ⊎ Answered hmac registration unsigned
receive-pinned_stun_example =
    receive-pinned_stun is_ip hmac joined 0 (drop 1 unsigned) client 40000 20 pin registration
      has_pin has_registration is_stun

ready-Within : Within ready.limits ready.window
unfolding runs
ready-Within = record {
  total-le = omega arith;
  sources-Below = count_of-empty 50;
  registrations-Below = count_of-empty 200;
}

receive-Within_example :
    Within
      (receive is_ip hmac ready unsigned client 40000 10).limits
      (receive is_ip hmac ready unsigned client 40000 10).window
receive-Within_example = receive-Within is_ip hmac ready unsigned client 40000 10 ready-Within

-- A second in which strangers have used all there is.
abbrev busy : Relay
busy = record ready {
  window = record {
    start = some 0;
    total = 5000;
    per_source = [];
    per_registration = (codes "s1", 7) ∷ [];
  };
}

is_hinted : ids_of (source_group is_ip client) busy.by_hint ≡ codes "s1" ∷ []
unfolding runs
is_hinted = refl

has_room :
    count_of (codes "s1") (current_window busy.window 10).per_registration
    < busy.limits.hint_lane_per_second
unfolding runs
has_room = omega arith

charge-hinted_example : (charge is_ip busy client 10).1 ≡ true
charge-hinted_example = charge-hinted is_ip busy client (codes "s1") 10 [] [] is_hinted has_room
