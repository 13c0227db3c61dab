-- ===== src/Relay/State.antt =====
-- apps/server/src/media-relay/relay.mjs: the state of the relay. A registration is named by its stream,
-- a pin by its key.
use vidvnc.Base.{ℕ, Bool, Option, List, Text}
use vidvnc.Base.Table.{Table}
use vidvnc.Relay.Stun.{Bytes}

pub record Limits : Type 0 where
  pub registrations : ℕ
  pub per_ufrag : ℕ
  pub pins_per_registration : ℕ
  pub hint_lane_per_second : ℕ
  pub stranger_per_source : ℕ
  pub stranger_total : ℕ
  pub pin_idle : ℕ
  pub queued_per_pin : ℕ

-- RELAY_LIMITS
abbrev pub relay_limits : Limits
relay_limits = record {
  registrations = 64;
  per_ufrag = 4;
  pins_per_registration = 4;
  hint_lane_per_second = 200;
  stranger_per_source = 50;
  stranger_total = 5000;
  pin_idle = 30000;
  queued_per_pin = 16;
}

-- The message of `allow`.
pub record Allow : Type 0 where
  pub stream_id : Text
  pub ufrag : Text
  pub pwd : Text
  pub client_ufrag : Text
  pub client_pwd : Text
  pub worker_port : ℕ
  pub client_hint : Option Text
  pub expires_ms : ℕ

pub record Registration : Type 0 where
  pub allowed : Allow
  pub hint_group : Option Text
  pub hint_family : ℕ
  pub expires_at : ℕ
  pub pinned_once : Bool
  pub mismatch_reported : Bool
  pub pins : List Text

pub record Pin : Type 0 where
  pub send_address : Text
  pub plain : Text
  pub port : ℕ
  pub stream_id : Text
  pub last_seen : ℕ
  pub ready : Bool
  pub queue : List Bytes

-- The second that is counted; a start of -Infinity is `none`.
pub record Window : Type 0 where
  pub start : Option ℕ
  pub total : ℕ
  pub per_source : Table ℕ
  pub per_registration : Table ℕ

-- DROP_REASONS
pub data Drop : Type 0 where
  budget malformed unknown_ufrag bad_integrity username class cross_registration pins
        loopback_source :
      Drop

pub data Why : Type 0 where
  revoked idle : Why

-- What `onEvent` is told; an address and a port stand for the text of both.
pub data Event : Type 0 where
  expired : Text → Event
  address_differs : (stream_id plain : Text) → ℕ → Event
  pinned : (stream_id plain : Text) → ℕ → Option Bool → Event
  unpinned : (stream_id plain : Text) → ℕ → Why → Event

-- A datagram that is sent on, by the socket of a pin or by the public one.
pub data Sent : Type 0 where
  to_worker : (key : Text) → Bytes → (port : ℕ) → Sent
  to_client : Bytes → (port : ℕ) → (address : Text) → Sent

-- The relay. `events`, `sent` and `dropped` are logs, newest first; the counters of the source are
-- their counts and sizes.
pub record Relay : Type 0 where
  pub limits : Limits
  pub is_open : Bool
  pub registrations : Table Registration
  pub by_ufrag : Table (List Text)
  pub by_hint : Table (List Text)
  pub pins : Table Pin
  pub window : Window
  pub address_differs_count : ℕ
  pub dropped : List Drop
  pub events : List Event
  pub sent : List Sent

pub data AllowError : Type 0 where
  invalid duplicate limit_reached too_many_sharing : AllowError
