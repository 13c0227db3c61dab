-- ===== src/Streams/State.antt =====
-- apps/server/src/stream-registry.mjs: the state of the registry.
use vidvnc.Base.{ℕ, Bool, true, false, List, Text}
use vidvnc.Base.Table.{Table}
use vidvnc.Streams.Plans.{Kind, audio, video, Plan}

pub data SourceState : Type 0 where
  starting ready closing : SourceState

pub data StreamState : Type 0 where
  starting live closing : StreamState

pub record Source : Type 0 where
  pub id : Text
  pub kind : Kind
  pub key : Text
  pub plan : Plan
  pub pixels : ℕ
  pub state : SourceState
  pub subscriptions : List Text

pub record Stream : Type 0 where
  pub id : Text
  pub session_id : Text
  pub source_id : Text
  pub kind : Kind
  pub state : StreamState
  pub plan : Plan

pub record Limits : Type 0 where
  pub max_streams : ℕ
  pub per_session : ℕ
  pub bitrate_kbps : ℕ
  pub pixels_per_second : ℕ

pub record Registry : Type 0 where
  pub limits : Limits
  pub sources : Table Source
  pub subscriptions : Table Stream

abbrev pub is_audio : Kind → Bool
is_audio audio = true
is_audio video = false

abbrev pub is_video : Kind → Bool
is_video audio = false
is_video video = true

abbrev pub same_kind : Kind → Kind → Bool
same_kind audio k = is_audio k
same_kind video k = is_video k

abbrev pub is_closing : SourceState → Bool
is_closing SourceState.closing = true
is_closing s = false
