-- ===== src/Ingest.antt =====
-- backend/src/index.ts: what becomes of a packet of the unencrypted transport. A handler runs without a
-- break up to a call that it awaits; between that and the answer other handlers run.
pub mod Handlers
pub mod Process
pub mod Accounts
pub mod Turns
pub mod Threshold
pub mod NoRetry
mod Tests
use video_thingy_rocks.Common.{
  ℕ, zero, suc, ◌+◌, ◌-◌, Bool, true, false, not, ◌&&◌, ◌||◌, Option, none, some, List, [], ◌∷◌,
  ◌++◌, length, leb, ◌==◌, is_none, get_or_else, if◌then◌else◌, PortMap, map_set, map_delete,
}
use video_thingy_rocks.StreamState.{
  StreamStatus, active, inactive, StreamState, StreamEvent, stream_start, stream_resume,
  stream_stop, StreamStateManager, new_manager, on_packet_received, fire_timer,
}

abbrev pub pipeline_restart_throttle_ms : ℕ
pipeline_restart_throttle_ms = 10000

-- Ingestion is enabled when there is a pipeline; its port range is a test here.
pub record Config : Type 0 where
  pub enabled : Bool
  pub in_range : ℕ → Bool
  pub min_bytes_before_start : ℕ
  pub inactivity_timeout : ℕ

-- A packet's bytes.
abbrev pub Buffer : Type 0
Buffer = List ℕ

-- `Buffer.concat`
unfoldable pub concat : List Buffer → Buffer
concat [] = []
concat (c ∷ cs) = c ++ concat cs

pub record PreStartBuffer : Type 0 where
  pub chunks : List Buffer
  pub total_bytes : ℕ

pub record Main : Type 0 where
  pub streams : StreamStateManager
  pub kinesis_lock_held_for_ports : ℕ → Bool
  pub pre_start_buffer_by_port : PortMap PreStartBuffer
  pub last_pipeline_restart_by_port : PortMap ℕ

abbrev pub new_main : Main
new_main = record {
  streams = new_manager;
  kinesis_lock_held_for_ports = λ k. false;
  pre_start_buffer_by_port = λ k. none;
  last_pipeline_restart_by_port = λ k. none;
}

-- The calls of the metadata service and of the pipeline.
pub data Call : Type 0 where
  try_acquire : (port : ℕ) → Call
  release : (port : ℕ) → Call
  update_last_packet_time : (port : ℕ) → Call
  start : (port : ℕ) (initial : Option Buffer) → Call
  write_packet : (port : ℕ) (bytes : Buffer) → Call
  stop : (port : ℕ) → Call

-- Where a handler goes on when its call is answered.
pub data Waiting : Type 0 where
  acquiring : (port : ℕ) (bytes : Buffer) (timestamp : ℕ) (initial : Buffer) → Waiting
  starting : (port : ℕ) (bytes : Buffer) (timestamp : ℕ) → Waiting
  updating : (port : ℕ) (bytes : Buffer) (in_initial : Bool) → Waiting
  stopping : (port : ℕ) (bytes : Buffer) (in_initial : Bool) → Waiting
  releasing : (port : ℕ) → Waiting
  restarting : (port : ℕ) (due : ℕ) → Waiting

-- `throws` is a rejected promise.
pub data Answer : Type 0 where
  acquired : Bool → Answer
  done : Answer
  lost_lock : Answer
  throws : Answer

pub record Turn : Type 0 where
  pub main : Main
  pub calls : List Call
  pub waits : List Waiting
