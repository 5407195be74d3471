-- ===== src/Supervisor.antt =====
-- backend/src/SrtpPortSupervisor.ts: the state machine that owns one SRTP port's helper process and
-- the port's Kinesis lock. A helper session is a number; a step of the serialized queue is a
-- function on the state.
pub mod Operations
pub mod Session
pub mod Frames
pub mod Steps
pub mod Invariant
pub mod Late
pub mod Recovery
pub mod Start
pub mod Owning
mod Tests
use video_thingy_rocks.Common.{
  ℕ, ◌*◌, String, Bool, true, false, Option, none, some, List, [], ◌∷◌, PortMap,
}
use video_thingy_rocks.StreamMetadata.{OwnedWriteResult}
use video_thingy_rocks.HelperProtocol.{SrtpHelperInit, SrtpHelperCommand}

pub data SrtpSupervisorState : Type 0 where
  idle : SrtpSupervisorState
  starting : SrtpSupervisorState
  searching : SrtpSupervisorState
  acquiring : SrtpSupervisorState
  producing : SrtpSupervisorState
  stopping : SrtpSupervisorState
  cooldown : SrtpSupervisorState
  disabled : SrtpSupervisorState
  terminated : SrtpSupervisorState

pub record SrtpPortKey : Type 0 where
  pub key_hex : String
  pub cipher : String
  pub auth : String
  pub ssrc : ℕ
  pub key_fingerprint : String
  pub generation : ℕ

pub record SrtpPortSupervisorTimeouts : Type 0 where
  pub ready_ms : ℕ
  pub acquire_retry_ms : ℕ
  pub stopped_ack_ms : ℕ
  pub frame_stall_ms : ℕ
  pub restart_ms : ℕ
  pub restart_max_ms : ℕ

abbrev pub default_timeouts : SrtpPortSupervisorTimeouts
default_timeouts = record {
  ready_ms = 10000;
  acquire_retry_ms = 30000;
  stopped_ack_ms = 15000;
  frame_stall_ms = 30000;
  restart_ms = 1000;
  restart_max_ms = 60000;
}

pub record SrtpPortSupervisorConfig : Type 0 where
  pub port : ℕ
  pub instance_id : String
  pub port_key : SrtpPortKey
  pub timeouts : SrtpPortSupervisorTimeouts

-- What the supervisor calls: the clock, the floor store, the lock service, the helper's process and
-- the observers. A call that is awaited returns what it resolves to; `none`, or `false`, where it
-- rejects or throws.
pub record Services : Type 1 where
  pub World : Type 0
  pub now : World → ℕ × World
  pub get_srtp_floor_epoch : ℕ → World → Option (Option ℕ) × World
  pub get_srtp_index_floor : ℕ → ℕ → String → World → Option (Option ℕ) × World
  pub raise_srtp_index_floor : ℕ → ℕ → ℕ → String → ℕ → Option ℕ → World → Bool × World
  pub try_acquire_kinesis_lock : ℕ → String → World → Option Bool × World
  pub release_kinesis_lock : ℕ → String → World → Bool × World
  pub update_last_packet_time : ℕ → String → World → Option OwnedWriteResult × World
  pub spawn_helper : SrtpHelperInit → World → Bool × World
  pub stdin_write : ℕ → SrtpHelperCommand → World → Bool × World
  pub end_child_process : ℕ → World → World
  pub exited : ℕ → World → Bool
  -- The race of the ack, the helper's end and the time-out: the `stopped` frame's index, if it wins.
  pub race_stop_ack : ℕ → ℕ → World → Option (Option ℕ) × World
  pub on_authenticated : ℕ → ℕ → Option ℕ → World → World
  pub on_stats : ℕ → ℕ → ℕ → World → World
  pub on_transition : SrtpSupervisorState → SrtpSupervisorState → World → World

-- What a supervisor has done and been told, for the properties; no code reads it.
pub data Effect : Type 0 where
  -- `start` was written to the session's standard input.
  started : ℕ → Effect
  -- The session reported that it no longer produces, by `stopped` or by `auth` `lost`.
  reported : ℕ → Effect
  -- The session's process is gone.
  ended : ℕ → Effect
  acquired : Effect
  released : Effect
  -- A transition, with the value of `lockHeld` that the hook sees.
  moved : (from to : SrtpSupervisorState) (held : Bool) → Effect

pub record Carry : Type 0 where
  pub base : ℕ
  pub search_from : ℕ

pub record Supervisor (W : Type 0) : Type 0 where
  pub state : SrtpSupervisorState
  pub lock_held : Bool
  pub helper : Option ℕ
  pub started_at_ms : ℕ
  pub stopped_sent_at_ms : ℕ
  pub release_after_stop : Bool
  pub backoff_ms : ℕ
  pub retry_at_ms : ℕ
  pub fatal_reason : Option String
  pub last_acquire_attempt_ms : ℕ
  pub last_frame_at_ms : ℕ
  pub last_heartbeat_authenticated : ℕ
  pub search_from_carry : Option Carry
  pub session_floor_base : ℕ
  -- The epoch of each session that was started.
  pub session_epochs : PortMap (Option ℕ)
  -- The sessions spawned so far.
  pub sessions : ℕ
  pub world : W
  pub log : List Effect

-- The constructor.
abbrev pub new_supervisor : {W : Type 0} → SrtpPortSupervisorConfig → W → Supervisor W
new_supervisor c w = record {
  state = idle;
  lock_held = false;
  helper = none;
  started_at_ms = 0;
  stopped_sent_at_ms = 0;
  release_after_stop = true;
  backoff_ms = c.timeouts.restart_ms;
  retry_at_ms = 0;
  fatal_reason = none;
  last_acquire_attempt_ms = 0;
  last_frame_at_ms = 0;
  last_heartbeat_authenticated = 0;
  search_from_carry = none;
  session_floor_base = 0;
  session_epochs = λ k. none;
  sessions = 0;
  world = w;
  log = [];
}

pub record SrtpPortStatus : Type 0 where
  pub port : ℕ
  pub state : SrtpSupervisorState
  pub lock_held : Bool
  pub helper_up : Bool
  pub is_producing : Bool
