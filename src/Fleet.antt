-- ===== src/Fleet.antt =====
-- The fleet: any number of instances that run StreamMetadataService against one table, and the
-- cleanup lambda, interleaved call by call. A call takes whatever arguments an instance may have.
pub mod Version
pub mod Keeps
pub mod Floors
pub mod Replay
pub mod Leases
pub mod Producers
mod Tests
use video_thingy_rocks.Common.{ℕ, ◌-◌, String, Option, none, some, PortMap, List, [], ◌∷◌}
use video_thingy_rocks.Dynamo.{DocumentClient, UpdateCommand}
use video_thingy_rocks.StreamTable.{
  StreamMetadata, FloorReset, kinesis_lock_stale_ms, acquire_command, release_command,
  lease_command, raise_command, reset_command,
}
use video_thingy_rocks.StreamMetadata.{
  try_acquire_kinesis_lock, release_kinesis_lock, update_last_packet_time, get_srtp_index_floor,
  get_srtp_floor_epoch, reset_srtp_index_floor, raise_srtp_index_floor,
}
use video_thingy_rocks.Cleanup.{cleanup_command}

-- Arguments as those of the operations. `cleanup` is the write for one item of the lambda's scan.
pub data Call : Type 0 where
  acquire : (port : ℕ) (id : String) (now now' : ℕ) → Call
  release : (port : ℕ) (id : String) (now : ℕ) → Call
  refresh : (port : ℕ) (id : String) (now : ℕ) (times : PortMap ℕ) → Call
  read_floor : (port ssrc : ℕ) (fingerprint : String) → Call
  read_epoch : (port : ℕ) → Call
  raise :
      (port index ssrc : ℕ) (fingerprint : String) (generation : ℕ) (epoch : Option ℕ) (now : ℕ)
      → Call
  reset : (port : ℕ) (r : FloorReset) (now : ℕ) → Call
  cleanup : (port now stale_threshold : ℕ) → Call

-- The write that a call may send.
abbrev pub command : Call → Option (UpdateCommand StreamMetadata)
command (acquire port id now now') =
    some (acquire_command port id now (now' - kinesis_lock_stale_ms))
command (release port id now) = some (release_command port id now)
command (refresh port id now times) = some (lease_command port id now)
command (read_floor port ssrc fingerprint) = none
command (read_epoch port) = none
command (raise port index ssrc fingerprint generation epoch now) =
    some (raise_command port index ssrc fingerprint generation epoch now)
command (reset port r now) = some (reset_command port r now)
command (cleanup port now stale_threshold) = some (cleanup_command port now stale_threshold)

module _ (db : DocumentClient StreamMetadata) where
  pub perform : Call → db.Table → db.Table
  unfolding try_acquire_kinesis_lock release_kinesis_lock update_last_packet_time
      get_srtp_index_floor get_srtp_floor_epoch reset_srtp_index_floor raise_srtp_index_floor
  perform (acquire port id now now') t = (try_acquire_kinesis_lock db port id now now' t).1
  perform (release port id now) t = (release_kinesis_lock db port id now t).1
  perform (refresh port id now times) t = (update_last_packet_time db port id now times t).2
  perform (read_floor port ssrc fingerprint) t = (get_srtp_index_floor db port ssrc fingerprint t).1
  perform (read_epoch port) t = (get_srtp_floor_epoch db port t).1
  perform (raise port index ssrc fingerprint generation epoch now) t =
      raise_srtp_index_floor db port index ssrc fingerprint generation epoch now t
  perform (reset port r now) t = (reset_srtp_index_floor db port r now t).1
  perform (cleanup port now stale_threshold) t =
      (db.send_update (cleanup_command port now stale_threshold) t).1

  unfoldable pub run : List Call → db.Table → db.Table
  unfolding perform
  run [] t = t
  run (c ∷ calls) t = run calls (perform c t)
