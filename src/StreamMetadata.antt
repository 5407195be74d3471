-- ===== src/StreamMetadata.antt =====
-- The operations of backend/src/StreamMetadataService.ts, over any document client.
pub mod Lock
pub mod Floor
mod Tests
use video_thingy_rocks.Common.{
  max_safe_integer, ℕ, ◌-◌, String, Bool, true, false, ◌&&◌, Option, none, some, ltb, leb, ◌==◌,
  if◌then◌else◌, str_eq, some_and, get_or_else, PortMap, map_set, map_delete,
}
use video_thingy_rocks.Dynamo.{Reply, ok, conditional_check_failed, failed, DocumentClient}
use video_thingy_rocks.StreamTable.{
  StreamMetadata, Status, kinesis_lock_stale_ms, update_throttle_ms, new_item, existing,
  acquire_command, release_command, lease_command, raise_command, FloorReset, reset_command,
  status_command,
}

-- `held` is the source's `ok`.
pub data OwnedWriteResult : Type 0 where
  held lost_lock write_error : OwnedWriteResult

pub data ResetOutcome : Type 0 where
  reset stale : ResetOutcome

-- `none`: the call throws.
abbrev pub acquired : Reply → Option Bool
acquired ok = some true
acquired conditional_check_failed = some false
acquired failed = none

-- A refused release counts as released. `false`: the call throws.
abbrev released : Reply → Bool
released ok = true
released conditional_check_failed = true
released failed = false

abbrev pub lease_result : Reply → OwnedWriteResult
lease_result ok = held
lease_result conditional_check_failed = lost_lock
lease_result failed = write_error

abbrev pub keep_throttle : Reply → PortMap ℕ → ℕ → PortMap ℕ
keep_throttle ok times port = times
keep_throttle conditional_check_failed times port = map_delete times port
keep_throttle failed times port = map_delete times port

abbrev pub floor_of : ℕ → String → Option StreamMetadata → Option ℕ
floor_of expected_ssrc expected_fingerprint none = none
floor_of expected_ssrc expected_fingerprint (some row) =
    if some_and (λ i. leb i max_safe_integer) row.srtp_index
      && (some_and (λ s. s == expected_ssrc) row.srtp_index_ssrc
          && some_and (λ f. str_eq f expected_fingerprint) row.srtp_index_key_fingerprint)
    then row.srtp_index
    else none

abbrev map_read :
    {A : Type 0} → (Option StreamMetadata → A) → Option (Option StreamMetadata) → Option A
map_read f none = none
map_read f (some o) = some (f o)

abbrev pub epoch_of : Option StreamMetadata → Option ℕ
epoch_of o =
    if some_and (λ e. leb e max_safe_integer) (existing o).srtp_floor_epoch
    then (existing o).srtp_floor_epoch
    else none

abbrev reset_result : Reply → Option ResetOutcome
reset_result ok = some reset
reset_result conditional_check_failed = some stale
reset_result failed = none

abbrev created : Status → ℕ → StreamMetadata
created status now = record new_item {
  status = some status;
  last_packet_time = some now;
  created_at = some now;
  updated_at = some now;
}

module _ (db : DocumentClient StreamMetadata) where
  open db use {Table, send_update, send_put, send_get}

  unfoldable pub try_acquire_kinesis_lock : ℕ → String → ℕ → ℕ → Table → Option Bool × Table
  try_acquire_kinesis_lock port instance_id now now' t =
      let (reply, t') =
        send_update (acquire_command port instance_id now (now' - kinesis_lock_stale_ms)) t in
      (acquired reply, t')

  unfoldable pub release_kinesis_lock : ℕ → String → ℕ → Table → Bool × Table
  release_kinesis_lock port instance_id now t =
      let (reply, t') = send_update (release_command port instance_id now) t in (released reply, t')

  -- The throttle map is the service's own state; the table is shared.
  unfoldable pub update_last_packet_time :
      ℕ → String → ℕ → PortMap ℕ → Table → OwnedWriteResult × PortMap ℕ × Table
  update_last_packet_time port instance_id now times t =
      if ltb (now - get_or_else (times port) 0) update_throttle_ms
      then (held, times, t)
      else let (reply, t') = send_update (lease_command port instance_id now) t in
        (lease_result reply, keep_throttle reply (map_set times port now) port, t')

  -- The outer `none`: the read throws.
  unfoldable pub get_srtp_index_floor : ℕ → ℕ → String → Table → Option (Option ℕ) × Table
  get_srtp_index_floor port expected_ssrc expected_fingerprint t =
      let (found, t') = send_get port t in
      (map_read (floor_of expected_ssrc expected_fingerprint) found, t')

  unfoldable pub get_srtp_floor_epoch : ℕ → Table → Option (Option ℕ) × Table
  get_srtp_floor_epoch port t = let (found, t') = send_get port t in (map_read epoch_of found, t')

  unfoldable pub reset_srtp_index_floor : ℕ → FloorReset → ℕ → Table → Option ResetOutcome × Table
  reset_srtp_index_floor port r now t =
      let (reply, t') = send_update (reset_command port r now) t in (reset_result reply, t')

  -- Best effort: neither a refusal nor a failure is reported.
  unfoldable pub raise_srtp_index_floor : ℕ → ℕ → ℕ → String → ℕ → Option ℕ → ℕ → Table → Table
  raise_srtp_index_floor port index ssrc fingerprint generation epoch now t =
      (send_update (raise_command port index ssrc fingerprint generation epoch now) t).1

  -- `false`: the call throws.
  unfoldable pub update_stream_status : ℕ → Status → ℕ → ℕ → Table → Bool × Table
  update_stream_status port status now now' t =
      let (reply, t') = send_update (status_command port status now) t in
      elim reply [
        | ok ↦ (true, t')
        | conditional_check_failed ↦
            let (put, t'') = send_put port (created status now') t' in (released put, t'')
        | failed ↦ (false, t')
      ]
