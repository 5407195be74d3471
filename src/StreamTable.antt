-- ===== src/StreamTable.antt =====
-- backend/src/StreamMetadataService.ts: the row of the stream table that belongs to one port, and
-- the condition and update expressions of the writes on it. The port is the key. Times are milliseconds; the code stores them
-- as ISO 8601 text of one width, whose order as text is the order of the times.
use video_thingy_rocks.Common.{
  ℕ, ◌*◌, String, Bool, true, false, ◌&&◌, ◌||◌, Option, none, some, ltb, leb, ◌==◌, if◌then◌else◌,
  str_eq, some_and, is_none, get_or_else,
}
use video_thingy_rocks.Dynamo.{UpdateCommand}

pub data Status : Type 0 where
  active inactive : Status

-- An attribute that a row lacks is `none`: a row can be created by any of the writes below.
pub record StreamMetadata : Type 0 where
  pub status : Option Status
  pub last_packet_time : Option ℕ
  pub kinesis_owner_instance_id : Option String
  pub last_frame_path : Option String
  pub hls_manifest_path : Option String
  pub raw_stream_path : Option String
  pub srtp_index : Option ℕ
  pub srtp_index_ssrc : Option ℕ
  pub srtp_index_key_fingerprint : Option String
  pub srtp_key_generation : Option ℕ
  pub srtp_floor_epoch : Option ℕ
  pub created_at : Option ℕ
  pub updated_at : Option ℕ

abbrev pub kinesis_lock_stale_ms : ℕ
kinesis_lock_stale_ms = 5 * 60 * 1000

abbrev pub update_throttle_ms : ℕ
update_throttle_ms = 15000

abbrev pub new_item : StreamMetadata
new_item = record {
  status = none;
  last_packet_time = none;
  kinesis_owner_instance_id = none;
  last_frame_path = none;
  hls_manifest_path = none;
  raw_stream_path = none;
  srtp_index = none;
  srtp_index_ssrc = none;
  srtp_index_key_fingerprint = none;
  srtp_key_generation = none;
  srtp_floor_epoch = none;
  created_at = none;
  updated_at = none;
}

-- What an update writes on: the item, or a new one.
abbrev pub existing : Option StreamMetadata → StreamMetadata
existing o = get_or_else o new_item

-- A comparison with an attribute that is missing is false.
abbrev pub owned_by : String → Option StreamMetadata → Bool
owned_by id = some_and λ row. some_and (str_eq id) row.kinesis_owner_instance_id

abbrev pub silent_since : ℕ → Option StreamMetadata → Bool
silent_since t = some_and λ row. some_and (λ last. ltb last t) row.last_packet_time

abbrev pub unowned : Option StreamMetadata → Bool
unowned none = true
unowned (some row) = is_none row.kinesis_owner_instance_id

-- `now` is the time written, `stale_threshold` is computed from a clock of its own.
abbrev pub acquire_command : ℕ → String → ℕ → ℕ → UpdateCommand StreamMetadata
acquire_command port instance_id now stale_threshold = record {
  key = port;
  condition = λ o. unowned o || (owned_by instance_id o || silent_since stale_threshold o);
  update = λ o. record (existing o) {
    kinesis_owner_instance_id = some instance_id;
    last_packet_time = some now;
    status = some active;
    updated_at = some now;
    created_at = some (get_or_else (existing o).created_at now);
  };
}

abbrev pub release_command : ℕ → String → ℕ → UpdateCommand StreamMetadata
release_command port instance_id now = record {
  key = port;
  condition = owned_by instance_id;
  update = λ o. record (existing o) {
    kinesis_owner_instance_id = none;
    status = some inactive;
    updated_at = some now;
  };
}

abbrev pub lease_command : ℕ → String → ℕ → UpdateCommand StreamMetadata
lease_command port instance_id now = record {
  key = port;
  condition = owned_by instance_id;
  update = λ o. record (existing o) {
    status = some active;
    last_packet_time = some now;
    updated_at = some now;
  };
}

-- `attribute_not_exists(srtpFloorEpoch)`, or `srtpFloorEpoch = :epoch`
abbrev pub epoch_fence : Option ℕ → Option ℕ → Bool
epoch_fence none stored = is_none stored
epoch_fence (some epoch) stored = some_and (λ e. e == epoch) stored

abbrev pub same_identity : ℕ → ℕ → String → StreamMetadata → Bool
same_identity generation ssrc fingerprint row =
    some_and (λ g. g == generation) row.srtp_key_generation
    && (some_and (λ s. s == ssrc) row.srtp_index_ssrc
        && some_and (λ f. str_eq f fingerprint) row.srtp_index_key_fingerprint)

abbrev pub raises : ℕ → ℕ → String → ℕ → StreamMetadata → Bool
raises index ssrc fingerprint generation row =
    is_none row.srtp_index
    || (is_none row.srtp_key_generation
        || (some_and (λ g. ltb g generation) row.srtp_key_generation
            || (same_identity generation ssrc fingerprint row
                && some_and (λ i. ltb i index) row.srtp_index)))

abbrev pub raise_command : ℕ → ℕ → ℕ → String → ℕ → Option ℕ → ℕ → UpdateCommand StreamMetadata
raise_command port index ssrc fingerprint generation epoch now = record {
  key = port;
  condition = λ o.
      epoch_fence epoch (existing o).srtp_floor_epoch
      && raises index ssrc fingerprint generation (existing o);
  update = λ o. record (existing o) {
    srtp_index = some index;
    srtp_index_ssrc = some ssrc;
    srtp_index_key_fingerprint = some fingerprint;
    srtp_key_generation = some generation;
    updated_at = some now;
  };
}

pub record FloorReset : Type 0 where
  pub requested_at_ms : ℕ
  pub floor : ℕ
  pub ssrc : ℕ
  pub key_fingerprint : String
  pub generation : ℕ

abbrev pub reset_allowed : FloorReset → StreamMetadata → Bool
reset_allowed r row =
    (is_none row.srtp_floor_epoch || some_and (λ e. ltb e r.requested_at_ms) row.srtp_floor_epoch)
    && (is_none row.srtp_key_generation
        || some_and (λ g. leb g r.generation) row.srtp_key_generation)

abbrev pub reset_command : ℕ → FloorReset → ℕ → UpdateCommand StreamMetadata
reset_command port r now = record {
  key = port;
  condition = λ o. reset_allowed r (existing o);
  update = λ o. record (existing o) {
    srtp_floor_epoch = some r.requested_at_ms;
    srtp_index = some r.floor;
    srtp_index_ssrc = some r.ssrc;
    srtp_index_key_fingerprint = some r.key_fingerprint;
    srtp_key_generation = some r.generation;
    updated_at = some now;
  };
}

abbrev pub status_command : ℕ → Status → ℕ → UpdateCommand StreamMetadata
status_command port status now = record {
  key = port;
  condition = λ o. if is_none o then false else true;
  update = λ o. record (existing o) { status = some status; updated_at = some now };
}
