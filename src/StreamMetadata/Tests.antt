-- ===== src/StreamMetadata/Tests.antt =====
-- Runs of the stream table's operations in memory, with and without faults.
use video_thingy_rocks.Common.{ℕ, ◌≡◌, refl, inl, none, some, true, [], ◌∷◌, PortMap}
use video_thingy_rocks.Dynamo.{Untouched}
use video_thingy_rocks.Dynamo.Memory.{Memory, memory, memory-Laws, lost, unreachable}
use video_thingy_rocks.StreamTable.{StreamMetadata, active, new_item}
use video_thingy_rocks.StreamMetadata.{
  lost_lock, try_acquire_kinesis_lock, release_kinesis_lock, update_last_packet_time,
  raise_srtp_index_floor,
}
use video_thingy_rocks.StreamMetadata.Lock.{
  AcquireSays, RefreshSays, acquire_outcome, refresh_outcome,
}
use video_thingy_rocks.StreamMetadata.Floor.{raise_fenced}

abbrev leased : StreamMetadata
leased = record new_item {
  kinesis_owner_instance_id = some "i-a";
  last_packet_time = some 400000;
  status = some active;
  srtp_index = some 70000;
  srtp_index_ssrc = some 42;
  srtp_index_key_fingerprint = some "f1";
  srtp_key_generation = some 2000000002;
  srtp_floor_epoch = some 1000;
}

abbrev table : Memory StreamMetadata
table = record { items = λ _. some leased; faults = [] }

abbrev broken : Memory StreamMetadata
broken = record { items = λ _. some leased; faults = some lost ∷ some unreachable ∷ [] }

abbrev unthrottled : PortMap ℕ
unthrottled _ = none

-- Another instance is refused while the lease is fresh, and gets the lock once it is stale; a lost
-- response throws although the lock was taken.
acquire_tests :
    ((try_acquire_kinesis_lock (memory StreamMetadata) 6000 "i-b" 500000 500000 table).0 ≡ some true
      → ⊥)
    × ((try_acquire_kinesis_lock (memory StreamMetadata) 6000 "i-b" 800000 800000 table).0
        ≡ some true)
    × ((try_acquire_kinesis_lock (memory StreamMetadata) 6000 "i-a" 500000 500000 broken).0 ≡ none)
    × ((release_kinesis_lock (memory StreamMetadata) 6000 "i-b" 500000 table).0 ≡ true)
    × ((update_last_packet_time (memory StreamMetadata) 6000 "i-b" 500000 unthrottled table).0
        ≡ lost_lock)
unfolding try_acquire_kinesis_lock release_kinesis_lock update_last_packet_time
acquire_tests = ((λ e. cc), refl, refl, refl, refl)

acquire_outcome_example :
    let (outcome, t') =
      try_acquire_kinesis_lock (memory StreamMetadata) 6000 "i-b" 500000 500000 table in
    AcquireSays "i-b" 500000 200000 outcome (some leased) (t'.items 6000)
acquire_outcome_example =
    acquire_outcome (memory StreamMetadata) (memory-Laws StreamMetadata) 6000 "i-b" 500000 500000
      table

refresh_outcome_example :
    let (outcome, times', t') =
      update_last_packet_time (memory StreamMetadata) 6000 "i-b" 500000 unthrottled table in
    RefreshSays 6000 "i-b" 500000 unthrottled outcome times' (some leased) (t'.items 6000)
refresh_outcome_example =
    refresh_outcome (memory StreamMetadata) (memory-Laws StreamMetadata) 6000 "i-b" 500000
      unthrottled table

-- A helper that was started before the reset of epoch 1000 cannot raise the floor.
raise_fenced_example :
    Untouched
      (memory StreamMetadata)
      table
      (raise_srtp_index_floor
        (memory StreamMetadata)
        6000
        80000
        42
        "f1"
        2000000002
        none
        500000
        table)
      6000
raise_fenced_example =
    raise_fenced (memory StreamMetadata) (memory-Laws StreamMetadata) 6000 80000 42 "f1" 2000000002
      none 500000 table (inl (λ e. cc))
