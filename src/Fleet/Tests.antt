-- ===== src/Fleet/Tests.antt =====
-- Interleavings of two instances and the cleanup on a table in memory.
use video_thingy_rocks.Common.{
  ◌≡◌, ◌≢◌, refl, none, some, true, false, String, str_eq_iff, All, List, [], ◌∷◌, arith,
}
use video_thingy_rocks.Dynamo.Memory.{Memory, memory, memory-Laws, lost, unreachable}
use video_thingy_rocks.StreamTable.{StreamMetadata, new_item}
use video_thingy_rocks.StreamMetadata.{try_acquire_kinesis_lock, get_srtp_index_floor}
use video_thingy_rocks.Fleet.{Call, acquire, release, refresh, raise, cleanup, perform, run}
use video_thingy_rocks.Fleet.Version.{VersionLe}
use video_thingy_rocks.Fleet.Floors.{run-VersionLe}
use video_thingy_rocks.Fleet.Leases.{Respects, lock_exclusive}

abbrev floored : StreamMetadata
floored = record new_item {
  srtp_index = some 70000;
  srtp_index_ssrc = some 42;
  srtp_index_key_fingerprint = some "f1";
  srtp_key_generation = some 2000000002;
}

abbrev table : Memory StreamMetadata
table = record {
  items = λ _. some floored;
  faults = none ∷ some lost ∷ none ∷ some unreachable ∷ [];
}

-- Two instances raise the floor, out of order and with a lost response, and contend for the lock.
abbrev contended : List Call
contended =
    raise 6000 90000 42 "f1" 2000000002 none 100
    ∷ raise 6000 80000 42 "f1" 2000000002 none 101
    ∷ acquire 6000 "i-b" 500100 500100
    ∷ refresh 6000 "i-a" 500200 (λ _. none)
    ∷ cleanup 6000 500300 200300
    ∷ release 6001 "i-a" 500400
    ∷ []

contended_floor :
    (get_srtp_index_floor (memory StreamMetadata) 6000 42 "f1" (
      run
        (memory StreamMetadata)
        contended
        (get_srtp_index_floor (memory StreamMetadata) 6000 42 "f1" table).1)).0
    ≡ some (some 90000)
unfolding run perform get_srtp_index_floor
contended_floor = refl

run-VersionLe_example :
    VersionLe (some floored) ((run (memory StreamMetadata) contended table).items 6000)
run-VersionLe_example =
    run-VersionLe (memory StreamMetadata) (memory-Laws StreamMetadata) 6000 contended table

abbrev respectful : List Call
respectful =
    acquire 6000 "i-b" 500100 500100
    ∷ refresh 6000 "i-a" 500200 (λ _. none)
    ∷ cleanup 6000 500300 200300
    ∷ release 6001 "i-a" 500400
    ∷ []

other_instance : ◌≢◌ {A = String} "i-b" "i-a"
other_instance e = let same : false ≡ true = (str_eq_iff "i-b" "i-a").1 e in cc

respects : All (Respects 6000 "i-a" 400000) respectful
respects = (omega arith, (omega arith, (omega arith, ((λ e. absurd (omega arith)), tt))))

lock_exclusive_example :
    (try_acquire_kinesis_lock (memory StreamMetadata) 6000 "i-b" 700000 700000 (
      run
        (memory StreamMetadata)
        respectful
        (try_acquire_kinesis_lock (memory StreamMetadata) 6000 "i-a" 400000 400000 table).1)).0
    ≢ some true
unfolding try_acquire_kinesis_lock
lock_exclusive_example =
    lock_exclusive (memory StreamMetadata) (memory-Laws StreamMetadata) 6000 "i-a" "i-b" 400000
      400000 700000 700000 respectful table refl other_instance respects (omega arith)
