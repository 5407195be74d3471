-- ===== src/Cleanup/Tests.antt =====
-- Runs of the cleanup on a table in memory.
use video_thingy_rocks.Common.{ℕ, ◌≡◌, refl, none, some, List, [], ◌∷◌}
use video_thingy_rocks.Dynamo.Memory.{Memory, memory, memory-Laws}
use video_thingy_rocks.StreamTable.{StreamMetadata, active, new_item}
use video_thingy_rocks.Cleanup.{ScanItem, clean_item, clean_items, handler}
use video_thingy_rocks.Cleanup.Bounds.{FreedIfStale, handler-FreedIfStale}

abbrev silent : StreamMetadata
silent = record new_item {
  kinesis_owner_instance_id = some "i-a";
  last_packet_time = some 100;
  status = some active;
}

abbrev table : Memory StreamMetadata
table = record { items = λ _. some silent; faults = [] }

-- A silent stream, a fresh one, and a row that was never active.
abbrev scan : List ScanItem
scan =
    record { port = some 5000; last_packet_time = some 100 }
    ∷ record { port = some 5001; last_packet_time = some 400000 }
    ∷ record { port = some 5002; last_packet_time = none }
    ∷ []

abbrev clock : ℕ → ℕ
clock _ = 400001

handler_runs :
    (handler (memory StreamMetadata) (some "streams") clock 400000 (some scan) table).0
    ≡ some (record { cleaned = 1; total = 3 })
unfolding handler clean_items clean_item
handler_runs = refl

handler-FreedIfStale_example :
    FreedIfStale 100000 (some silent) (
      (handler (memory StreamMetadata) (some "streams") clock 400000 (some scan) table).1.items
        5001)
handler-FreedIfStale_example =
    handler-FreedIfStale (memory StreamMetadata) (memory-Laws StreamMetadata) (some "streams") clock
      400000 (some scan) table 5001
