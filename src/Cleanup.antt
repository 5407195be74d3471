-- ===== src/Cleanup.antt =====
-- lambda/stream-inactivity-cleanup/index.ts: frees the locks of streams that have gone silent.
pub mod Bounds
mod Tests
use video_thingy_rocks.Common.{
  ℕ, suc, ◌+◌, ◌-◌, ◌*◌, Bool, true, false, ◌&&◌, Option, none, some, List, [], ◌∷◌, leb, length,
  if◌then◌else◌, some_and, not, str_eq, String,
}
use video_thingy_rocks.Dynamo.{
  Reply, ok, conditional_check_failed, failed, UpdateCommand, DocumentClient,
}
use video_thingy_rocks.StreamTable.{
  StreamMetadata, Status, active, inactive, existing, silent_since,
}

abbrev pub inactivity_threshold_ms : ℕ
inactivity_threshold_ms = 5 * 60 * 1000

-- What the scan returns of a row; `none` where the attribute is missing or the empty text.
pub record ScanItem : Type 0 where
  pub port : Option ℕ
  pub last_packet_time : Option ℕ

abbrev is_active : Status → Bool
is_active active = true
is_active inactive = false

abbrev pub marked_active : Option StreamMetadata → Bool
marked_active = some_and λ row. some_and is_active row.status

abbrev pub cleanup_command : ℕ → ℕ → ℕ → UpdateCommand StreamMetadata
cleanup_command port now stale_threshold = record {
  key = port;
  condition = λ o. marked_active o && silent_since stale_threshold o;
  update = λ o. record (existing o) {
    kinesis_owner_instance_id = none;
    status = some inactive;
    updated_at = some now;
  };
}

pub record Cleaned : Type 0 where
  pub cleaned : ℕ
  pub total : ℕ

abbrev pub clean_reply : Reply → Option ℕ
clean_reply ok = some 1
clean_reply conditional_check_failed = some 0
clean_reply failed = none

module _ (db : DocumentClient StreamMetadata) where
  open db use {Table, send_update}

  -- One item of the loop: how many rows were cleaned, `none` if the call throws.
  unfoldable pub clean_item : ℕ → ℕ → ScanItem → Table → Option ℕ × Table
  clean_item now stale_threshold i t = elim i.port [
    | none ↦ (some 0, t)
    | some port ↦ elim i.last_packet_time [
      | none ↦ (some 0, t)
      | some last ↦
          if leb stale_threshold last
          then (some 0, t)
          else let (reply, t') = send_update (cleanup_command port now stale_threshold) t in
            (clean_reply reply, t')
    ]
  ]

  -- The loop; `clock` gives the time at each item. A throw ends it.
  unfoldable pub clean_items : (ℕ → ℕ) → ℕ → ℕ → List ScanItem → Table → Option ℕ × Table
  clean_items clock stale_threshold cleaned [] t = (some cleaned, t)
  clean_items clock stale_threshold cleaned (i ∷ items) t =
      let (n, t') = clean_item (clock (length items)) stale_threshold i t in
      elim n [
        | none ↦ (none, t')
        | some k ↦ clean_items clock stale_threshold (cleaned + k) items t'
      ]

  -- `table_name` is the environment's TABLE_NAME, and `scanned` the items of the scan for active
  -- streams, `none` if it throws.
  unfoldable pub handler :
      Option String → (ℕ → ℕ) → ℕ → Option (List ScanItem) → Table → Option Cleaned × Table
  handler table_name clock now none t = (none, t)
  handler table_name clock now (some items) t =
      if some_and (λ name. not (str_eq name "")) table_name
      then (let (n, t') = clean_items clock (now - inactivity_threshold_ms) 0 items t in
          elim n [
            | none ↦ (none, t')
            | some cleaned ↦ (some (record { cleaned = cleaned; total = length items }), t')
          ])
      else (none, t)
