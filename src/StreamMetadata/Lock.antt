-- ===== src/StreamMetadata/Lock.antt =====
-- What an instance knows of the port's row after each call on the Kinesis lock.
use video_thingy_rocks.Common.{
  ℕ, ◌-◌, ◌≡◌, ◌≢◌, ◌⊎◌, inl, inr, refl, String, Bool, Option, none, some, arith, true, false, ltb,
  get_or_else, PortMap, map_set, Option-cases, Bool-cases, str_eq_iff,
}
use video_thingy_rocks.Dynamo.{DocumentClient, Laws, Reply, ok, conditional_check_failed, failed}
use video_thingy_rocks.StreamTable.{
  StreamMetadata, existing, kinesis_lock_stale_ms, update_throttle_ms, acquire_command,
  lease_command, unowned, owned_by, silent_since,
}
use video_thingy_rocks.StreamMetadata.{
  OwnedWriteResult, held, lost_lock, write_error, try_acquire_kinesis_lock, acquired, lease_result,
  keep_throttle, update_last_packet_time,
}

-- What each outcome of an acquisition says of the row that it leaves.
abbrev pub AcquireSays :
    String → ℕ → ℕ → Option Bool → Option StreamMetadata → Option StreamMetadata → Type 0
AcquireSays id now threshold (some true) before after =
    ((existing after).kinesis_owner_instance_id ≡ some id)
    × ((existing after).last_packet_time ≡ some now)
AcquireSays id now threshold (some false) before after =
    (after ≡ before)
    × (unowned after ≡ false)
    × (owned_by id after ≡ false)
    × (silent_since threshold after ≡ false)
AcquireSays id now threshold none before after = Unit

abbrev pub RefreshSays :
    ℕ
    → String
    → ℕ
    → PortMap ℕ
    → OwnedWriteResult
    → PortMap ℕ
    → Option StreamMetadata
    → Option StreamMetadata
    → Type 0
RefreshSays port id now times held times' before after =
    ((times' ≡ times)
      × (after ≡ before)
      × (ltb (now - get_or_else (times port) 0) update_throttle_ms ≡ true))
    ⊎ ((times' port ≡ some now)
        × ((existing after).kinesis_owner_instance_id ≡ some id)
        × ((existing after).last_packet_time ≡ some now))
RefreshSays port id now times lost_lock times' before after =
    (times' port ≡ none) × (owned_by id after ≡ false)
RefreshSays port id now times write_error times' before after = times' port ≡ none

owner_of_owned :
    (id : String) (o : Option StreamMetadata)
    → owned_by id o ≡ true
    → (existing o).kinesis_owner_instance_id ≡ some id
owner_of_owned id none h = cc
owner_of_owned id (some row) h = elim (Option-cases row.kinesis_owner_instance_id) [
  | inl missing ↦ ground arith
  | inr (owner, found) ↦ ground (arith, str_eq_iff id owner)
]

acquire_refused :
    (port : ℕ) (id : String) (now threshold : ℕ) (o : Option StreamMetadata)
    → (acquire_command port id now threshold).condition o ≡ false
    → (unowned o ≡ false) × (owned_by id o ≡ false) × (silent_since threshold o ≡ false)
acquire_refused port id now threshold o h = ground arith

-- The row that an acquisition writes passes its own condition.
acquire_again :
    (port : ℕ) (id : String) (now threshold : ℕ) (o : Option StreamMetadata)
    → let u = acquire_command port id now threshold in u.condition (some (u.update o)) ≢ false
acquire_again port id now threshold o h = ground (arith, str_eq_iff id id)

module _ (db : DocumentClient StreamMetadata) (laws : Laws db) where
  acquire_reply :
      (port : ℕ) (id : String) (now threshold : ℕ) (t : db.Table) (reply : Reply)
      → let u = acquire_command port id now threshold in
        (db.send_update u t).0 ≡ reply
        → AcquireSays id now threshold
            (acquired reply)
            (db.item t port)
            (db.item (db.send_update u t).1 port)
  acquire_reply port id now threshold t ok e =
      rw (laws.update_ok (acquire_command port id now threshold) t e).1 (refl, refl)
  acquire_reply port id now threshold t conditional_check_failed e =
      let u = acquire_command port id now threshold in
      let refused = laws.update_refused u t e in
      elim (laws.update_atomic u t) [
        | inl untouched ↦
            let (a, b, c) = acquire_refused port id now threshold _ refused in (untouched, a, b, c)
        | inr (passed, wrote) ↦
            absurd (acquire_again port id now threshold (db.item t port) (rw wrote at refused))
      ]
  acquire_reply port id now threshold t failed e = tt

  -- An acquisition that returns true leaves this instance as the owner with a lease of `now`. One
  -- that returns false leaves the row as it was: it is owned, by another instance, and was not
  -- silent since the stale threshold.
  pub acquire_outcome :
      (port : ℕ) (id : String) (now now' : ℕ) (t : db.Table)
      → let (outcome, t') = try_acquire_kinesis_lock db port id now now' t in
        AcquireSays id now (now' - kinesis_lock_stale_ms) outcome (db.item t port) (db.item t' port)
  unfolding try_acquire_kinesis_lock
  acquire_outcome port id now now' t =
      acquire_reply port id now (now' - kinesis_lock_stale_ms) t _ refl

  refresh_reply :
      (port : ℕ) (id : String) (now : ℕ) (times : PortMap ℕ) (t : db.Table) (reply : Reply)
      → let u = lease_command port id now in
        (db.send_update u t).0 ≡ reply
        → RefreshSays port id now times
            (lease_result reply)
            (keep_throttle reply (map_set times port now) port)
            (db.item t port)
            (db.item (db.send_update u t).1 port)
  refresh_reply port id now times t ok e =
      let (owned, wrote) = laws.update_ok (lease_command port id now) t e in
      rw wrote (inr (ground arith, owner_of_owned id (db.item t port) owned, refl))
  refresh_reply port id now times t conditional_check_failed e =
      (ground arith, laws.update_refused (lease_command port id now) t e)
  refresh_reply port id now times t failed e = ground arith

  -- A refresh of the lease that returns ok was either throttled, and then the row and
  -- the throttle stayed as they were, or it left this instance as the owner with a lease of `now`. One that reports the
  -- lock lost left a row that this instance does not own. After that, and after a failed write,
  -- the throttle of the port is cleared, so that the next packet tries again.
  pub refresh_outcome :
      (port : ℕ) (id : String) (now : ℕ) (times : PortMap ℕ) (t : db.Table)
      → let (outcome, times', t') = update_last_packet_time db port id now times t in
        RefreshSays port id now times outcome times' (db.item t port) (db.item t' port)
  unfolding update_last_packet_time
  refresh_outcome port id now times t =
      elim (Bool-cases (ltb (now - get_or_else (times port) 0) update_throttle_ms)) [
        | inl throttled ↦ rw (throttled, update_last_packet_time) (inl (refl, refl, throttled))
        | inr due ↦ rw (due, update_last_packet_time) (refresh_reply port id now times t _ refl)
      ]
