-- ===== src/Fleet/Leases.antt =====
-- The Kinesis lock of a port under any interleaving of the fleet's calls.
use video_thingy_rocks.Common.{
  ℕ, ◌-◌, ◌≤◌, ◌≡◌, ◌≢◌, refl, String, Option, none, some, arith, true, false, ap, ◌&&◌, List, All,
  str_eq_iff,
}
use video_thingy_rocks.Dynamo.{DocumentClient, Laws, Wrote}
use video_thingy_rocks.StreamTable.{
  StreamMetadata, existing, kinesis_lock_stale_ms, acquire_command, owned_by, silent_since,
}
use video_thingy_rocks.StreamMetadata.{try_acquire_kinesis_lock}
use video_thingy_rocks.Cleanup.{marked_active}
use video_thingy_rocks.Fleet.{
  Call, acquire, release, refresh, read_floor, read_epoch, raise, reset, cleanup, command, run,
}
use video_thingy_rocks.Fleet.Keeps.{WriteKeeps, run-Keeps}
use video_thingy_rocks.Fleet.Floors.{All-mono}

-- `id` owns the row, and its lease was last refreshed at `since` or later.
abbrev pub Holds : String → ℕ → Option StreamMetadata → Type 0
Holds id since o =
    ((existing o).kinesis_owner_instance_id ≡ some id)
    × ((last : ℕ) × ((existing o).last_packet_time ≡ some last) × (since ≤ last))

-- What the other calls do while `id` relies on a lease of time `since`: `id` does not release the
-- port, no clock that is written runs behind `since`, and no clock that a lease is held against
-- is more than the stale time ahead of it.
abbrev pub Respects : ℕ → String → ℕ → Call → Type 0
Respects port id since (acquire p id' now now') =
    (since ≤ now) × (now' - kinesis_lock_stale_ms ≤ since)
Respects port id since (release p id' now) = port ≡ p → id' ≢ id
Respects port id since (refresh p id' now times) = since ≤ now
Respects port id since (cleanup p now stale_threshold) = stale_threshold ≤ since
Respects port id since _ = Unit

abbrev KeepsHeld : String → ℕ → Option StreamMetadata → Option StreamMetadata → Type 0
KeepsHeld id since o p = Holds id since o → Holds id since p

owned_by-eq :
    (id id' : String) (o : Option StreamMetadata)
    → (existing o).kinesis_owner_instance_id ≡ some id
    → owned_by id' o ≡ true
    → id' ≡ id
owned_by-eq id id' none e h = cc
owned_by-eq id id' (some row) e h = ground (arith, str_eq_iff id' id)

held_fresh :
    (id : String) (since threshold : ℕ) (o : Option StreamMetadata)
    → threshold ≤ since
    → Holds id since o
    → silent_since threshold o ≡ false
held_fresh id since threshold none le held = refl
held_fresh id since threshold (some row) le (owner, (last, seen, later)) = ground arith

cleanup_refused :
    (id : String) (since threshold : ℕ) (o : Option StreamMetadata)
    → threshold ≤ since
    → Holds id since o
    → (marked_active o && silent_since threshold o) ≢ true
cleanup_refused id since threshold o le held h =
    let fresh = held_fresh id since threshold o le held in ground arith

-- Only the owner itself passes the condition of an acquisition of a held lock.
held-acquire :
    (port : ℕ) (id id' : String) (since now threshold : ℕ) (o : Option StreamMetadata)
    → threshold ≤ since
    → Holds id since o
    → (acquire_command port id' now threshold).condition o ≡ true
    → id' ≡ id
held-acquire port id id' since now threshold none le held h = absurd (cc)
held-acquire port id id' since now threshold (some row) le held h =
    owned_by-eq id id' (some row) held.0
      (ground (arith, held_fresh id since threshold (some row) le held, held.0))

module _ (port : ℕ) (id : String) (since : ℕ) where
  command-KeepsHeld :
      (c : Call) → Respects port id since c → WriteKeeps (KeepsHeld id since) port (command c)
  command-KeepsHeld (acquire p id' now now') r =
      λ same o h held. (ap some (held-acquire p id id' since now _ o r.1 held h), (now, refl, r.0))
  command-KeepsHeld (release p id' now) r =
      λ same o h held. absurd (r same (owned_by-eq id id' o held.0 h))
  command-KeepsHeld (refresh p id' now times) r = λ same o h held. (held.0, (now, refl, r))
  command-KeepsHeld (read_floor p ssrc fingerprint) r = tt
  command-KeepsHeld (read_epoch p) r = tt
  command-KeepsHeld (raise p index ssrc fingerprint generation epoch now) r = λ same o h held. held
  command-KeepsHeld (reset p q now) r = λ same o h held. held
  command-KeepsHeld (cleanup p now stale_threshold) r =
      λ same o h held. absurd (cleanup_refused id since stale_threshold o r held h)

  -- A lease protects its owner: while the others respect it, no interleaving of calls takes the
  -- lock of the port from its owner, and the lease does not get older.
  pub run-Holds :
      (db : DocumentClient StreamMetadata) (laws : Laws db) (calls : List Call) (t : db.Table)
      → All (Respects port id since) calls
      → Holds id since (db.item t port)
      → Holds id since (db.item (run db calls t) port)
  run-Holds db laws calls t respected held =
      run-Keeps db laws (KeepsHeld id since) (λ o w. w) port (λ o p q h k w. k (h w)) calls
        (All-mono (Respects port id since) (λ c. WriteKeeps (KeepsHeld id since) port (command c))
          command-KeepsHeld calls respected)
        t held

module _ (db : DocumentClient StreamMetadata) (laws : Laws db) where
  acquire-Wrote :
      (port : ℕ) (id : String) (now now' : ℕ) (t : db.Table)
      → (try_acquire_kinesis_lock db port id now now' t).0 ≡ some true
      → Wrote db
          (acquire_command port id now (now' - kinesis_lock_stale_ms))
          t
          (try_acquire_kinesis_lock db port id now now' t).1
  unfolding try_acquire_kinesis_lock
  acquire-Wrote port id now now' t e =
      laws.update_ok (acquire_command port id now (now' - kinesis_lock_stale_ms)) t (ground arith)

  -- Two instances never hold the lock of a port at once: after `id` acquired it at `now`, and
  -- whatever calls that respect this lease follow, no other instance acquires it as long as the
  -- clock that it compares with is at most the stale time ahead of `now`.
  pub lock_exclusive :
      (port : ℕ) (id id' : String) (now now' later later' : ℕ) (calls : List Call) (t : db.Table)
      → (try_acquire_kinesis_lock db port id now now' t).0 ≡ some true
      → id' ≢ id
      → All (Respects port id now) calls
      → later' - kinesis_lock_stale_ms ≤ now
      → (try_acquire_kinesis_lock db port id' later later'
          (run db calls (try_acquire_kinesis_lock db port id now now' t).1)).0
        ≢ some true
  lock_exclusive port id id' now now' later later' calls t first other respected fresh second =
      let t₁ = (try_acquire_kinesis_lock db port id now now' t).1 in
      let held : Holds id now (db.item t₁ port) =
        rw (acquire-Wrote port id now now' t first).1 (refl, (now, refl, omega arith)) in
      other (
        held-acquire port id id' now later _ (db.item (run db calls t₁) port) fresh
          (run-Holds port id now db laws calls t₁ respected held)
          (acquire-Wrote port id' later later' (run db calls t₁) second).0)
