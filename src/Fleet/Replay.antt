-- ===== src/Fleet/Replay.antt =====
-- What the fleet's versioned floors mean to a helper that reads its floor, and to a client that
-- resets it.
use video_thingy_rocks.Common.{
  ℕ, ◌≤◌, ◌≡◌, ◌≢◌, ◌⊎◌, inl, inr, refl, String, Option, none, some, arith, true, List, [], ◌∷◌,
  ◌++◌, All, sym, ◌∙◌, Option-cases, max_safe_integer,
}
use video_thingy_rocks.Dynamo.{DocumentClient, Laws, Wrote}
use video_thingy_rocks.StreamTable.{
  StreamMetadata, existing, FloorReset, reset_command, reset_allowed,
}
use video_thingy_rocks.StreamMetadata
use video_thingy_rocks.StreamMetadata.{floor_of, get_srtp_index_floor, reset_srtp_index_floor}
use video_thingy_rocks.Fleet.{Call, read_floor, perform, run}
use video_thingy_rocks.Fleet.Version.{VersionLe, EpochLt}
use video_thingy_rocks.Fleet.Floors.{run-VersionLe, run-StaysWithin, later_floor, IsBounded}

later_epoch :
    (a : ℕ) (b : Option ℕ) → EpochLt (some a) b ⊎ (some a ≡ b) → (e : ℕ) × (b ≡ some e) × (a ≤ e)
later_epoch a none (inl h) = absurd h
later_epoch a (some b) (inl h) = (b, refl, omega arith)
later_epoch a b (inr same) = (a, sym same, omega arith)

-- A reset that is not newer than the row's epoch fails its condition.
reset_refused :
    (r r' : FloorReset) (now : ℕ) (o p : Option StreamMetadata)
    → r'.requested_at_ms ≤ r.requested_at_ms
    → (existing o).srtp_floor_epoch ≡ some r.requested_at_ms
    → VersionLe o p
    → reset_allowed r' (existing p) ≢ true
reset_refused r r' now o p older e v h =
    let (epoch, found, above) =
      later_epoch r.requested_at_ms (existing p).srtp_floor_epoch
        (elim v [ inl later ↦ inl (rw e at later) | inr (same, _) ↦ inr (sym e ∙ same) ]) in
    ground arith

module _ (db : DocumentClient StreamMetadata) (laws : Laws db) where
  pub run-append :
      (xs ys : List Call) (t : db.Table) → run db (xs ++ ys) t ≡ run db ys (run db xs t)
  unfolding run
  run-append [] ys t = refl
  run-append (c ∷ xs) ys t = run-append xs ys (perform db c t)

  pub read-floor_of :
      (port ssrc : ℕ) (fingerprint : String) (t : db.Table) (r : Option ℕ)
      → (get_srtp_index_floor db port ssrc fingerprint t).0 ≡ some r
      → floor_of ssrc fingerprint (db.item t port) ≡ r
  unfolding get_srtp_index_floor
  read-floor_of port ssrc fingerprint t r e = elim (Option-cases (db.send_get port t).0) [
    | inl threw ↦ cc
    | inr (o, read) ↦ rw (← laws.get_reads port t o read) (ground arith)
  ]

  reset-Wrote :
      (port : ℕ) (r : FloorReset) (now : ℕ) (t : db.Table)
      → (reset_srtp_index_floor db port r now t).0 ≡ some StreamMetadata.reset
      → Wrote db (reset_command port r now) t (reset_srtp_index_floor db port r now t).1
  unfolding reset_srtp_index_floor
  reset-Wrote port r now t e = laws.update_ok (reset_command port r now) t (ground arith)

  -- A floor that was read stands: while the row keeps its reset epoch and its key generation, a
  -- later read under the same key and SSRC that succeeds gives a floor, and none that is lower,
  -- whatever bounded calls the fleet made in between.
  pub floor_stands :
      (port ssrc : ℕ) (fingerprint : String) (i g : ℕ) (r : Option ℕ) (calls : List Call)
      (t : db.Table)
      → All IsBounded calls
      → (get_srtp_index_floor db port ssrc fingerprint t).0 ≡ some (some i)
      → (existing (db.item t port)).srtp_key_generation ≡ some g
      → let t' = run db calls (get_srtp_index_floor db port ssrc fingerprint t).1 in
        (existing (db.item t' port)).srtp_floor_epoch ≡ (existing (db.item t port)).srtp_floor_epoch
        → (existing (db.item t' port)).srtp_key_generation ≡ some g
        → (get_srtp_index_floor db port ssrc fingerprint t').0 ≡ some r
        → (j : ℕ) × (r ≡ some j) × (i ≤ j)
  unfolding run perform
  floor_stands port ssrc fingerprint i g r calls t bounded first gen epoch gen' second =
      let calls' = read_floor port ssrc fingerprint ∷ calls in
      let (j, found, above) =
        later_floor ssrc fingerprint i g (db.item t port) (db.item (run db calls' t) port)
          (read-floor_of port ssrc fingerprint t (some i) first) gen epoch gen'
          (run-VersionLe db laws port calls' t)
          (run-StaysWithin db laws max_safe_integer (omega arith) port calls' t (tt, bounded)) in
      (j, sym (read-floor_of port ssrc fingerprint (run db calls' t) r second) ∙ found, above)

  -- A signed reset is good for one use: once it was accepted, no reset of the port with its
  -- timestamp or an older one is accepted again, whatever calls the fleet makes in between.
  pub reset_once :
      (port : ℕ) (r r' : FloorReset) (now now' : ℕ) (calls : List Call) (t : db.Table)
      → (reset_srtp_index_floor db port r now t).0 ≡ some StreamMetadata.reset
      → r'.requested_at_ms ≤ r.requested_at_ms
      → (reset_srtp_index_floor db port r' now'
          (run db calls (reset_srtp_index_floor db port r now t).1)).0
        ≢ some StreamMetadata.reset
  reset_once port r r' now now' calls t first older second =
      let t₁ = (reset_srtp_index_floor db port r now t).1 in
      reset_refused r r' now' (db.item t₁ port) (db.item (run db calls t₁) port) older
        (rw (reset-Wrote port r now t first).1) (run-VersionLe db laws port calls t₁)
        (reset-Wrote port r' now' (run db calls t₁) second).0
