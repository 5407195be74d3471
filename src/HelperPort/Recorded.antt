-- ===== src/HelperPort/Recorded.antt =====
-- A recording of what one helper accepted is not accepted by a later one, on any instance: the two
-- helpers and the floor that the fleet's table keeps between them.
use video_thingy_rocks.Common.{
  ℕ, ◌≤◌, ◌<◌, ◌≡◌, refl, sym, ◌∙◌, String, Option, none, some, true, List, ltb, arith, All,
  srtp_index_max, max_safe_integer, str_eq_iff,
}
use video_thingy_rocks.Dynamo.{DocumentClient, Laws, ok}
use video_thingy_rocks.StreamTable.{StreamMetadata, existing, raise_command}
use video_thingy_rocks.StreamMetadata.{floor_of, get_srtp_index_floor, raise_srtp_index_floor}
use video_thingy_rocks.Fleet.{Call, run}
use video_thingy_rocks.Fleet.Floors.{
  run-VersionLe, run-StaysWithin, later_floor, IsBounded, IndexWithin,
}
use video_thingy_rocks.Fleet.Replay.{read-floor_of}
use video_thingy_rocks.HelperPort.{index_space}
use video_thingy_rocks.HelperPort.Session.{Settings, SrtpPort, new_port, reset_session}
use video_thingy_rocks.HelperPort.Handlers.{Event, run_port}
use video_thingy_rocks.HelperPort.Once.{run_port-Runs, All-below_highest}

floor_of-within :
    (ssrc : ℕ) (fingerprint : String) (o : Option StreamMetadata) (j : ℕ)
    → floor_of ssrc fingerprint o ≡ some j
    → IndexWithin srtp_index_max (existing o).srtp_index
    → j ≤ srtp_index_max
floor_of-within ssrc fingerprint none j h w = cc
floor_of-within ssrc fingerprint (some row) j h w =
    let e : row.srtp_index ≡ some j = ground arith in rw e at w

module _ (db : DocumentClient StreamMetadata) (laws : Laws db) where
  raised-floor_of :
      (port i ssrc : ℕ) (fingerprint : String) (generation : ℕ) (epoch : Option ℕ) (now : ℕ)
      (t : db.Table)
      → i ≤ srtp_index_max
      → (db.send_update (raise_command port i ssrc fingerprint generation epoch now) t).0 ≡ ok
      → let t' = raise_srtp_index_floor db port i ssrc fingerprint generation epoch now t in
        (floor_of ssrc fingerprint (db.item t' port) ≡ some i)
        × ((existing (db.item t' port)).srtp_index ≡ some i)
        × ((existing (db.item t' port)).srtp_key_generation ≡ some generation)
  unfolding raise_srtp_index_floor
  raised-floor_of port i ssrc fingerprint generation epoch now t small e =
      let (passed, wrote) =
        laws.update_ok (raise_command port i ssrc fingerprint generation epoch now) t e in
      rw wrote (ground (arith, str_eq_iff fingerprint fingerprint), refl, refl)

  later_read :
      (port i ssrc : ℕ) (fingerprint : String) (generation : ℕ) (epoch : Option ℕ) (now : ℕ)
      (t : db.Table) (calls : List Call) (r : Option ℕ)
      → i ≤ srtp_index_max
      → (db.send_update (raise_command port i ssrc fingerprint generation epoch now) t).0 ≡ ok
      → All IsBounded calls
      → let t₁ = raise_srtp_index_floor db port i ssrc fingerprint generation epoch now t in
        let t₂ = run db calls t₁ in
        (existing (db.item t₂ port)).srtp_floor_epoch
          ≡ (existing (db.item t₁ port)).srtp_floor_epoch
        → (existing (db.item t₂ port)).srtp_key_generation ≡ some generation
        → (get_srtp_index_floor db port ssrc fingerprint t₂).0 ≡ some r
        → (j : ℕ) × (r ≡ some j) × (i ≤ j) × (j ≤ srtp_index_max)
  later_read port i ssrc fingerprint generation epoch now t calls r small e bounded same gen read =
      let t₁ = raise_srtp_index_floor db port i ssrc fingerprint generation epoch now t in
      let t₂ = run db calls t₁ in
      let (floor₁, index₁, gen₁) =
        raised-floor_of port i ssrc fingerprint generation epoch now t small e in
      let (j, floor₂, above) =
        later_floor ssrc fingerprint i generation (db.item t₁ port) (db.item t₂ port) floor₁ gen₁
          same gen (run-VersionLe db laws port calls t₁)
          (run-StaysWithin db laws max_safe_integer (omega arith) port calls t₁ bounded) in
      let within : IndexWithin srtp_index_max (existing (db.item t₂ port)).srtp_index =
        run-StaysWithin db laws srtp_index_max (omega arith) port calls t₁ bounded
          (rw index₁ small) in
      (
        j,
        sym (read-floor_of db laws port ssrc fingerprint t₂ r read) ∙ floor₂,
        above,
        floor_of-within ssrc fingerprint (db.item t₂ port) j floor₂ within,
      )

  fresh-floor :
      (args : Settings) (r : Option ℕ) (j : ℕ) (search_from : Option ℕ) (now : ℕ) (seed : Option ℕ)
      → r ≡ some j
      → j ≤ srtp_index_max
      → (reset_session args now seed (new_port args r search_from)).floor ≡ some j
  unfolding reset_session new_port
  fresh-floor args r j search_from now seed e h = rw e (rw (taken j h) refl)
    where
      taken : (k : ℕ) → k ≤ srtp_index_max → ltb k index_space ≡ true
      taken k h = ground arith

  -- A helper accepted some packets, and its highest index `i` was stored as the floor. Then whatever
  -- the fleet did in between, while no reset and no new key generation came to the row: a helper of
  -- any instance that is started with the floor that is read for the same key and SSRC accepts only
  -- packets with higher indexes than all of those, whatever its events are.
  pub recorded_once :
      (first second : Settings) (p : SrtpPort) (before after : List Event) (i port ssrc : ℕ)
      (fingerprint : String) (generation : ℕ) (epoch : Option ℕ) (now started : ℕ) (t : db.Table)
      (calls : List Call) (r search_from seed : Option ℕ)
      → (run_port first before p).1.counters.highest_index ≡ some i
      → i ≤ srtp_index_max
      → (db.send_update (raise_command port i ssrc fingerprint generation epoch now) t).0 ≡ ok
      → All IsBounded calls
      → let t₁ = raise_srtp_index_floor db port i ssrc fingerprint generation epoch now t in
        let t₂ = run db calls t₁ in
        (existing (db.item t₂ port)).srtp_floor_epoch
          ≡ (existing (db.item t₁ port)).srtp_floor_epoch
        → (existing (db.item t₂ port)).srtp_key_generation ≡ some generation
        → (get_srtp_index_floor db port ssrc fingerprint t₂).0 ≡ some r
        → All
            (λ j. All (λ k. k < j) (run_port first before p).0)
            (run_port second after
              (reset_session second started seed (new_port second r search_from))).0
  recorded_once first second p before after i port ssrc fingerprint generation epoch now started t
        calls r search_from seed reported small stored bounded same gen read =
      let (j, found, above, within) =
        later_read port i ssrc fingerprint generation epoch now t calls r small stored bounded same
          gen read in
      let fresh = reset_session second started seed (new_port second r search_from) in
      All-below_highest (run_port first before p).1.counters.highest_index fresh.floor
        (run_port first before p).0 (run_port second after fresh).0
        (run_port-Runs first before p).counted
        (rw (reported, fresh-floor second r j search_from started seed found within) above)
        (run_port-Runs second after fresh).above
