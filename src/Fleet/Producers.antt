-- ===== src/Fleet/Producers.antt =====
-- A supervisor on the fleet's table: the services of SrtpPortSupervisor are those of
-- StreamMetadataService, and the other instances and the cleanup act between its calls.
pub mod Owned
pub mod Exclusion
mod Tests
use video_thingy_rocks.Common.{ℕ, ◌+◌, String, Bool, true, Option, none, some, PortMap, List}
use video_thingy_rocks.Dynamo.{DocumentClient}
use video_thingy_rocks.StreamTable.{StreamMetadata}
use video_thingy_rocks.StreamMetadata.{
  OwnedWriteResult, try_acquire_kinesis_lock, release_kinesis_lock, update_last_packet_time,
  get_srtp_index_floor, get_srtp_floor_epoch, raise_srtp_index_floor,
}
use video_thingy_rocks.Fleet.{Call, run}
use video_thingy_rocks.Supervisor.{Services}

module _ (db : DocumentClient StreamMetadata) (local : Services) where
  -- The table, the throttle of the instance's own StreamMetadataService, the number of its calls of
  -- the table, and the rest of the world: clock, process and observers.
  pub record Instance : Type 0 where
    pub table : db.Table
    pub times : PortMap ℕ
    pub turn : ℕ
    pub rest : local.World

  module _ (others : ℕ → db.Table → List Call) where
    -- What the others do before the instance's next call of the table.
    unfoldable pub interfered : Instance → Instance
    interfered w = record w { table = run db (others w.turn w.table) w.table; turn = w.turn + 1 }

    abbrev tick_clock : Instance → ℕ × Instance
    tick_clock w = let (now, rest) = local.now w.rest in (now, record w { rest = rest })

    pub read_epoch : ℕ → Instance → Option (Option ℕ) × Instance
    read_epoch port w =
        let v = interfered w in
        let (epoch, t) = get_srtp_floor_epoch db port v.table in (epoch, record v { table = t })

    pub read_index : ℕ → ℕ → String → Instance → Option (Option ℕ) × Instance
    read_index port ssrc fingerprint w =
        let v = interfered w in
        let (floor, t) = get_srtp_index_floor db port ssrc fingerprint v.table in
        (floor, record v { table = t })

    pub raise_index : ℕ → ℕ → ℕ → String → ℕ → Option ℕ → Instance → Bool × Instance
    raise_index port index ssrc fingerprint generation epoch w =
        let (now, v) = tick_clock (interfered w) in
        (
          true,
          record v {
            table =
                raise_srtp_index_floor db port index ssrc fingerprint generation epoch now v.table;
          },
        )

    pub acquire_lock : ℕ → String → Instance → Option Bool × Instance
    acquire_lock port id w =
        let (now, v) = tick_clock (interfered w) in
        let (now', v') = tick_clock v in
        let (answer, t) = try_acquire_kinesis_lock db port id now now' v'.table in
        (answer, record v' { table = t })

    pub release_lock : ℕ → String → Instance → Bool × Instance
    release_lock port id w =
        let (now, v) = tick_clock (interfered w) in
        let (done, t) = release_kinesis_lock db port id now v.table in
        (done, record v { table = t })

    pub refresh_lock : ℕ → String → Instance → Option OwnedWriteResult × Instance
    refresh_lock port id w =
        let (now, v) = tick_clock (interfered w) in
        let (result, times, t) = update_last_packet_time db port id now v.times v.table in
        (some result, record v { table = t; times = times })

    abbrev pub fleet_services : Services
    fleet_services = record {
      World = Instance;
      now = tick_clock;
      get_srtp_floor_epoch = read_epoch;
      get_srtp_index_floor = read_index;
      raise_srtp_index_floor = raise_index;
      try_acquire_kinesis_lock = acquire_lock;
      release_kinesis_lock = release_lock;
      update_last_packet_time = refresh_lock;
      spawn_helper = λ f w.
          let (spawned, rest) = local.spawn_helper f w.rest in (spawned, record w { rest = rest });
      stdin_write = λ k m w.
          let (written, rest) = local.stdin_write k m w.rest in (written, record w { rest = rest });
      end_child_process = λ k w. record w { rest = local.end_child_process k w.rest };
      exited = λ k w. local.exited k w.rest;
      race_stop_ack = λ k ms w.
          let (acked, rest) = local.race_stop_ack k ms w.rest in (acked, record w { rest = rest });
      on_authenticated =
          λ port roc trials w. record w { rest = local.on_authenticated port roc trials w.rest };
      on_stats = λ port bytes n w. record w { rest = local.on_stats port bytes n w.rest };
      on_transition = λ from to w. record w { rest = local.on_transition from to w.rest };
    }
