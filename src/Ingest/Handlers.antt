-- ===== src/Ingest/Handlers.antt =====
-- The handlers of backend/src/index.ts, each up to its next awaited call.
use video_thingy_rocks.Common.{
  ℕ, ◌+◌, ◌-◌, Bool, true, false, not, ◌&&◌, ◌||◌, Option, none, some, List, [], ◌∷◌, ◌++◌, length,
  leb, ◌==◌, is_none, get_or_else, if◌then◌else◌, map_set, map_delete,
}
use video_thingy_rocks.StreamState.{
  active, inactive, StreamState, StreamEvent, stream_start, stream_resume, stream_stop,
  on_packet_received, fire_timer,
}
use video_thingy_rocks.Ingest.{
  Config, pipeline_restart_throttle_ms, Buffer, concat, PreStartBuffer, Main, Call, try_acquire,
  release, update_last_packet_time, start, write_packet, stop, Waiting, acquiring, starting,
  updating, stopping, releasing, restarting, Answer, acquired, lost_lock, throws, Turn,
}

abbrev pub finish : Main → Turn
finish m = record { main = m; calls = []; waits = [] }

abbrev pub set_held : ℕ → Bool → Main → Main
set_held port held m = record m {
  kinesis_lock_held_for_ports = λ k. if k == port then held else m.kinesis_lock_held_for_ports k;
}

module _ (c : Config) where
  -- The end of `onPacket`.
  unfoldable pub feed : ℕ → Buffer → Bool → Main → Turn
  feed port bytes in_initial m = record {
    main = m;
    calls =
        if c.enabled && m.kinesis_lock_held_for_ports port && not in_initial
        then write_packet port bytes ∷ []
        else [];
    waits = [];
  }

  -- `onStreamStart`, for the events of one packet.
  unfoldable pub on_stream_start : Main → List StreamEvent → List Call
  on_stream_start m [] = []
  on_stream_start m (stream_start port ∷ events) =
      let later = on_stream_start m events in
      if c.enabled && m.kinesis_lock_held_for_ports port then start port none ∷ later else later
  on_stream_start m (stream_resume port ∷ events) = on_stream_start m events
  on_stream_start m (stream_stop port duration ∷ events) = on_stream_start m events

  -- `onPacket` from `onPacketReceived`.
  unfoldable pub receive : ℕ → Buffer → ℕ → ℕ → Bool → Main → Turn
  unfolding feed on_stream_start
  receive port bytes timestamp now in_initial m =
      let (streams, events) =
        on_packet_received c.inactivity_timeout port timestamp now m.streams in
      let m' : Main = record m { streams = streams } in
      let started = on_stream_start m' events in
      if m'.kinesis_lock_held_for_ports port
      then record {
        main = m';
        calls = started ++ update_last_packet_time port ∷ [];
        waits = updating port bytes in_initial ∷ [];
      }
      else (let t = feed port bytes in_initial m' in record t { calls = started ++ t.calls })

  abbrev is_inactive : Option StreamState → Bool
  is_inactive none = false
  is_inactive (some s) = elim s.status [ inactive ↦ true | active ↦ false ]

  abbrev pub is_buffering : ℕ → Main → Bool
  is_buffering port m =
      c.enabled
      && c.in_range port
      && not (m.kinesis_lock_held_for_ports port)
      && (is_none (m.streams.streams port)
          || is_inactive (m.streams.streams port)
          || not (is_none (m.pre_start_buffer_by_port port)))

  abbrev pub push_chunk : Buffer → PreStartBuffer → PreStartBuffer
  push_chunk bytes b = record {
    chunks = b.chunks ++ bytes ∷ [];
    total_bytes = b.total_bytes + length bytes;
  }

  abbrev pub empty_buffer : PreStartBuffer
  empty_buffer = record { chunks = []; total_bytes = 0 }

  unfoldable pub on_packet : ℕ → Buffer → ℕ → ℕ → Main → Turn
  unfolding concat receive
  on_packet port bytes timestamp now m =
      let b = push_chunk bytes (get_or_else (m.pre_start_buffer_by_port port) empty_buffer) in
      if is_buffering port m
      then if leb c.min_bytes_before_start b.total_bytes
        then record {
          main = record m { pre_start_buffer_by_port = map_delete m.pre_start_buffer_by_port port };
          calls = try_acquire port ∷ [];
          waits = acquiring port bytes timestamp (concat b.chunks) ∷ [];
        }
        else receive port bytes timestamp now false
            (record m { pre_start_buffer_by_port = map_set m.pre_start_buffer_by_port port b })
      else receive port bytes timestamp now false m

  -- What follows each awaited call of `onPacket`, `onStreamStop` and of the restart timer.
  unfoldable pub resume : Waiting → Answer → ℕ → Main → Turn
  unfolding feed receive
  resume (acquiring port bytes timestamp initial) (acquired true) now m = record {
    main = set_held port true m;
    calls = start port (some initial) ∷ [];
    waits = starting port bytes timestamp ∷ [];
  }
  resume (acquiring port bytes timestamp initial) a now m = receive port bytes timestamp now true m
  resume (starting port bytes timestamp) a now m = receive port bytes timestamp now true m
  resume (updating port bytes in_initial) lost_lock now m = record {
    main = set_held port false m;
    calls = if c.enabled then stop port ∷ [] else [];
    waits = stopping port bytes in_initial ∷ [];
  }
  resume (updating port bytes in_initial) a now m = feed port bytes in_initial m
  resume (stopping port bytes in_initial) a now m = feed port bytes in_initial m
  resume (releasing port) throws now m = finish m
  resume (releasing port) a now m = record {
    main = set_held port false m;
    calls = if c.enabled then stop port ∷ [] else [];
    waits = [];
  }
  resume (restarting port due) a now m = record {
    main = record m {
      last_pipeline_restart_by_port = map_set m.last_pipeline_restart_by_port port now;
    };
    calls = start port none ∷ [];
    waits = [];
  }

  unfoldable pub on_stream_stop : ℕ → Main → Turn
  on_stream_stop port m =
      let m' : Main = record m {
        pre_start_buffer_by_port = map_delete m.pre_start_buffer_by_port port;
      } in
      if m'.kinesis_lock_held_for_ports port
      then record { main = m'; calls = release port ∷ []; waits = releasing port ∷ [] }
      else record { main = m'; calls = if c.enabled then stop port ∷ [] else []; waits = [] }

  abbrev pub stopped : List StreamEvent → Main → Turn
  stopped [] m = finish m
  stopped (stream_stop port duration ∷ events) m = on_stream_stop port m
  stopped (stream_start port ∷ events) m = finish m
  stopped (stream_resume port ∷ events) m = finish m

  -- The inactivity timer of a port.
  unfoldable pub on_timer : ℕ → ℕ → Main → Turn
  unfolding on_stream_stop
  on_timer port now m =
      let (streams, events) = fire_timer port now m.streams in
      stopped events (record m { streams = streams })

  abbrev pub is_active : Option StreamState → Bool
  is_active none = false
  is_active (some s) = elim s.status [ active ↦ true | inactive ↦ false ]

  unfoldable pub on_pipeline_exited : ℕ → ℕ → Main → Turn
  on_pipeline_exited port now m =
      let last_restart = get_or_else (m.last_pipeline_restart_by_port port) 0 in
      let delay = pipeline_restart_throttle_ms - (now - last_restart) in
      record {
        main = m;
        calls = [];
        waits =
            if c.enabled && is_active (m.streams.streams port) && c.in_range port
            then restarting port (now + delay) ∷ []
            else [];
      }
