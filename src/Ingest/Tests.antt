-- ===== src/Ingest/Tests.antt =====
-- A port whose stream starts after four bytes.
use video_thingy_rocks.Common.{◌*◌, ◌≤◌, ◌≡◌, refl, true, ◌&&◌, some, List, [], ◌∷◌, leb, All}
use video_thingy_rocks.StreamState.{
  update_stream, received, on_packet_received, handle_stream_inactivity, fire_timer, active,
}
use video_thingy_rocks.Ingest.{
  Config, concat, new_main, try_acquire, release, update_last_packet_time, start, write_packet,
  stop, acquired, done,
}
use video_thingy_rocks.Ingest.Handlers.{
  feed, on_stream_start, receive, on_packet, resume, on_stream_stop, on_timer, on_pipeline_exited,
}
use video_thingy_rocks.Ingest.Process.{
  Process, Event, arrive, answer, inactivity, new_process, nth, remove, handle_event, handle_events,
}
use video_thingy_rocks.Ingest.Accounts.{acquires, arrived, StartsWhole}
use video_thingy_rocks.Ingest.Threshold.{handle_events-threshold}
use video_thingy_rocks.Ingest.NoRetry.{GivenUp, arrivals, arrivals-ask_nothing}

abbrev small_config : Config
small_config = record {
  enabled = true;
  in_range = λ port. leb 5000 port && leb port 5009;
  min_bytes_before_start = 4;
  inactivity_timeout = 60000;
}

-- The packet of byte 5 arrives while the lock is asked for, and the one of byte 6 while the pipeline
-- starts.
abbrev started_port : List Event
started_port =
    arrive 5000 (1 ∷ 2 ∷ []) 1 1
    ∷ arrive 5000 (3 ∷ 4 ∷ []) 2 2
    ∷ arrive 5000 (5 ∷ []) 3 3
    ∷ answer 0 (acquired true) 4
    ∷ arrive 5000 (6 ∷ []) 5 5
    ∷ answer 0 done 6
    ∷ answer 0 done 7
    ∷ arrive 5000 (7 ∷ []) 8 8
    ∷ answer 1 done 9
    ∷ inactivity 5000 60008
    ∷ answer 1 done 60009
    ∷ []

-- Neither is in the data of the start; the second was offered to the pipeline that was starting.
started_port_lem :
    (handle_events small_config started_port new_process).calls
    ≡ try_acquire 5000
      ∷ start 5000 (some (1 ∷ 2 ∷ 3 ∷ 4 ∷ []))
      ∷ update_last_packet_time 5000
      ∷ update_last_packet_time 5000
      ∷ write_packet 5000 (6 ∷ [])
      ∷ update_last_packet_time 5000
      ∷ write_packet 5000 (7 ∷ [])
      ∷ release 5000
      ∷ stop 5000
      ∷ []
unfolding update_stream received on_packet_received handle_stream_inactivity fire_timer concat feed
    on_stream_start receive on_packet resume on_stream_stop on_timer on_pipeline_exited nth remove
    handle_event handle_events
started_port_lem = refl

handle_events-threshold_example :
    (4 * acquires 5000 (handle_events small_config started_port new_process).calls
      ≤ arrived 5000 started_port)
    × All (StartsWhole small_config) (handle_events small_config started_port new_process).calls
handle_events-threshold_example = handle_events-threshold small_config started_port 5000

-- The stream is active and the lock was refused.
abbrev refused : Process
refused = record {
  main = record new_main {
    streams = record {
      streams = λ k. some (record {
        status = active;
        first_packet_time = 1;
        last_packet_time = 2;
        packet_count = 3;
      });
      inactivity_timers = λ k. some 60002;
    };
  };
  waiting = [];
  calls = try_acquire 5000 ∷ [];
}

refused-GivenUp : GivenUp small_config 5000 refused.main
refused-GivenUp = record { stream = _; there = refl; running = refl; unlocked = refl; empty = refl }

arrivals-ask_nothing_example :
    acquires 5000
      (handle_events small_config
        (arrivals small_config 5000 ((8 ∷ 9 ∷ 9 ∷ 9 ∷ 9 ∷ [], 10, 10) ∷ []))
        refused).calls
    ≡ acquires 5000 refused.calls
arrivals-ask_nothing_example =
    arrivals-ask_nothing small_config 5000 ((8 ∷ 9 ∷ 9 ∷ 9 ∷ 9 ∷ [], 10, 10) ∷ []) refused
      refused-GivenUp
