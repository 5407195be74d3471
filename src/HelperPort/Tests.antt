-- ===== src/HelperPort/Tests.antt =====
-- An SRTP port at concrete traffic: reordered packets round a rollover, a rebuilt session, a second
-- helper on the floor of the first, and the order of the search.
use video_thingy_rocks.Common.{
  ℕ, zero, suc, ◌≡◌, ◌<◌, refl, true, false, none, some, List, [], ◌∷◌, map, All, arith,
}
use video_thingy_rocks.Dynamo.Memory.{Memory, memory, memory-Laws}
use video_thingy_rocks.StreamTable.{StreamMetadata}
use video_thingy_rocks.StreamMetadata.{get_srtp_index_floor, raise_srtp_index_floor}
use video_thingy_rocks.Fleet.{Call, acquire, raise, run}
use video_thingy_rocks.HelperPort.{
  new_counters, record_all, record_authenticated, record_seq, advance,
}
use video_thingy_rocks.HelperPort.Candidates.{Search, new_search, next_candidate}
use video_thingy_rocks.HelperPort.Index.{JudgedAll, seen, record_all-JudgedAll}
use video_thingy_rocks.HelperPort.Session.{
  Settings, SrtpPort, new_port, reset_session, on_authenticated, on_request_key, on_input,
  report_index,
}
use video_thingy_rocks.HelperPort.Handlers.{
  Event, arrives, authenticates, requests_key, ticks, handle_event, run_port, tick,
}
use video_thingy_rocks.HelperPort.Climb.{after}
use video_thingy_rocks.HelperPort.FloorAgain.{Offers}
use video_thingy_rocks.HelperPort.Reached.{new_search-Offers}
use video_thingy_rocks.HelperPort.Once.{run_port-once}
use video_thingy_rocks.HelperPort.Recorded.{recorded_once}

-- True indexes about a rollover, out of order, over a floor in their midst.
abbrev first_packets : List (ℕ × ℕ)
first_packets = (1, 65534) ∷ (2, 65536) ∷ (3, 65535) ∷ (4, 65530) ∷ (5, 65537) ∷ []

packets_judged :
    (record_all (some 65532) (map seen first_packets) new_counters).0
    ≡ true ∷ true ∷ true ∷ false ∷ true ∷ []
unfolding record_all record_authenticated record_seq advance
packets_judged = refl

record_all-JudgedAll_example :
    JudgedAll
      (some 65532)
      none
      65534
      first_packets
      (record_all (some 65532) (map seen first_packets) new_counters)
record_all-JudgedAll_example =
    record_all-JudgedAll (some 65532) 1 65534
      ((2, 65536) ∷ (3, 65535) ∷ (4, 65530) ∷ (5, 65537) ∷ []) new_counters refl refl (omega arith)
      (omega arith)

abbrev settings : Settings
settings = record {
  ssrc = 42;
  floor_every = 512;
  trial_drops = 4;
  trial_timeout_ms = 1500;
  auth_loss_ms = 10000;
}

-- Started, confirmed, and granted production.
abbrev traffic : List Event
traffic =
    arrives 1200
    ∷ requests_key 42
    ∷ authenticates 10 (some 100)
    ∷ authenticates 11 (some 102)
    ∷ authenticates 12 (some 101)
    ∷ ticks 50 0
    ∷ []

abbrev started : SrtpPort
unfolding reset_session new_port
started = reset_session settings 0 none (new_port settings none none)

traffic_accepted : (run_port settings traffic started).0 ≡ 100 ∷ 102 ∷ 101 ∷ []
unfolding started run_port handle_event on_input on_request_key on_authenticated
    record_authenticated record_seq advance tick report_index new_search next_candidate
traffic_accepted = refl

-- The replayed packets are refused after the grant; the one that is new is not.
abbrev replayed : List Event
replayed =
    requests_key 42
    ∷ authenticates 60 (some 100)
    ∷ authenticates 61 (some 102)
    ∷ authenticates 62 (some 103)
    ∷ []

replay_refused :
    (run_port settings replayed
      (reset_session settings 55 (some 0) (run_port settings traffic started).1)).0
    ≡ 103 ∷ []
unfolding started run_port handle_event on_input on_request_key on_authenticated
    record_authenticated record_seq advance tick report_index new_search next_candidate
    reset_session
replay_refused = refl

run_port-once_example :
    All
      (λ j. All (λ i. i < j) (run_port settings traffic started).0)
      (run_port settings replayed
        (reset_session settings 55 (some 0) (run_port settings traffic started).1)).0
run_port-once_example = run_port-once settings traffic replayed 55 (some 0) started

-- The table between two helpers.
abbrev table : Memory StreamMetadata
table = record { items = λ _. none; faults = [] }

abbrev db_calls : List Call
db_calls = acquire 6000 "i-a" 100 100 ∷ raise 6000 101 42 "f1" 2000000001 none 120 ∷ []

abbrev stored_floor : Memory StreamMetadata
stored_floor =
    raise_srtp_index_floor (memory StreamMetadata) 6000 102 42 "f1" 2000000001 none 90 table

highest_reported : (run_port settings traffic started).1.counters.highest_index ≡ some 102
unfolding started run_port handle_event on_input on_request_key on_authenticated
    record_authenticated record_seq advance tick report_index new_search next_candidate
highest_reported = refl

recorded_once_example :
    All
      (λ j. All (λ k. k < j) (run_port settings traffic started).0)
      (run_port settings replayed
        (reset_session settings 200 none (new_port settings (some 102) none))).0
unfolding run get_srtp_index_floor raise_srtp_index_floor
recorded_once_example =
    recorded_once (memory StreamMetadata) (memory-Laws StreamMetadata) settings settings started
      traffic replayed 102 6000 42 "f1" 2000000001 none 90 200 table db_calls (some 102) none none
      highest_reported (omega arith) refl (omega arith) refl refl refl

-- The floor, its sweep, and then the two climbs in turn.
abbrev candidates : ℕ → Search → List ℕ
candidates zero s = []
candidates (suc n) s = (next_candidate s).0 ∷ candidates n (next_candidate s).1

first_candidates :
    candidates 23 (new_search 7 (some 1000) 512)
    ≡ 7 ∷ 8 ∷ 9 ∷ 10 ∷ 11 ∷ 12 ∷ 13 ∷ 14 ∷ 15 ∷ 16 ∷ 17 ∷ 18 ∷ 19 ∷ 20 ∷ 21 ∷ 22 ∷ 23 ∷ 1000 ∷ 8
      ∷ 1001 ∷ 9 ∷ 1002 ∷ 10 ∷ []
unfolding next_candidate new_search
first_candidates = refl

new_search-Offers_example : Offers (after 40 (new_search 7 (some 1000) 512)) 900
new_search-Offers_example = new_search-Offers 7 (some 1000) 512 40 900 (omega arith) (omega arith)
