-- ===== src/Fleet/Producers/Tests.antt =====
-- Two supervisors of one port on a table in memory: the first gets the lock, the second is refused.
use video_thingy_rocks.Common.{
  ℕ, suc, ◌+◌, ◌≡◌, ◌≢◌, refl, true, false, String, none, some, List, [], ◌∷◌, arith, str_eq_iff,
  All,
}
use video_thingy_rocks.Dynamo.Memory.{Memory, memory, memory-Laws}
use video_thingy_rocks.StreamTable.{StreamMetadata, existing}
use video_thingy_rocks.StreamMetadata.{
  try_acquire_kinesis_lock, get_srtp_floor_epoch, get_srtp_index_floor,
}
use video_thingy_rocks.HelperProtocol.{ready, auth_ok}
use video_thingy_rocks.Supervisor.{
  SrtpPortSupervisorConfig, Services, Supervisor, default_timeouts, new_supervisor, acquiring,
  producing,
}
use video_thingy_rocks.Supervisor.Steps.{Step, begin, frame}
use video_thingy_rocks.Supervisor.Steps
use video_thingy_rocks.Supervisor.Invariant.{may_write}
use video_thingy_rocks.Fleet.{Call, acquire, run}
use video_thingy_rocks.Fleet.Producers.{
  Instance, fleet_services, interfered, read_epoch, read_index, acquire_lock,
}
use video_thingy_rocks.Fleet.Producers.Owned.{Respectful}
use video_thingy_rocks.Fleet.Producers.Exclusion.{producers_exclude}

-- A clock that goes on with every reading, and a helper that does as it is told.
abbrev local : Services
local = record {
  World = ℕ;
  now = λ w. (w, suc w);
  get_srtp_floor_epoch = λ port w. (none, w);
  get_srtp_index_floor = λ port ssrc fingerprint w. (none, w);
  raise_srtp_index_floor = λ port i ssrc fingerprint generation epoch w. (true, w);
  try_acquire_kinesis_lock = λ port id w. (none, w);
  release_kinesis_lock = λ port id w. (true, w);
  update_last_packet_time = λ port id w. (none, w);
  spawn_helper = λ init w. (true, w);
  stdin_write = λ k command w. (true, w);
  end_child_process = λ k w. w + 5000;
  exited = λ k w. false;
  race_stop_ack = λ k ms w. (none, w);
  on_authenticated = λ port roc trials w. w;
  on_stats = λ port input_bytes authenticated w. w;
  on_transition = λ from to w. w;
}

abbrev config_of : String → SrtpPortSupervisorConfig
config_of id = record {
  port = 5000;
  instance_id = id;
  port_key = record {
    key_hex = "00";
    cipher = "aes-128-icm";
    auth = "hmac-sha1-80";
    ssrc = 7;
    key_fingerprint = "f";
    generation = 1;
  };
  timeouts = default_timeouts;
}

abbrev db_world : Instance (memory StreamMetadata) local
db_world = record {
  table = record { items = λ _. none; faults = [] };
  times = λ _. none;
  turn = 0;
  rest = 1000;
}

abbrev steps : List Step
steps = begin ∷ frame (ready 3 5000 none) 0 ∷ frame (auth_ok true 2 none none none none) 0 ∷ []

-- The second instance asks for the lock as early as it may; the first gets it while nobody has it.
abbrev second_asks : ℕ → Memory StreamMetadata → List Call
second_asks n t = elim (existing (t.items 5000)).last_packet_time [
  | none ↦ []
  | some last ↦ acquire 5000 "i-b" last last ∷ []
]

abbrev first_acts : ℕ → Memory StreamMetadata → List Call
first_acts n t = elim (existing (t.items 5000)).kinesis_owner_instance_id [
  | none ↦ acquire 5000 "i-a" 1005 1006 ∷ []
  | some owner ↦ []
]

abbrev first : Supervisor (Instance (memory StreamMetadata) local)
first =
    Steps.run (config_of "i-a") (fleet_services (memory StreamMetadata) local second_asks) steps
      (new_supervisor (config_of "i-a") db_world)

abbrev second : Supervisor (Instance (memory StreamMetadata) local)
second =
    Steps.run (config_of "i-b") (fleet_services (memory StreamMetadata) local first_acts) steps
      (new_supervisor (config_of "i-b") db_world)

first_produces : first.state ≡ producing
unfolding Steps.run read_epoch read_index acquire_lock interfered try_acquire_kinesis_lock
    get_srtp_floor_epoch get_srtp_index_floor run
first_produces = refl

second_waits : second.state ≡ acquiring
unfolding Steps.run read_epoch read_index acquire_lock interfered try_acquire_kinesis_lock
    get_srtp_floor_epoch get_srtp_index_floor run
second_waits = refl

second_asks-Respectful : Respectful (memory StreamMetadata) 5000 "i-a" second_asks
second_asks-Respectful n t last owner leased = rw (leased, All) ((omega arith, omega arith), tt)

first_acts-Respectful : Respectful (memory StreamMetadata) 5000 "i-b" first_acts
first_acts-Respectful n t last owner leased = rw (owner, All) tt

other_instance : ◌≢◌ {A = String} "i-a" "i-b"
other_instance e = let same : false ≡ true = (str_eq_iff "i-a" "i-b").1 e in cc

producers_exclude_example : may_write 0 second.log ≢ true
unfolding Steps.run read_epoch read_index acquire_lock interfered try_acquire_kinesis_lock
    get_srtp_floor_epoch get_srtp_index_floor run
producers_exclude_example =
    producers_exclude (memory StreamMetadata) (memory-Laws StreamMetadata) local local second_asks
      first_acts (config_of "i-a") (config_of "i-b") steps steps db_world db_world 0 0
      second_asks-Respectful first_acts-Respectful other_instance refl refl
