-- ===== src/Supervisor/Tests.antt =====
-- A supervisor whose services always answer well, run through a session.
use video_thingy_rocks.Common.{
  ℕ, suc, ◌+◌, ◌≡◌, refl, true, false, none, some, get_or_else, List, [], ◌∷◌, arith,
}
use video_thingy_rocks.StreamMetadata.{OwnedWriteResult}
use video_thingy_rocks.HelperProtocol.{ready, auth_ok, index}
use video_thingy_rocks.Supervisor.{
  cooldown, terminated, producing, SrtpPortSupervisorConfig, Services, Supervisor, default_timeouts,
  new_supervisor,
}
use video_thingy_rocks.Supervisor.Operations.{raise_floor}
use video_thingy_rocks.Supervisor.Session.{spawn_session}
use video_thingy_rocks.Supervisor.Start.{
  Outcome, IsStarted, epoch_read, floor_read, spawns, spawn_session-Outcome,
}
use video_thingy_rocks.Supervisor.Frames.{handle_frame}
use video_thingy_rocks.Supervisor.Steps.{
  Step, begin, frame, tick, end, raise_acked, observe_absence, shutdown, run,
}
use video_thingy_rocks.Supervisor.Invariant.{Sound, IsSafe, Quiet, holds_lock}
use video_thingy_rocks.Supervisor.Invariant.Steps.{run-Sound, run-IsSafe, new_supervisor-Sound}
use video_thingy_rocks.Supervisor.Late.{started-fences}
use video_thingy_rocks.Supervisor.Recovery.{Resolves, observe_absence-Gone, shutdown-Ends}

-- The world is a clock that goes on with every reading.
abbrev services : Services
services = record {
  World = ℕ;
  now = λ w. (w, suc w);
  get_srtp_floor_epoch = λ port w. (some none, w);
  get_srtp_index_floor = λ port ssrc fingerprint w. (some (some 131072), w);
  raise_srtp_index_floor = λ port i ssrc fingerprint generation epoch w. (true, w);
  try_acquire_kinesis_lock = λ port id w. (some true, w);
  release_kinesis_lock = λ port id w. (true, w);
  update_last_packet_time = λ port id w. (some OwnedWriteResult.held, w);
  spawn_helper = λ init w. (true, w);
  stdin_write = λ k command w. (true, w);
  end_child_process = λ k w. w + 5000;
  exited = λ k w. false;
  race_stop_ack = λ k ms w. (some (some 131080), w + 10);
  on_authenticated = λ port roc trials w. w;
  on_stats = λ port input_bytes authenticated w. w;
  on_transition = λ from to w. w;
}

abbrev config : SrtpPortSupervisorConfig
config = record {
  port = 5000;
  instance_id = "a";
  port_key = record {
    key_hex = "00";
    cipher = "aes-128-icm";
    auth = "hmac-sha1-80";
    ssrc = 7;
    key_fingerprint = "f";
    generation = 1;
  };
  timeouts = default_timeouts;
}

abbrev steps : List Step
steps =
    begin
    ∷ frame (ready 3 5000 none) 0
    ∷ frame (auth_ok true 2 none none none none) 0
    ∷ frame (index 131075) 0
    ∷ []

abbrev at_work : Supervisor ℕ
at_work = run config services steps (new_supervisor config 0)

produces : at_work.state ≡ producing
unfolding run
produces = refl

at_work-Sound : Sound at_work
at_work-Sound =
    run-Sound config services steps (new_supervisor config 0)
      (new_supervisor-Sound config services 0)

stops : (run config services (end ∷ []) at_work).state ≡ terminated
unfolding run
stops = refl

run-IsSafe_example :
    IsSafe (run config services steps (new_supervisor config 0)).log
    × ((run config services steps (new_supervisor config 0)).lock_held
        ≡ holds_lock (run config services steps (new_supervisor config 0)).state)
run-IsSafe_example = run-IsSafe config services steps 0

-- The epoch is the time; the world after a write of the floor is the epoch that it was under.
abbrev resettable : Services
resettable = record services {
  get_srtp_floor_epoch = λ port w. (some (some w), w);
  raise_srtp_index_floor =
      λ port i ssrc fingerprint generation epoch w. (true, get_or_else epoch 0);
}

abbrev first_session : Supervisor ℕ
first_session = run config resettable (begin ∷ []) (new_supervisor config 1000)

first_session-IsStarted :
    IsStarted config resettable 0 (λ k. none) 1000 (some 1000) (some 131072) first_session
unfolding run
first_session-IsStarted = record {
  state = refl;
  helper = refl;
  counted = refl;
  recorded = refl;
  floor_base = refl;
  same_backoff = refl;
}

-- The floor was reset meanwhile, and session 1 replaced session 0.
abbrev replacing : List Step
replacing = frame (ready 3 5000 none) 0 ∷ tick ∷ []

replaced : (run config resettable replacing first_session).helper ≡ some 1
unfolding run
replaced = refl

started-fences_example :
    ((handle_frame config resettable
        (index 131090)
        0
        (run config resettable replacing first_session)).world
      ≡ 1000)
    × ((raise_acked config resettable
          (some (some 131090))
          0
          (run config resettable replacing first_session)).1.world
        ≡ 1000)
unfolding run
started-fences_example =
    started-fences config resettable replacing 0 (λ k. none) 1000 (some 1000) (some 131072)
      first_session 131090 first_session-IsStarted refl

observe_absence-Gone_example :
    ((observe_absence config services at_work.state 99999 at_work).state ≡ cooldown)
    × ((observe_absence config services at_work.state 99999 at_work).lock_held ≡ false)
    × ((observe_absence config services at_work.state 99999 at_work).helper ≡ none)
unfolding run
observe_absence-Gone_example =
    observe_absence-Gone config services at_work 99999 at_work-Sound refl (omega arith)

always-Resolves : Resolves config services
unfolding raise_floor
always-Resolves i k s = refl

shutdown-Ends_example :
    ((shutdown config services at_work).state ≡ terminated)
    × ((shutdown config services at_work).lock_held ≡ false)
    × Quiet (shutdown config services at_work).log
shutdown-Ends_example = shutdown-Ends config services at_work always-Resolves at_work-Sound

abbrev fresh : Supervisor ℕ
fresh = new_supervisor config 0

spawn_session-Outcome_example :
    Outcome config services fresh
      (epoch_read config services 0).0
      (floor_read config services (epoch_read config services 0).1).0
      (spawns config services fresh (floor_read config services (epoch_read config services 0).1).1)
      (spawn_session config services fresh)
spawn_session-Outcome_example = spawn_session-Outcome config services fresh refl
