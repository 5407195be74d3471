-- ===== src/EntryPoint/Tests.antt =====
-- A service whose calls resolve as often as the world says, and reject after that.
use video_thingy_rocks.Common.{ℕ, zero, suc, ◌≡◌, Bool, true, false, none, some, [], ◌∷◌}
use video_thingy_rocks.Supervisor.{terminated}
use video_thingy_rocks.Transport.Config.{configured}
use video_thingy_rocks.Transport.Lifecycle.{Outside}
use video_thingy_rocks.EntryPoint.{
  Call, health_server_stop, udp_listener_stop, floor_reset_server_stop, srtp_transport_stop,
  traffic_metrics_stop, release_kinesis_lock, Services, State, new_service, start, shutdown,
  start_srtp, start_primary, perform,
}
use video_thingy_rocks.EntryPoint.Plan.{
  plan, attempt, exit_code, keys_of, if_there, transport_calls,
}
use video_thingy_rocks.EntryPoint.Ordered.{shutdown-plan}
use video_thingy_rocks.EntryPoint.Isolated.{Supervises, exit_of, start-isolated}

abbrev outside : Outside
outside = record {
  World = ℕ;
  get_credentials = λ w. (some true, w);
  load_ports = λ ports w. (some (6000 ∷ []), w);
  stopping = λ ports w. ((6000, terminated) ∷ [], w);
}

abbrev counted : Call → ℕ → Bool × ℕ
counted c zero = (false, 0)
counted c (suc n) = (true, n)

abbrev services : Services
services = record { outside = outside; resolves = counted }

abbrev running : ℕ → State services
running n =
    record (start services (configured "/stack/srtp/port" 6000 6001)
      (new_service services true 4)) { kinesis_lock_held = 5000 ∷ 5003 ∷ []; calls = []; world = n }

-- The second release rejects: the pipelines are not stopped, and the process exits with 1.
shutdown-plan_example :
    ((shutdown services (running 5)).calls
      ≡ health_server_stop
        ∷ udp_listener_stop
        ∷ floor_reset_server_stop
        ∷ srtp_transport_stop
        ∷ traffic_metrics_stop
        ∷ release_kinesis_lock 5000
        ∷ release_kinesis_lock 5003
        ∷ [])
    × ((shutdown services (running 5)).exited ≡ some 1)
unfolding plan attempt exit_code keys_of if_there transport_calls start start_srtp start_primary
    perform
shutdown-plan_example = shutdown-plan services (running 5)

abbrev came_up : State services
came_up = start services (configured "/stack/srtp/port" 6000 6001) (new_service services true 3)

-- The API for resets fails, and nothing else.
start-isolated_example :
    (came_up.exited ≡ none)
    × (came_up.unencrypted_serving ≡ true)
    × (came_up.floor_reset_server ≡ true → Supervises came_up.srtp_transport)
unfolding attempt exit_of
start-isolated_example = start-isolated services (configured "/stack/srtp/port" 6000 6001) true 3
