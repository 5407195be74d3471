-- ===== src/StreamState/Tests.antt =====
-- A port that starts, falls silent and resumes, while another one starts.
use video_thingy_rocks.Common.{◌≡◌, refl, some, List, [], ◌∷◌}
use video_thingy_rocks.StreamState.{
  stream_start, stream_resume, stream_stop, new_manager, update_stream, received,
  on_packet_received, handle_stream_inactivity, fire_timer, Input, packet, timer, handle_input,
  handle_inputs,
}
use video_thingy_rocks.StreamState.Phases.{absent, phase_of, follow, Timed, handle_inputs-follow}

abbrev silent_port : List Input
silent_port =
    packet 5000 10 0
    ∷ packet 5001 500 3
    ∷ timer 5000 60000
    ∷ packet 5000 60005 2
    ∷ timer 5000 120007
    ∷ packet 5000 120010 0
    ∷ []

silent_port_lem :
    (handle_inputs 60000 silent_port new_manager).1
    ≡ stream_start 5000 ∷ stream_start 5001 ∷ stream_stop 5000 60002 ∷ stream_resume 5000 ∷ []
unfolding update_stream received on_packet_received handle_stream_inactivity fire_timer handle_input
    handle_inputs
silent_port_lem = refl

handle_inputs-follow_example :
    (follow 60000 5000 (some absent) (handle_inputs 60000 silent_port new_manager).1
      ≡ some (phase_of ((handle_inputs 60000 silent_port new_manager).0.streams 5000)))
    × Timed 60000 5000
        ((handle_inputs 60000 silent_port new_manager).0.streams 5000)
        ((handle_inputs 60000 silent_port new_manager).0.inactivity_timers 5000)
handle_inputs-follow_example = handle_inputs-follow 60000 5000 silent_port
