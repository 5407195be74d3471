-- ===== src/Transport/Serving/Tests.antt =====
-- Transports that stop.
use video_thingy_rocks.Common.{ℕ, ◌≡◌, true, false, List, [], ◌∷◌}
use video_thingy_rocks.Supervisor.{SrtpSupervisorState, starting, searching, cooldown, terminated}
use video_thingy_rocks.Transport.Serving.{
  on_transitions, stop, new_serving, latest, any_searching, all_disabled,
}
use video_thingy_rocks.Transport.Serving.Stopped.{stop-serving}

abbrev ready_port : List (ℕ × SrtpSupervisorState)
ready_port = (6000, starting) ∷ (6000, searching) ∷ []

stop-serving_example :
    (stop
      ((6000, terminated) ∷ [])
      (on_transitions ready_port (new_serving (6000 ∷ [])))).is_serving
    ≡ true
unfolding latest any_searching all_disabled
stop-serving_example = stop-serving ready_port 6000 terminated [] 6000 []

-- A port that was never ready.
never_ready :
    (stop ((6000, terminated) ∷ []) (
      on_transitions
        ((6000, starting) ∷ (6000, cooldown) ∷ [])
        (new_serving (6000 ∷ [])))).is_serving
    ≡ false
unfolding latest any_searching all_disabled
never_ready = stop-serving ((6000, starting) ∷ (6000, cooldown) ∷ []) 6000 terminated [] 6000 []
