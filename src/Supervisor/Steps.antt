-- ===== src/Supervisor/Steps.antt =====
-- The steps of the serialized queue, and a run of them.
use video_thingy_rocks.Common.{
  ℕ, ◌+◌, Bool, true, not, ◌||◌, Option, none, some, List, [], ◌∷◌, leb, ltb, if◌then◌else◌,
  is_none,
}
use video_thingy_rocks.HelperProtocol.{SrtpHelperMessage, stop, srtp_helper_protocol_version}
use video_thingy_rocks.Supervisor.{
  SrtpSupervisorState, idle, starting, searching, acquiring, producing, stopping, cooldown,
  disabled, terminated, SrtpPortSupervisorConfig, Services, ended, Supervisor, SrtpPortStatus,
}
use video_thingy_rocks.Supervisor.Operations.{
  is, transition, write_command, release_lock, raise_floor, end_session, end_helper,
}
use video_thingy_rocks.Supervisor.Session.{
  spawn_session, handle_floor_reset, handle_exit, handle_error,
}
use video_thingy_rocks.Supervisor.Frames.{handle_frame}

-- The queue's steps: `error` is an `error` of the process, `tick` the timer.
pub data Step : Type 0 where
  begin : Step
  frame : SrtpHelperMessage → (session : ℕ) → Step
  exit : (session : ℕ) → Step
  error : (session : ℕ) → Step
  tick : Step
  check_floor_reset : Step
  end : Step

module _ (c : SrtpPortSupervisorConfig) (srv : Services) where
  -- The `switch` of the tick.
  unfoldable pub observe_absence :
      SrtpSupervisorState → ℕ → Supervisor srv.World → Supervisor srv.World
  unfolding end_session spawn_session
  observe_absence starting now s =
      if ltb (s.started_at_ms + c.timeouts.ready_ms) now then end_session c srv s else s
  observe_absence cooldown now s = if leb s.retry_at_ms now then spawn_session c srv s else s
  observe_absence stopping now s =
      if ltb (s.stopped_sent_at_ms + c.timeouts.stopped_ack_ms) now then end_session c srv s else s
  observe_absence producing now s =
      if ltb (s.last_frame_at_ms + c.timeouts.frame_stall_ms) now then end_session c srv s else s
  observe_absence searching now s =
      if ltb (s.last_frame_at_ms + c.timeouts.frame_stall_ms) now then end_session c srv s else s
  observe_absence acquiring now s =
      if ltb (s.last_frame_at_ms + c.timeouts.frame_stall_ms) now then end_session c srv s else s
  observe_absence _ now s = s

  unfoldable pub handle_tick : Supervisor srv.World → Supervisor srv.World
  unfolding handle_floor_reset observe_absence
  handle_tick s =
      if is s.state terminated || (is s.state idle || is s.state disabled)
      then s
      else let (replaced, checked) = handle_floor_reset c srv s in
        if replaced
        then checked
        else let (now, w) = srv.now checked.world in
          observe_absence checked.state now (record checked { world = w })

  -- The stop command, and whether the `stopped` frame came before the helper's end and the time-out.
  unfoldable pub await_stop_ack :
      ℕ → Supervisor srv.World → Option (Option ℕ) × Supervisor srv.World
  unfolding write_command
  await_stop_ack k s =
      let told = write_command c srv (stop srtp_helper_protocol_version) s in
      let (acked, w) = srv.race_stop_ack k c.timeouts.stopped_ack_ms told.world in
      (acked, record told { world = w })

  -- The last word on the floor, with whether the handler goes on.
  unfoldable pub raise_acked :
      Option (Option ℕ) → ℕ → Supervisor srv.World → Bool × Supervisor srv.World
  unfolding raise_floor
  raise_acked (some (some i)) k s = raise_floor c srv i k s
  raise_acked (some none) k s = (true, s)
  raise_acked none k s = (true, s)

  unfoldable pub finish : Supervisor srv.World → Supervisor srv.World
  unfolding release_lock transition
  finish s = transition c srv terminated (release_lock c srv s)

  -- `shutdown` with a helper that has not exited.
  unfoldable pub stop_helper : ℕ → Supervisor srv.World → Supervisor srv.World
  unfolding await_stop_ack raise_acked end_helper finish
  stop_helper k s =
      if is s.state producing || is s.state stopping
      then (let (acked, told) = await_stop_ack k s in
          let (resolved, raised) = raise_acked acked k told in
          if resolved then finish (end_helper c srv k raised) else raised)
      else finish (end_helper c srv k s)

  -- An exited helper needs no end, only to be known as gone.
  unfoldable pub stop_any : Option ℕ → Supervisor srv.World → Supervisor srv.World
  unfolding stop_helper finish
  stop_any none s = finish s
  stop_any (some k) s =
      if srv.exited k s.world then finish (record s { log = ended k ∷ s.log }) else stop_helper k s

  unfoldable pub shutdown : Supervisor srv.World → Supervisor srv.World
  unfolding stop_any
  shutdown s = if is s.state terminated then s else stop_any s.helper s

  unfoldable pub step : Step → Supervisor srv.World → Supervisor srv.World
  unfolding spawn_session handle_frame handle_exit handle_error handle_tick handle_floor_reset
      shutdown
  step begin s = if is s.state idle then spawn_session c srv s else s
  step (frame m k) s = handle_frame c srv m k s
  step (exit k) s = handle_exit c srv k s
  step (error k) s = handle_error c srv k s
  step tick s = handle_tick s
  step check_floor_reset s = (handle_floor_reset c srv s).1
  step end s = shutdown s

  unfoldable pub run : List Step → Supervisor srv.World → Supervisor srv.World
  unfolding step
  run [] s = s
  run (e ∷ es) s = run es (step e s)

  pub status : Supervisor srv.World → SrtpPortStatus
  status s = record {
    port = c.port;
    state = s.state;
    lock_held = s.lock_held;
    helper_up = not (is_none s.helper);
    is_producing = is s.state producing;
  }
