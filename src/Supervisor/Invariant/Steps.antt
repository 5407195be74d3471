-- ===== src/Supervisor/Invariant/Steps.antt =====
-- The invariant through the steps of the queue.
use video_thingy_rocks.Common.{
  ℕ, ◌≡◌, refl, ap, ◌∙◌, subst, Bool, true, false, ◌||◌, Option, none, some, List, [], ◌∷◌, leb,
  arith, if◌then◌else◌,
}
use video_thingy_rocks.HelperProtocol.{stop, srtp_helper_protocol_version}
use video_thingy_rocks.Supervisor.{
  SrtpSupervisorState, idle, starting, searching, acquiring, producing, stopping, cooldown,
  disabled, terminated, SrtpPortSupervisorConfig, Services, ended, Supervisor, new_supervisor,
}
use video_thingy_rocks.Supervisor.Operations.{
  is, raise_floor, write_command, write_to, end_helper, end_session,
}
use video_thingy_rocks.Supervisor.Session.{handle_floor_reset}
use video_thingy_rocks.Supervisor.Steps.{
  Step, begin, frame, exit, error, tick, check_floor_reset, end, observe_absence, handle_tick,
  await_stop_ack, raise_acked, finish, stop_helper, stop_any, shutdown, step, run,
}
use video_thingy_rocks.Supervisor.Invariant.{
  Facts, Sound, Quiet, IsSafe, holds_lock, has_helper, if-Sound, none-Quiet, others-Quiet,
  released-Sound, end_session-Sound,
}
use video_thingy_rocks.Supervisor.Invariant.Session.{
  running-helper, idle-Down, cooldown-Down, spawn_session-Sound, handle_floor_reset-Sound,
  handle_exit-Sound, handle_error-Sound,
}
use video_thingy_rocks.Supervisor.Invariant.Frames.{handle_frame-Sound}

pub helped-live :
    (state : SrtpSupervisorState) → has_helper state ≡ true → is state terminated ≡ false
helped-live state h = ground arith

module _ (c : SrtpPortSupervisorConfig) (srv : Services) where
  -- A session that is silent for too long is ended.
  give_up-Sound :
      (state : SrtpSupervisorState) (late : Bool) (s : Supervisor srv.World)
      → s.state ≡ state
      → has_helper state ≡ true
      → Sound s
      → Sound (if late then end_session c srv s else s)
  give_up-Sound state late s e helped h =
      let (k, up) = running-helper s h (ap has_helper e ∙ helped) in
      if-Sound late _ _
        (λ p.
          end_session-Sound c srv k s h.facts up
            (ap (λ (x : SrtpSupervisorState). is x terminated) e ∙ helped-live state helped))
        (λ p. h)

  pub observe_absence-Sound :
      (state : SrtpSupervisorState) (now : ℕ) (s : Supervisor srv.World)
      → s.state ≡ state
      → Sound s
      → Sound (observe_absence c srv state now s)
  unfolding observe_absence
  observe_absence-Sound starting now s e h = give_up-Sound starting _ s e refl h
  observe_absence-Sound cooldown now s e h =
      if-Sound (leb s.retry_at_ms now) _ _
        (λ p.
          spawn_session-Sound c srv s h
            (cooldown-Down s h (ap (λ (x : SrtpSupervisorState). is x cooldown) e)))
        (λ p. h)
  observe_absence-Sound stopping now s e h = give_up-Sound stopping _ s e refl h
  observe_absence-Sound producing now s e h = give_up-Sound producing _ s e refl h
  observe_absence-Sound searching now s e h = give_up-Sound searching _ s e refl h
  observe_absence-Sound acquiring now s e h = give_up-Sound acquiring _ s e refl h
  observe_absence-Sound _ now s e h = h

  handle_tick-Sound : (s : Supervisor srv.World) → Sound s → Sound (handle_tick c srv s)
  unfolding handle_tick
  handle_tick-Sound s h =
      let after = handle_floor_reset c srv s in
      let sound = handle_floor_reset-Sound c srv s h in
      if-Sound (is s.state terminated || (is s.state idle || is s.state disabled)) _ _ (λ e. h)
        (λ e.
          if-Sound after.0 _ _ (λ e. sound)
            (λ e.
              let (now, w) = srv.now after.1.world in
              observe_absence-Sound after.1.state now (record after.1 { world = w }) refl sound))

  finish-Sound : (s : Supervisor srv.World) → Quiet s.log → IsSafe s.log → Sound (finish c srv s)
  unfolding finish
  finish-Sound s quiet safe = released-Sound c srv terminated s quiet safe refl tt

  ended-Sound :
      (k : ℕ) (s : Supervisor srv.World)
      → Facts s.lock_held s.helper s.log
      → s.helper ≡ some k
      → Sound (finish c srv (end_helper c srv k s))
  unfolding end_helper
  ended-Sound k s f up =
      finish-Sound (end_helper c srv k s)
        (others-Quiet s.lock_held k s.log (subst (λ helper. Facts s.lock_held helper s.log) up f))
        f.safe

  -- Waiting for the ack changes no fact that the invariant speaks of.
  waited-Sound :
      (helper : Option ℕ) (v : ℕ) (s : Supervisor srv.World)
      → Sound s
      → Sound (write_to c srv helper (stop v) s)
        × ((write_to c srv helper (stop v) s).helper ≡ s.helper)
  waited-Sound none v s h = (h, refl)
  waited-Sound (some k) v s h = (h, refl)

  acked-Sound :
      (acked : Option (Option ℕ)) (k : ℕ) (s : Supervisor srv.World)
      → Sound s
      → s.helper ≡ some k
      → Sound (
          if (raise_acked c srv acked k s).0
          then finish c srv (end_helper c srv k (raise_acked c srv acked k s).1)
          else (raise_acked c srv acked k s).1)
  unfolding raise_acked raise_floor
  acked-Sound (some (some i)) k s h up =
      let raised = raise_floor c srv i k s in
      if-Sound raised.0 _ _ (λ e. ended-Sound k raised.1 h.facts up) (λ e. h)
  acked-Sound (some none) k s h up = ended-Sound k s h.facts up
  acked-Sound none k s h up = ended-Sound k s h.facts up

  stop_helper-Sound :
      (k : ℕ) (s : Supervisor srv.World)
      → Sound s
      → s.helper ≡ some k
      → Sound (stop_helper c srv k s)
  unfolding stop_helper await_stop_ack write_command
  stop_helper-Sound k s h up =
      if-Sound (is s.state producing || is s.state stopping) _ _
        (λ e.
          let told = write_command c srv (stop srtp_helper_protocol_version) s in
          let (sound, same) = waited-Sound s.helper srtp_helper_protocol_version s h in
          let (acked, w) = srv.race_stop_ack k c.timeouts.stopped_ack_ms told.world in
          acked-Sound acked k (record told { world = w }) sound (same ∙ up))
        (λ e. ended-Sound k s h.facts up)

  stop_any-Sound :
      (helper : Option ℕ) (s : Supervisor srv.World)
      → Sound s
      → s.helper ≡ helper
      → Sound (stop_any c srv helper s)
  unfolding stop_any
  stop_any-Sound none s h up =
      finish-Sound s
        (none-Quiet s.lock_held s.log (subst (λ helper. Facts s.lock_held helper s.log) up h.facts))
        h.facts.safe
  stop_any-Sound (some k) s h up =
      if-Sound (srv.exited k s.world) _ _
        (λ e.
          finish-Sound (record s { log = ended k ∷ s.log })
            (others-Quiet s.lock_held k s.log
              (subst (λ helper. Facts s.lock_held helper s.log) up h.facts))
            h.facts.safe)
        (λ e. stop_helper-Sound k s h up)

  pub shutdown-Sound : (s : Supervisor srv.World) → Sound s → Sound (shutdown c srv s)
  unfolding shutdown
  shutdown-Sound s h =
      if-Sound (is s.state terminated) _ _ (λ e. h) (λ e. stop_any-Sound s.helper s h refl)

  pub step-Sound : (e : Step) (s : Supervisor srv.World) → Sound s → Sound (step c srv e s)
  unfolding step
  step-Sound begin s h =
      if-Sound (is s.state idle) _ _ (λ e. spawn_session-Sound c srv s h (idle-Down s h e)) (λ e. h)
  step-Sound (frame m k) s h = handle_frame-Sound c srv m k s h
  step-Sound (exit k) s h = handle_exit-Sound c srv k s h
  step-Sound (error k) s h = handle_error-Sound c srv k s h
  step-Sound tick s h = handle_tick-Sound s h
  step-Sound check_floor_reset s h = handle_floor_reset-Sound c srv s h
  step-Sound end s h = shutdown-Sound s h

  pub run-Sound : (es : List Step) (s : Supervisor srv.World) → Sound s → Sound (run c srv es s)
  unfolding run
  run-Sound [] s h = h
  run-Sound (e ∷ es) s h = run-Sound es (step c srv e s) (step-Sound e s h)

  pub new_supervisor-Sound : (w : srv.World) → Sound (new_supervisor c w)
  new_supervisor-Sound w = record {
    facts = record { writers = λ k h. cc; safe = tt };
    lock = refl;
    up = refl;
  }

  -- Whatever frames, exits, ticks and stops are queued, in whatever order, and whatever the services
  -- answer: the lock was released only when no session was told to start since it last reported
  -- itself stopped or ended; a session was told to start only under the lock; every transition left
  -- the lock held exactly if its new state is `producing` or `stopping`; and so it is at the end.
  pub run-IsSafe :
      (es : List Step) (w : srv.World)
      → IsSafe (run c srv es (new_supervisor c w)).log
        × ((run c srv es (new_supervisor c w)).lock_held
            ≡ holds_lock (run c srv es (new_supervisor c w)).state)
  run-IsSafe es w =
      let h = run-Sound es (new_supervisor c w) (new_supervisor-Sound w) in (h.facts.safe, h.lock)
