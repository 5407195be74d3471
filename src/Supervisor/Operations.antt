-- ===== src/Supervisor/Operations.antt =====
-- The supervisor's small steps: transitions, commands, the lock, the floor, the back-off.
use video_thingy_rocks.Common.{
  ℕ, ◌+◌, ◌*◌, min, Bool, false, ◌||◌, Option, none, some, List, ◌∷◌, ◌==◌, if◌then◌else◌,
}
use video_thingy_rocks.HelperProtocol.{SrtpHelperCommand, start}
use video_thingy_rocks.Supervisor.{
  SrtpSupervisorState, idle, starting, searching, acquiring, producing, stopping, cooldown,
  disabled, terminated, SrtpPortSupervisorConfig, Services, Effect, started, ended, released, moved,
  Supervisor,
}

abbrev number_of : SrtpSupervisorState → ℕ
number_of idle = 0
number_of starting = 1
number_of searching = 2
number_of acquiring = 3
number_of producing = 4
number_of stopping = 5
number_of cooldown = 6
number_of disabled = 7
number_of terminated = 8

-- `===` on states.
abbrev pub is : SrtpSupervisorState → SrtpSupervisorState → Bool
is a b = number_of a == number_of b

abbrev pub is_given_up : SrtpSupervisorState → Bool
is_given_up state = is state terminated || is state disabled

module _ (c : SrtpPortSupervisorConfig) (srv : Services) where
  abbrev record_effect : Effect → Supervisor srv.World → Supervisor srv.World
  record_effect e s = record s { log = e ∷ s.log }

  unfoldable pub transition : SrtpSupervisorState → Supervisor srv.World → Supervisor srv.World
  transition to s = if is s.state to then s else record s {
    state = to;
    world = srv.on_transition s.state to s.world;
    log = moved s.state to s.lock_held ∷ s.log;
  }

  -- What a command is to the log.
  abbrev logged : ℕ → SrtpHelperCommand → List Effect → List Effect
  logged k (start v) log = started k ∷ log
  logged k _ log = log

  -- The write to the helper's standard input; a throw is only logged.
  abbrev pub write_to : Option ℕ → SrtpHelperCommand → Supervisor srv.World → Supervisor srv.World
  write_to none command s = s
  write_to (some k) command s = record s {
    world = (srv.stdin_write k command s.world).1;
    log = logged k command s.log;
  }

  unfoldable pub write_command : SrtpHelperCommand → Supervisor srv.World → Supervisor srv.World
  write_command command s = write_to s.helper command s

  unfoldable pub release_lock : Supervisor srv.World → Supervisor srv.World
  release_lock s =
      if s.lock_held
      then record s {
        lock_held = false;
        world = (srv.release_kinesis_lock c.port c.instance_id s.world).1;
        log = released ∷ s.log;
      }
      else s

  unfoldable pub epoch_of_session : ℕ → Supervisor srv.World → Option ℕ
  epoch_of_session k s = elim (s.session_epochs k) [ none ↦ none | some epoch ↦ epoch ]

  -- With whether the write resolved.
  unfoldable pub raise_floor : ℕ → ℕ → Supervisor srv.World → Bool × Supervisor srv.World
  unfolding epoch_of_session
  raise_floor i k s =
      let key = c.port_key in
      let (resolved, w) =
        srv.raise_srtp_index_floor c.port i key.ssrc key.key_fingerprint key.generation
          (epoch_of_session k s) s.world in
      (resolved, record s { world = w })

  unfoldable pub enter_cooldown : Supervisor srv.World → Supervisor srv.World
  unfolding transition
  enter_cooldown s =
      let (now, w) = srv.now s.world in
      transition cooldown (record s {
        retry_at_ms = now + s.backoff_ms;
        backoff_ms = min (s.backoff_ms * 2) c.timeouts.restart_max_ms;
        world = w;
      })

  -- The session's process is ended, by signals if need be, and waited for.
  unfoldable pub end_helper : ℕ → Supervisor srv.World → Supervisor srv.World
  end_helper k s = record s {
    helper = none;
    world = srv.end_child_process k s.world;
    log = ended k ∷ s.log;
  }

  abbrev pub without_helper : Option ℕ → Supervisor srv.World → Supervisor srv.World
  without_helper none s = s
  without_helper (some k) s = release_lock (end_helper k s)

  unfoldable pub end_session : Supervisor srv.World → Supervisor srv.World
  unfolding release_lock enter_cooldown end_helper
  end_session s =
      let after = without_helper s.helper s in
      if is after.state terminated then after else enter_cooldown after
