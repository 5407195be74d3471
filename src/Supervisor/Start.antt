-- ===== src/Supervisor/Start.antt =====
-- What an attempt to start a helper session comes to.
use video_thingy_rocks.Common.{
  ℕ, suc, ◌+◌, ◌*◌, min, ◌≡◌, ◌⊎◌, inl, inr, refl, ◌∙◌, Bool, true, false, Option, none, some, ◌∷◌,
  map_set, PortMap, if◌then◌else◌,
}
use video_thingy_rocks.HelperProtocol.{SrtpHelperInit, init}
use video_thingy_rocks.Supervisor.{
  SrtpSupervisorState, starting, cooldown, SrtpPortSupervisorConfig, Services, Supervisor, moved,
}
use video_thingy_rocks.Supervisor.Operations.{
  is, is_given_up, transition, write_command, enter_cooldown,
}
use video_thingy_rocks.Supervisor.Session.{
  floor_base_of, init_frame, adopt, launch, read_floor, spawn_session,
}
use video_thingy_rocks.Supervisor.Invariant.{is_eq}

module _ (c : SrtpPortSupervisorConfig) (srv : Services) where
  -- A fresh session is current, under the epoch that was read before its floor. The parameters are
  -- the fields before the attempt.
  pub record IsStarted (sessions : ℕ) (epochs : PortMap (Option ℕ)) (backoff_ms : ℕ)
      (epoch floor : Option ℕ) (s' : Supervisor srv.World) : Type 0 where
    pub state : s'.state ≡ starting
    pub helper : s'.helper ≡ some sessions
    pub counted : s'.sessions ≡ suc sessions
    pub recorded : s'.session_epochs ≡ map_set epochs sessions epoch
    pub floor_base : s'.session_floor_base ≡ floor_base_of floor
    pub same_backoff : s'.backoff_ms ≡ backoff_ms

  -- No session; the next attempt waits for the back-off, which is doubled up to its maximum.
  pub record IsPutOff (sessions : ℕ) (epochs : PortMap (Option ℕ)) (backoff_ms : ℕ)
      (helper : Option ℕ) (s' : Supervisor srv.World) : Type 0 where
    pub state : s'.state ≡ cooldown
    pub same_helper : s'.helper ≡ helper
    pub same_sessions : s'.sessions ≡ sessions
    pub same_epochs : s'.session_epochs ≡ epochs
    pub doubled : s'.backoff_ms ≡ min (backoff_ms * 2) c.timeouts.restart_max_ms
    pub waits : (w : srv.World) × (s'.retry_at_ms ≡ (srv.now w).0 + backoff_ms)

  -- A transition changes the state and leaves the bookkeeping alone.
  record Moves (to : SrtpSupervisorState) (s s' : Supervisor srv.World) : Type 0 where
    state : s'.state ≡ to
    helper : s'.helper ≡ s.helper
    sessions : s'.sessions ≡ s.sessions
    epochs : s'.session_epochs ≡ s.session_epochs
    floor_base : s'.session_floor_base ≡ s.session_floor_base
    backoff_ms : s'.backoff_ms ≡ s.backoff_ms
    retry_at_ms : s'.retry_at_ms ≡ s.retry_at_ms

  transition-Moves :
      (to : SrtpSupervisorState) (s : Supervisor srv.World) → Moves to s (transition c srv to s)
  unfolding transition
  transition-Moves to s = go (is s.state to) (is_eq s.state to)
    where
      go :
          (b : Bool)
          → (b ≡ true → s.state ≡ to)
          → Moves to s (
              if b then s else record s {
                state = to;
                world = srv.on_transition s.state to s.world;
                log = moved s.state to s.lock_held ∷ s.log;
              })
      go true e = record {
        state = e refl;
        helper = refl;
        sessions = refl;
        epochs = refl;
        floor_base = refl;
        backoff_ms = refl;
        retry_at_ms = refl;
      }
      go false e = record {
        state = refl;
        helper = refl;
        sessions = refl;
        epochs = refl;
        floor_base = refl;
        backoff_ms = refl;
        retry_at_ms = refl;
      }

  enter_cooldown-IsPutOff :
      (s : Supervisor srv.World)
      → IsPutOff s.sessions s.session_epochs s.backoff_ms s.helper (enter_cooldown c srv s)
  unfolding enter_cooldown
  enter_cooldown-IsPutOff s =
      let m = transition-Moves cooldown (record s {
        retry_at_ms = (srv.now s.world).0 + s.backoff_ms;
        backoff_ms = min (s.backoff_ms * 2) c.timeouts.restart_max_ms;
        world = (srv.now s.world).1;
      }) in
      record {
        state = m.state;
        same_helper = m.helper;
        same_sessions = m.sessions;
        same_epochs = m.epochs;
        doubled = m.backoff_ms;
        waits = (s.world, m.retry_at_ms);
      }

  -- What the answers lead to: the epoch, the floor, and whether a process is had for a floor.
  abbrev pub Outcome :
      Supervisor srv.World
      → Option (Option ℕ)
      → Option (Option ℕ)
      → (Option ℕ → Bool)
      → Supervisor srv.World
      → Type 0
  Outcome s epoch floor spawned s' =
      ((e : Option ℕ) × (f : Option ℕ) × (epoch ≡ some e)
        × (floor ≡ some f)
        × (spawned f ≡ true)
        × IsStarted s.sessions s.session_epochs s.backoff_ms e f s')
      ⊎ (IsPutOff s.sessions s.session_epochs s.backoff_ms s.helper s'
          × ((epoch ≡ none)
              ⊎ ((floor ≡ none) ⊎ ((f : Option ℕ) × (floor ≡ some f) × (spawned f ≡ false)))))

  adopt-Outcome :
      (e f : Option ℕ) (frame : SrtpHelperInit) (spawned : Bool) (s : Supervisor srv.World)
      → s.session_floor_base ≡ floor_base_of f
      → ((spawned ≡ true)
          × IsStarted s.sessions s.session_epochs s.backoff_ms e f (adopt c srv e frame spawned s))
        ⊎ ((spawned ≡ false)
            × IsPutOff s.sessions s.session_epochs s.backoff_ms s.helper
                (adopt c srv e frame spawned s))
  unfolding adopt write_command
  adopt-Outcome e f frame false s base = inr (refl, enter_cooldown-IsPutOff s)
  adopt-Outcome e f frame true s base =
      let k = s.sessions in
      let (now, w) = srv.now s.world in
      let (now', w') = srv.now w in
      let m = transition-Moves starting (record s {
        helper = some k;
        sessions = suc k;
        session_epochs = map_set s.session_epochs k e;
        started_at_ms = now;
        last_frame_at_ms = now';
        world = (srv.stdin_write k (init frame) w').1;
      }) in
      inl (
        refl,
        record {
          state = m.state;
          helper = m.helper;
          counted = m.sessions;
          recorded = m.epochs;
          floor_base = m.floor_base ∙ base;
          same_backoff = m.backoff_ms;
        },
      )

  abbrev pub spawns : Supervisor srv.World → srv.World → Option ℕ → Bool
  spawns s w f = (srv.spawn_helper (init_frame c srv f s.search_from_carry) w).0

  abbrev pub epoch_read : srv.World → Option (Option ℕ) × srv.World
  epoch_read w = srv.get_srtp_floor_epoch c.port w

  abbrev pub floor_read : srv.World → Option (Option ℕ) × srv.World
  floor_read w = srv.get_srtp_index_floor c.port c.port_key.ssrc c.port_key.key_fingerprint w

  launch-Outcome :
      (e : Option ℕ) (floor : Option (Option ℕ)) (s : Supervisor srv.World)
      → is_given_up s.state ≡ false
      → Outcome s (some e) floor (spawns s s.world) (launch c srv e floor s)
  unfolding launch
  launch-Outcome e none s live = inr (enter_cooldown-IsPutOff s, inr (inl refl))
  launch-Outcome e (some f) s live =
      let frame = init_frame c srv f s.search_from_carry in
      let (spawned, w) = srv.spawn_helper frame s.world in
      simp live
        (elim (adopt-Outcome e f frame spawned
          (record s { session_floor_base = floor_base_of f; world = w }) refl) [
            | inl (had, started) ↦ inl (e, f, refl, refl, had, started)
            | inr (failed, off) ↦ inr (off, inr (inr (f, refl, failed)))
          ])

  read_floor-Outcome :
      (epoch : Option (Option ℕ)) (s : Supervisor srv.World)
      → is_given_up s.state ≡ false
      → Outcome s epoch
          (floor_read s.world).0
          (spawns s (floor_read s.world).1)
          (read_floor c srv epoch s)
  unfolding read_floor
  read_floor-Outcome none s live = inr (enter_cooldown-IsPutOff s, inl refl)
  read_floor-Outcome (some e) s live =
      let (floor, w) = floor_read s.world in launch-Outcome e floor (record s { world = w }) live

  -- An attempt to start a session, unless the port is given up: if epoch, floor and process are had,
  -- a fresh session is `starting`, recorded under the epoch, which was read before the floor, and
  -- with that floor's base. If one of the three fails, the attempt is put off by the back-off, which
  -- doubles up to its maximum, and no session is recorded.
  pub spawn_session-Outcome :
      (s : Supervisor srv.World)
      → is_given_up s.state ≡ false
      → Outcome s
          (epoch_read s.world).0
          (floor_read (epoch_read s.world).1).0
          (spawns s (floor_read (epoch_read s.world).1).1)
          (spawn_session c srv s)
  unfolding spawn_session
  spawn_session-Outcome s live =
      let (epoch, w) = epoch_read s.world in
      simp live (read_floor-Outcome epoch (record s { fatal_reason = none; world = w }) live)
