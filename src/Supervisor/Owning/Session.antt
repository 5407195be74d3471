-- ===== src/Supervisor/Owning/Session.antt =====
-- Sessions: their start, their end and their restart keep what holds of the lock.
use video_thingy_rocks.Common.{
  ℕ, suc, ◌≡◌, refl, Bool, true, false, not, Option, none, some, ◌∷◌, if◌then◌else◌, map_set,
}
use video_thingy_rocks.HelperProtocol.{SrtpHelperInit, init}
use video_thingy_rocks.Supervisor.{
  SrtpPortSupervisorConfig, Services, Supervisor, starting, disabled, cooldown, terminated, ended,
}
use video_thingy_rocks.Supervisor.Operations.{
  is, is_given_up, transition, enter_cooldown, write_command, release_lock, end_session,
}
use video_thingy_rocks.Supervisor.Session.{
  adopt, launch, read_floor, spawn_session, restart_if_reset, check_epoch, handle_floor_reset,
  handle_exit, handle_error, init_frame, floor_base_of, same_epoch, watches_epoch, session_of,
  is_current, is_fatal,
}
use video_thingy_rocks.Supervisor.Owning.{
  Guards, Good, transition-Good, write_command-Good, release_lock-Good, enter_cooldown-Good,
  end_session-Good, if-Good,
}

module _ (c : SrtpPortSupervisorConfig) (srv : Services) (Own : Bool → srv.World → Type 0)
    (laws : Guards c srv Own) where
  -- Only the lock and the world count.
  pub same-Good :
      (s s' : Supervisor srv.World)
      → s'.lock_held ≡ s.lock_held
      → s'.world ≡ s.world
      → s'.sessions ≡ s.sessions
      → s'.session_epochs ≡ s.session_epochs
      → Good c srv Own laws s
      → Good c srv Own laws s'
  same-Good s s' e f n m g = record { own = rw (e, f) g.own; book = rw (n, m) g.book }

  adopt-Good :
      (epoch : Option ℕ) (f : SrtpHelperInit) (spawned : Bool) (s : Supervisor srv.World)
      → Good c srv Own laws s
      → Good c srv Own laws (adopt c srv epoch f spawned s)
  unfolding adopt
  adopt-Good epoch f false s g = enter_cooldown-Good c srv Own laws s g
  adopt-Good epoch f true s g =
      let (now, w) = srv.now s.world in
      let (now', w') = srv.now w in
      let taken = record s {
        helper = some s.sessions;
        sessions = suc s.sessions;
        session_epochs = map_set s.session_epochs s.sessions epoch;
        started_at_ms = now;
        last_frame_at_ms = now';
        world = w';
      } in
      let k : Good c srv Own laws taken = record {
        own = laws.now s.lock_held w (laws.now s.lock_held s.world g.own);
        book = laws.recorded s.sessions s.session_epochs epoch g.book;
      } in
      transition-Good c srv Own laws starting (write_command c srv (init f) taken)
        (write_command-Good c srv Own laws (init f) taken k)

  launch-Good :
      (epoch : Option ℕ) (floor : Option (Option ℕ)) (s : Supervisor srv.World)
      → Good c srv Own laws s
      → Good c srv Own laws (launch c srv epoch floor s)
  unfolding launch
  launch-Good epoch none s g = enter_cooldown-Good c srv Own laws s g
  launch-Good epoch (some floor) s g =
      let f = init_frame c srv floor s.search_from_carry in
      let (spawned, w) = srv.spawn_helper f s.world in
      let spawning = record s { session_floor_base = floor_base_of floor; world = w } in
      if-Good c srv Own laws (is_given_up s.state) s (adopt c srv epoch f spawned spawning) g (
        adopt-Good epoch f spawned spawning
          (record { own = laws.spawn s.lock_held f s.world g.own; book = g.book }))

  read_floor-Good :
      (epoch : Option (Option ℕ)) (s : Supervisor srv.World)
      → Good c srv Own laws s
      → Good c srv Own laws (read_floor c srv epoch s)
  unfolding read_floor
  read_floor-Good none s g = enter_cooldown-Good c srv Own laws s g
  read_floor-Good (some epoch) s g =
      let (floor, w) =
        srv.get_srtp_index_floor c.port c.port_key.ssrc c.port_key.key_fingerprint s.world in
      launch-Good epoch floor (record s { world = w })
        (record { own = laws.floor s.lock_held s.world g.own; book = g.book })

  pub spawn_session-Good :
      (s : Supervisor srv.World)
      → Good c srv Own laws s
      → Good c srv Own laws (spawn_session c srv s)
  unfolding spawn_session
  spawn_session-Good s g =
      let cleared = record s { fatal_reason = none } in
      let (epoch, w) = srv.get_srtp_floor_epoch c.port s.world in
      let reading = record cleared { world = w } in
      if-Good c srv Own laws (is_given_up s.state) cleared (read_floor c srv epoch reading)
        (same-Good s cleared refl refl refl refl g)
        (read_floor-Good epoch reading
          (record { own = laws.epoch s.lock_held s.world g.own; book = g.book }))

  if-second :
      (b : Bool) (x y : Bool × Supervisor srv.World)
      → Good c srv Own laws x.1
      → Good c srv Own laws y.1
      → Good c srv Own laws (if b then x else y).1
  if-second true x y g h = g
  if-second false x y g h = h

  restart_if_reset-Good :
      (under : Option ℕ) (epoch : Option (Option ℕ)) (s : Supervisor srv.World)
      → Good c srv Own laws s
      → Good c srv Own laws (restart_if_reset c srv under epoch s).1
  unfolding restart_if_reset
  restart_if_reset-Good under none s g = g
  restart_if_reset-Good under (some epoch) s g =
      let left = record s { search_from_carry = none } in
      let gone = end_session c srv left in
      let fresh = record gone { backoff_ms = c.timeouts.restart_ms } in
      let k =
        same-Good gone fresh refl refl refl refl
          (end_session-Good c srv Own laws left (same-Good s left refl refl refl refl g)) in
      if-second (same_epoch epoch under) (false, s)
        (true, if is fresh.state cooldown then spawn_session c srv fresh else fresh) g
        (if-Good c srv Own laws (is fresh.state cooldown) (spawn_session c srv fresh) fresh
          (spawn_session-Good fresh k) k)

  check_epoch-Good :
      (o : Option (Option ℕ)) (s : Supervisor srv.World)
      → Good c srv Own laws s
      → Good c srv Own laws (check_epoch c srv o s).1
  unfolding check_epoch
  check_epoch-Good none s g = g
  check_epoch-Good (some under) s g =
      let (epoch, w) = srv.get_srtp_floor_epoch c.port s.world in
      let reading = record s { world = w } in
      if-second (not (watches_epoch s.state)) (false, s)
        (restart_if_reset c srv under epoch reading) g
        (restart_if_reset-Good under epoch reading
          (record { own = laws.epoch s.lock_held s.world g.own; book = g.book }))

  pub handle_floor_reset-Good :
      (s : Supervisor srv.World)
      → Good c srv Own laws s
      → Good c srv Own laws (handle_floor_reset c srv s).1
  unfolding handle_floor_reset
  handle_floor_reset-Good s g = check_epoch-Good (session_of s.helper s.session_epochs) s g

  pub handle_exit-Good :
      (k : ℕ) (s : Supervisor srv.World)
      → Good c srv Own laws s
      → Good c srv Own laws (handle_exit c srv k s)
  unfolding handle_exit
  handle_exit-Good k s g =
      let gone = record s { helper = none; log = ended k ∷ s.log } in
      let h = same-Good s gone refl refl refl refl g in
      let free = release_lock c srv gone in
      let f = release_lock-Good c srv Own laws gone h in
      let off = transition c srv disabled free in
      let waiting = enter_cooldown c srv free in
      let over = if is_fatal free.fatal_reason then off else waiting in
      if-Good c srv Own laws (not (is_current k s.helper)) s
        (if is s.state terminated then gone else over) g
        (if-Good c srv Own laws (is s.state terminated) gone over h (
          if-Good c srv Own laws (is_fatal free.fatal_reason) off waiting
            (transition-Good c srv Own laws disabled free f)
            (enter_cooldown-Good c srv Own laws free f)))

  pub handle_error-Good :
      (k : ℕ) (s : Supervisor srv.World)
      → Good c srv Own laws s
      → Good c srv Own laws (handle_error c srv k s)
  unfolding handle_error
  handle_error-Good k s g =
      let ending = record s { world = srv.end_child_process k s.world } in
      let h =
        handle_exit-Good k ending
          (record { own = laws.end_child s.lock_held k s.world g.own; book = g.book }) in
      record { own = h.own; book = h.book }
