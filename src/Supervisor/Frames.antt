-- ===== src/Supervisor/Frames.antt =====
-- `handleFrame`: what a frame of a helper session does.
use video_thingy_rocks.Common.{
  ℕ, ◌+◌, max, Bool, true, false, not, ◌&&◌, ◌||◌, Option, none, some, ◌∷◌, ◌==◌, leb, ltb,
  if◌then◌else◌,
}
use video_thingy_rocks.StreamMetadata.{OwnedWriteResult, held, lost_lock, write_error}
use video_thingy_rocks.HelperProtocol.{
  SrtpHelperMessage, ready, auth_ok, auth_fail, auth_lost, index, stopped, stats, fatal, start,
  stop, srtp_helper_protocol_version,
}
use video_thingy_rocks.Supervisor.{
  idle, starting, searching, acquiring, producing, stopping, terminated, SrtpPortSupervisorConfig,
  Services, reported, acquired, Supervisor,
}
use video_thingy_rocks.Supervisor.Operations.{
  is, transition, write_command, release_lock, raise_floor, end_session,
}
use video_thingy_rocks.Supervisor.Session.{is_current}

module _ (c : SrtpPortSupervisorConfig) (srv : Services) where
  -- What the lock service's answer leads to.
  unfoldable pub granted : Option Bool → Supervisor srv.World → Supervisor srv.World
  unfolding write_command transition
  granted (some true) s = transition c srv producing (
      write_command c srv (start srtp_helper_protocol_version) (record s {
        lock_held = true;
        release_after_stop = true;
        last_heartbeat_authenticated = 0;
        log = acquired ∷ s.log;
      }))
  granted (some false) s = s
  granted none s = s

  unfoldable pub attempt_acquire : Supervisor srv.World → Supervisor srv.World
  unfolding granted transition
  attempt_acquire s =
      if not (is s.state searching) && not (is s.state acquiring)
      then s
      else let (now, w) = srv.now s.world in
        let wanting =
          transition c srv acquiring (record s { last_acquire_attempt_ms = now; world = w }) in
        let (answer, w') = srv.try_acquire_kinesis_lock c.port c.instance_id wanting.world in
        granted answer (record wanting { world = w' })

  unfoldable pub not_producing : Supervisor srv.World → Supervisor srv.World
  unfolding release_lock transition
  not_producing s =
      if is s.state producing || is s.state stopping
      then transition c srv searching (release_lock c srv s)
      else if is s.state acquiring
      then transition c srv searching s
      else s

  unfoldable pub refreshed : Option OwnedWriteResult → Supervisor srv.World → Supervisor srv.World
  unfolding write_command transition
  refreshed (some lost_lock) s =
      let told =
        write_command c srv (stop srtp_helper_protocol_version)
          (record s { release_after_stop = false }) in
      let (now, w) = srv.now told.world in
      transition c srv stopping (record told { stopped_sent_at_ms = now; world = w })
  refreshed (some held) s = s
  refreshed (some write_error) s = s
  refreshed none s = s

  unfoldable pub refresh_lease : Supervisor srv.World → Supervisor srv.World
  unfolding refreshed
  refresh_lease s =
      if not (is s.state producing)
      then s
      else let (answer, w) = srv.update_last_packet_time c.port c.instance_id s.world in
        refreshed answer (record s { world = w })

  -- A `stopped` frame, after its index was raised.
  unfoldable pub helper_stopped : Supervisor srv.World → Supervisor srv.World
  unfolding release_lock transition
  helper_stopped s =
      if is s.state stopping
      then transition c srv searching
          (if s.release_after_stop then release_lock c srv s else record s { lock_held = false })
      else if is s.state producing
      then transition c srv searching (release_lock c srv s)
      else s

  -- The index, if there is one; a write that rejects ends the handler.
  unfoldable pub handle_stopped : Option ℕ → ℕ → Supervisor srv.World → Supervisor srv.World
  unfolding raise_floor helper_stopped
  handle_stopped none k s = helper_stopped s
  handle_stopped (some i) k s =
      let (resolved, raised) = raise_floor c srv i k s in
      if resolved then helper_stopped raised else raised

  unfoldable pub handle_ready : ℕ → Supervisor srv.World → Supervisor srv.World
  unfolding end_session transition
  handle_ready v s =
      if not (v == srtp_helper_protocol_version)
      then end_session c srv s
      else if is s.state starting
      then transition c srv searching (record s { backoff_ms = c.timeouts.restart_ms })
      else s

  unfoldable pub handle_stats : ℕ → ℕ → Supervisor srv.World → Supervisor srv.World
  unfolding refresh_lease attempt_acquire
  handle_stats input_bytes authenticated s =
      let seen = record s {
        world = srv.on_stats c.port input_bytes authenticated s.world;
        last_heartbeat_authenticated = max s.last_heartbeat_authenticated authenticated;
      } in
      if is seen.state producing
      then (if ltb 0 authenticated then refresh_lease seen else seen)
      else if is seen.state acquiring && ltb 0 authenticated
      then (let (now, w) = srv.now seen.world in
          let checked = record seen { world = w } in
          if leb (checked.last_acquire_attempt_ms + c.timeouts.acquire_retry_ms) now
          then attempt_acquire checked
          else checked)
      else seen

  -- The carried position is replaced, by a frame that has one.
  unfoldable pub carry : Option ℕ → Supervisor srv.World → Supervisor srv.World
  carry none s = s
  carry (some position) s = record s {
    search_from_carry = some (record { base = s.session_floor_base; search_from = position });
  }

  unfoldable pub handle_first_auth : ℕ → Option ℕ → Supervisor srv.World → Supervisor srv.World
  unfolding attempt_acquire
  handle_first_auth roc trials s =
      let seen = record s { world = srv.on_authenticated c.port roc trials s.world } in
      if is s.state searching || is s.state acquiring then attempt_acquire seen else seen

  -- The `switch` on the frame, for the current session.
  unfoldable pub dispatch : SrtpHelperMessage → ℕ → Supervisor srv.World → Supervisor srv.World
  unfolding handle_ready handle_first_auth carry not_producing handle_stopped raise_floor
      handle_stats
  dispatch (ready v port pid) k s = handle_ready v s
  dispatch (auth_ok first roc seq candidate trials authenticated) k s =
      if first then handle_first_auth roc trials s else s
  dispatch (auth_fail candidate inputs drops search_from) k s = carry search_from s
  dispatch (auth_lost since_ms drops) k s = not_producing (record s { log = reported k ∷ s.log })
  dispatch (stopped i) k s = handle_stopped i k (record s { log = reported k ∷ s.log })
  dispatch (index i) k s = (raise_floor c srv i k s).1
  dispatch (stats inputs input_bytes authenticated aus roc drops) k s =
      handle_stats input_bytes authenticated s
  dispatch (fatal reason message) k s = record s { fatal_reason = some reason }
  dispatch _ k s = s

  -- A frame of a session that was replaced, or has ended.
  unfoldable pub handle_late : SrtpHelperMessage → ℕ → Supervisor srv.World → Supervisor srv.World
  unfolding raise_floor carry
  handle_late (index i) k s = (raise_floor c srv i k s).1
  handle_late (auth_fail candidate inputs drops search_from) k s = carry search_from s
  handle_late _ k s = s

  unfoldable pub handle_frame : SrtpHelperMessage → ℕ → Supervisor srv.World → Supervisor srv.World
  unfolding handle_late dispatch
  handle_frame m k s =
      if is s.state terminated || is s.state idle
      then s
      else if not (is_current k s.helper)
      then handle_late m k s
      else let (now, w) = srv.now s.world in
        dispatch m k (record s { last_frame_at_ms = now; world = w })
