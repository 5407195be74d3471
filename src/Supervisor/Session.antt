-- ===== src/Supervisor/Session.antt =====
-- Helper sessions: starting one, its end, and the restart after a floor reset.
use video_thingy_rocks.Common.{
  ℕ, suc, ◌/◌, String, Bool, true, false, not, ◌||◌, Option, none, some, ◌∷◌, ◌==◌, if◌then◌else◌,
  map_set, PortMap, some_and,
}
use video_thingy_rocks.HelperProtocol.{
  SrtpHelperInit, init, srtp_helper_protocol_version, is_retryable_fatal,
}
use video_thingy_rocks.Supervisor.{
  SrtpSupervisorState, starting, searching, acquiring, producing, cooldown, disabled, terminated,
  SrtpPortSupervisorConfig, Services, Carry, ended, Supervisor,
}
use video_thingy_rocks.Supervisor.Operations.{
  is, is_given_up, transition, write_command, release_lock, enter_cooldown, end_session,
}

-- The helper's rollover counter: a packet index without its 16 bits of sequence number.
abbrev pub floor_base_of : Option ℕ → ℕ
floor_base_of none = 0
floor_base_of (some floor) = floor / 65536

-- A carried position counts only while the floor that it climbed from has not moved.
abbrev pub carried : Option Carry → ℕ → Option ℕ
carried none base = none
carried (some carry) base = if carry.base == base then some carry.search_from else none

abbrev pub same_epoch : Option ℕ → Option ℕ → Bool
same_epoch none none = true
same_epoch (some a) (some b) = a == b
same_epoch _ _ = false

-- `this.helper === session`
abbrev pub is_current : ℕ → Option ℕ → Bool
is_current k helper = some_and (λ (j : ℕ). j == k) helper

abbrev pub watches_epoch : SrtpSupervisorState → Bool
watches_epoch state =
    is state starting || (is state searching || (is state acquiring || is state producing))

unfoldable pub is_fatal : Option String → Bool
unfolding is_retryable_fatal
is_fatal reason = some_and (λ (r : String). not (is_retryable_fatal r)) reason

-- The entry of the running helper.
abbrev pub session_of : Option ℕ → PortMap (Option ℕ) → Option (Option ℕ)
session_of none epochs = none
session_of (some k) epochs = epochs k

module _ (c : SrtpPortSupervisorConfig) (srv : Services) where
  abbrev pub init_frame : Option ℕ → Option Carry → SrtpHelperInit
  init_frame floor carry = record {
    v = srtp_helper_protocol_version;
    key = c.port_key.key_hex;
    cipher = some c.port_key.cipher;
    auth = some c.port_key.auth;
    ssrc = c.port_key.ssrc;
    floor = floor;
    search_from = carried carry (floor_base_of floor);
  }

  -- After the spawner resolved or threw.
  unfoldable pub adopt :
      Option ℕ → SrtpHelperInit → Bool → Supervisor srv.World → Supervisor srv.World
  unfolding enter_cooldown write_command transition
  adopt epoch frame false s = enter_cooldown c srv s
  adopt epoch frame true s =
      let k = s.sessions in
      let (now, w) = srv.now s.world in
      let (now', w') = srv.now w in
      transition c srv starting (
        write_command c srv (init frame) (record s {
          helper = some k;
          sessions = suc k;
          session_epochs = map_set s.session_epochs k epoch;
          started_at_ms = now;
          last_frame_at_ms = now';
          world = w';
        }))

  -- After the floor was read, or could not be.
  unfoldable pub launch : Option ℕ → Option (Option ℕ) → Supervisor srv.World → Supervisor srv.World
  unfolding adopt enter_cooldown
  launch epoch none s = enter_cooldown c srv s
  launch epoch (some floor) s =
      if is_given_up s.state
      then s
      else let frame = init_frame floor s.search_from_carry in
        let (spawned, w) = srv.spawn_helper frame s.world in
        adopt epoch frame spawned (record s { session_floor_base = floor_base_of floor; world = w })

  -- After the epoch was read, or could not be.
  unfoldable pub read_floor : Option (Option ℕ) → Supervisor srv.World → Supervisor srv.World
  unfolding launch enter_cooldown
  read_floor none s = enter_cooldown c srv s
  read_floor (some epoch) s =
      let (floor, w) =
        srv.get_srtp_index_floor c.port c.port_key.ssrc c.port_key.key_fingerprint s.world in
      launch epoch floor (record s { world = w })

  unfoldable pub spawn_session : Supervisor srv.World → Supervisor srv.World
  unfolding read_floor
  spawn_session s =
      let cleared = record s { fatal_reason = none } in
      if is_given_up s.state
      then cleared
      else let (epoch, w) = srv.get_srtp_floor_epoch c.port s.world in
        read_floor epoch (record cleared { world = w })

  -- The two reasons to leave a session alone, or its restart on the new floor.
  unfoldable pub restart_if_reset :
      Option ℕ → Option (Option ℕ) → Supervisor srv.World → Bool × Supervisor srv.World
  unfolding end_session spawn_session
  restart_if_reset started_under none s = (false, s)
  restart_if_reset started_under (some epoch) s =
      if same_epoch epoch started_under
      then (false, s)
      else let gone = end_session c srv (record s { search_from_carry = none }) in
        let fresh = record gone { backoff_ms = c.timeouts.restart_ms } in
        (true, if is fresh.state cooldown then spawn_session fresh else fresh)

  unfoldable pub check_epoch :
      Option (Option ℕ) → Supervisor srv.World → Bool × Supervisor srv.World
  unfolding restart_if_reset
  check_epoch none s = (false, s)
  check_epoch (some started_under) s =
      if not (watches_epoch s.state)
      then (false, s)
      else let (epoch, w) = srv.get_srtp_floor_epoch c.port s.world in
        restart_if_reset started_under epoch (record s { world = w })

  -- With whether the helper was replaced.
  unfoldable pub handle_floor_reset : Supervisor srv.World → Bool × Supervisor srv.World
  unfolding check_epoch
  handle_floor_reset s = check_epoch (session_of s.helper s.session_epochs) s

  -- The exit of a session's process.
  unfoldable pub handle_exit : ℕ → Supervisor srv.World → Supervisor srv.World
  unfolding release_lock transition enter_cooldown is_fatal
  handle_exit k s =
      if not (is_current k s.helper)
      then s
      else let gone = record s { helper = none; log = ended k ∷ s.log } in
        if is s.state terminated
        then gone
        else let free = release_lock c srv gone in
          if is_fatal free.fatal_reason
          then transition c srv disabled free
          else enter_cooldown c srv free

  -- An `error` of the process: it is ended for certain before it is treated as gone.
  unfoldable pub handle_error : ℕ → Supervisor srv.World → Supervisor srv.World
  unfolding handle_exit
  handle_error k s = handle_exit k (record s { world = srv.end_child_process k s.world })
