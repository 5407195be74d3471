-- ===== src/Supervisor/Invariant/Session.antt =====
-- The invariant through the start, the restart and the end of a helper session.
use video_thingy_rocks.Common.{
  ℕ, suc, ◌≡◌, refl, sym, subst, inl, inr, Bool, true, false, Option, none, some, ◌∷◌, arith,
  Bool-cases, is_none, map_set, if◌then◌else◌,
}
use video_thingy_rocks.HelperProtocol.{SrtpHelperInit, SrtpHelperCommand}
use video_thingy_rocks.Supervisor.{
  SrtpSupervisorState, idle, starting, cooldown, disabled, terminated, SrtpPortSupervisorConfig,
  Services, ended, Supervisor,
}
use video_thingy_rocks.Supervisor.Operations.{is, is_given_up, release_lock, end_session}
use video_thingy_rocks.Supervisor.Session.{
  is_current, init_frame, floor_base_of, same_epoch, adopt, launch, read_floor, spawn_session,
  restart_if_reset, watches_epoch, session_of, check_epoch, handle_floor_reset, is_fatal,
  handle_exit, handle_error,
}
use video_thingy_rocks.Supervisor.Invariant.{
  Facts, Inv, Up, has_helper, Sound, is_eq, at_state, Quiet-Facts, none-Quiet, others-Quiet,
  transition-Sound, release_lock-Freed, released-Sound, enter_cooldown-Sound, cooldown-Sound,
  end_session-Sound,
}

-- Neither the lock nor a helper.
abbrev pub Down : {W : Type 0} → Supervisor W → Type 0
Down s = (s.lock_held ≡ false) × (s.helper ≡ none)

is_none-eq : (o : Option ℕ) → is_none o ≡ true → o ≡ none
is_none-eq none h = refl
is_none-eq (some k) h = cc

pub is_current-eq : (k : ℕ) (helper : Option ℕ) → is_current k helper ≡ true → helper ≡ some k
is_current-eq k none h = cc
is_current-eq k (some j) h = ground arith

pub idle-Down : {W : Type 0} (s : Supervisor W) → Sound s → is s.state idle ≡ true → Down s
idle-Down s h e = let i = at_state s idle h e in (i.lock, is_none-eq s.helper i.up)

pub cooldown-Down : {W : Type 0} (s : Supervisor W) → Sound s → is s.state cooldown ≡ true → Down s
cooldown-Down s h e = let i = at_state s cooldown h e in (i.lock, is_none-eq s.helper i.up)

Up-helper :
    (state : SrtpSupervisorState) (helper : Option ℕ)
    → Up state helper
    → has_helper state ≡ true
    → (k : ℕ) × (helper ≡ some k)
Up-helper state (some k) up h = (k, refl)
Up-helper state none up h = absurd (ground arith)

pub running-helper :
    {W : Type 0} (s : Supervisor W)
    → Sound s
    → has_helper s.state ≡ true
    → (k : ℕ) × (s.helper ≡ some k)
running-helper s h helped = Up-helper s.state s.helper h.up helped

watches-live :
    (state : SrtpSupervisorState)
    → watches_epoch state ≡ true
    → (is state terminated ≡ false) × (has_helper state ≡ true)
watches-live state h = ground arith

module _ (c : SrtpPortSupervisorConfig) (srv : Services) where
  adopt-Sound :
      (epoch : Option ℕ) (frame : SrtpHelperInit) (spawned : Bool) (s : Supervisor srv.World)
      → Sound s
      → Down s
      → Sound (adopt c srv epoch frame spawned s)
  unfolding adopt
  adopt-Sound epoch frame false s h (unheld, gone) =
      enter_cooldown-Sound c srv s unheld gone h.facts
  adopt-Sound epoch frame true s h (unheld, gone) =
      let k = s.sessions in
      let quiet =
        none-Quiet s.lock_held s.log
          (subst (λ helper. Facts s.lock_held helper s.log) gone h.facts) in
      let (now, w) = srv.now s.world in
      let (now', w') = srv.now w in
      transition-Sound c srv starting
        (record s {
          helper = some k;
          sessions = suc k;
          session_epochs = map_set s.session_epochs k epoch;
          started_at_ms = now;
          last_frame_at_ms = now';
          world = (srv.stdin_write k (SrtpHelperCommand.init frame) w').1;
        })
        (Quiet-Facts s.lock_held (some k) s.log quiet h.facts.safe) unheld refl

  launch-Sound :
      (epoch : Option ℕ) (floor : Option (Option ℕ)) (s : Supervisor srv.World)
      → Sound s
      → Down s
      → Sound (launch c srv epoch floor s)
  unfolding launch
  launch-Sound epoch none s h (unheld, gone) = enter_cooldown-Sound c srv s unheld gone h.facts
  launch-Sound epoch (some floor) s h down = elim (Bool-cases (is_given_up s.state)) [
    | inl e ↦ simp e h
    | inr e ↦
        let frame = init_frame c srv floor s.search_from_carry in
        let (spawned, w) = srv.spawn_helper frame s.world in
        simp e (
          adopt-Sound epoch frame spawned
            (record s { session_floor_base = floor_base_of floor; world = w }) h down)
  ]

  read_floor-Sound :
      (epoch : Option (Option ℕ)) (s : Supervisor srv.World)
      → Sound s
      → Down s
      → Sound (read_floor c srv epoch s)
  unfolding read_floor
  read_floor-Sound none s h (unheld, gone) = enter_cooldown-Sound c srv s unheld gone h.facts
  read_floor-Sound (some epoch) s h down =
      let (floor, w) =
        srv.get_srtp_index_floor c.port c.port_key.ssrc c.port_key.key_fingerprint s.world in
      launch-Sound epoch floor (record s { world = w }) h down

  pub spawn_session-Sound :
      (s : Supervisor srv.World) → Sound s → Down s → Sound (spawn_session c srv s)
  unfolding spawn_session
  spawn_session-Sound s h down = elim (Bool-cases (is_given_up s.state)) [
    | inl e ↦ simp e h
    | inr e ↦
        let (epoch, w) = srv.get_srtp_floor_epoch c.port s.world in
        simp e (read_floor-Sound epoch (record s { fatal_reason = none; world = w }) h down)
  ]

  respawn-Sound :
      (s : Supervisor srv.World)
      → Sound s
      → Sound (if is s.state cooldown then spawn_session c srv s else s)
  respawn-Sound s h = elim (Bool-cases (is s.state cooldown)) [
    | inl e ↦ simp e (spawn_session-Sound s h (cooldown-Down s h e))
    | inr e ↦ simp e h
  ]

  restart_if_reset-Sound :
      (started_under : Option ℕ) (epoch : Option (Option ℕ)) (k : ℕ) (s : Supervisor srv.World)
      → Sound s
      → s.helper ≡ some k
      → is s.state terminated ≡ false
      → Sound (restart_if_reset c srv started_under epoch s).1
  unfolding restart_if_reset
  restart_if_reset-Sound started_under none k s h up live = h
  restart_if_reset-Sound started_under (some epoch) k s h up live =
      elim (Bool-cases (same_epoch epoch started_under)) [
        | inl e ↦ simp e h
        | inr e ↦
            let gone = end_session c srv (record s { search_from_carry = none }) in
            simp e (
              respawn-Sound (record gone { backoff_ms = c.timeouts.restart_ms })
                (end_session-Sound c srv k (record s { search_from_carry = none }) h.facts up live))
      ]

  check_epoch-Sound :
      (session : Option (Option ℕ)) (s : Supervisor srv.World)
      → Sound s
      → Sound (check_epoch c srv session s).1
  unfolding check_epoch
  check_epoch-Sound none s h = h
  check_epoch-Sound (some started_under) s h = elim (Bool-cases (watches_epoch s.state)) [
    | inr other ↦ simp other h
    | inl watched ↦
        let (epoch, w) = srv.get_srtp_floor_epoch c.port s.world in
        let (live, helped) = watches-live s.state watched in
        let (k, up) = running-helper s h helped in
        simp watched
          (restart_if_reset-Sound started_under epoch k (record s { world = w }) h up live)
  ]

  pub handle_floor_reset-Sound :
      (s : Supervisor srv.World) → Sound s → Sound (handle_floor_reset c srv s).1
  unfolding handle_floor_reset
  handle_floor_reset-Sound s h = check_epoch-Sound (session_of s.helper s.session_epochs) s h

  pub handle_exit-Sound :
      (k : ℕ) (s : Supervisor srv.World) → Sound s → Sound (handle_exit c srv k s)
  unfolding handle_exit
  handle_exit-Sound k s h = elim (Bool-cases (is_current k s.helper)) [
    | inr late ↦ simp late h
    | inl current ↦
        let gone = record s { helper = none; log = ended k ∷ s.log } in
        let quiet = others-Quiet s.lock_held k s.log (
          subst (λ helper. Facts s.lock_held helper s.log) (is_current-eq k s.helper current)
            h.facts) in
        let r = release_lock-Freed c srv gone quiet h.facts.safe in
        elim (Bool-cases (is s.state terminated)) [
          | inl over ↦
              simp (current, over)
                (subst (λ x. Inv x s.lock_held none (ended k ∷ s.log))
                  (sym (is_eq s.state terminated over))
                  (record {
                    facts = Quiet-Facts s.lock_held none (ended k ∷ s.log) quiet h.facts.safe;
                    lock = (at_state s terminated h over).lock;
                    up = tt;
                  }))
          | inr live ↦ elim (Bool-cases (is_fatal (release_lock c srv gone).fatal_reason)) [
            | inl fatal ↦
                simp (current, live, fatal)
                  (released-Sound c srv disabled gone quiet h.facts.safe refl refl)
            | inr retry ↦
                simp (current, live, retry)
                  (cooldown-Sound c srv gone (release_lock c srv gone) r refl)
          ]
        ]
  ]

  pub handle_error-Sound :
      (k : ℕ) (s : Supervisor srv.World) → Sound s → Sound (handle_error c srv k s)
  unfolding handle_error
  handle_error-Sound k s h =
      handle_exit-Sound k (record s { world = srv.end_child_process k s.world }) h
