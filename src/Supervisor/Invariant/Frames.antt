-- ===== src/Supervisor/Invariant/Frames.antt =====
-- The invariant through the frames of a helper session.
use video_thingy_rocks.Common.{
  ℕ, ◌+◌, max, ◌≡◌, refl, subst, inl, inr, Bool, true, false, ◌||◌, ◌&&◌, Option, none, some, ◌∷◌,
  ◌==◌, leb, ltb, Bool-cases, if◌then◌else◌,
}
use video_thingy_rocks.HelperProtocol.{
  SrtpHelperMessage, ready, auth_ok, auth_fail, auth_lost, index, stopped, stats,
  srtp_helper_protocol_version,
}
use video_thingy_rocks.Supervisor.{
  idle, starting, searching, acquiring, producing, stopping, terminated, SrtpPortSupervisorConfig,
  Services, reported, Supervisor,
}
use video_thingy_rocks.Supervisor.Operations.{is, transition, release_lock, raise_floor}
use video_thingy_rocks.Supervisor.Session.{is_current}
use video_thingy_rocks.Supervisor.Frames.{
  attempt_acquire, not_producing, helper_stopped, handle_stopped, handle_ready, handle_stats, carry,
  handle_first_auth, dispatch, handle_late, handle_frame,
}
use video_thingy_rocks.Supervisor.Invariant.{
  or-false, if-Sound, Facts, Up, Sound, Quiet, at_state, Quiet-Facts, others-Quiet,
  transition-Sound, released-Sound, end_session-Sound,
}
use video_thingy_rocks.Supervisor.Invariant.Session.{is_current-eq}
use video_thingy_rocks.Supervisor.Invariant.Lock.{
  producing-helper, helper-Up, state-helper, attempt_acquire-Sound, refresh_lease-Sound,
}

module _ (c : SrtpPortSupervisorConfig) (srv : Services) where
  -- The helper does not produce any more, by its own report.
  not_producing-Sound :
      (s : Supervisor srv.World) → Sound s → Quiet s.log → Sound (not_producing c srv s)
  unfolding not_producing
  not_producing-Sound s h quiet = elim (Bool-cases (is s.state producing || is s.state stopping)) [
    | inl e ↦ simp e (
        released-Sound c srv searching s quiet h.facts.safe refl
          (helper-Up s h (producing-helper s.state e).1))
    | inr e ↦ elim (Bool-cases (is s.state acquiring)) [
      | inl wants ↦
          simp (e, wants)
            (transition-Sound c srv searching s h.facts (at_state s acquiring h wants).lock
              (helper-Up s h (state-helper s.state acquiring wants)))
      | inr other ↦ simp (e, other) h
    ]
  ]

  -- Released if the row was still ours when the stop was sent, else only let go of.
  stop_completed-Sound :
      (ours : Bool) (s : Supervisor srv.World)
      → Sound s
      → Quiet s.log
      → Up searching s.helper
      → Sound (
          transition c srv searching
            (if ours then release_lock c srv s else record s { lock_held = false }))
  stop_completed-Sound true s h quiet up =
      released-Sound c srv searching s quiet h.facts.safe refl up
  stop_completed-Sound false s h quiet up =
      transition-Sound c srv searching (record s { lock_held = false })
        (Quiet-Facts false s.helper s.log quiet h.facts.safe) refl up

  helper_stopped-Sound :
      (s : Supervisor srv.World) → Sound s → Quiet s.log → Sound (helper_stopped c srv s)
  unfolding helper_stopped
  helper_stopped-Sound s h quiet = elim (Bool-cases (is s.state stopping)) [
    | inl e ↦
        let up = helper-Up s h (state-helper s.state stopping e) in
        simp e (stop_completed-Sound s.release_after_stop s h quiet up)
    | inr e ↦ elim (Bool-cases (is s.state producing)) [
      | inl recovered ↦
          simp (e, recovered)
            (released-Sound c srv searching s quiet h.facts.safe refl
              (helper-Up s h (state-helper s.state producing recovered)))
      | inr other ↦ simp (e, other) h
    ]
  ]

  handle_stopped-Sound :
      (i : Option ℕ) (k : ℕ) (s : Supervisor srv.World)
      → Sound s
      → Quiet s.log
      → Sound (handle_stopped c srv i k s)
  unfolding handle_stopped raise_floor
  handle_stopped-Sound none k s h quiet = helper_stopped-Sound s h quiet
  handle_stopped-Sound (some i) k s h quiet =
      let raised = raise_floor c srv i k s in
      elim (Bool-cases raised.0) [
        | inl e ↦ simp e (helper_stopped-Sound raised.1 h quiet)
        | inr e ↦ simp e h
      ]

  handle_ready-Sound :
      (v k : ℕ) (s : Supervisor srv.World)
      → Sound s
      → s.helper ≡ some k
      → is s.state terminated ≡ false
      → Sound (handle_ready c srv v s)
  unfolding handle_ready
  handle_ready-Sound v k s h up live = elim (Bool-cases (v == srtp_helper_protocol_version)) [
    | inr other ↦ simp other (end_session-Sound c srv k s h.facts up live)
    | inl same ↦ elim (Bool-cases (is s.state starting)) [
      | inl e ↦
          simp (same, e)
            (transition-Sound c srv searching (record s { backoff_ms = c.timeouts.restart_ms })
              h.facts (at_state s starting h e).lock
              (helper-Up s h (state-helper s.state starting e)))
      | inr e ↦ simp (same, e) h
    ]
  ]

  retry-Sound :
      (now : ℕ) (s : Supervisor srv.World)
      → Sound s
      → Sound (
          if leb (s.last_acquire_attempt_ms + c.timeouts.acquire_retry_ms) now
          then attempt_acquire c srv s
          else s)
  retry-Sound now s h =
      elim (Bool-cases (leb (s.last_acquire_attempt_ms + c.timeouts.acquire_retry_ms) now)) [
        | inl e ↦ simp e (attempt_acquire-Sound c srv s h)
        | inr e ↦ simp e h
      ]

  handle_stats-Sound :
      (input_bytes authenticated : ℕ) (s : Supervisor srv.World)
      → Sound s
      → Sound (handle_stats c srv input_bytes authenticated s)
  unfolding handle_stats
  handle_stats-Sound input_bytes authenticated s h =
      let seen = record s {
        world = srv.on_stats c.port input_bytes authenticated s.world;
        last_heartbeat_authenticated = max s.last_heartbeat_authenticated authenticated;
      } in
      if-Sound (is s.state producing) _ _
        (λ e. if-Sound (ltb 0 authenticated) _ _ (λ e. refresh_lease-Sound c srv seen h) (λ e. h))
        (λ e.
          if-Sound (is s.state acquiring && ltb 0 authenticated) _ _
            (λ e.
              let (now, w) = srv.now seen.world in retry-Sound now (record seen { world = w }) h)
            (λ e. h))

  handle_first_auth-Sound :
      (roc : ℕ) (trials : Option ℕ) (s : Supervisor srv.World)
      → Sound s
      → Sound (handle_first_auth c srv roc trials s)
  unfolding handle_first_auth
  handle_first_auth-Sound roc trials s h =
      let seen = record s { world = srv.on_authenticated c.port roc trials s.world } in
      elim (Bool-cases (is s.state searching || is s.state acquiring)) [
        | inl e ↦ simp e (attempt_acquire-Sound c srv seen h)
        | inr e ↦ simp e h
      ]

  carry-Sound :
      (position : Option ℕ) (s : Supervisor srv.World) → Sound s → Sound (carry c srv position s)
  unfolding carry
  carry-Sound none s h = h
  carry-Sound (some position) s h = h

  -- The report of the current session ends its writing, in every state.
  reported-Sound :
      (k : ℕ) (s : Supervisor srv.World)
      → Sound s
      → s.helper ≡ some k
      → Sound (record s { log = reported k ∷ s.log }) × Quiet (reported k ∷ s.log)
  reported-Sound k s h up =
      let quiet =
        others-Quiet s.lock_held k s.log
          (subst (λ helper. Facts s.lock_held helper s.log) up h.facts) in
      (
        record {
          facts = Quiet-Facts s.lock_held s.helper (reported k ∷ s.log) quiet h.facts.safe;
          lock = h.lock;
          up = h.up;
        },
        quiet,
      )

  dispatch-Sound :
      (m : SrtpHelperMessage) (k : ℕ) (s : Supervisor srv.World)
      → Sound s
      → s.helper ≡ some k
      → is s.state terminated ≡ false
      → Sound (dispatch c srv m k s)
  unfolding dispatch raise_floor
  dispatch-Sound (ready v port pid) k s h up live = handle_ready-Sound v k s h up live
  dispatch-Sound (auth_ok true roc seq candidate trials authenticated) k s h up live =
      handle_first_auth-Sound roc trials s h
  dispatch-Sound (auth_fail candidate inputs drops search_from) k s h up live =
      carry-Sound search_from s h
  dispatch-Sound (auth_lost since_ms drops) k s h up live =
      let (sound, quiet) = reported-Sound k s h up in
      not_producing-Sound (record s { log = reported k ∷ s.log }) sound quiet
  dispatch-Sound (stopped i) k s h up live =
      let (sound, quiet) = reported-Sound k s h up in
      handle_stopped-Sound i k (record s { log = reported k ∷ s.log }) sound quiet
  dispatch-Sound (stats inputs input_bytes authenticated aus roc drops) k s h up live =
      handle_stats-Sound input_bytes authenticated s h
  dispatch-Sound _ k s h up live = h

  handle_late-Sound :
      (m : SrtpHelperMessage) (k : ℕ) (s : Supervisor srv.World)
      → Sound s
      → Sound (handle_late c srv m k s)
  unfolding handle_late raise_floor
  handle_late-Sound (auth_fail candidate inputs drops search_from) k s h =
      carry-Sound search_from s h
  handle_late-Sound (index i) k s h = h
  handle_late-Sound _ k s h = h

  pub handle_frame-Sound :
      (m : SrtpHelperMessage) (k : ℕ) (s : Supervisor srv.World)
      → Sound s
      → Sound (handle_frame c srv m k s)
  unfolding handle_frame
  handle_frame-Sound m k s h = elim (Bool-cases (is s.state terminated || is s.state idle)) [
    | inl e ↦ simp e h
    | inr e ↦ elim (Bool-cases (is_current k s.helper)) [
      | inr late ↦ simp (e, late) (handle_late-Sound m k s h)
      | inl current ↦
          let (now, w) = srv.now s.world in
          simp (e, current)
            (dispatch-Sound m k (record s { last_frame_at_ms = now; world = w }) h
              (is_current-eq k s.helper current)
              (or-false (is s.state terminated) (is s.state idle) e))
    ]
  ]
