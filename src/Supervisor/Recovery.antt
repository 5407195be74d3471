-- ===== src/Supervisor/Recovery.antt =====
-- What the tick does about a silent helper, and what a shutdown leaves behind.
use video_thingy_rocks.Common.{
  ℕ, ◌+◌, ◌*◌, min, ◌<◌, ◌≡◌, refl, ap, ◌∙◌, subst, inl, inr, Bool, true, false, ◌||◌, Option, none,
  some, ◌∷◌, ltb, lt→ltb, Bool-cases, if◌then◌else◌,
}
use video_thingy_rocks.Supervisor.{
  SrtpSupervisorState, starting, searching, acquiring, producing, stopping, cooldown, terminated,
  SrtpPortSupervisorConfig, Services, ended, Supervisor,
}
use video_thingy_rocks.Supervisor.Operations.{
  is, transition, release_lock, enter_cooldown, end_helper, end_session, raise_floor,
}
use video_thingy_rocks.Supervisor.Steps.{
  observe_absence, await_stop_ack, raise_acked, finish, stop_helper, stop_any, shutdown,
}
use video_thingy_rocks.Supervisor.Invariant.{
  Sound, Facts, Quiet, is_eq, has_helper, holds_lock, unheld-Quiet,
}
use video_thingy_rocks.Supervisor.Invariant.Session.{cooldown-Down, running-helper}
use video_thingy_rocks.Supervisor.Invariant.Steps.{
  observe_absence-Sound, shutdown-Sound, helped-live,
}

module _ (c : SrtpPortSupervisorConfig) (srv : Services) where
  transition-state :
      (to : SrtpSupervisorState) (s : Supervisor srv.World) → (transition c srv to s).state ≡ to
  unfolding transition
  transition-state to s = elim (Bool-cases (is s.state to)) [
    | inl e ↦ simp e (is_eq s.state to e)
    | inr e ↦ simp e refl
  ]

  release_lock-state : (s : Supervisor srv.World) → (release_lock c srv s).state ≡ s.state
  unfolding release_lock
  release_lock-state s = elim (Bool-cases s.lock_held) [ inl e ↦ simp e refl | inr e ↦ simp e refl ]

  enter_cooldown-state : (s : Supervisor srv.World) → (enter_cooldown c srv s).state ≡ cooldown
  unfolding enter_cooldown
  enter_cooldown-state s = transition-state cooldown (record s {
    retry_at_ms = (srv.now s.world).0 + s.backoff_ms;
    backoff_ms = min (s.backoff_ms * 2) c.timeouts.restart_max_ms;
    world = (srv.now s.world).1;
  })

  end_session-state :
      (k : ℕ) (s : Supervisor srv.World)
      → s.helper ≡ some k
      → is s.state terminated ≡ false
      → (end_session c srv s).state ≡ cooldown
  unfolding end_session end_helper
  end_session-state k s up live =
      simp
        (
          up,
          ap (λ (state : SrtpSupervisorState). is state terminated)
              (release_lock-state (end_helper c srv k s)),
          live,
        )
        (enter_cooldown-state (release_lock c srv (end_helper c srv k s)))

  -- When the tick ends a session in a state: from when on it has been silent, and for how long.
  abbrev pub silent_since : SrtpSupervisorState → Supervisor srv.World → ℕ
  silent_since starting s = s.started_at_ms
  silent_since stopping s = s.stopped_sent_at_ms
  silent_since _ s = s.last_frame_at_ms

  abbrev pub patience_ms : SrtpSupervisorState → ℕ
  patience_ms starting = c.timeouts.ready_ms
  patience_ms stopping = c.timeouts.stopped_ack_ms
  patience_ms _ = c.timeouts.frame_stall_ms

  observe_absence-ends :
      (state : SrtpSupervisorState) (now : ℕ) (s : Supervisor srv.World)
      → has_helper state ≡ true
      → ltb (silent_since state s + patience_ms state) now ≡ true
      → observe_absence c srv state now s ≡ end_session c srv s
  unfolding observe_absence
  observe_absence-ends starting now s helped late = simp late refl
  observe_absence-ends searching now s helped late = simp late refl
  observe_absence-ends acquiring now s helped late = simp late refl
  observe_absence-ends producing now s helped late = simp late refl
  observe_absence-ends stopping now s helped late = simp late refl
  observe_absence-ends _ now s helped late = cc

  cooldown-Gone :
      (s : Supervisor srv.World)
      → Sound s
      → s.state ≡ cooldown
      → (s.state ≡ cooldown) × (s.lock_held ≡ false) × (s.helper ≡ none)
  cooldown-Gone s h e =
      let (unheld, gone) = cooldown-Down s h (ap (λ (x : SrtpSupervisorState). is x cooldown) e) in
      (e, unheld, gone)

  -- In every state that has a helper: if it has been silent for longer than that state's patience,
  -- the tick's check of absence ends in `cooldown`, with neither the lock nor a helper.
  pub observe_absence-Gone :
      (s : Supervisor srv.World) (now : ℕ)
      → Sound s
      → has_helper s.state ≡ true
      → silent_since s.state s + patience_ms s.state < now
      → ((observe_absence c srv s.state now s).state ≡ cooldown)
        × ((observe_absence c srv s.state now s).lock_held ≡ false)
        × ((observe_absence c srv s.state now s).helper ≡ none)
  observe_absence-Gone s now h helped late =
      let (k, up) = running-helper s h helped in
      let ends =
        observe_absence-ends s.state now s helped
          (lt→ltb (silent_since s.state s + patience_ms s.state) now late) in
      cooldown-Gone (observe_absence c srv s.state now s)
        (observe_absence-Sound c srv s.state now s refl h)
        (ap (λ (t : Supervisor srv.World). t.state) ends
          ∙ end_session-state k s up (helped-live s.state helped))

  finish-state : (s : Supervisor srv.World) → (finish c srv s).state ≡ terminated
  unfolding finish
  finish-state s = transition-state terminated (release_lock c srv s)

  -- Every write of the floor resolves.
  abbrev pub Resolves : Type 0
  Resolves = (i k : ℕ) (s : Supervisor srv.World) → (raise_floor c srv i k s).0 ≡ true

  both-state :
      (b : Bool) (x y : Supervisor srv.World)
      → x.state ≡ terminated
      → y.state ≡ terminated
      → (if b then x else y).state ≡ terminated
  both-state true x y p q = p
  both-state false x y p q = q

  raise_acked-true :
      Resolves
      → (acked : Option (Option ℕ)) (k : ℕ) (s : Supervisor srv.World)
      → (raise_acked c srv acked k s).0 ≡ true
  unfolding raise_acked
  raise_acked-true resolves (some (some i)) k s = resolves i k s
  raise_acked-true resolves (some none) k s = refl
  raise_acked-true resolves none k s = refl

  stop_helper-state :
      Resolves → (k : ℕ) (s : Supervisor srv.World) → (stop_helper c srv k s).state ≡ terminated
  unfolding stop_helper
  stop_helper-state resolves k s =
      both-state (is s.state producing || is s.state stopping) _ _
        (let waited = await_stop_ack c srv k s in
          let raised = raise_acked c srv waited.0 k waited.1 in
          simp (raise_acked-true resolves waited.0 k waited.1)
            (finish-state (end_helper c srv k raised.1)))
        (finish-state (end_helper c srv k s))

  stop_any-state :
      Resolves
      → (helper : Option ℕ) (s : Supervisor srv.World)
      → (stop_any c srv helper s).state ≡ terminated
  unfolding stop_any
  stop_any-state resolves none s = finish-state s
  stop_any-state resolves (some k) s =
      both-state (srv.exited k s.world) _ _ (finish-state (record s { log = ended k ∷ s.log }))
        (stop_helper-state resolves k s)

  shutdown-state : Resolves → (s : Supervisor srv.World) → (shutdown c srv s).state ≡ terminated
  unfolding shutdown
  shutdown-state resolves s = elim (Bool-cases (is s.state terminated)) [
    | inl e ↦ simp e (is_eq s.state terminated e)
    | inr e ↦ simp e (stop_any-state resolves s.helper s)
  ]

  -- If writes of the floor resolve, a shutdown in any state the supervisor can be in ends in
  -- `terminated`, with the lock not held and no session left that may be writing.
  pub shutdown-Ends :
      (s : Supervisor srv.World)
      → Resolves
      → Sound s
      → ((shutdown c srv s).state ≡ terminated)
        × ((shutdown c srv s).lock_held ≡ false)
        × Quiet (shutdown c srv s).log
  shutdown-Ends s resolves h =
      let state = shutdown-state resolves s in
      let sound = shutdown-Sound c srv s h in
      let unheld = sound.lock ∙ ap holds_lock state in
      (
        state,
        unheld,
        unheld-Quiet (shutdown c srv s).helper (shutdown c srv s).log (
            subst (λ (b : Bool). Facts b (shutdown c srv s).helper (shutdown c srv s).log) unheld
              sound.facts),
      )
