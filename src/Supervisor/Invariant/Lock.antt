-- ===== src/Supervisor/Invariant/Lock.antt =====
-- The invariant through the acquisition of the lock and the refresh of its lease.
use video_thingy_rocks.Common.{
  ℕ, ◌≡◌, refl, sym, ap, ◌∙◌, subst, inl, inr, Bool, true, false, not, ◌||◌, ◌&&◌, Option, none,
  some, List, ◌∷◌, arith, Bool-cases, is_none,
}
use video_thingy_rocks.StreamMetadata.{OwnedWriteResult, lost_lock}
use video_thingy_rocks.HelperProtocol.{start, stop, srtp_helper_protocol_version}
use video_thingy_rocks.Supervisor.{
  SrtpSupervisorState, searching, acquiring, producing, stopping, SrtpPortSupervisorConfig,
  Services, Effect, started, acquired, Supervisor,
}
use video_thingy_rocks.Supervisor.Operations.{is, transition, write_command, write_to}
use video_thingy_rocks.Supervisor.Frames.{granted, attempt_acquire, refreshed, refresh_lease}
use video_thingy_rocks.Supervisor.Invariant.{
  Facts, Up, Sound, Quiet, IsSafe, has_helper, holds_lock, locked, at_state, is_eq, unheld-Quiet,
  transition-Sound,
}
use video_thingy_rocks.Supervisor.Invariant.Session.{running-helper}

started-Facts :
    (k : ℕ) (log : List Effect)
    → Quiet log
    → IsSafe log
    → locked log ≡ true
    → Facts true (some k) (started k ∷ log)
started-Facts k log quiet safe l = record {
  writers = λ j h. (refl, ground (arith, h, quiet j));
  safe = (l, safe);
}

pub producing-helper :
    (state : SrtpSupervisorState)
    → (is state producing || is state stopping) ≡ true
    → (holds_lock state ≡ true) × (has_helper state ≡ true)
producing-helper state h = ground arith

pub helper-Up :
    {W : Type 0} (s : Supervisor W) → Sound s → has_helper s.state ≡ true → Up searching s.helper
helper-Up s h helped = let (k, up) = running-helper s h helped in subst (Up searching) (sym up) refl

pub state-helper :
    (state to : SrtpSupervisorState) → is state to ≡ true → has_helper state ≡ has_helper to
state-helper state to e = ap has_helper (is_eq state to e)

-- A command that reached the current session, and what holds when it was written.
record Told (state : SrtpSupervisorState) {W : Type 0} (s : Supervisor W) : Type 0 where
  facts : Facts s.lock_held s.helper s.log
  lock : s.lock_held ≡ true
  up : Up state s.helper

wants-lock :
    (state : SrtpSupervisorState)
    → (not (is state searching) && not (is state acquiring)) ≡ false
    → (holds_lock state ≡ false) × (has_helper state ≡ true)
wants-lock state h = ground arith

module _ (c : SrtpPortSupervisorConfig) (srv : Services) where
  transition-helper :
      (to : SrtpSupervisorState) (s : Supervisor srv.World)
      → (transition c srv to s).helper ≡ s.helper
  unfolding transition
  transition-helper to s = elim (Bool-cases (is s.state to)) [
    | inl e ↦ simp e refl
    | inr e ↦ simp e refl
  ]

  transition-held :
      (to : SrtpSupervisorState) (s : Supervisor srv.World)
      → (transition c srv to s).lock_held ≡ s.lock_held
  unfolding transition
  transition-held to s = elim (Bool-cases (is s.state to)) [
    | inl e ↦ simp e refl
    | inr e ↦ simp e refl
  ]

  start-Told :
      (v k : ℕ) (s : Supervisor srv.World)
      → s.helper ≡ some k
      → s.lock_held ≡ true
      → Quiet s.log
      → IsSafe s.log
      → locked s.log ≡ true
      → Told producing (write_command c srv (start v) s)
  unfolding write_command
  start-Told v k s up owns quiet safe l =
      subst (λ helper. Told producing (write_to c srv helper (start v) s)) (sym up)
        (record {
          facts =
              subst (λ (b : Bool). Facts b s.helper (started k ∷ s.log)) (sym owns)
                (subst (λ helper. Facts true helper (started k ∷ s.log)) (sym up)
                  (started-Facts k s.log quiet safe l));
          lock = owns;
          up = ap is_none up;
        })

  stop-Told :
      (v k : ℕ) (s : Supervisor srv.World)
      → s.helper ≡ some k
      → s.lock_held ≡ true
      → Facts s.lock_held s.helper s.log
      → Told stopping (write_command c srv (stop v) s)
  unfolding write_command
  stop-Told v k s up owns f =
      subst (λ helper. Told stopping (write_to c srv helper (stop v) s)) (sym up)
        (record { facts = f; lock = owns; up = ap is_none up })

  -- The lock was not held, so nobody writes; from here on the current session may.
  granted-Sound :
      (answer : Option Bool) (k : ℕ) (s : Supervisor srv.World)
      → Sound s
      → s.helper ≡ some k
      → s.lock_held ≡ false
      → Sound (granted c srv answer s)
  unfolding granted
  granted-Sound none k s h up unheld = h
  granted-Sound (some false) k s h up unheld = h
  granted-Sound (some true) k s h up unheld =
      let holding = record s {
        lock_held = true;
        release_after_stop = true;
        last_heartbeat_authenticated = 0;
        log = acquired ∷ s.log;
      } in
      let quiet =
        unheld-Quiet s.helper s.log (subst (λ (b : Bool). Facts b s.helper s.log) unheld h.facts) in
      let t = start-Told srtp_helper_protocol_version k holding up refl quiet h.facts.safe refl in
      transition-Sound c srv producing
        (write_command c srv (start srtp_helper_protocol_version) holding) t.facts t.lock t.up

  pub attempt_acquire-Sound : (s : Supervisor srv.World) → Sound s → Sound (attempt_acquire c srv s)
  unfolding attempt_acquire
  attempt_acquire-Sound s h =
      elim (Bool-cases (not (is s.state searching) && not (is s.state acquiring))) [
        | inl e ↦ simp e h
        | inr e ↦
            let (unheld, helped) = wants-lock s.state e in
            let (k, up) = running-helper s h helped in
            let (now, w) = srv.now s.world in
            let asking = record s { last_acquire_attempt_ms = now; world = w } in
            let wanting = transition c srv acquiring asking in
            let sound =
              transition-Sound c srv acquiring asking h.facts (h.lock ∙ unheld)
                (subst (Up acquiring) (sym up) refl) in
            let (answer, w') = srv.try_acquire_kinesis_lock c.port c.instance_id wanting.world in
            simp e (
              granted-Sound answer k (record wanting { world = w' }) sound
                (transition-helper acquiring asking ∙ up)
                (transition-held acquiring asking ∙ h.lock ∙ unheld))
      ]

  refreshed-Sound :
      (answer : Option OwnedWriteResult) (k : ℕ) (s : Supervisor srv.World)
      → Sound s
      → s.helper ≡ some k
      → s.lock_held ≡ true
      → Sound (refreshed c srv answer s)
  unfolding refreshed
  refreshed-Sound (some lost_lock) k s h up owns =
      let told =
        write_command c srv (stop srtp_helper_protocol_version)
          (record s { release_after_stop = false }) in
      let t =
        stop-Told srtp_helper_protocol_version k (record s { release_after_stop = false }) up owns
          h.facts in
      let (now, w) = srv.now told.world in
      transition-Sound c srv stopping (record told { stopped_sent_at_ms = now; world = w }) t.facts
        t.lock t.up
  refreshed-Sound (some _) k s h up owns = h
  refreshed-Sound none k s h up owns = h

  pub refresh_lease-Sound : (s : Supervisor srv.World) → Sound s → Sound (refresh_lease c srv s)
  unfolding refresh_lease
  refresh_lease-Sound s h = elim (Bool-cases (is s.state producing)) [
    | inr e ↦ simp e h
    | inl e ↦
        let (k, up) = running-helper s h (state-helper s.state producing e) in
        let (answer, w) = srv.update_last_packet_time c.port c.instance_id s.world in
        simp e
          (refreshed-Sound answer k (record s { world = w }) h up (at_state s producing h e).lock)
  ]
