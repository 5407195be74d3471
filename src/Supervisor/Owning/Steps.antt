-- ===== src/Supervisor/Owning/Steps.antt =====
-- A run of queue steps keeps what holds of the lock.
use video_thingy_rocks.Common.{
  ℕ, ◌+◌, refl, Bool, ◌||◌, Option, none, some, List, [], ◌∷◌, if◌then◌else◌, leb, ltb,
}
use video_thingy_rocks.HelperProtocol.{stop, srtp_helper_protocol_version}
use video_thingy_rocks.Supervisor.{
  SrtpSupervisorState, idle, starting, searching, acquiring, producing, stopping, cooldown,
  disabled, terminated, SrtpPortSupervisorConfig, Services, ended, Supervisor,
}
use video_thingy_rocks.Supervisor.Operations.{
  is, write_command, release_lock, end_session, end_helper,
}
use video_thingy_rocks.Supervisor.Session.{spawn_session, handle_floor_reset}
use video_thingy_rocks.Supervisor.Steps.{
  Step, begin, frame, exit, error, tick, check_floor_reset, end, observe_absence, handle_tick,
  await_stop_ack, raise_acked, finish, stop_helper, stop_any, shutdown, step, run,
}
use video_thingy_rocks.Supervisor.Owning.{
  Guards, Good, transition-Good, write_command-Good, release_lock-Good, raise_floor-Good,
  end_helper-Good, end_session-Good, if-Good,
}
use video_thingy_rocks.Supervisor.Owning.Session.{
  same-Good, spawn_session-Good, handle_floor_reset-Good, handle_exit-Good, handle_error-Good,
}
use video_thingy_rocks.Supervisor.Owning.Frames.{handle_frame-Good}

module _ (c : SrtpPortSupervisorConfig) (srv : Services) (Own : Bool → srv.World → Type 0)
    (laws : Guards c srv Own) where
  abbrev Kept : Supervisor srv.World → Type 0
  Kept = Good c srv Own laws

  ends_if :
      (b : Bool) (s : Supervisor srv.World) → Kept s → Kept (if b then end_session c srv s else s)
  ends_if b s g =
      if-Good c srv Own laws b (end_session c srv s) s (end_session-Good c srv Own laws s g) g

  observe_absence-Good :
      (state : SrtpSupervisorState) (now : ℕ) (s : Supervisor srv.World)
      → Kept s
      → Kept (observe_absence c srv state now s)
  unfolding observe_absence
  observe_absence-Good starting now s g =
      ends_if (ltb (s.started_at_ms + c.timeouts.ready_ms) now) s g
  observe_absence-Good cooldown now s g =
      if-Good c srv Own laws (leb s.retry_at_ms now) (spawn_session c srv s) s
        (spawn_session-Good c srv Own laws s g) g
  observe_absence-Good stopping now s g =
      ends_if (ltb (s.stopped_sent_at_ms + c.timeouts.stopped_ack_ms) now) s g
  observe_absence-Good producing now s g =
      ends_if (ltb (s.last_frame_at_ms + c.timeouts.frame_stall_ms) now) s g
  observe_absence-Good searching now s g =
      ends_if (ltb (s.last_frame_at_ms + c.timeouts.frame_stall_ms) now) s g
  observe_absence-Good acquiring now s g =
      ends_if (ltb (s.last_frame_at_ms + c.timeouts.frame_stall_ms) now) s g
  observe_absence-Good idle now s g = g
  observe_absence-Good disabled now s g = g
  observe_absence-Good terminated now s g = g

  handle_tick-Good : (s : Supervisor srv.World) → Kept s → Kept (handle_tick c srv s)
  unfolding handle_tick
  handle_tick-Good s g =
      let (replaced, checked) = handle_floor_reset c srv s in
      let k : Kept checked = handle_floor_reset-Good c srv Own laws s g in
      let (now, w) = srv.now checked.world in
      let timed = record checked { world = w } in
      let h : Kept timed = record {
        own = laws.now checked.lock_held checked.world k.own;
        book = k.book;
      } in
      let observed = observe_absence c srv checked.state now timed in
      if-Good c srv Own laws (is s.state terminated || (is s.state idle || is s.state disabled)) s
        (if replaced then checked else observed) g
        (if-Good c srv Own laws replaced checked observed k
          (observe_absence-Good checked.state now timed h))

  await_stop_ack-Good :
      (k : ℕ) (s : Supervisor srv.World) → Kept s → Kept (await_stop_ack c srv k s).1
  unfolding await_stop_ack
  await_stop_ack-Good k s g =
      let told = write_command c srv (stop srtp_helper_protocol_version) s in
      let h = write_command-Good c srv Own laws (stop srtp_helper_protocol_version) s g in
      record {
        own = laws.race told.lock_held k c.timeouts.stopped_ack_ms told.world h.own;
        book = h.book;
      }

  raise_acked-Good :
      (o : Option (Option ℕ)) (k : ℕ) (s : Supervisor srv.World)
      → Kept s
      → Kept (raise_acked c srv o k s).1
  unfolding raise_acked
  raise_acked-Good (some (some i)) k s g =
      let h = raise_floor-Good c srv Own laws i k s g in record { own = h.own; book = h.book }
  raise_acked-Good (some none) k s g = g
  raise_acked-Good none k s g = g

  finish-Good : (s : Supervisor srv.World) → Kept s → Kept (finish c srv s)
  unfolding finish
  finish-Good s g =
      transition-Good c srv Own laws terminated (release_lock c srv s)
        (release_lock-Good c srv Own laws s g)

  stop_helper-Good : (k : ℕ) (s : Supervisor srv.World) → Kept s → Kept (stop_helper c srv k s)
  unfolding stop_helper
  stop_helper-Good k s g =
      let (acked, told) = await_stop_ack c srv k s in
      let t : Kept told = await_stop_ack-Good k s g in
      let (resolved, raised) = raise_acked c srv acked k told in
      let r : Kept raised = raise_acked-Good acked k told t in
      let over = finish c srv (end_helper c srv k raised) in
      let at_once = finish c srv (end_helper c srv k s) in
      if-Good c srv Own laws (is s.state producing || is s.state stopping)
        (if resolved then over else raised) at_once
        (if-Good c srv Own laws resolved over raised
          (finish-Good (end_helper c srv k raised) (end_helper-Good c srv Own laws k raised r)) r)
        (finish-Good (end_helper c srv k s) (end_helper-Good c srv Own laws k s g))

  stop_any-Good : (o : Option ℕ) (s : Supervisor srv.World) → Kept s → Kept (stop_any c srv o s)
  unfolding stop_any
  stop_any-Good none s g = let h = finish-Good s g in record { own = h.own; book = h.book }
  stop_any-Good (some k) s g =
      let gone = record s { log = ended k ∷ s.log } in
      if-Good c srv Own laws (srv.exited k s.world) (finish c srv gone) (stop_helper c srv k s)
        (finish-Good gone (same-Good c srv Own laws s gone refl refl refl refl g))
        (stop_helper-Good k s g)

  shutdown-Good : (s : Supervisor srv.World) → Kept s → Kept (shutdown c srv s)
  unfolding shutdown
  shutdown-Good s g =
      if-Good c srv Own laws (is s.state terminated) s (stop_any c srv s.helper s) g
        (stop_any-Good s.helper s g)

  step-Good : (e : Step) (s : Supervisor srv.World) → Kept s → Kept (step c srv e s)
  unfolding step
  step-Good begin s g =
      if-Good c srv Own laws (is s.state idle) (spawn_session c srv s) s
        (spawn_session-Good c srv Own laws s g) g
  step-Good (frame m k) s g =
      let h = handle_frame-Good c srv Own laws m k s g in record { own = h.own; book = h.book }
  step-Good (exit k) s g =
      let h = handle_exit-Good c srv Own laws k s g in record { own = h.own; book = h.book }
  step-Good (error k) s g =
      let h = handle_error-Good c srv Own laws k s g in record { own = h.own; book = h.book }
  step-Good tick s g = let h = handle_tick-Good s g in record { own = h.own; book = h.book }
  step-Good check_floor_reset s g =
      let h = handle_floor_reset-Good c srv Own laws s g in record { own = h.own; book = h.book }
  step-Good end s g = let h = shutdown-Good s g in record { own = h.own; book = h.book }

  pub run-Good : (es : List Step) (s : Supervisor srv.World) → Kept s → Kept (run c srv es s)
  unfolding run
  run-Good [] s g = g
  run-Good (e ∷ es) s g = run-Good es (step c srv e s) (step-Good e s g)
