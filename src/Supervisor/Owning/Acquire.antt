-- ===== src/Supervisor/Owning/Acquire.antt =====
-- Taking the lock, losing it and giving it back keep what holds of the lock.
use video_thingy_rocks.Common.{
  ℕ, refl, Bool, true, false, not, ◌&&◌, ◌||◌, Option, none, some, ◌∷◌, if◌then◌else◌, Bool-cases,
  inl, inr,
}
use video_thingy_rocks.StreamMetadata.{OwnedWriteResult, held, lost_lock, write_error}
use video_thingy_rocks.HelperProtocol.{start, stop, srtp_helper_protocol_version}
use video_thingy_rocks.Supervisor.{
  SrtpPortSupervisorConfig, Services, Supervisor, idle, starting, acquiring, producing, stopping,
  terminated, acquired, reported,
}
use video_thingy_rocks.Supervisor
use video_thingy_rocks.Supervisor.Operations.{
  is, transition, write_command, release_lock, raise_floor,
}
use video_thingy_rocks.Supervisor.Frames.{
  granted, attempt_acquire, not_producing, refreshed, refresh_lease, helper_stopped, handle_stopped,
}
use video_thingy_rocks.Supervisor.Owning.{
  Guards, grants, Good, transition-Good, write_command-Good, release_lock-Good, raise_floor-Good,
  if-Good,
}
use video_thingy_rocks.Supervisor.Owning.Session.{same-Good}

module _ (c : SrtpPortSupervisorConfig) (srv : Services) (Own : Bool → srv.World → Type 0)
    (laws : Guards c srv Own) where
  abbrev pub Kept : Supervisor srv.World → Type 0
  Kept = Good c srv Own laws

  granted-Good :
      (answer : Option Bool) (s : Supervisor srv.World)
      → Own (grants answer s.lock_held) s.world
      → laws.Book s.sessions s.session_epochs
      → Kept (granted c srv answer s)
  unfolding granted
  granted-Good (some true) s o b =
      let taken = record s {
        lock_held = true;
        release_after_stop = true;
        last_heartbeat_authenticated = 0;
        log = acquired ∷ s.log;
      } in
      let told = write_command c srv (start srtp_helper_protocol_version) taken in
      transition-Good c srv Own laws producing told (
        write_command-Good c srv Own laws (start srtp_helper_protocol_version) taken
          (record { own = o; book = b }))
  granted-Good (some false) s o b = record { own = o; book = b }
  granted-Good none s o b = record { own = o; book = b }

  pub attempt_acquire-Good : (s : Supervisor srv.World) → Kept s → Kept (attempt_acquire c srv s)
  unfolding attempt_acquire
  attempt_acquire-Good s g =
      let (now, w) = srv.now s.world in
      let asked = record s { last_acquire_attempt_ms = now; world = w } in
      let wanting = transition c srv acquiring asked in
      let k =
        transition-Good c srv Own laws acquiring asked
          (record { own = laws.now s.lock_held s.world g.own; book = g.book }) in
      let (answer, w') = srv.try_acquire_kinesis_lock c.port c.instance_id wanting.world in
      let answered = record wanting { world = w' } in
      if-Good c srv Own laws (not (is s.state Supervisor.searching) && not (is s.state acquiring)) s
        (granted c srv answer answered) g
        (granted-Good answer answered (laws.acquire wanting.lock_held wanting.world k.own) k.book)

  pub not_producing-Good : (s : Supervisor srv.World) → Kept s → Kept (not_producing c srv s)
  unfolding not_producing
  not_producing-Good s g =
      let free = release_lock c srv s in
      let f = release_lock-Good c srv Own laws s g in
      let gone = transition c srv Supervisor.searching s in
      if-Good c srv Own laws (is s.state producing || is s.state stopping)
        (transition c srv Supervisor.searching free) (if is s.state acquiring then gone else s)
        (transition-Good c srv Own laws Supervisor.searching free f)
        (if-Good c srv Own laws (is s.state acquiring) gone s
          (transition-Good c srv Own laws Supervisor.searching s g) g)

  refreshed-Good :
      (answer : Option OwnedWriteResult) (s : Supervisor srv.World)
      → Kept s
      → Kept (refreshed c srv answer s)
  unfolding refreshed
  refreshed-Good (some lost_lock) s g =
      let left = record s { release_after_stop = false } in
      let told = write_command c srv (stop srtp_helper_protocol_version) left in
      let k =
        write_command-Good c srv Own laws (stop srtp_helper_protocol_version) left
          (same-Good c srv Own laws s left refl refl refl refl g) in
      let (now, w) = srv.now told.world in
      transition-Good c srv Own laws stopping (record told { stopped_sent_at_ms = now; world = w })
        (record { own = laws.now told.lock_held told.world k.own; book = k.book })
  refreshed-Good (some held) s g = g
  refreshed-Good (some write_error) s g = g
  refreshed-Good none s g = g

  pub refresh_lease-Good : (s : Supervisor srv.World) → Kept s → Kept (refresh_lease c srv s)
  unfolding refresh_lease
  refresh_lease-Good s g =
      let (answer, w) = srv.update_last_packet_time c.port c.instance_id s.world in
      let answered = record s { world = w } in
      if-Good c srv Own laws (not (is s.state producing)) s (refreshed c srv answer answered) g (
        refreshed-Good answer answered
          (record { own = laws.refresh s.lock_held s.world g.own; book = g.book }))

  -- The lock that was lost is given up, or given back.
  dropped-Good : (s : Supervisor srv.World) → Kept s → Kept (record s { lock_held = false })
  dropped-Good s g = elim (Bool-cases s.lock_held) [
    | inl yes_held ↦ record { own = laws.weaken s.world (rw yes_held at g.own); book = g.book }
    | inr free ↦ record { own = rw free at g.own; book = g.book }
  ]

  helper_stopped-Good : (s : Supervisor srv.World) → Kept s → Kept (helper_stopped c srv s)
  unfolding helper_stopped
  helper_stopped-Good s g =
      let free = release_lock c srv s in
      let f = release_lock-Good c srv Own laws s g in
      let dropped = record s { lock_held = false } in
      let after_stop = if s.release_after_stop then free else dropped in
      let k : Kept after_stop =
        if-Good c srv Own laws s.release_after_stop free dropped f (dropped-Good s g) in
      let back = transition c srv Supervisor.searching free in
      if-Good c srv Own laws (is s.state stopping)
        (transition c srv Supervisor.searching after_stop)
        (if is s.state producing then back else s)
        (transition-Good c srv Own laws Supervisor.searching after_stop k)
        (if-Good c srv Own laws (is s.state producing) back s
          (transition-Good c srv Own laws Supervisor.searching free f) g)

  pub handle_stopped-Good :
      (o : Option ℕ) (k : ℕ) (s : Supervisor srv.World) → Kept s → Kept (handle_stopped c srv o k s)
  unfolding handle_stopped
  handle_stopped-Good none k s g = helper_stopped-Good s g
  handle_stopped-Good (some i) k s g =
      let (resolved, raised) = raise_floor c srv i k s in
      let r = raise_floor-Good c srv Own laws i k s g in
      if-Good c srv Own laws resolved (helper_stopped c srv raised) raised
        (helper_stopped-Good raised r) r
