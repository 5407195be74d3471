-- ===== src/Supervisor/Owning.antt =====
-- What holds of a supervisor's lock and world, if every call that it makes keeps it.
pub mod Session
pub mod Acquire
pub mod Frames
pub mod Steps
use video_thingy_rocks.Common.{
  ℕ, suc, PortMap, map_set, ◌+◌, ◌≡◌, refl, Bool, true, false, not, ◌||◌, String, Option, none,
  some, List, [], ◌∷◌, arith, if◌then◌else◌, Bool-cases, inl, inr,
}
use video_thingy_rocks.StreamMetadata.{OwnedWriteResult, held, lost_lock, write_error}
use video_thingy_rocks.HelperProtocol.{SrtpHelperInit, SrtpHelperCommand}
use video_thingy_rocks.Supervisor.{
  SrtpSupervisorState, SrtpPortSupervisorConfig, Services, Supervisor, searching, stopping,
  producing, starting, disabled, cooldown, terminated,
}
use video_thingy_rocks.Supervisor.Operations.{
  is, transition, write_command, write_to, release_lock, raise_floor, enter_cooldown, end_helper,
  without_helper, end_session,
}

-- `lock_held` after an answer of the lock service.
abbrev pub grants : Option Bool → Bool → Bool
grants (some true) b = true
grants (some false) b = b
grants none b = b

pub record Guards (c : SrtpPortSupervisorConfig) (srv : Services) (Own : Bool → srv.World → Type 0)
    : Type 1 where
  -- What holds of the number of sessions and of their epochs.
  pub Book : ℕ → PortMap (Option ℕ) → Type 0
  pub recorded :
      (n : ℕ) (m : PortMap (Option ℕ)) (e : Option ℕ) → Book n m → Book (suc n) (map_set m n e)
  pub weaken : (w : srv.World) → Own true w → Own false w
  pub now : (b : Bool) (w : srv.World) → Own b w → Own b (srv.now w).1
  pub epoch : (b : Bool) (w : srv.World) → Own b w → Own b (srv.get_srtp_floor_epoch c.port w).1
  pub floor :
      (b : Bool) (w : srv.World)
      → Own b w
      → Own b (srv.get_srtp_index_floor c.port c.port_key.ssrc c.port_key.key_fingerprint w).1
  pub raise :
      (b : Bool) (i : ℕ) (e : Option ℕ) (w : srv.World)
      → Own b w
      → Own b
          (srv.raise_srtp_index_floor c.port i c.port_key.ssrc c.port_key.key_fingerprint
            c.port_key.generation e w).1
  pub acquire :
      (b : Bool) (w : srv.World)
      → Own b w
      → let (answer, w') = srv.try_acquire_kinesis_lock c.port c.instance_id w in
        Own (grants answer b) w'
  pub release :
      (w : srv.World) → Own true w → Own false (srv.release_kinesis_lock c.port c.instance_id w).1
  pub refresh :
      (b : Bool) (w : srv.World)
      → Own b w
      → Own b (srv.update_last_packet_time c.port c.instance_id w).1
  pub spawn :
      (b : Bool) (f : SrtpHelperInit) (w : srv.World) → Own b w → Own b (srv.spawn_helper f w).1
  pub write :
      (b : Bool) (k : ℕ) (m : SrtpHelperCommand) (w : srv.World)
      → Own b w
      → Own b (srv.stdin_write k m w).1
  pub end_child : (b : Bool) (k : ℕ) (w : srv.World) → Own b w → Own b (srv.end_child_process k w)
  pub race : (b : Bool) (k ms : ℕ) (w : srv.World) → Own b w → Own b (srv.race_stop_ack k ms w).1
  pub authenticated :
      (b : Bool) (port roc : ℕ) (trials : Option ℕ) (w : srv.World)
      → Own b w
      → Own b (srv.on_authenticated port roc trials w)
  pub stats :
      (b : Bool) (port bytes n : ℕ) (w : srv.World) → Own b w → Own b (srv.on_stats port bytes n w)
  pub moves :
      (b : Bool) (from to : SrtpSupervisorState) (w : srv.World)
      → Own b w
      → Own b (srv.on_transition from to w)

module _ (c : SrtpPortSupervisorConfig) (srv : Services) (Own : Bool → srv.World → Type 0)
    (laws : Guards c srv Own) where
  pub record Good (s : Supervisor srv.World) : Type 0 where
    pub own : Own s.lock_held s.world
    pub book : laws.Book s.sessions s.session_epochs

  pub transition-Good :
      (to : SrtpSupervisorState) (s : Supervisor srv.World) → Good s → Good (transition c srv to s)
  unfolding transition
  transition-Good to s g =
      ground (arith, g.book, g.own, laws.moves s.lock_held s.state to s.world g.own)

  write_to-Good :
      (o : Option ℕ) (m : SrtpHelperCommand) (s : Supervisor srv.World)
      → Good s
      → Good (write_to c srv o m s)
  write_to-Good none m s g = g
  write_to-Good (some k) m s g = record {
    own = laws.write s.lock_held k m s.world g.own;
    book = g.book;
  }

  pub write_command-Good :
      (m : SrtpHelperCommand) (s : Supervisor srv.World) → Good s → Good (write_command c srv m s)
  unfolding write_command
  write_command-Good m s g =
      let k = write_to-Good s.helper m s g in record { own = k.own; book = k.book }

  pub release_lock-Good : (s : Supervisor srv.World) → Good s → Good (release_lock c srv s)
  unfolding release_lock
  release_lock-Good s g = elim (Bool-cases s.lock_held) [
    | inl yes_held ↦
        simp yes_held (record { own = laws.release s.world (rw yes_held at g.own); book = g.book })
    | inr free ↦ simp free g
  ]

  pub raise_floor-Good :
      (i k : ℕ) (s : Supervisor srv.World) → Good s → Good (raise_floor c srv i k s).1
  unfolding raise_floor
  raise_floor-Good i k s g = record {
    own = laws.raise s.lock_held i _ s.world g.own;
    book = g.book;
  }

  pub now-Good :
      (s : Supervisor srv.World) → Good s → Good (record s { world = (srv.now s.world).1 })
  now-Good s g = record { own = laws.now s.lock_held s.world g.own; book = g.book }

  pub enter_cooldown-Good : (s : Supervisor srv.World) → Good s → Good (enter_cooldown c srv s)
  unfolding enter_cooldown
  enter_cooldown-Good s g =
      transition-Good cooldown _
        (record { own = laws.now s.lock_held s.world g.own; book = g.book })

  pub end_helper-Good : (k : ℕ) (s : Supervisor srv.World) → Good s → Good (end_helper c srv k s)
  unfolding end_helper
  end_helper-Good k s g = record { own = laws.end_child s.lock_held k s.world g.own; book = g.book }

  without_helper-Good :
      (o : Option ℕ) (s : Supervisor srv.World) → Good s → Good (without_helper c srv o s)
  without_helper-Good none s g = g
  without_helper-Good (some k) s g = release_lock-Good _ (end_helper-Good k s g)

  pub if-Good :
      (b : Bool) (x y : Supervisor srv.World) → Good x → Good y → Good (if b then x else y)
  if-Good true x y g h = g
  if-Good false x y g h = h

  pub end_session-Good : (s : Supervisor srv.World) → Good s → Good (end_session c srv s)
  unfolding end_session
  end_session-Good s g =
      let after = without_helper c srv s.helper s in
      let k = without_helper-Good s.helper s g in
      if-Good (is after.state terminated) after (enter_cooldown c srv after) k
        (enter_cooldown-Good after k)
