-- ===== src/Supervisor/Late.antt =====
-- The floor is raised under the epoch that a session was started under, however late its frame.
use video_thingy_rocks.Common.{
  ℕ, suc, ◌<◌, ◌≡◌, refl, ap, ◌∙◌, inl, inr, Bool, false, ◌||◌, Option, none, some, List, PortMap,
  map_set, ◌==◌, if◌then◌else◌, arith, Bool-cases,
}
use video_thingy_rocks.HelperProtocol.{index}
use video_thingy_rocks.Supervisor.{idle, terminated, SrtpPortSupervisorConfig, Services, Supervisor}
use video_thingy_rocks.Supervisor.Operations.{is, raise_floor, epoch_of_session}
use video_thingy_rocks.Supervisor.Session.{is_current}
use video_thingy_rocks.Supervisor.Frames.{dispatch, handle_late, handle_frame}
use video_thingy_rocks.Supervisor.Steps.{Step, raise_acked, run}
use video_thingy_rocks.Supervisor.Start.{IsStarted}
use video_thingy_rocks.Supervisor.Owning.{Guards}
use video_thingy_rocks.Supervisor.Owning.Steps.{run-Good}

-- Session `k` was spawned, and `epoch` is what was recorded for it.
record Recorded (k : ℕ) (epoch : Option (Option ℕ)) (sessions : ℕ) (epochs : PortMap (Option ℕ))
    : Type 0 where
  spawned : k < sessions
  recorded : epochs k ≡ epoch

other_session : (k n : ℕ) → k < n → (k == n) ≡ false
other_session k n h = ground (arith, h)

Recorded-next :
    (k : ℕ) (epoch : Option (Option ℕ)) (n : ℕ) (m : PortMap (Option ℕ)) (e : Option ℕ)
    → Recorded k epoch n m
    → Recorded k epoch (suc n) (map_set m n e)
Recorded-next k epoch n m e r = record {
  spawned = omega (arith, r.spawned);
  recorded = rw (other_session k n r.spawned) r.recorded;
}

map_set-same : (n : ℕ) (m : PortMap (Option ℕ)) (e : Option ℕ) → map_set m n e n ≡ some e
map_set-same n m e = ground arith

module _ (c : SrtpPortSupervisorConfig) (srv : Services) where
  -- Nothing is asked of the lock and the world.
  abbrev Anything : Bool → srv.World → Type 0
  Anything b w = Unit

  abbrev session_guards : (k : ℕ) (epoch : Option (Option ℕ)) → Guards c srv Anything
  session_guards k epoch = record {
    Book = Recorded k epoch;
    recorded = Recorded-next k epoch;
    weaken = λ w o. tt;
    now = λ b w o. tt;
    epoch = λ b w o. tt;
    floor = λ b w o. tt;
    raise = λ b i e w o. tt;
    acquire = λ b w o. tt;
    release = λ w o. tt;
    refresh = λ b w o. tt;
    spawn = λ b f w o. tt;
    write = λ b k m w o. tt;
    end_child = λ b k w o. tt;
    race = λ b k ms w o. tt;
    authenticated = λ b port roc trials w o. tt;
    stats = λ b port bytes n w o. tt;
    moves = λ b from to w o. tt;
  }

  -- A session's epoch stays the one that was recorded for it.
  run-session_epochs :
      (es : List Step) (k : ℕ) (s : Supervisor srv.World)
      → k < s.sessions
      → (run c srv es s).session_epochs k ≡ s.session_epochs k
  run-session_epochs es k s spawned =
      let g =
        run-Good c srv Anything (session_guards k (s.session_epochs k)) es s
          (record { own = tt; book = record { spawned = spawned; recorded = refl } }) in
      g.book.recorded

  index-world :
      (i k : ℕ) (s : Supervisor srv.World)
      → (is s.state terminated || is s.state idle) ≡ false
      → (handle_frame c srv (index i) k s).world ≡ (
          let heard = if is_current k s.helper then (srv.now s.world).1 else s.world in
          (srv.raise_srtp_index_floor c.port i c.port_key.ssrc c.port_key.key_fingerprint
            c.port_key.generation
            (epoch_of_session c srv k s)
            heard).1)
  unfolding handle_frame handle_late dispatch raise_floor
  index-world i k s live = elim (Bool-cases (is_current k s.helper)) [
    | inl current ↦ simp (live, current) refl
    | inr late ↦ simp (live, late) refl
  ]

  -- The world after a write of the floor.
  abbrev after_write : ℕ → srv.World → Option ℕ → srv.World
  after_write i w epoch =
      (srv.raise_srtp_index_floor c.port i c.port_key.ssrc c.port_key.key_fingerprint
        c.port_key.generation epoch w).1

  started-epoch :
      (es : List Step) (session : ℕ) (epochs : PortMap (Option ℕ)) (backoff_ms : ℕ)
      (epoch floor : Option ℕ) (s : Supervisor srv.World)
      → IsStarted c srv session epochs backoff_ms epoch floor s
      → epoch_of_session c srv session (run c srv es s) ≡ epoch
  unfolding epoch_of_session
  started-epoch es session epochs backoff_ms epoch floor s started =
      let kept =
        run-session_epochs es session s (omega (arith, started.counted))
        ∙ ap (λ (m : PortMap (Option ℕ)). m session) started.recorded
        ∙ map_set-same session epochs epoch in
      ap (λ (o : Option (Option ℕ)). elim o as (λ _. Option ℕ) [ none ↦ none | some found ↦ found ])
        kept

  -- A session was started after the epoch was read as `epoch`, and then any steps came, among them
  -- resets of the floor and the start of other sessions. Until the supervisor is terminated, an index
  -- from that session's process, current or replaced, raises the stored floor under that very epoch,
  -- and so does the index of the `stopped` frame that a shutdown waits for.
  pub started-fences :
      (es : List Step) (session : ℕ) (epochs : PortMap (Option ℕ)) (backoff_ms : ℕ)
      (epoch floor : Option ℕ) (s : Supervisor srv.World) (i : ℕ)
      → IsStarted c srv session epochs backoff_ms epoch floor s
      → let s' = run c srv es s in
        let raise = λ (w : srv.World).
          (srv.raise_srtp_index_floor c.port i c.port_key.ssrc c.port_key.key_fingerprint
            c.port_key.generation epoch w).1 in
        (is s'.state terminated || is s'.state idle) ≡ false
        → ((handle_frame c srv (index i) session s').world
            ≡ raise (if is_current session s'.helper then (srv.now s'.world).1 else s'.world))
          × ((raise_acked c srv (some (some i)) session s').1.world ≡ raise s'.world)
  unfolding raise_acked raise_floor
  started-fences es session epochs backoff_ms epoch floor s i started live =
      let s' = run c srv es s in
      let e = started-epoch es session epochs backoff_ms epoch floor s started in
      let heard = if is_current session s'.helper then (srv.now s'.world).1 else s'.world in
      (index-world i session s' live ∙ ap (after_write i heard) e, ap (after_write i s'.world) e)
