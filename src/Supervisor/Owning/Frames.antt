-- ===== src/Supervisor/Owning/Frames.antt =====
-- Frames keep what holds of the lock.
use video_thingy_rocks.Common.{
  ℕ, ◌+◌, refl, Bool, not, ◌&&◌, ◌||◌, Option, none, some, ◌∷◌, if◌then◌else◌, max, leb, ltb, ◌==◌,
}
use video_thingy_rocks.HelperProtocol.{
  SrtpHelperMessage, ready, searching, auth_ok, auth_fail, auth_exhausted, auth_lost, index,
  producing as producing_frame, stopped, stats, warning, error, fatal, eos, unparsed,
  srtp_helper_protocol_version,
}
use video_thingy_rocks.Supervisor.{
  SrtpPortSupervisorConfig, Services, Supervisor, idle, starting, acquiring, producing, stopping,
  terminated, acquired, reported,
}
use video_thingy_rocks.Supervisor
use video_thingy_rocks.Supervisor.Operations.{is, transition, end_session}
use video_thingy_rocks.Supervisor.Session.{is_current}
use video_thingy_rocks.Supervisor.Frames.{
  attempt_acquire, refresh_lease, handle_ready, handle_stats, carry, handle_first_auth, dispatch,
  handle_late, handle_frame,
}
use video_thingy_rocks.Supervisor.Owning.{
  Guards, Good, transition-Good, raise_floor-Good, end_session-Good, if-Good,
}
use video_thingy_rocks.Supervisor.Owning.Session.{same-Good}
use video_thingy_rocks.Supervisor.Owning.Acquire.{
  attempt_acquire-Good, not_producing-Good, refresh_lease-Good, handle_stopped-Good,
}

module _ (c : SrtpPortSupervisorConfig) (srv : Services) (Own : Bool → srv.World → Type 0)
    (laws : Guards c srv Own) where
  abbrev Kept : Supervisor srv.World → Type 0
  Kept = Good c srv Own laws

  handle_ready-Good : (v : ℕ) (s : Supervisor srv.World) → Kept s → Kept (handle_ready c srv v s)
  unfolding handle_ready
  handle_ready-Good v s g =
      let up = record s { backoff_ms = c.timeouts.restart_ms } in
      let there = transition c srv Supervisor.searching up in
      if-Good c srv Own laws (not (v == srtp_helper_protocol_version)) (end_session c srv s)
        (if is s.state starting then there else s) (end_session-Good c srv Own laws s g)
        (if-Good c srv Own laws (is s.state starting) there s
          (transition-Good c srv Own laws Supervisor.searching up
            (same-Good c srv Own laws s up refl refl refl refl g))
          g)

  handle_stats-Good :
      (bytes n : ℕ) (s : Supervisor srv.World) → Kept s → Kept (handle_stats c srv bytes n s)
  unfolding handle_stats
  handle_stats-Good bytes n s g =
      let seen = record s {
        world = srv.on_stats c.port bytes n s.world;
        last_heartbeat_authenticated = max s.last_heartbeat_authenticated n;
      } in
      let k : Kept seen = record {
        own = laws.stats s.lock_held c.port bytes n s.world g.own;
        book = g.book;
      } in
      let (now, w) = srv.now seen.world in
      let checked = record seen { world = w } in
      let h : Kept checked = record {
        own = laws.now seen.lock_held seen.world k.own;
        book = k.book;
      } in
      let due = leb (checked.last_acquire_attempt_ms + c.timeouts.acquire_retry_ms) now in
      let asked = if due then attempt_acquire c srv checked else checked in
      if-Good c srv Own laws (is seen.state producing)
        (if ltb 0 n then refresh_lease c srv seen else seen)
        (if is seen.state acquiring && ltb 0 n then asked else seen)
        (if-Good c srv Own laws (ltb 0 n) (refresh_lease c srv seen) seen
          (refresh_lease-Good c srv Own laws seen k) k)
        (if-Good c srv Own laws (is seen.state acquiring && ltb 0 n) asked seen
          (if-Good c srv Own laws due (attempt_acquire c srv checked) checked
            (attempt_acquire-Good c srv Own laws checked h) h)
          k)

  carry-Good : (o : Option ℕ) (s : Supervisor srv.World) → Kept s → Kept (carry c srv o s)
  unfolding carry
  carry-Good none s g = g
  carry-Good (some position) s g = record { own = g.own; book = g.book }

  handle_first_auth-Good :
      (roc : ℕ) (trials : Option ℕ) (s : Supervisor srv.World)
      → Kept s
      → Kept (handle_first_auth c srv roc trials s)
  unfolding handle_first_auth
  handle_first_auth-Good roc trials s g =
      let seen = record s { world = srv.on_authenticated c.port roc trials s.world } in
      let k : Kept seen = record {
        own = laws.authenticated s.lock_held c.port roc trials s.world g.own;
        book = g.book;
      } in
      if-Good c srv Own laws (is s.state Supervisor.searching || is s.state acquiring)
        (attempt_acquire c srv seen) seen (attempt_acquire-Good c srv Own laws seen k) k

  dispatch-Good :
      (m : SrtpHelperMessage) (k : ℕ) (s : Supervisor srv.World)
      → Kept s
      → Kept (dispatch c srv m k s)
  unfolding dispatch
  dispatch-Good (ready v port pid) k s g =
      let h = handle_ready-Good v s g in record { own = h.own; book = h.book }
  dispatch-Good (auth_ok first roc seq candidate trials authenticated) k s g =
      if-Good c srv Own laws first (handle_first_auth c srv roc trials s) s
        (handle_first_auth-Good roc trials s g) g
  dispatch-Good (auth_fail candidate inputs drops search_from) k s g = carry-Good search_from s g
  dispatch-Good (auth_lost since_ms drops) k s g =
      let told = record s { log = reported k ∷ s.log } in
      let h =
        not_producing-Good c srv Own laws told
          (same-Good c srv Own laws s told refl refl refl refl g) in
      record { own = h.own; book = h.book }
  dispatch-Good (stopped i) k s g =
      let told = record s { log = reported k ∷ s.log } in
      let h =
        handle_stopped-Good c srv Own laws i k told
          (same-Good c srv Own laws s told refl refl refl refl g) in
      record { own = h.own; book = h.book }
  dispatch-Good (index i) k s g =
      let h = raise_floor-Good c srv Own laws i k s g in record { own = h.own; book = h.book }
  dispatch-Good (stats inputs input_bytes authenticated aus roc drops) k s g =
      let h = handle_stats-Good input_bytes authenticated s g in
      record { own = h.own; book = h.book }
  dispatch-Good (fatal reason message) k s g = record { own = g.own; book = g.book }
  dispatch-Good (searching candidate trial) k s g = g
  dispatch-Good (auth_exhausted trials) k s g = g
  dispatch-Good producing_frame k s g = g
  dispatch-Good (warning element message) k s g = g
  dispatch-Good (error element message) k s g = g
  dispatch-Good eos k s g = g
  dispatch-Good (unparsed raw) k s g = g

  handle_late-Good :
      (m : SrtpHelperMessage) (k : ℕ) (s : Supervisor srv.World)
      → Kept s
      → Kept (handle_late c srv m k s)
  unfolding handle_late
  handle_late-Good (index i) k s g =
      let h = raise_floor-Good c srv Own laws i k s g in record { own = h.own; book = h.book }
  handle_late-Good (auth_fail candidate inputs drops search_from) k s g = carry-Good search_from s g
  handle_late-Good (ready v port pid) k s g = g
  handle_late-Good (auth_ok first roc seq candidate trials authenticated) k s g = g
  handle_late-Good (auth_lost since_ms drops) k s g = g
  handle_late-Good (stopped i) k s g = g
  handle_late-Good (stats inputs input_bytes authenticated aus roc drops) k s g = g
  handle_late-Good (fatal reason message) k s g = g
  handle_late-Good (searching candidate trial) k s g = g
  handle_late-Good (auth_exhausted trials) k s g = g
  handle_late-Good producing_frame k s g = g
  handle_late-Good (warning element message) k s g = g
  handle_late-Good (error element message) k s g = g
  handle_late-Good eos k s g = g
  handle_late-Good (unparsed raw) k s g = g

  pub handle_frame-Good :
      (m : SrtpHelperMessage) (k : ℕ) (s : Supervisor srv.World)
      → Kept s
      → Kept (handle_frame c srv m k s)
  unfolding handle_frame
  handle_frame-Good m k s g =
      let (now, w) = srv.now s.world in
      let heard = record s { last_frame_at_ms = now; world = w } in
      let current = is_current k s.helper in
      if-Good c srv Own laws (is s.state terminated || is s.state idle) s
        (if not current then handle_late c srv m k s else dispatch c srv m k heard) g
        (if-Good c srv Own laws (not current) (handle_late c srv m k s) (dispatch c srv m k heard)
          (handle_late-Good m k s g)
          (dispatch-Good m k heard
            (record { own = laws.now s.lock_held s.world g.own; book = g.book })))
