-- ===== src/EntryPoint/Ordered.antt =====
-- `shutdown` makes the calls of its plan, in their order, until one rejects.
use video_thingy_rocks.Common.{
  ℕ, ◌≡◌, refl, sym, ap, Bool, true, false, Option, none, some, List, [], ◌∷◌, ◌++◌, map,
}
use video_thingy_rocks.StreamState
use video_thingy_rocks.EntryPoint.{
  Call, health_server_stop, udp_listener_stop, floor_reset_server_stop, srtp_transport_stop,
  traffic_metrics_stop, release_kinesis_lock, stop_all, Services, State, perform, and_then,
  stop_front, stop_floor_resets, stop_srtp, stop_metrics, release_all, stop_pipelines, stop_parts,
  shutdown,
}
use video_thingy_rocks.EntryPoint.Plan.{
  if_there, transport_calls, keys_of, plan, exit_code, effect, attempt, Follows, after_call,
  none-Follows, resolved-Follows, only-Follows, then_assoc, perform-Follows,
}
use video_thingy_rocks.Transport.Lifecycle.{Lifecycle, stop_transport}

module _ (srv : Services) (keys : List ℕ) where
  abbrev Run : Type 0
  Run = State srv → Bool × State srv

  -- From a state that differs in neither the calls nor the world.
  as_of :
      (s s' : State srv) (q : List Call) (r : Bool × State srv)
      → s'.calls ≡ s.calls
      → s'.world ≡ s.world
      → Follows srv keys s' q r
      → Follows srv keys s q r
  as_of s s' q r calls world h = record {
    calls = rw (sym calls, sym world) h.calls;
    done = rw (sym world) h.done;
  }

  -- A part that is there is stopped, and its variable cleared by `clear`.
  optional-Follows :
      (b : Bool) (c : Call) (clear : State srv → State srv) (q : List Call) (s : State srv)
      (next : Run)
      → effect srv keys c s.world ≡ srv.resolves c s.world
      → Follows srv keys (after_call srv keys c s) q (next (clear (after_call srv keys c s)))
      → Follows srv keys s q (next s)
      → Follows srv keys s (if_there b c ++ q) (
          and_then srv
            (elim b [
              | true ↦ and_then srv (perform srv c s) (λ s'. (true, clear s'))
              | false ↦ (true, s)
            ])
            next)
  unfolding and_then if_there
  optional-Follows true c clear q s next same there missing =
      rw (then_assoc srv keys (perform srv c s) (λ s'. (true, clear s')) next)
        (perform-Follows srv keys c q s (λ s'. and_then srv (true, clear s') next) same there)
  optional-Follows false c clear q s next same there missing = missing

  last-Follows :
      (b : Bool) (s : State srv)
      → Follows srv keys s
          (if_there b stop_all)
          (elim b [ true ↦ perform srv stop_all s | false ↦ (true, s) ])
  unfolding if_there effect
  last-Follows true s = only-Follows srv keys stop_all s refl
  last-Follows false s = none-Follows srv keys s

  from_pipelines :
      (s : State srv)
      → Follows srv keys s (if_there s.kinesis_ingestion stop_all) (stop_pipelines srv s)
  unfolding stop_pipelines
  from_pipelines s = last-Follows s.kinesis_ingestion s

  release_all-Follows :
      (ports : List ℕ) (q : List Call) (s : State srv) (next : Run)
      → ((cs : List Call) (w : srv.outside.World)
          → let s' = record s { calls = cs; world = w; kinesis_lock_held = [] } in
            Follows srv keys s' q (next s'))
      → Follows srv keys s
          (map release_kinesis_lock ports ++ q)
          (and_then srv (release_all srv ports s) next)
  unfolding release_all and_then effect
  release_all-Follows [] q s next h =
      let last = h s.calls s.world in record { calls = last.calls; done = last.done }
  release_all-Follows (port ∷ ports) q s next h =
      rw
        (then_assoc srv keys (perform srv (release_kinesis_lock port) s) (release_all srv ports)
          next)
        (perform-Follows srv keys (release_kinesis_lock port) (map release_kinesis_lock ports ++ q)
          s (λ s'. and_then srv (release_all srv ports s') next) refl
          (release_all-Follows ports q (after_call srv keys (release_kinesis_lock port) s) next h))

  abbrev locks_on : Run
  locks_on s = and_then srv (release_all srv s.kinesis_lock_held s) (stop_pipelines srv)

  abbrev metrics_on : Run
  metrics_on s = and_then srv (stop_metrics srv s) locks_on

  abbrev srtp_on : Run
  srtp_on s = and_then srv (stop_srtp srv s) metrics_on

  abbrev floor_resets_on : Run
  floor_resets_on s = and_then srv (stop_floor_resets srv s) srtp_on

  from_locks :
      (s : State srv)
      → Follows srv keys s
          (map release_kinesis_lock s.kinesis_lock_held ++ if_there s.kinesis_ingestion stop_all)
          (locks_on s)
  from_locks s =
      release_all-Follows s.kinesis_lock_held (if_there s.kinesis_ingestion stop_all) s
        (stop_pipelines srv)
        (λ cs w. from_pipelines (record s { calls = cs; world = w; kinesis_lock_held = [] }))

  from_metrics :
      (s : State srv)
      → Follows srv keys s
          (if_there s.traffic_metrics traffic_metrics_stop
            ++ (map release_kinesis_lock s.kinesis_lock_held
                ++ if_there s.kinesis_ingestion stop_all))
          (metrics_on s)
  unfolding stop_metrics effect
  from_metrics s =
      optional-Follows s.traffic_metrics traffic_metrics_stop
        (λ s'. record s' { traffic_metrics = false }) _ s locks_on refl
        (as_of (after_call srv keys traffic_metrics_stop s) _ _ _ refl refl (
          from_locks
            (record (after_call srv keys traffic_metrics_stop s) { traffic_metrics = false })))
        (from_locks s)

  -- The calls from the transport's stop on.
  abbrev from_transport : State srv → List Call
  from_transport s =
      transport_calls s.srtp_transport
      ++ (if_there s.traffic_metrics traffic_metrics_stop
          ++ (map release_kinesis_lock s.kinesis_lock_held
              ++ if_there s.kinesis_ingestion stop_all))

  transport-Follows :
      (t : Option Lifecycle) (q : List Call) (s : State srv) (next : Run)
      → keys_of t ≡ keys
      → (let s' = record (after_call srv keys srtp_transport_stop s) { srtp_transport = none } in
          Follows srv keys s' q (next s'))
      → Follows srv keys s q (next s)
      → Follows srv keys s (transport_calls t ++ q) (
          and_then srv
            (elim t [
              | none ↦ (true, s)
              | some t ↦
                  let (t', w) = stop_transport srv.outside t s.world in
                  (
                    true,
                    record s {
                      srtp_transport = none;
                      calls = s.calls ++ srtp_transport_stop ∷ [];
                      world = w;
                    },
                  )
            ])
            next)
  unfolding stop_transport keys_of transport_calls and_then effect
  transport-Follows none q s next k there missing = missing
  transport-Follows (some t) q s next k there missing =
      rw k
        (resolved-Follows srv keys srtp_transport_stop q s _ refl (as_of _ _ q _ refl refl there))

  from_srtp :
      (s : State srv)
      → keys_of s.srtp_transport ≡ keys
      → Follows srv keys s (from_transport s) (srtp_on s)
  unfolding stop_srtp
  from_srtp s k =
      transport-Follows s.srtp_transport _ s metrics_on k
        (from_metrics
          (record (after_call srv keys srtp_transport_stop s) { srtp_transport = none }))
        (from_metrics s)

  from_floor_resets :
      (s : State srv)
      → keys_of s.srtp_transport ≡ keys
      → Follows srv keys s
          (if_there s.floor_reset_server floor_reset_server_stop ++ from_transport s)
          (floor_resets_on s)
  unfolding stop_floor_resets effect
  from_floor_resets s k =
      let called = after_call srv keys floor_reset_server_stop s in
      optional-Follows s.floor_reset_server floor_reset_server_stop
        (λ s'. record s' { floor_reset_server = false }) (from_transport s) s srtp_on refl
        (as_of called _ (from_transport s) _ refl refl
          (from_srtp (record called { floor_reset_server = false }) k))
        (from_srtp s k)

  abbrev front_stopped : State srv → State srv
  front_stopped s =
      let s' = after_call srv keys udp_listener_stop (after_call srv keys health_server_stop s) in
      record s' { streams = StreamState.stop s'.streams; pre_start_buffers = [] }

  front-Follows :
      (q : List Call) (s : State srv) (next : Run)
      → Follows srv keys (front_stopped s) q (next (front_stopped s))
      → Follows srv keys s
          (health_server_stop ∷ udp_listener_stop ∷ q)
          (and_then srv (stop_front srv s) next)
  unfolding stop_front and_then effect
  front-Follows q s next h =
      let s' = after_call srv keys health_server_stop s in
      rw (then_assoc srv keys (perform srv health_server_stop s) _ next) (
        perform-Follows srv keys health_server_stop (udp_listener_stop ∷ q) s _ refl (
          rw (then_assoc srv keys (perform srv udp_listener_stop s') _ next) (
            perform-Follows srv keys udp_listener_stop q s' _ refl (
              as_of (after_call srv keys udp_listener_stop s') (front_stopped s) q _ refl refl h))))

  pub stop_parts-Follows :
      (s : State srv)
      → keys_of s.srtp_transport ≡ keys
      → Follows srv keys s (plan s) (stop_parts srv s)
  unfolding stop_parts plan effect
  stop_parts-Follows s k =
      front-Follows (if_there s.floor_reset_server floor_reset_server_stop ++ from_transport s) s
        floor_resets_on (from_floor_resets (front_stopped s) k)

-- A shutdown makes the calls of its plan in their order, the release of every lock that is held
-- among them, up to the first that rejects, and none after it; the process ends with exit code 0
-- exactly if no call rejected, and with 1 otherwise.
pub shutdown-plan :
    (srv : Services) (s : State srv)
    → let r = attempt srv (keys_of s.srtp_transport) (plan s) s.world in
      ((shutdown srv s).calls ≡ s.calls ++ r.0) × ((shutdown srv s).exited ≡ some (exit_code r.1))
unfolding shutdown exit_code
shutdown-plan srv s =
    let h = stop_parts-Follows srv (keys_of s.srtp_transport) s refl in
    (h.calls, ap (λ (b : Bool). some (exit_code b)) h.done)
