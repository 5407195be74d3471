-- ===== src/EntryPoint.antt =====
-- `start` and `shutdown` of backend/src/index.ts: in what order the parts are started and stopped, and
-- what happens when one of them fails.
pub mod Plan
pub mod Ordered
pub mod Isolated
mod Tests
use video_thingy_rocks.Common.{ℕ, Bool, true, false, Option, none, some, List, [], ◌∷◌, ◌++◌}
use video_thingy_rocks.StreamState.{StreamStateManager, new_manager}
use video_thingy_rocks.StreamState
use video_thingy_rocks.Transport.Config.{ConfigResult, off, invalid, configured}
use video_thingy_rocks.Transport.Lifecycle.{
  Outside, Lifecycle, new_lifecycle, start_transport, stop_transport,
}

-- The calls that `start` and `shutdown` await, and `stop_transport`, which never rejects.
pub data Call : Type 0 where
  ensure_aws_credentials : Call
  health_server_start : Call
  udp_listener_start : Call
  floor_reset_server_start : Call
  health_server_stop : Call
  udp_listener_stop : Call
  floor_reset_server_stop : Call
  srtp_transport_stop : Call
  traffic_metrics_stop : Call
  release_kinesis_lock : (port : ℕ) → Call
  stop_all : Call

-- The module's variables, the process's exit code, and the calls made so far. A variable that is
-- `undefined` is `false` or `none`.
pub record Service (World : Type 0) : Type 0 where
  pub traffic_metrics : Bool
  pub unencrypted_serving : Bool
  pub srtp_transport : Option Lifecycle
  pub floor_reset_server : Bool
  pub streams : StreamStateManager
  pub pre_start_buffers : List ℕ
  pub kinesis_lock_held : List ℕ
  pub kinesis_ingestion : Bool
  pub exited : Option ℕ
  pub calls : List Call
  pub world : World

-- Whether the awaited calls resolve.
pub record Services : Type 1 where
  pub outside : Outside
  pub resolves : Call → outside.World → Bool × outside.World

module _ (srv : Services) where
  abbrev pub State : Type 0
  State = Service srv.outside.World

  abbrev pub new_service : Bool → srv.outside.World → State
  new_service kinesis_ingestion w = record {
    traffic_metrics = false;
    unencrypted_serving = false;
    srtp_transport = none;
    floor_reset_server = false;
    streams = new_manager;
    pre_start_buffers = [];
    kinesis_lock_held = [];
    kinesis_ingestion = kinesis_ingestion;
    exited = none;
    calls = [];
    world = w;
  }

  -- An awaited call; `false`, it rejects.
  unfoldable pub perform : Call → State → Bool × State
  perform c s =
      let (ok, w) = srv.resolves c s.world in
      (ok, record s { calls = s.calls ++ c ∷ []; world = w })

  -- What follows an awaited call, unless that rejects.
  unfoldable pub and_then : Bool × State → (State → Bool × State) → Bool × State
  and_then (true, s) next = next s
  and_then (false, s) next = (false, s)

  abbrev pub exit : ℕ → State → State
  exit code s = record s { exited = some code }

  -- The API for floor resets, if the transport serves; its failure is contained.
  unfoldable pub start_floor_resets : Bool → State → State
  unfolding perform
  start_floor_resets false s = s
  start_floor_resets true s =
      let (ok, s') = perform floor_reset_server_start s in record s' { floor_reset_server = ok }

  unfoldable pub start_srtp : ConfigResult → State → State
  unfolding start_transport start_floor_resets
  start_srtp off s = s
  start_srtp invalid s = s
  start_srtp (configured prefix first last) s =
      let (serves, t, w) = start_transport srv.outside first last new_lifecycle s.world in
      start_floor_resets serves (record s { srtp_transport = some t; world = w })

  unfoldable pub start_primary : State → Bool × State
  unfolding perform and_then
  start_primary s =
      and_then (perform ensure_aws_credentials s)
        (λ s₁. and_then (perform health_server_start s₁) (λ s₂. perform udp_listener_start s₂))

  unfoldable pub started : ConfigResult → Bool × State → State
  unfolding start_srtp
  started srtp_config (true, s) =
      start_srtp srtp_config (record s { traffic_metrics = true; unencrypted_serving = true })
  started srtp_config (false, s) = exit 1 s

  -- `start`
  unfoldable pub start : ConfigResult → State → State
  unfolding start_primary started
  start srtp_config s = started srtp_config (start_primary s)

  unfoldable pub stop_front : State → Bool × State
  unfolding perform and_then
  stop_front s = and_then (perform health_server_stop s) (λ s₁.
      and_then (perform udp_listener_stop s₁)
        (λ s₂. (true, record s₂ { streams = StreamState.stop s₂.streams; pre_start_buffers = [] })))

  unfoldable pub stop_floor_resets : State → Bool × State
  unfolding perform and_then
  stop_floor_resets s = elim s.floor_reset_server [
    | true ↦
        and_then (perform floor_reset_server_stop s)
          (λ s'. (true, record s' { floor_reset_server = false }))
    | false ↦ (true, s)
  ]

  unfoldable pub stop_srtp : State → Bool × State
  unfolding stop_transport
  stop_srtp s = elim s.srtp_transport [
    | none ↦ (true, s)
    | some t ↦
        let (t', w) = stop_transport srv.outside t s.world in
        (
          true,
          record s {
            srtp_transport = none;
            calls = s.calls ++ srtp_transport_stop ∷ [];
            world = w;
          },
        )
  ]

  unfoldable pub stop_metrics : State → Bool × State
  unfolding perform and_then
  stop_metrics s = elim s.traffic_metrics [
    | true ↦
        and_then (perform traffic_metrics_stop s)
          (λ s'. (true, record s' { traffic_metrics = false }))
    | false ↦ (true, s)
  ]

  -- The loop over `kinesisLockHeldForPorts`.
  unfoldable pub release_all : List ℕ → State → Bool × State
  unfolding perform and_then
  release_all [] s = (true, record s { kinesis_lock_held = [] })
  release_all (port ∷ ports) s =
      and_then (perform (release_kinesis_lock port) s) (λ s'. release_all ports s')

  unfoldable pub stop_pipelines : State → Bool × State
  unfolding perform
  stop_pipelines s = elim s.kinesis_ingestion [ true ↦ perform stop_all s | false ↦ (true, s) ]

  unfoldable pub stop_parts : State → Bool × State
  unfolding and_then stop_front stop_floor_resets stop_srtp stop_metrics release_all stop_pipelines
  stop_parts s = and_then (stop_front s) (λ s₁. and_then (stop_floor_resets s₁) (λ s₂.
      and_then (stop_srtp s₂) (λ s₃.
        and_then (stop_metrics s₃)
          (λ s₄. and_then (release_all s₄.kinesis_lock_held s₄) stop_pipelines))))

  -- `shutdown`, with the handler of its rejection.
  unfoldable pub shutdown : State → State
  unfolding stop_parts
  shutdown s = let (ok, s') = stop_parts s in exit (elim ok [ true ↦ 0 | false ↦ 1 ]) s'
