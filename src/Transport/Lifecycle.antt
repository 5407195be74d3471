-- ===== src/Transport/Lifecycle.antt =====
-- `start` of SrtpTransport: which ports it supervises, over the credentials and the key store.
use video_thingy_rocks.Common.{ℕ, Bool, true, false, Option, none, some, List, [], ◌∷◌}
use video_thingy_rocks.Listener.{get_port_range}
use video_thingy_rocks.Supervisor.{SrtpSupervisorState}
use video_thingy_rocks.Transport.Serving.{
  Serving, recompute_serving, stop, supervisors_in, all_idle, new_serving,
}

-- What the transport calls. `none` is a promise that rejects; `get_credentials` says whether there are
-- credentials, `load_ports` answers by the store's `keyedPorts` afterwards, and `stopping` by what the
-- supervisors report until all of them have stopped.
pub record Outside : Type 1 where
  pub World : Type 0
  pub get_credentials : World → Option Bool × World
  pub load_ports : List ℕ → World → Option (List ℕ) × World
  pub stopping : List ℕ → World → List (ℕ × SrtpSupervisorState) × World

-- The transport, with the ports that have a supervisor as its keys.
pub record Lifecycle : Type 0 where
  pub started : Bool
  pub keys : List ℕ
  pub serving : Serving

abbrev pub new_lifecycle : Lifecycle
new_lifecycle = record { started = false; keys = []; serving = new_serving [] }

module _ (out : Outside) where
  -- `SrtpTransport.stop`
  unfoldable pub stop_transport : Lifecycle → out.World → Lifecycle × out.World
  unfolding stop
  stop_transport t w =
      let (reports, w') = out.stopping t.keys w in
      (record t { keys = []; serving = stop reports t.serving }, w')

  -- What the `catch` of `start` does.
  unfoldable pub start_failed : Lifecycle → out.World → Bool × Lifecycle × out.World
  unfolding stop_transport
  start_failed t w = let (t', w') = stop_transport t w in (false, t', w')

  unfoldable pub supervise : List ℕ → Lifecycle → Lifecycle
  unfolding recompute_serving
  supervise ports t = record t {
    keys = ports;
    serving = recompute_serving (record t.serving { supervisors = supervisors_in all_idle ports });
  }

  unfoldable pub with_keys : Option (List ℕ) → Lifecycle → out.World → Bool × Lifecycle × out.World
  unfolding start_failed supervise
  with_keys none t w = start_failed t w
  with_keys (some []) t w = (false, t, w)
  with_keys (some (port ∷ ports)) t w = (true, supervise (port ∷ ports) t, w)

  unfoldable pub with_credentials :
      ℕ → ℕ → Option Bool → Lifecycle → out.World → Bool × Lifecycle × out.World
  unfolding start_failed with_keys
  with_credentials start end none t w = start_failed t w
  with_credentials start end (some false) t w = (false, t, w)
  with_credentials start end (some true) t w =
      let (keyed, w') = out.load_ports (get_port_range start end) w in with_keys keyed t w'

  -- `SrtpTransport.start`, on the ports of its configuration.
  unfoldable pub start_transport : ℕ → ℕ → Lifecycle → out.World → Bool × Lifecycle × out.World
  unfolding with_credentials
  start_transport start end t w = elim t.started [
    | true ↦ (true, t, w)
    | false ↦
        let (there, w') = out.get_credentials w in
        with_credentials start end there (record t { started = true }) w'
  ]
