-- ===== src/Listener.antt =====
-- backend/src/UDPListener.ts: binding the ports, with retries.
pub mod Bound
mod Tests
use video_thingy_rocks.Common.{
  ℕ, zero, suc, ◌+◌, ◌-◌, ◌*◌, ◌^◌, Bool, true, false, Option, none, some, List, [], ◌∷◌, ◌++◌, ltb,
  if◌then◌else◌,
}

abbrev pub max_retries : ℕ
max_retries = 3

-- `Math.pow(2, retryCount) * 1000`
abbrev pub backoff_ms : ℕ → ℕ
backoff_ms retry_count = 2 ^ retry_count * 1000

-- The network: a new socket that is bound to a port either listens or fails.
pub record Network : Type 1 where
  pub World : Type 0
  pub bind : ℕ → World → Bool × World

-- `sockets` are the ports that listen, in the order in which they came up; `waited_ms` is the time spent
-- in retries.
pub record UdpListener (World : Type 0) : Type 0 where
  pub sockets : List ℕ
  pub waited_ms : ℕ
  pub world : World

-- The ports from `start`, as many as `n`.
unfoldable pub ports_from : ℕ → ℕ → List ℕ
ports_from start zero = []
ports_from start (suc n) = start ∷ ports_from (start + 1) n

abbrev pub get_port_range : ℕ → ℕ → List ℕ
get_port_range start end = ports_from start (end + 1 - start)

module _ (net : Network) where
  abbrev pub Listener : Type 0
  Listener = UdpListener net.World

  -- What one socket comes to: the listener, and whether the port listens.
  unfoldable pub try_bind : ℕ → Listener → Bool × Listener
  try_bind port l =
      let (listening, w) = net.bind port l.world in
      (
        listening,
        record l { sockets = if listening then l.sockets ++ port ∷ [] else l.sockets; world = w },
      )

  abbrev pub wait_backoff : ℕ → Listener → Listener
  wait_backoff retry_count l = record l { waited_ms = l.waited_ms + backoff_ms retry_count }

  -- `bindPort` with `left` retries left; `false`, it rejects.
  unfoldable pub bind_port : ℕ → ℕ → Listener → Bool × Listener
  unfolding try_bind
  bind_port zero port l = try_bind port l
  bind_port (suc left) port l =
      let (listening, l') = try_bind port l in
      elim listening [
        | true ↦ (true, l')
        | false ↦ bind_port left port (wait_backoff (max_retries - suc left) l')
      ]

  -- `start`: the ports one after the other, up to the first that cannot be bound.
  unfoldable pub start_ports : List ℕ → Listener → Bool × Listener
  unfolding bind_port
  start_ports [] l = (true, l)
  start_ports (port ∷ ports) l =
      let (bound, l') = bind_port max_retries port l in
      elim bound [ true ↦ start_ports ports l' | false ↦ (false, l') ]

  unfoldable pub start : ℕ → ℕ → Listener → Bool × Listener
  unfolding start_ports ports_from
  start first last l = start_ports (get_port_range first last) l
