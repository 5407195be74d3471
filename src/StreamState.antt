-- ===== src/StreamState.antt =====
-- backend/src/StreamStateManager.ts: which ports receive a stream, by a timer for each port.
pub mod Phases
mod Tests
use video_thingy_rocks.Common.{
  ℕ, ◌+◌, ◌-◌, Option, none, some, List, [], ◌∷◌, ◌++◌, leb, if◌then◌else◌, PortMap, map_set,
  map_delete,
}

pub data StreamStatus : Type 0 where
  active : StreamStatus
  inactive : StreamStatus

pub record StreamState : Type 0 where
  pub status : StreamStatus
  pub first_packet_time : ℕ
  pub last_packet_time : ℕ
  pub packet_count : ℕ

pub data StreamEvent : Type 0 where
  stream_start : (port : ℕ) → StreamEvent
  stream_resume : (port : ℕ) → StreamEvent
  stream_stop : (port inactivity_duration : ℕ) → StreamEvent

-- A timer that has not fired is kept with the time at which it is due; the source keeps those that have
-- fired too, and clears them to no effect.
pub record StreamStateManager : Type 0 where
  pub streams : PortMap StreamState
  pub inactivity_timers : PortMap ℕ

abbrev pub new_manager : StreamStateManager
new_manager = record { streams = λ k. none; inactivity_timers = λ k. none }

abbrev pub set_stream : ℕ → StreamState → StreamStateManager → StreamStateManager
set_stream port s m = record m { streams = map_set m.streams port s }

-- What a packet makes of a stream that is there, and the event of its resuming.
unfoldable pub update_stream : ℕ → ℕ → StreamState → StreamState × List StreamEvent
update_stream port timestamp s =
    let updated : StreamState = record s {
      last_packet_time = timestamp;
      packet_count = s.packet_count + 1;
    } in
    elim s.status [
      | inactive ↦ (record updated { status = active }, stream_resume port ∷ [])
      | active ↦ (updated, [])
    ]

unfoldable pub received : ℕ → ℕ → Option StreamState → StreamState × List StreamEvent
unfolding update_stream
received port timestamp none = (
  record {
    status = active;
    first_packet_time = timestamp;
    last_packet_time = timestamp;
    packet_count = 1;
  },
  stream_start port ∷ [],
)
received port timestamp (some s) = update_stream port timestamp s

abbrev pub reset_inactivity_timer : ℕ → ℕ → ℕ → StreamStateManager → StreamStateManager
reset_inactivity_timer timeout port now m = record m {
  inactivity_timers = map_set m.inactivity_timers port (now + timeout);
}

unfoldable pub on_packet_received :
    ℕ → ℕ → ℕ → ℕ → StreamStateManager → StreamStateManager × List StreamEvent
unfolding received
on_packet_received timeout port timestamp now m =
    let (s, events) = received port timestamp (m.streams port) in
    (reset_inactivity_timer timeout port now (set_stream port s m), events)

unfoldable pub handle_stream_inactivity :
    ℕ → ℕ → StreamStateManager → StreamStateManager × List StreamEvent
handle_stream_inactivity port now m = elim (m.streams port) [
  | none ↦ (m, [])
  | some s ↦ (
    set_stream port (record s { status = inactive }) m,
    stream_stop port (now - s.last_packet_time) ∷ [],
  )
]

-- A timer fires at its time or later, once.
unfoldable pub fire_timer : ℕ → ℕ → StreamStateManager → StreamStateManager × List StreamEvent
unfolding handle_stream_inactivity
fire_timer port now m = elim (m.inactivity_timers port) [
  | none ↦ (m, [])
  | some due ↦
      if leb due now
      then handle_stream_inactivity port now
          (record m { inactivity_timers = map_delete m.inactivity_timers port })
      else (m, [])
]

abbrev pub stop : StreamStateManager → StreamStateManager
stop m = record m { inactivity_timers = λ k. none }

-- A packet is handled `delay` after its timestamp was taken.
pub data Input : Type 0 where
  packet : (port timestamp delay : ℕ) → Input
  timer : (port now : ℕ) → Input

unfoldable pub handle_input : ℕ → Input → StreamStateManager → StreamStateManager × List StreamEvent
unfolding on_packet_received fire_timer
handle_input timeout (packet port timestamp delay) m =
    on_packet_received timeout port timestamp (timestamp + delay) m
handle_input timeout (timer port now) m = fire_timer port now m

unfoldable pub handle_inputs :
    ℕ → List Input → StreamStateManager → StreamStateManager × List StreamEvent
unfolding handle_input
handle_inputs timeout [] m = (m, [])
handle_inputs timeout (i ∷ is) m =
    let (m', events) = handle_input timeout i m in
    let (m'', later) = handle_inputs timeout is m' in (m'', events ++ later)
