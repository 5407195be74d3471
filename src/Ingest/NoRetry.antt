-- ===== src/Ingest/NoRetry.antt =====
-- What follows an acquisition that was refused.
use video_thingy_rocks.Common.{
  ℕ, ◌≡◌, refl, sym, ap, ◌∙◌, subst, true, false, none, some, List, [], ◌∷◌, ◌==◌, arith,
}
use video_thingy_rocks.StreamState.{active, StreamState, received, on_packet_received}
use video_thingy_rocks.StreamState.Phases.{received-Receives}
use video_thingy_rocks.Ingest.{Config, Buffer, Main, Turn}
use video_thingy_rocks.Ingest.Handlers.{is_buffering, receive, on_packet, feed}
use video_thingy_rocks.Ingest.Process.{
  Process, Event, arrive, take_turn, handle_event, handle_events,
}
use video_thingy_rocks.Ingest.Accounts.{acquires, acquires-append, acquires-Quiet, receive-Quiet}

module _ (c : Config) (port : ℕ) where
  -- An active stream without the lock, and nothing buffered.
  pub record GivenUp (m : Main) : Type 0 where
    pub stream : StreamState
    pub there : m.streams.streams port ≡ some stream
    pub running : stream.status ≡ active
    pub unlocked : m.kinesis_lock_held_for_ports port ≡ false
    pub empty : m.pre_start_buffer_by_port port ≡ none

  GivenUp-is_buffering : (m : Main) → GivenUp m → is_buffering c port m ≡ false
  GivenUp-is_buffering m g = simp (g.there, g.running, g.unlocked, g.empty) (ground arith)

  receive-main :
      (bytes : Buffer) (timestamp now : ℕ) (m : Main)
      → m.kinesis_lock_held_for_ports port ≡ false
      → (receive c port bytes timestamp now false m).main ≡ record m {
        streams = (on_packet_received c.inactivity_timeout port timestamp now m.streams).0;
      }
  unfolding receive feed
  receive-main bytes timestamp now m e = simp e refl

  received-GivenUp :
      (timestamp now : ℕ) (m : Main)
      → GivenUp m
      → GivenUp (record m {
        streams = (on_packet_received c.inactivity_timeout port timestamp now m.streams).0;
      })
  unfolding on_packet_received
  received-GivenUp timestamp now m g =
      let r = received-Receives c.inactivity_timeout port timestamp (m.streams.streams port) in
      let here : (port == port) ≡ true = ground arith in
      record {
        stream = (received port timestamp (m.streams.streams port)).0;
        there = simp here refl;
        running = r.running_now;
        unlocked = g.unlocked;
        empty = g.empty;
      }

  on_packet-GivenUp :
      (bytes : Buffer) (timestamp now : ℕ) (m : Main)
      → GivenUp m
      → on_packet c port bytes timestamp now m ≡ receive c port bytes timestamp now false m
  unfolding on_packet
  on_packet-GivenUp bytes timestamp now m g = simp (GivenUp-is_buffering m g) refl

  unfoldable pub arrivals : List (Buffer × ℕ × ℕ) → List Event
  arrivals [] = []
  arrivals ((bytes, timestamp, now) ∷ packets) = arrive port bytes timestamp now ∷ arrivals packets

  -- While the stream of a port is active, without the lock and with nothing buffered, its packets do
  -- not ask for the lock, however many they are.
  pub arrivals-ask_nothing :
      (packets : List (Buffer × ℕ × ℕ)) (p : Process)
      → GivenUp p.main
      → acquires port (handle_events c (arrivals packets) p).calls ≡ acquires port p.calls
  unfolding handle_events handle_event arrivals
  arrivals-ask_nothing [] p g = refl
  arrivals-ask_nothing ((bytes, timestamp, now) ∷ packets) p g =
      let t = receive c port bytes timestamp now false p.main in
      let q = receive-Quiet c port bytes timestamp now false p.main in
      let later : GivenUp t.main =
        subst GivenUp (sym (receive-main bytes timestamp now p.main g.unlocked))
          (received-GivenUp timestamp now p.main g) in
      ap
        (λ (u : Turn).
          acquires port (handle_events c (arrivals packets) (take_turn p p.waiting u)).calls)
        (on_packet-GivenUp bytes timestamp now p.main g)
      ∙ arrivals-ask_nothing packets (take_turn p p.waiting t) later
      ∙ acquires-append port p.calls t.calls
      ∙ omega (arith, acquires-Quiet port t.calls q.calls)
