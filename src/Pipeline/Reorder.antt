-- ===== src/Pipeline/Reorder.antt =====
-- The buffer between received packets and the process's input: `writePacket`, `drain`, and the flush
-- of `stop`.
pub mod Drain
pub mod Immediate
mod Tests
use video_thingy_rocks.Common.{
  ℕ, zero, suc, ◌+◌, ◌*◌, Bool, true, false, not, ◌&&◌, Option, none, some, List, [], ◌∷◌, ◌++◌,
  length, ltb, leb, ◌==◌, if◌then◌else◌, is_none,
}

abbrev pub default_reorder_buffer_size : ℕ
default_reorder_buffer_size = 128

-- The Node stream that is written to: `write` tells whether more may be written at once.
pub record Writable (Packet : Type 0) : Type 1 where
  pub Stream : Type 0
  pub write : Packet → Stream → Bool × Stream
  pub writable : Stream → Bool

-- A `Map` keyed by sequence numbers, in insertion order.
module _ {Packet : Type 0} where
  unfoldable pub lookup : ℕ → List (ℕ × Packet) → Option Packet
  lookup k [] = none
  lookup k ((j, x) ∷ m) = if j == k then some x else lookup k m

  unfoldable pub delete : ℕ → List (ℕ × Packet) → List (ℕ × Packet)
  delete k [] = []
  delete k ((j, x) ∷ m) = if j == k then m else (j, x) ∷ delete k m

  unfoldable pub set : ℕ → Packet → List (ℕ × Packet) → List (ℕ × Packet)
  set k x [] = (k, x) ∷ []
  set k x ((j, y) ∷ m) = if j == k then (k, x) ∷ m else (j, y) ∷ set k x m

-- `waiting` counts the `drain` listeners on the stream. `written` is what was written, for the
-- statements; no code reads it.
pub record PortPipeline (Packet : Type 0) (Stream : Type 0) : Type 0 where
  pub next_seq : ℕ
  pub next_to_emit : ℕ
  pub buffer : List (ℕ × Packet)
  pub input_stream : Stream
  pub waiting : ℕ
  pub written : List Packet

abbrev pub new_pipeline : {Packet Stream : Type 0} → Stream → PortPipeline Packet Stream
new_pipeline stream = record {
  next_seq = 0;
  next_to_emit = 1;
  buffer = [];
  input_stream = stream;
  waiting = 0;
  written = [];
}

-- What a port's pipeline sees: a packet, its stream changing by itself (read from, or closed), and the
-- stream's `drain` event.
pub data PortEvent (Packet : Type 0) (Stream : Type 0) : Type 0 where
  packet : Packet → PortEvent Packet Stream
  changed : Stream → PortEvent Packet Stream
  drained : PortEvent Packet Stream

module _ {Packet : Type 0} (w : Writable Packet) (max_buf : ℕ) where
  abbrev pub Pipeline : Type 0
  Pipeline = PortPipeline Packet w.Stream

  -- One round of the emitting loop: the packet leaves the buffer and is written.
  unfoldable pub emit : Packet → Pipeline → Bool × Pipeline
  unfolding delete
  emit x p =
      let (more, stream) = w.write x p.input_stream in
      (
        more,
        record p {
          buffer = delete p.next_to_emit p.buffer;
          next_to_emit = p.next_to_emit + 1;
          input_stream = stream;
          written = p.written ++ x ∷ [];
        },
      )

  -- The loop that skips missing packets; no more rounds than there are sequence numbers.
  unfoldable pub skip : ℕ → Pipeline → Pipeline
  unfolding lookup
  skip zero p = p
  skip (suc fuel) p = elim (is_none (lookup p.next_to_emit p.buffer) && ltb 0 (length p.buffer)) [
    | true ↦ skip fuel (record p { next_to_emit = p.next_to_emit + 1 })
    | false ↦ p
  ]

  abbrev pub overfull : Pipeline → Bool
  overfull p = ltb 0 max_buf && leb max_buf (length p.buffer)

  -- `drain`: its loop, and its call of itself after skipping, as one loop on fuel.
  unfoldable pub drain_loop : ℕ → Pipeline → Pipeline
  unfolding lookup emit skip
  drain_loop zero p = p
  drain_loop (suc fuel) p = elim (lookup p.next_to_emit p.buffer) [
    | some x ↦
        let (more, p') = emit x p in
        elim more [ true ↦ drain_loop fuel p' | false ↦ record p' { waiting = p'.waiting + 1 } ]
    | none ↦ elim (overfull p) [ true ↦ drain_loop fuel (skip (suc p.next_seq) p) | false ↦ p ]
  ]

  unfoldable pub drain : Pipeline → Pipeline
  unfolding drain_loop
  drain p = drain_loop (suc (2 * length p.buffer)) p

  unfoldable pub write_packet : Packet → Pipeline → Pipeline
  unfolding drain set
  write_packet x p =
      if not (w.writable p.input_stream)
      then p
      else if max_buf == 0
      then (let (more, stream) = w.write x p.input_stream in
          record p {
            input_stream = stream;
            waiting = if more then p.waiting else p.waiting + 1;
            written = p.written ++ x ∷ [];
          })
      else drain (record p { next_seq = p.next_seq + 1; buffer = set (p.next_seq + 1) x p.buffer })

  unfoldable pub repeat_drain : ℕ → Pipeline → Pipeline
  unfolding drain
  repeat_drain zero p = p
  repeat_drain (suc n) p = repeat_drain n (drain p)

  -- The stream's `drain` event: every listener is taken off and called.
  unfoldable pub on_drain : Pipeline → Pipeline
  unfolding repeat_drain
  on_drain p = repeat_drain p.waiting (record p { waiting = 0 })

  -- The flush of `stop`; what `write` answers is not looked at.
  unfoldable pub flush_loop : ℕ → Pipeline → Pipeline
  unfolding lookup emit
  flush_loop zero p = p
  flush_loop (suc fuel) p = elim (lookup p.next_to_emit p.buffer) [
    | some x ↦ flush_loop fuel (emit x p).1
    | none ↦ p
  ]

  unfoldable pub flush : Pipeline → Pipeline
  unfolding flush_loop
  flush p = if w.writable p.input_stream then flush_loop (suc (length p.buffer)) p else p

  unfoldable pub run_port : List (PortEvent Packet w.Stream) → Pipeline → Pipeline
  unfolding write_packet on_drain
  run_port [] p = p
  run_port (packet x ∷ es) p = run_port es (write_packet x p)
  run_port (changed stream ∷ es) p = run_port es (record p { input_stream = stream })
  run_port (drained ∷ es) p = run_port es (on_drain p)
