-- ===== src/Pipeline/Reorder/Immediate.antt =====
-- Which packets a pipeline has written, and what the size of its buffer changes.
use video_thingy_rocks.Common.{
  ℕ, zero, suc, ◌+◌, ◌*◌, ◌<◌, ◌≡◌, refl, sym, ap, ◌∙◌, inl, inr, false, List, [], ◌∷◌, ◌++◌,
  length, ◌==◌, if◌then◌else◌, arith, Bool-cases,
}
use mathlib.Core.List.{append-nil, append_assoc}
use video_thingy_rocks.Pipeline.Reorder.{
  Writable, delete, new_pipeline, Pipeline, emit, drain_loop, drain, write_packet, repeat_drain,
  on_drain, PortEvent, packet, changed, drained, run_port,
}
use video_thingy_rocks.Pipeline.Reorder.Drain.{
  number, Holds, emit-Holds, set-Holds, lookup-Holds, lookup-Holds_empty, length-Holds,
  overfull-Holds,
}

module _ {Packet : Type 0} (w : Writable Packet) where
  -- A pipeline apart from its numbers.
  abbrev pub unbuffered : Pipeline w 0 → Pipeline w 0
  unbuffered p = record p { next_seq = 0; next_to_emit = 1; buffer = [] }

  -- The packets that find the stream open, each written as it comes; the others are dropped.
  unfoldable pub accepted : List (PortEvent Packet w.Stream) → w.Stream → List Packet
  accepted [] stream = []
  accepted (packet x ∷ es) stream =
      (if w.writable stream then x ∷ [] else [])
      ++ accepted es (if w.writable stream then (w.write x stream).1 else stream)
  accepted (changed stream' ∷ es) stream = accepted es stream'
  accepted (drained ∷ es) stream = accepted es stream

  abbrev write_on : ℕ → Packet → Pipeline w 0 → Pipeline w 0
  write_on n x p =
      let (more, stream) = w.write x p.input_stream in
      record p {
        next_seq = n;
        next_to_emit = p.next_to_emit + 1;
        buffer = [];
        input_stream = stream;
        waiting = if more then p.waiting else p.waiting + 1;
        written = p.written ++ x ∷ [];
      }

  module _ (b : ℕ) where
    drain_loop-idle : (fuel : ℕ) (p : Pipeline w 0) → Holds w p [] → drain_loop w b (suc fuel) p ≡ p
    unfolding drain_loop
    drain_loop-idle fuel p h =
        rw (lookup-Holds_empty w p h, overfull-Holds w b p h, drain_loop) refl

    repeat_drain-idle : (n : ℕ) (p : Pipeline w 0) → Holds w p [] → repeat_drain w b n p ≡ p
    unfolding repeat_drain drain
    repeat_drain-idle zero p h = refl
    repeat_drain-idle (suc n) p h =
        rw (drain_loop-idle (2 * length p.buffer) p h) (repeat_drain-idle n p h)

    -- The one packet of a buffer is written.
    drain_loop-one :
        (fuel : ℕ) (x : Packet) (p : Pipeline w 0)
        → Holds w p (x ∷ [])
        → drain_loop w b (suc (suc fuel)) p ≡ (
            if (emit w b x p).0
            then (emit w b x p).1
            else record (emit w b x p).1 { waiting = p.waiting + 1 })
    unfolding drain_loop
    drain_loop-one fuel x p h = elim (Bool-cases (emit w b x p).0) [
      | inr e ↦ rw (lookup-Holds w x [] p h, e, drain_loop) refl
      | inl e ↦
          rw (lookup-Holds w x [] p h, e, drain_loop)
            (drain_loop-idle fuel (emit w b x p).1 (emit-Holds w x [] p h))
    ]

    drain-one :
        (x : Packet) (p : Pipeline w 0) → Holds w p (x ∷ []) → drain w b p ≡ write_on p.next_seq x p
    unfolding drain emit number
    drain-one x p h =
        ap (λ (n : ℕ). drain_loop w b (suc (2 * n)) p) (length-Holds w (x ∷ []) p h)
        ∙ drain_loop-one 1 x p h
        ∙ (let e : delete p.next_to_emit p.buffer ≡ [] = (emit-Holds w x [] p h).buffer in
            elim (Bool-cases (w.write x p.input_stream).0) [
              | inl more ↦ simp (e, more) refl
              | inr full ↦ simp (e, full) refl
            ])

    write_packet-on :
        (x : Packet) (p : Pipeline w 0)
        → 0 < b
        → Holds w p []
        → write_packet w b x p
          ≡ (if w.writable p.input_stream then write_on (p.next_seq + 1) x p else p)
    unfolding write_packet
    write_packet-on x p pos h = elim (Bool-cases (w.writable p.input_stream)) [
      | inr e ↦ simp e refl
      | inl e ↦
          let k : (b == 0) ≡ false = ground arith in
          simp (e, k) (drain-one x _ (set-Holds w x p [] h))
    ]

    write_on-Holds :
        (x : Packet) (p : Pipeline w 0)
        → Holds w p []
        → Holds w (if w.writable p.input_stream then write_on (p.next_seq + 1) x p else p) []
    unfolding number
    write_on-Holds x p h = elim (Bool-cases (w.writable p.input_stream)) [
      | inl e ↦ simp e (record { buffer = refl; next = omega (arith, h.next) })
      | inr e ↦ simp e h
    ]

    write_packet-unbuffered :
        (x : Packet) (p : Pipeline w 0)
        → unbuffered (if w.writable p.input_stream then write_on (p.next_seq + 1) x p else p)
          ≡ write_packet w 0 x (unbuffered p)
    unfolding write_packet
    write_packet-unbuffered x p = elim (Bool-cases (w.writable p.input_stream)) [
      | inl e ↦ simp e refl
      | inr e ↦ simp e refl
    ]

    on_drain-idle : (p : Pipeline w 0) → Holds w p [] → on_drain w b p ≡ record p { waiting = 0 }
    unfolding on_drain
    on_drain-idle p h =
        repeat_drain-idle p.waiting (record p { waiting = 0 })
          (record { buffer = h.buffer; next = h.next })

  module _ (b : ℕ) where
    -- A pipeline with a buffer has nothing in it.
    run_port-Holds :
        (es : List (PortEvent Packet w.Stream)) (p : Pipeline w 0)
        → 0 < b
        → Holds w p []
        → Holds w (run_port w b es p) []
    unfolding run_port
    run_port-Holds [] p pos h = h
    run_port-Holds (packet x ∷ es) p pos h =
        rw (write_packet-on b x p pos h) (run_port-Holds es _ pos (write_on-Holds b x p h))
    run_port-Holds (changed stream ∷ es) p pos h =
        run_port-Holds es (record p { input_stream = stream }) pos
          (record { buffer = h.buffer; next = h.next })
    run_port-Holds (drained ∷ es) p pos h = rw (on_drain-idle b p h) (
        run_port-Holds es (record p { waiting = 0 }) pos
          (record { buffer = h.buffer; next = h.next }))

    run_port-unbuffered :
        (es : List (PortEvent Packet w.Stream)) (p : Pipeline w 0)
        → 0 < b
        → Holds w p []
        → unbuffered (run_port w b es p) ≡ run_port w 0 es (unbuffered p)
    unfolding run_port number
    run_port-unbuffered [] p pos h = refl
    run_port-unbuffered (packet x ∷ es) p pos h =
        ap (λ (r : Pipeline w 0). unbuffered (run_port w b es r)) (write_packet-on b x p pos h)
        ∙ run_port-unbuffered es _ pos (write_on-Holds b x p h)
        ∙ ap (run_port w 0 es) (write_packet-unbuffered b x p)
    run_port-unbuffered (changed stream ∷ es) p pos h =
        run_port-unbuffered es (record p { input_stream = stream }) pos
          (record { buffer = h.buffer; next = h.next })
    run_port-unbuffered (drained ∷ es) p pos h =
        ap (λ (r : Pipeline w 0). unbuffered (run_port w b es r)) (on_drain-idle b p h)
        ∙ run_port-unbuffered es (record p { waiting = 0 }) pos
            (record { buffer = h.buffer; next = h.next })
        ∙ ap (run_port w 0 es)
            (sym (on_drain-idle 0 (unbuffered p) (record { buffer = refl; next = refl })))

    -- A buffer of any size above 0 is empty after every event, and apart from its sequence numbers the
    -- pipeline is as one without a buffer: it has written the same packets, its stream is the same and
    -- as many `drain` listeners wait.
    pub run_port-immediate :
        (es : List (PortEvent Packet w.Stream)) (stream : w.Stream)
        → 0 < b
        → ((run_port w b es (new_pipeline stream)).buffer ≡ [])
          × (unbuffered (run_port w b es (new_pipeline stream))
              ≡ run_port w 0 es (new_pipeline stream))
    unfolding number
    run_port-immediate es stream pos =
        let h : Holds w (new_pipeline stream) [] = record { buffer = refl; next = refl } in
        (
          (run_port-Holds es (new_pipeline stream) pos h).buffer,
          run_port-unbuffered es (new_pipeline stream) pos h,
        )

    accepted-written :
        (es : List (PortEvent Packet w.Stream)) (p : Pipeline w 0)
        → 0 < b
        → Holds w p []
        → (run_port w b es p).written ≡ p.written ++ accepted es p.input_stream
    unfolding run_port accepted
    accepted-written [] p pos h = sym (append-nil p.written)
    accepted-written (packet x ∷ es) p pos h =
        ap (λ (r : Pipeline w 0). (run_port w b es r).written) (write_packet-on b x p pos h)
        ∙ accepted-written es _ pos (write_on-Holds b x p h)
        ∙ elim (Bool-cases (w.writable p.input_stream)) [
          | inl e ↦ simp e (append_assoc p.written (x ∷ []) _)
          | inr e ↦ simp e refl
        ]
    accepted-written (changed stream ∷ es) p pos h =
        accepted-written es (record p { input_stream = stream }) pos
          (record { buffer = h.buffer; next = h.next })
    accepted-written (drained ∷ es) p pos h =
        ap (λ (r : Pipeline w 0). (run_port w b es r).written) (on_drain-idle b p h)
        ∙ accepted-written es (record p { waiting = 0 }) pos
            (record { buffer = h.buffer; next = h.next })

    -- A pipeline with a buffer has written exactly the packets that found the stream open when they came,
    -- in the order they came in.
    pub run_port-written :
        (es : List (PortEvent Packet w.Stream)) (stream : w.Stream)
        → 0 < b
        → (run_port w b es (new_pipeline stream)).written ≡ accepted es stream
    unfolding number
    run_port-written es stream pos =
        accepted-written es (new_pipeline stream) pos (record { buffer = refl; next = refl })
