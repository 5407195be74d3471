-- ===== src/Pipeline/Reorder/Drain.antt =====
-- `drain` writes the numbered packets of the buffer in their order, until the stream is full.
use video_thingy_rocks.Common.{
  ℕ, zero, suc, ◌+◌, ◌*◌, ◌<◌, ◌≡◌, refl, sym, ap, ◌∙◌, ◌⊎◌, inl, inr, true, false, none, some,
  List, [], ◌∷◌, ◌++◌, length, arith, Bool-cases, length-append,
}
use mathlib.Core.List.{append-nil, append_assoc}
use video_thingy_rocks.Pipeline.Reorder.{
  Writable, lookup, delete, set, Pipeline, emit, overfull, drain_loop, drain, flush_loop, flush,
}

pub not_less : (n : ℕ) → ¬ (n < 0)
not_less n = omega arith

module _ {Packet : Type 0} where
  -- Packets under consecutive numbers.
  unfoldable pub number : ℕ → List Packet → List (ℕ × Packet)
  number k [] = []
  number k (x ∷ xs) = (k, x) ∷ number (k + 1) xs

  unfoldable pub packets : List (ℕ × Packet) → List Packet
  packets [] = []
  packets ((k, x) ∷ m) = x ∷ packets m

  pub packets-number : (k : ℕ) (xs : List Packet) → packets (number k xs) ≡ xs
  unfolding packets number
  packets-number k [] = refl
  packets-number k (x ∷ xs) = ap (λ (ys : List Packet). x ∷ ys) (packets-number (k + 1) xs)

  length-number : (k : ℕ) (xs : List Packet) → length (number k xs) ≡ length xs
  unfolding number
  length-number k [] = refl
  length-number k (x ∷ xs) = omega (arith, length-number (k + 1) xs)

  lookup-number : (k : ℕ) (x : Packet) (xs : List Packet) → lookup k (number k (x ∷ xs)) ≡ some x
  unfolding lookup number
  lookup-number k x xs = ground arith

  lookup-number_empty : (k : ℕ) → lookup k (number k []) ≡ none
  unfolding lookup number
  lookup-number_empty k = refl

  delete-number :
      (k : ℕ) (x : Packet) (xs : List Packet) → delete k (number k (x ∷ xs)) ≡ number (k + 1) xs
  unfolding delete number
  delete-number k x xs = ground arith

  pub set-number :
      (k j : ℕ) (x : Packet) (xs : List Packet)
      → k + length xs ≡ j
      → set j x (number k xs) ≡ number k (xs ++ x ∷ [])
  unfolding set number
  set-number k j x [] h = ground arith
  set-number k j x (y ∷ xs) h = ground (arith, set-number (k + 1) j x xs (omega arith))

module _ {Packet : Type 0} (w : Writable Packet) where
  -- The packets `xs` are in the buffer, the next to leave first.
  pub record Holds (p : Pipeline w 0) (xs : List Packet) : Type 0 where
    pub buffer : p.buffer ≡ number p.next_to_emit xs
    pub next : p.next_to_emit + length xs ≡ p.next_seq + 1

  pub emit-Holds :
      (x : Packet) (xs : List Packet) (p : Pipeline w 0)
      → Holds p (x ∷ xs)
      → Holds (emit w 0 x p).1 xs
  unfolding emit
  emit-Holds x xs p h = record {
    buffer = ap (delete p.next_to_emit) h.buffer ∙ delete-number p.next_to_emit x xs;
    next = omega (arith, h.next);
  }

  pub set-Holds :
      (x : Packet) (p : Pipeline w 0) (xs : List Packet)
      → Holds p xs
      → Holds
          (record p { next_seq = p.next_seq + 1; buffer = set (p.next_seq + 1) x p.buffer })
          (xs ++ x ∷ [])
  set-Holds x p xs h = record {
    buffer =
        ap (set (p.next_seq + 1) x) h.buffer
        ∙ set-number p.next_to_emit (p.next_seq + 1) x xs h.next;
    next = omega (arith, length-append xs (x ∷ []), h.next);
  }

  -- What draining leaves of the packets `xs`, in order, and that it waits for the stream if anything is
  -- left.
  pub record Drains (p : Pipeline w 0) (xs : List Packet) (r : Pipeline w 0) : Type 0 where
    pub out : List Packet
    pub left : List Packet
    pub split : out ++ left ≡ xs
    pub wrote : r.written ≡ p.written ++ out
    pub holds : Holds r left
    pub settled : (left ≡ []) ⊎ (0 < r.waiting)

  emit-Drains :
      (x : Packet) (xs : List Packet) (p r : Pipeline w 0)
      → Drains (emit w 0 x p).1 xs r
      → Drains p (x ∷ xs) r
  unfolding emit
  emit-Drains x xs p r d = record {
    out = x ∷ d.out;
    left = d.left;
    split = ap (λ (ys : List Packet). x ∷ ys) d.split;
    wrote = d.wrote ∙ append_assoc p.written (x ∷ []) d.out;
    holds = d.holds;
    settled = d.settled;
  }

  pub lookup-Holds :
      (x : Packet) (xs : List Packet) (p : Pipeline w 0)
      → Holds p (x ∷ xs)
      → lookup p.next_to_emit p.buffer ≡ some x
  lookup-Holds x xs p h = ap (lookup p.next_to_emit) h.buffer ∙ lookup-number p.next_to_emit x xs

  pub lookup-Holds_empty : (p : Pipeline w 0) → Holds p [] → lookup p.next_to_emit p.buffer ≡ none
  lookup-Holds_empty p h = ap (lookup p.next_to_emit) h.buffer ∙ lookup-number_empty p.next_to_emit

  pub length-Holds :
      (xs : List Packet) (p : Pipeline w 0) → Holds p xs → length p.buffer ≡ length xs
  length-Holds xs p h =
      ap (λ (m : List (ℕ × Packet)). length m) h.buffer ∙ length-number p.next_to_emit xs

  module _ (b : ℕ) where
    pub overfull-Holds : (p : Pipeline w 0) → Holds p [] → overfull w b p ≡ false
    overfull-Holds p h = ground (arith, length-Holds [] p h)

    drain_loop-Drains :
        (fuel : ℕ) (xs : List Packet) (p : Pipeline w 0)
        → length xs < fuel
        → Holds p xs
        → Drains p xs (drain_loop w b fuel p)
    unfolding drain_loop
    drain_loop-Drains zero xs p less h = elim (not_less (length xs) less) [ ]
    drain_loop-Drains (suc fuel) [] p less h =
        rw (lookup-Holds_empty p h, overfull-Holds p h, drain_loop)
          (record {
            out = [];
            left = [];
            split = refl;
            wrote = sym (append-nil p.written);
            holds = h;
            settled = inl refl;
          })
    drain_loop-Drains (suc fuel) (x ∷ xs) p less h = elim (Bool-cases (emit w b x p).0) [
      | inl e ↦
          rw (lookup-Holds x xs p h, e, drain_loop)
            (emit-Drains x xs p _
              (drain_loop-Drains fuel xs (emit w b x p).1 (omega arith) (emit-Holds x xs p h)))
      | inr e ↦
          rw (lookup-Holds x xs p h, e, drain_loop)
            (emit-Drains x xs p _ (record {
              out = [];
              left = xs;
              split = refl;
              wrote = sym (append-nil (emit w b x p).1.written);
              holds = (let k = emit-Holds x xs p h in record { buffer = k.buffer; next = k.next });
              settled = inr (omega arith);
            }))
    ]

    -- From a buffer of consecutively numbered packets, `drain` writes the first of them in their order,
    -- keeps the others numbered, and while any is left has registered a `drain` listener.
    pub drain-Drains :
        (xs : List Packet) (p : Pipeline w 0) → Holds p xs → Drains p xs (drain w b p)
    unfolding drain
    drain-Drains xs p h =
        drain_loop-Drains (suc (2 * length p.buffer)) xs p (omega (arith, length-Holds xs p h)) h

  flush_loop-written :
      (b fuel : ℕ) (xs : List Packet) (p : Pipeline w 0)
      → length xs < fuel
      → Holds p xs
      → (flush_loop w b fuel p).written ≡ p.written ++ xs
  unfolding flush_loop emit
  flush_loop-written b zero xs p less h = elim (not_less (length xs) less) [ ]
  flush_loop-written b (suc fuel) [] p less h =
      rw (lookup-Holds_empty p h, flush_loop) (sym (append-nil p.written))
  flush_loop-written b (suc fuel) (x ∷ xs) p less h =
      rw (lookup-Holds x xs p h, flush_loop)
        (flush_loop-written b fuel xs (emit w b x p).1 (omega arith) (emit-Holds x xs p h)
          ∙ append_assoc p.written (x ∷ []) xs)

  -- `stop` writes the numbered packets of the buffer, all of them and in their order, when the stream is
  -- open.
  pub flush-written :
      (b : ℕ) (xs : List Packet) (p : Pipeline w 0)
      → w.writable p.input_stream ≡ true
      → Holds p xs
      → (flush w b p).written ≡ p.written ++ xs
  unfolding flush
  flush-written b xs p e h =
      simp e
        (flush_loop-written b (suc (length p.buffer)) xs p (omega (arith, length-Holds xs p h)) h)
