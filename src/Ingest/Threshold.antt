-- ===== src/Ingest/Threshold.antt =====
-- No stream is acquired, and no pipeline started with data, for less than the bytes asked for.
use video_thingy_rocks.Common.{
  ℕ, zero, suc, ◌+◌, ◌*◌, ◌≤◌, ◌≡◌, refl, ap, subst, ◌&&◌, Option, none, some, List, [], ◌∷◌, arith,
  All,
}
use mathlib.Core.Option.{some-injective}
use video_thingy_rocks.StreamState.{fire_timer}
use video_thingy_rocks.Ingest.{Config, Waiting, Answer, Turn}
use video_thingy_rocks.Ingest.Handlers.{is_active, resume, on_timer, on_pipeline_exited}
use video_thingy_rocks.Ingest.Process.{
  Process, Event, arrive, answer, inactivity, exited, take_turn, new_process, nth, remove, answered,
  handle_event, handle_events,
}
use video_thingy_rocks.Ingest.Accounts.{
  All-append, acquires, arrived, acquires-append, QuietWait, All-if, Fits, buffered, Whole,
  StartsWhole, sum_on, none_on, Accounts,
}
use video_thingy_rocks.Ingest.Turns.{
  on_packet-Accounts, resume-Accounts, stopped-Accounts, same-Accounts,
}

module _ (c : Config) where
  nth-Whole :
      (i : ℕ) (ws : List Waiting) (w : Waiting) → All (Whole c) ws → nth i ws ≡ some w → Whole c w
  unfolding nth
  nth-Whole i [] w h e = absurd cc
  nth-Whole zero (v ∷ ws) w (p, h) e = subst (Whole c) (some-injective v w e) p
  nth-Whole (suc i) (v ∷ ws) w (p, h) e = nth-Whole i ws w h e

  remove-Whole : (i : ℕ) (ws : List Waiting) → All (Whole c) ws → All (Whole c) (remove i ws)
  unfolding remove
  remove-Whole i [] h = tt
  remove-Whole zero (v ∷ ws) (p, h) = h
  remove-Whole (suc i) (v ∷ ws) (p, h) = (p, remove-Whole i ws h)

  -- What holds after the events that brought `n k` bytes to each port `k`.
  record Kept (n : ℕ → ℕ) (p : Process) : Type 0 where
    fits : (k : ℕ) → Fits c (p.main.pre_start_buffer_by_port k)
    waits : All (Whole c) p.waiting
    starts : All (StartsWhole c) p.calls
    count :
        (k : ℕ)
        → c.min_bytes_before_start * acquires k p.calls
            + buffered c (p.main.pre_start_buffer_by_port k)
          ≤ n k

  take_turn-Kept :
      (p : Process) (rest : List Waiting) (n n' : ℕ → ℕ) (t : Turn)
      → Kept n p
      → All (Whole c) rest
      → Accounts c p.main n' t
      → Kept (λ k. n k + n' k) (take_turn p rest t)
  take_turn-Kept p rest n n' t h ws a = record {
    fits = a.fits;
    waits = All-append (Whole c) rest t.waits ws a.waits;
    starts = All-append (StartsWhole c) p.calls t.calls h.starts a.starts;
    count = λ k.
        (let e = ap (λ (j : ℕ). c.min_bytes_before_start * j) (acquires-append k p.calls t.calls) in
          grind (arith, e, h.count k, a.count k));
  }

  answered-Kept :
      (i : ℕ) (a : Answer) (now : ℕ) (p : Process) (n : ℕ → ℕ) (o : Option Waiting)
      → nth i p.waiting ≡ o
      → Kept n p
      → Kept (λ k. n k + 0) (answered c p (remove i p.waiting) a now o)
  answered-Kept i a now p n none e h = record {
    fits = h.fits;
    waits = h.waits;
    starts = h.starts;
    count = λ k. omega (arith, h.count k);
  }
  answered-Kept i a now p n (some w) e h =
      take_turn-Kept p (remove i p.waiting) n (none_on c) (resume c w a now p.main) h
        (remove-Whole i p.waiting h.waits)
        (resume-Accounts c w a now p.main h.fits (nth-Whole i p.waiting w h.waits e))

  bytes_of : Event → ℕ → ℕ
  bytes_of (arrive port bytes timestamp now) = sum_on c port bytes
  bytes_of _ = none_on c

  handle_event-Kept :
      (e : Event) (p : Process) (n : ℕ → ℕ)
      → Kept n p
      → Kept (λ k. n k + bytes_of e k) (handle_event c e p)
  unfolding handle_event bytes_of on_timer on_pipeline_exited
  handle_event-Kept (arrive port bytes timestamp now) p n h =
      take_turn-Kept p p.waiting n (sum_on c port bytes) _ h h.waits
        (on_packet-Accounts c port bytes timestamp now p.main h.fits)
  handle_event-Kept (answer i a now) p n h = answered-Kept i a now p n (nth i p.waiting) refl h
  handle_event-Kept (inactivity port now) p n h =
      let r = fire_timer port now p.main.streams in
      let a = stopped-Accounts c r.1 (record p.main { streams = r.0 }) h.fits in
      take_turn-Kept p p.waiting n (none_on c) _ h h.waits
        (record { fits = a.fits; waits = a.waits; starts = a.starts; count = a.count })
  handle_event-Kept (exited port now) p n h = take_turn-Kept p p.waiting n (none_on c) _ h h.waits (
      same-Accounts c p.main p.main _ h.fits refl (record {
        kept = refl;
        calls = tt;
        waits =
            All-if QuietWait
              (c.enabled && is_active c (p.main.streams.streams port) && c.in_range port) _ _
              (tt, tt) tt;
      }))

  recount : (n n' : ℕ → ℕ) (p : Process) → ((k : ℕ) → n k ≡ n' k) → Kept n p → Kept n' p
  recount n n' p e h = record {
    fits = h.fits;
    waits = h.waits;
    starts = h.starts;
    count = λ k. omega (arith, e k, h.count k);
  }

  bytes_of-arrived :
      (e : Event) (es : List Event) (k : ℕ) → arrived k (e ∷ es) ≡ bytes_of e k + arrived k es
  unfolding arrived bytes_of
  bytes_of-arrived (arrive port bytes timestamp now) es k = refl
  bytes_of-arrived (answer i a now) es k = omega arith
  bytes_of-arrived (inactivity port now) es k = omega arith
  bytes_of-arrived (exited port now) es k = omega arith

  handle_events-Kept :
      (es : List Event) (p : Process) (n : ℕ → ℕ)
      → Kept n p
      → Kept (λ k. n k + arrived k es) (handle_events c es p)
  unfolding handle_events
  handle_events-Kept [] p n h =
      recount n (λ k. n k + arrived k []) p (λ k. unfold arrived in (omega arith)) h
  handle_events-Kept (e ∷ es) p n h =
      recount _ (λ k. n k + arrived k (e ∷ es)) _ (λ k. omega (arith, bytes_of-arrived e es k))
        (handle_events-Kept es (handle_event c e p) (λ k. n k + bytes_of e k)
          (handle_event-Kept e p n h))

  -- However the packets, the answers, the timers and the exits of pipelines interleave: the locks that
  -- are asked for on a port, times the bytes wanted before a start, are no more than the bytes that
  -- arrived on that port; and every pipeline that is started with data is started with at least the
  -- bytes wanted.
  pub handle_events-threshold :
      (es : List Event) (k : ℕ)
      → (let p = handle_events c es new_process in
          (c.min_bytes_before_start * acquires k p.calls ≤ arrived k es)
          × All (StartsWhole c) p.calls)
  handle_events-threshold es k =
      let start_empty : Kept (none_on c) new_process = record {
        fits = λ j. tt;
        waits = tt;
        starts = tt;
        count = λ j. unfold acquires in (omega arith);
      } in
      let h = handle_events-Kept es new_process (none_on c) start_empty in
      (omega (arith, h.count k), h.starts)
