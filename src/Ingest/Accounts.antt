-- ===== src/Ingest/Accounts.antt =====
-- What a handler does to the buffers of `onPacket` and to the acquisitions.
use video_thingy_rocks.Common.{
  ℕ, ◌+◌, ◌*◌, ◌≤◌, ◌<◌, ◌≡◌, refl, sym, ap, subst, inl, inr, Bool, true, false, not, ◌&&◌, Option,
  none, some, List, [], ◌∷◌, ◌++◌, length, ◌==◌, if◌then◌else◌, arith, Bool-cases, length-append,
  All, PortMap,
}
use video_thingy_rocks.StreamState.{
  StreamEvent, stream_start, stream_resume, stream_stop, on_packet_received,
}
use video_thingy_rocks.Ingest.{
  Config, Buffer, concat, PreStartBuffer, Main, Call, try_acquire, release, update_last_packet_time,
  start, write_packet, stop, Waiting, acquiring, starting, updating, stopping, releasing,
  restarting, Turn,
}
use video_thingy_rocks.Ingest.Handlers.{feed, on_stream_start, receive}
use video_thingy_rocks.Ingest.Process.{Event, arrive}

module _ {A : Type 0} (P : A → Type 0) where
  pub All-append : (xs ys : List A) → All P xs → All P ys → All P (xs ++ ys)
  All-append [] ys h k = k
  All-append (x ∷ xs) ys (p, h) k = (p, All-append xs ys h k)

  pub All-if : (b : Bool) (xs ys : List A) → All P xs → All P ys → All P (if b then xs else ys)
  All-if true xs ys h k = h
  All-if false xs ys h k = k

pub length-concat :
    (cs : List Buffer) (b : Buffer) → length (concat (cs ++ b ∷ [])) ≡ length (concat cs) + length b
unfolding concat
length-concat [] b = omega (arith, length-append b [])
length-concat (x ∷ cs) b = omega (
  arith,
  length-append x (concat (cs ++ b ∷ [])),
  length-append x (concat cs),
  length-concat cs b,
)

-- The acquisitions of port `k`.
unfoldable pub acquires : ℕ → List Call → ℕ
acquires k [] = 0
acquires k (try_acquire port ∷ cs) = (if port == k then 1 else 0) + acquires k cs
acquires k (_ ∷ cs) = acquires k cs

-- The bytes that arrive on port `k`.
unfoldable pub arrived : ℕ → List Event → ℕ
arrived k [] = 0
arrived k (arrive port bytes timestamp now ∷ es) =
    (if port == k then length bytes else 0) + arrived k es
arrived k (_ ∷ es) = arrived k es

pub acquires-append :
    (k : ℕ) (xs ys : List Call) → acquires k (xs ++ ys) ≡ acquires k xs + acquires k ys
unfolding acquires
acquires-append k [] ys = omega arith
acquires-append k (try_acquire port ∷ xs) ys = omega (arith, acquires-append k xs ys)
acquires-append k (release port ∷ xs) ys = acquires-append k xs ys
acquires-append k (update_last_packet_time port ∷ xs) ys = acquires-append k xs ys
acquires-append k (start port initial ∷ xs) ys = acquires-append k xs ys
acquires-append k (write_packet port bytes ∷ xs) ys = acquires-append k xs ys
acquires-append k (stop port ∷ xs) ys = acquires-append k xs ys

-- Calls and handlers that have nothing to do with the buffer.
abbrev pub Quiet : Call → Type 0
Quiet (try_acquire port) = ⊥
Quiet (start port (some initial)) = ⊥
Quiet _ = Unit

abbrev pub QuietWait : Waiting → Type 0
QuietWait (acquiring port bytes timestamp initial) = ⊥
QuietWait _ = Unit

pub record QuietTurn (m : Main) (t : Turn) : Type 0 where
  pub kept : t.main.pre_start_buffer_by_port ≡ m.pre_start_buffer_by_port
  pub calls : All Quiet t.calls
  pub waits : All QuietWait t.waits

pub if-Quiet :
    (m : Main) (b : Bool) (t u : Turn)
    → QuietTurn m t
    → QuietTurn m u
    → QuietTurn m (if b then t else u)
if-Quiet m true t u h k = h
if-Quiet m false t u h k = k

pub acquires-Quiet : (k : ℕ) (cs : List Call) → All Quiet cs → acquires k cs ≡ 0
unfolding acquires
acquires-Quiet k [] h = refl
acquires-Quiet k (try_acquire port ∷ cs) (q, h) = elim q [ ]
acquires-Quiet k (release port ∷ cs) (q, h) = acquires-Quiet k cs h
acquires-Quiet k (update_last_packet_time port ∷ cs) (q, h) = acquires-Quiet k cs h
acquires-Quiet k (start port initial ∷ cs) (q, h) = acquires-Quiet k cs h
acquires-Quiet k (write_packet port bytes ∷ cs) (q, h) = acquires-Quiet k cs h
acquires-Quiet k (stop port ∷ cs) (q, h) = acquires-Quiet k cs h

module _ (c : Config) where
  pub feed-Quiet :
      (port : ℕ) (bytes : Buffer) (in_initial : Bool) (m : Main)
      → QuietTurn m (feed c port bytes in_initial m)
  unfolding feed
  feed-Quiet port bytes in_initial m =
      elim (Bool-cases (c.enabled && m.kinesis_lock_held_for_ports port && not in_initial)) [
        | inl e ↦ simp e (record { kept = refl; calls = (tt, tt); waits = tt })
        | inr e ↦ simp e (record { kept = refl; calls = tt; waits = tt })
      ]

  pub on_stream_start-Quiet :
      (m : Main) (events : List StreamEvent) → All Quiet (on_stream_start c m events)
  unfolding on_stream_start
  on_stream_start-Quiet m [] = tt
  on_stream_start-Quiet m (stream_start port ∷ events) =
      elim (Bool-cases (c.enabled && m.kinesis_lock_held_for_ports port)) [
        | inl e ↦ simp e (tt, on_stream_start-Quiet m events)
        | inr e ↦ simp e (on_stream_start-Quiet m events)
      ]
  on_stream_start-Quiet m (stream_resume port ∷ events) = on_stream_start-Quiet m events
  on_stream_start-Quiet m (stream_stop port duration ∷ events) = on_stream_start-Quiet m events

  pub receive-Quiet :
      (port : ℕ) (bytes : Buffer) (timestamp now : ℕ) (in_initial : Bool) (m : Main)
      → QuietTurn m (receive c port bytes timestamp now in_initial m)
  unfolding receive
  receive-Quiet port bytes timestamp now in_initial m =
      let r = on_packet_received c.inactivity_timeout port timestamp now m.streams in
      let m' : Main = record m { streams = r.0 } in
      let q = on_stream_start-Quiet m' r.1 in
      let f = feed-Quiet port bytes in_initial m' in
      if-Quiet m (m.kinesis_lock_held_for_ports port) _ _
        (record { kept = refl; calls = All-append Quiet _ _ q (tt, tt); waits = (tt, tt) })
        (record { kept = f.kept; calls = All-append Quiet _ _ q f.calls; waits = f.waits })

  -- What a turn of `n k` bytes on each port `k` does to the buffers and the acquisitions.
  abbrev pub Fits : Option PreStartBuffer → Type 0
  Fits none = Unit
  Fits (some b) =
      (b.total_bytes ≡ length (concat b.chunks)) × (b.total_bytes < c.min_bytes_before_start)

  abbrev pub buffered : Option PreStartBuffer → ℕ
  buffered none = 0
  buffered (some b) = b.total_bytes

  abbrev pub Whole : Waiting → Type 0
  Whole (acquiring port bytes timestamp initial) = c.min_bytes_before_start ≤ length initial
  Whole _ = Unit

  abbrev pub StartsWhole : Call → Type 0
  StartsWhole (start port (some initial)) = c.min_bytes_before_start ≤ length initial
  StartsWhole _ = Unit

  abbrev pub sum_on : ℕ → Buffer → ℕ → ℕ
  sum_on port bytes k = if port == k then length bytes else 0

  abbrev pub none_on : ℕ → ℕ
  none_on k = 0

  pub record Accounts (m : Main) (n : ℕ → ℕ) (t : Turn) : Type 0 where
    pub fits : (k : ℕ) → Fits (t.main.pre_start_buffer_by_port k)
    pub waits : All Whole t.waits
    pub starts : All StartsWhole t.calls
    pub count :
        (k : ℕ)
        → c.min_bytes_before_start * acquires k t.calls
            + buffered (t.main.pre_start_buffer_by_port k)
          ≤ buffered (m.pre_start_buffer_by_port k) + n k

  pub Quiet-StartsWhole : (cs : List Call) → All Quiet cs → All StartsWhole cs
  Quiet-StartsWhole [] h = tt
  Quiet-StartsWhole (try_acquire port ∷ cs) (q, h) = elim q [ ]
  Quiet-StartsWhole (release port ∷ cs) (q, h) = (tt, Quiet-StartsWhole cs h)
  Quiet-StartsWhole (update_last_packet_time port ∷ cs) (q, h) = (tt, Quiet-StartsWhole cs h)
  Quiet-StartsWhole (start port none ∷ cs) (q, h) = (tt, Quiet-StartsWhole cs h)
  Quiet-StartsWhole (start port (some b) ∷ cs) (q, h) = elim q [ ]
  Quiet-StartsWhole (write_packet port bytes ∷ cs) (q, h) = (tt, Quiet-StartsWhole cs h)
  Quiet-StartsWhole (stop port ∷ cs) (q, h) = (tt, Quiet-StartsWhole cs h)

  pub QuietWait-Whole : (ws : List Waiting) → All QuietWait ws → All Whole ws
  QuietWait-Whole [] h = tt
  QuietWait-Whole (acquiring port bytes timestamp initial ∷ ws) (q, h) = elim q [ ]
  QuietWait-Whole (starting port bytes timestamp ∷ ws) (q, h) = (tt, QuietWait-Whole ws h)
  QuietWait-Whole (updating port bytes in_initial ∷ ws) (q, h) = (tt, QuietWait-Whole ws h)
  QuietWait-Whole (stopping port bytes in_initial ∷ ws) (q, h) = (tt, QuietWait-Whole ws h)
  QuietWait-Whole (releasing port ∷ ws) (q, h) = (tt, QuietWait-Whole ws h)
  QuietWait-Whole (restarting port due ∷ ws) (q, h) = (tt, QuietWait-Whole ws h)

  -- A quiet turn after the buffers changed from those of `m` to those of `m'`.
  pub Quiet-Accounts :
      (m m' : Main) (n : ℕ → ℕ) (t : Turn)
      → ((k : ℕ) → Fits (m'.pre_start_buffer_by_port k))
      → ((k : ℕ)
          → buffered (m'.pre_start_buffer_by_port k)
            ≤ buffered (m.pre_start_buffer_by_port k) + n k)
      → QuietTurn m' t
      → Accounts m n t
  Quiet-Accounts m m' n t fits bound q = record {
    fits = λ k. subst (λ (b : PortMap PreStartBuffer). Fits (b k)) (sym q.kept) (fits k);
    waits = QuietWait-Whole t.waits q.waits;
    starts = Quiet-StartsWhole t.calls q.calls;
    count = λ k.
        (let e = ap (λ (b : PortMap PreStartBuffer). buffered (b k)) q.kept in
          rw (acquires-Quiet k t.calls q.calls) (omega (arith, e, bound k)));
  }
