-- ===== src/Ingest/Turns.antt =====
-- Each event and each answer, by what it does to the buffers and to the acquisitions.
use video_thingy_rocks.Common.{
  ℕ, ◌+◌, ◌*◌, ◌≤◌, ◌≡◌, refl, ap, ◌∙◌, inl, inr, true, false, Option, none, some, List, [], ◌∷◌,
  length, leb, ◌==◌, if◌then◌else◌, arith, Bool-cases, leb→le, length-append, All, PortMap, map_set,
  map_delete, get_or_else,
}
use video_thingy_rocks.StreamState.{StreamEvent, stream_start, stream_resume, stream_stop}
use video_thingy_rocks.Ingest.{
  Config, Buffer, concat, PreStartBuffer, Main, stop, Waiting, acquiring, starting, updating,
  stopping, releasing, restarting, Answer, acquired, done, lost_lock, throws, Turn,
}
use video_thingy_rocks.Ingest.Handlers.{
  set_held, is_buffering, push_chunk, empty_buffer, on_packet, resume, on_stream_stop, stopped,
}
use video_thingy_rocks.Ingest.Accounts.{
  length-concat, acquires, Quiet, QuietWait, QuietTurn, if-Quiet, All-if, feed-Quiet, receive-Quiet,
  Fits, buffered, Whole, sum_on, none_on, Accounts, Quiet-Accounts,
}

module _ (c : Config) where
  push_chunk-Fits :
      (bytes : Buffer) (o : Option PreStartBuffer)
      → Fits c o
      → (let b = push_chunk c bytes (get_or_else o (empty_buffer c)) in
          (b.total_bytes ≡ length (concat b.chunks))
          × (b.total_bytes ≡ buffered c o + length bytes))
  unfolding concat
  push_chunk-Fits bytes none h = (omega (arith, length-append bytes []), omega arith)
  push_chunk-Fits bytes (some b) (e, less) = (omega (arith, length-concat b.chunks bytes, e), refl)

  map_delete-Fits :
      (port k : ℕ) (m : PortMap PreStartBuffer) → Fits c (m k) → Fits c (map_delete m port k)
  map_delete-Fits port k m h = elim (Bool-cases (k == port)) [
    | inl e ↦ simp e tt
    | inr e ↦ simp e h
  ]

  map_delete-buffered :
      (port k : ℕ) (m : PortMap PreStartBuffer)
      → buffered c (map_delete m port k) ≤ buffered c (m k)
  map_delete-buffered port k m = elim (Bool-cases (k == port)) [
    | inl e ↦ simp e (omega arith)
    | inr e ↦ simp e (omega arith)
  ]

  map_set-Fits :
      (port k : ℕ) (b : PreStartBuffer) (m : PortMap PreStartBuffer)
      → Fits c (m k)
      → Fits c (some b)
      → Fits c (map_set m port b k)
  map_set-Fits port k b m h new = elim (Bool-cases (k == port)) [
    | inl e ↦ simp e new
    | inr e ↦ simp e h
  ]

  map_set-buffered :
      (port k : ℕ) (bytes : Buffer) (b : PreStartBuffer) (m : PortMap PreStartBuffer)
      → b.total_bytes ≡ buffered c (m port) + length bytes
      → buffered c (map_set m port b k) ≤ buffered c (m k) + sum_on c port bytes k
  map_set-buffered port k bytes b m total = elim (Bool-cases (k == port)) [
    | inl e ↦
        let same : port ≡ k = ground arith in
        let back : (port == k) ≡ true = ground arith in
        simp (e, back) (omega (arith, total, ap (λ (j : ℕ). buffered c (m j)) same))
    | inr e ↦ simp e (omega arith)
  ]

  -- An acquisition takes what was buffered.
  map_delete-count :
      (port k : ℕ) (bytes : Buffer) (m : PortMap PreStartBuffer)
      → c.min_bytes_before_start ≤ buffered c (m port) + length bytes
      → c.min_bytes_before_start * ((if port == k then 1 else 0) + 0)
          + buffered c (map_delete m port k)
        ≤ buffered c (m k) + sum_on c port bytes k
  map_delete-count port k bytes m full = elim (Bool-cases (k == port)) [
    | inl e ↦
        let same : port ≡ k = ground arith in
        let back : (port == k) ≡ true = ground arith in
        simp (e, back) (omega (arith, full, ap (λ (j : ℕ). buffered c (m j)) same))
    | inr e ↦ let back : (port == k) ≡ false = ground arith in simp (e, back) (omega arith)
  ]

  pub on_packet-Accounts :
      (port : ℕ) (bytes : Buffer) (timestamp now : ℕ) (m : Main)
      → ((k : ℕ) → Fits c (m.pre_start_buffer_by_port k))
      → Accounts c m (sum_on c port bytes) (on_packet c port bytes timestamp now m)
  unfolding on_packet acquires
  on_packet-Accounts port bytes timestamp now m fits =
      let old = m.pre_start_buffer_by_port port in
      let b : PreStartBuffer = push_chunk c bytes (get_or_else old (empty_buffer c)) in
      let (whole, total) = push_chunk-Fits bytes old (fits port) in
      elim (Bool-cases (is_buffering c port m)) [
        | inr e ↦ simp e (
            Quiet-Accounts c m m (sum_on c port bytes) _ fits (λ k. omega arith)
              (receive-Quiet c port bytes timestamp now false m))
        | inl e ↦ elim (Bool-cases (leb c.min_bytes_before_start b.total_bytes)) [
          | inl full ↦
              simp (e, full)
                (record {
                  fits = λ k. map_delete-Fits port k m.pre_start_buffer_by_port (fits k);
                  waits = (
                    omega (arith, whole, leb→le c.min_bytes_before_start b.total_bytes full),
                    tt,
                  );
                  starts = (tt, tt);
                  count = λ k.
                      map_delete-count port k bytes m.pre_start_buffer_by_port
                        (omega (arith, total, leb→le c.min_bytes_before_start b.total_bytes full));
                })
          | inr more ↦
              let m' : Main = record m {
                pre_start_buffer_by_port = map_set m.pre_start_buffer_by_port port b;
              } in
              simp (e, more)
                (Quiet-Accounts c m m' (sum_on c port bytes) _
                  (λ k.
                    map_set-Fits port k b m.pre_start_buffer_by_port (fits k) (whole, ground arith))
                  (λ k. map_set-buffered port k bytes b m.pre_start_buffer_by_port total)
                  (receive-Quiet c port bytes timestamp now false m'))
        ]
      ]

  pub same-Accounts :
      (m m' : Main) (t : Turn)
      → ((k : ℕ) → Fits c (m.pre_start_buffer_by_port k))
      → m'.pre_start_buffer_by_port ≡ m.pre_start_buffer_by_port
      → QuietTurn m' t
      → Accounts c m (none_on c) t
  same-Accounts m m' t fits e q =
      Quiet-Accounts c m m (none_on c) t fits (λ k. omega arith)
        (record { kept = q.kept ∙ e; calls = q.calls; waits = q.waits })

  -- A turn whose calls depend on a test.
  stop-Quiet :
      (port : ℕ) (m : Main) (ws : List Waiting)
      → All QuietWait ws
      → QuietTurn m
          (record { main = m; calls = if c.enabled then stop port ∷ [] else []; waits = ws })
  stop-Quiet port m ws h = record {
    kept = refl;
    calls = All-if Quiet c.enabled _ _ (tt, tt) tt;
    waits = h;
  }

  pub resume-Accounts :
      (w : Waiting) (a : Answer) (now : ℕ) (m : Main)
      → ((k : ℕ) → Fits c (m.pre_start_buffer_by_port k))
      → Whole c w
      → Accounts c m (none_on c) (resume c w a now m)
  unfolding resume acquires
  resume-Accounts (acquiring port bytes timestamp initial) (acquired true) now m fits h = record {
    fits = fits;
    waits = (tt, tt);
    starts = (h, tt);
    count = λ k. omega arith;
  }
  resume-Accounts (acquiring port bytes timestamp initial) (acquired false) now m fits h =
      same-Accounts m m _ fits refl (receive-Quiet c port bytes timestamp now true m)
  resume-Accounts (acquiring port bytes timestamp initial) done now m fits h =
      same-Accounts m m _ fits refl (receive-Quiet c port bytes timestamp now true m)
  resume-Accounts (acquiring port bytes timestamp initial) lost_lock now m fits h =
      same-Accounts m m _ fits refl (receive-Quiet c port bytes timestamp now true m)
  resume-Accounts (acquiring port bytes timestamp initial) throws now m fits h =
      same-Accounts m m _ fits refl (receive-Quiet c port bytes timestamp now true m)
  resume-Accounts (starting port bytes timestamp) a now m fits h =
      same-Accounts m m _ fits refl (receive-Quiet c port bytes timestamp now true m)
  resume-Accounts (updating port bytes in_initial) lost_lock now m fits h =
      same-Accounts m (set_held port false m) _ fits refl
        (stop-Quiet port (set_held port false m) _ (tt, tt))
  resume-Accounts (updating port bytes in_initial) (acquired b) now m fits h =
      same-Accounts m m _ fits refl (feed-Quiet c port bytes in_initial m)
  resume-Accounts (updating port bytes in_initial) done now m fits h =
      same-Accounts m m _ fits refl (feed-Quiet c port bytes in_initial m)
  resume-Accounts (updating port bytes in_initial) throws now m fits h =
      same-Accounts m m _ fits refl (feed-Quiet c port bytes in_initial m)
  resume-Accounts (stopping port bytes in_initial) a now m fits h =
      same-Accounts m m _ fits refl (feed-Quiet c port bytes in_initial m)
  resume-Accounts (releasing port) throws now m fits h =
      same-Accounts m m _ fits refl (record { kept = refl; calls = tt; waits = tt })
  resume-Accounts (releasing port) (acquired b) now m fits h =
      same-Accounts m (set_held port false m) _ fits refl (stop-Quiet port _ [] tt)
  resume-Accounts (releasing port) done now m fits h =
      same-Accounts m (set_held port false m) _ fits refl (stop-Quiet port _ [] tt)
  resume-Accounts (releasing port) lost_lock now m fits h =
      same-Accounts m (set_held port false m) _ fits refl (stop-Quiet port _ [] tt)
  resume-Accounts (restarting port due) a now m fits h =
      same-Accounts m m _ fits refl (record { kept = refl; calls = (tt, tt); waits = tt })

  on_stream_stop-Accounts :
      (port : ℕ) (m : Main)
      → ((k : ℕ) → Fits c (m.pre_start_buffer_by_port k))
      → Accounts c m (none_on c) (on_stream_stop c port m)
  unfolding on_stream_stop
  on_stream_stop-Accounts port m fits =
      let m' : Main = record m {
        pre_start_buffer_by_port = map_delete m.pre_start_buffer_by_port port;
      } in
      Quiet-Accounts c m m' (none_on c) _
        (λ k. map_delete-Fits port k m.pre_start_buffer_by_port (fits k))
        (λ k. omega (arith, map_delete-buffered port k m.pre_start_buffer_by_port))
        (if-Quiet m' (m.kinesis_lock_held_for_ports port) _ _
          (record { kept = refl; calls = (tt, tt); waits = (tt, tt) }) (stop-Quiet port m' [] tt))

  pub stopped-Accounts :
      (events : List StreamEvent) (m : Main)
      → ((k : ℕ) → Fits c (m.pre_start_buffer_by_port k))
      → Accounts c m (none_on c) (stopped c events m)
  stopped-Accounts [] m fits =
      same-Accounts m m _ fits refl (record { kept = refl; calls = tt; waits = tt })
  stopped-Accounts (stream_stop port duration ∷ events) m fits = on_stream_stop-Accounts port m fits
  stopped-Accounts (stream_start port ∷ events) m fits =
      same-Accounts m m _ fits refl (record { kept = refl; calls = tt; waits = tt })
  stopped-Accounts (stream_resume port ∷ events) m fits =
      same-Accounts m m _ fits refl (record { kept = refl; calls = tt; waits = tt })
