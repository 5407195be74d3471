-- ===== src/HelperPort/Once.antt =====
-- Nothing that an SRTP port accepted is accepted by a later session of it.
use video_thingy_rocks.Common.{
  ℕ, ◌<◌, ◌≡◌, refl, Bool, true, false, Option, none, some, List, [], ◌∷◌, arith, All, Bool-cases,
  inl, inr,
}
use video_thingy_rocks.HelperProtocol.Emit.{Emission}
use video_thingy_rocks.HelperPort.{
  Counters, record_authenticated, record_seq, advance, accept, index_of, raised, not_above,
  local_of,
}
use video_thingy_rocks.HelperPort.Session.{
  Settings, SrtpPort, reset_session, on_input, on_authenticated,
}
use video_thingy_rocks.HelperPort.Handlers.{
  Event, arrives, authenticates, requests_key, ticks, starts, fails, stops, flushed, Outcome,
  without_packet, accepted_index, handle_event, prepend_index, run_port,
}
use video_thingy_rocks.HelperPort.Keeps.{
  IndexLe, IndexLe-refl, IndexLe-trans, Below, Below-mono, Keeps, Keeps-trans, same-Keeps,
  on_request_key-Keeps, tick-Keeps, cmd_start-Keeps, cmd_stop-Keeps, finish_stop-Keeps,
  on_pipeline_error-Keeps, raised_floor-covers,
}

-- A packet that is accepted lies above the floor, and is counted.
abbrev AcceptedAt : Option ℕ → Option ℕ → Option ℕ → Type 0
AcceptedAt floor h none = Unit
AcceptedAt floor h (some i) = Below floor i × IndexLe (some i) h

record Accounts (floor : Option ℕ) (c : Counters) (i : ℕ) (r : Bool × Counters) : Type 0 where
  rises : IndexLe c.highest_index r.1.highest_index
  accepted : r.0 ≡ true → Below floor i × IndexLe (some i) r.1.highest_index

raised-rises : (h : Option ℕ) (i : ℕ) → IndexLe h (raised h i)
raised-rises none i = tt
raised-rises (some h) i = ground arith

raised-covers : (h : Option ℕ) (i : ℕ) → IndexLe (some i) (raised h i)
raised-covers none i = omega arith
raised-covers (some h) i = ground arith

not_above-Below : (floor : Option ℕ) (i : ℕ) → not_above floor i ≡ false → Below floor i
not_above-Below none i h = tt
not_above-Below (some floor) i h = ground arith

module _ (floor : Option ℕ) (now seq : ℕ) (c : Counters) where
  record_seq-Accounts : Accounts floor c (index_of c seq) (record_seq floor now seq c)
  unfolding record_seq advance accept
  record_seq-Accounts =
      let i = index_of c seq in
      let tracked = advance (local_of c.roc c.highest_seq seq) i seq c in
      let same : tracked.highest_index ≡ c.highest_index = ground arith in
      elim (Bool-cases (not_above floor i)) [
        | inl stale ↦
            rw stale (record { rises = rw same (IndexLe-refl c.highest_index); accepted = λ e. cc })
        | inr fresh ↦ rw fresh (record {
          rises = rw same (raised-rises c.highest_index i);
          accepted =
              λ e. (not_above-Below floor i fresh, rw same (raised-covers c.highest_index i));
        })
      ]

pub All-below_highest :
    (h floor : Option ℕ) (is js : List ℕ)
    → All (λ i. IndexLe (some i) h) is
    → IndexLe h floor
    → All (Below floor) js
    → All (λ j. All (λ i. i < j) is) js
All-below_highest h floor is [] k le a = tt
All-below_highest h floor is (j ∷ js) k le (b, a) =
    (go is k, All-below_highest h floor is js k le a)
  where
    go : (is : List ℕ) → All (λ i. IndexLe (some i) h) is → All (λ i. i < j) is
    go [] k = tt
    go (i ∷ is) (k, ks) =
        (Below-mono (some i) floor j (IndexLe-trans (some i) h floor k le) b, go is ks)

module _ (args : Settings) where
  record Handles (p : SrtpPort) (o : Outcome) : Type 0 where
    keeps : Keeps p ([], o.port)
    accepted : AcceptedAt p.floor o.port.counters.highest_index o.accepted

  quiet-Handles :
      (p : SrtpPort) (r : List Emission × SrtpPort) → Keeps p r → Handles p (without_packet r)
  quiet-Handles p (frames, q) k = record {
    keeps = record { floor = k.floor; highest = k.highest };
    accepted = tt;
  }

  authenticates-Handles :
      (now : ℕ) (seq : Option ℕ) (p : SrtpPort)
      → Handles p (handle_event args (authenticates now seq) p)
  unfolding handle_event on_authenticated record_authenticated
  authenticates-Handles now none p = record {
    keeps = same-Keeps p ([], p) refl refl;
    accepted = tt;
  }
  authenticates-Handles now (some seq) p =
      let a = record_seq-Accounts p.floor now seq p.counters in
      record {
        keeps = record { floor = IndexLe-refl p.floor; highest = a.rises };
        accepted = go (record_seq p.floor now seq p.counters) a.accepted;
      }
    where
      go :
          (r : Bool × Counters)
          → (r.0 ≡ true
              → Below p.floor (index_of p.counters seq)
                × IndexLe (some (index_of p.counters seq)) r.1.highest_index)
          → AcceptedAt p.floor r.1.highest_index (accepted_index r.0 p (some seq))
      go (true, c) h = h refl
      go (false, c) h = tt

  handle_event-Handles : (e : Event) (p : SrtpPort) → Handles p (handle_event args e p)
  unfolding handle_event on_input
  handle_event-Handles (arrives size) p = quiet-Handles p _ (same-Keeps p _ refl refl)
  handle_event-Handles (authenticates now seq) p = authenticates-Handles now seq p
  handle_event-Handles (requests_key ssrc) p = quiet-Handles p _ (on_request_key-Keeps args ssrc p)
  handle_event-Handles (ticks now drops) p = quiet-Handles p _ (tick-Keeps args now drops p)
  handle_event-Handles (starts now) p = quiet-Handles p _ (cmd_start-Keeps args now p)
  handle_event-Handles (fails now) p = quiet-Handles p _ (on_pipeline_error-Keeps args now p)
  handle_event-Handles stops p = quiet-Handles p _ (cmd_stop-Keeps args p)
  handle_event-Handles (flushed now) p = quiet-Handles p _ (finish_stop-Keeps args now p)

  pub record Runs (p : SrtpPort) (r : List ℕ × SrtpPort) : Type 0 where
    pub keeps : Keeps p ([], r.1)
    pub above : All (Below p.floor) r.0
    pub counted : All (λ i. IndexLe (some i) r.1.counters.highest_index) r.0

  Below-all : (a b : Option ℕ) (is : List ℕ) → IndexLe a b → All (Below b) is → All (Below a) is
  Below-all a b [] h k = tt
  Below-all a b (i ∷ is) h (k, ks) = (Below-mono a b i h k, Below-all a b is h ks)

  prepend-Runs :
      (p : SrtpPort) (o : Outcome) (r : List ℕ × SrtpPort)
      → Handles p o
      → Runs o.port r
      → Runs p (prepend_index args o.accepted r.0, r.1)
  prepend-Runs p o r h later = record {
    keeps = Keeps-trans p o.port [] ([], r.1) h.keeps later.keeps;
    above = first_above o.accepted h.accepted;
    counted = first_counted o.accepted h.accepted;
  }
    where
      first_above :
          (a : Option ℕ)
          → AcceptedAt p.floor o.port.counters.highest_index a
          → All (Below p.floor) (prepend_index args a r.0)
      first_above none k = Below-all p.floor o.port.floor r.0 h.keeps.floor later.above
      first_above (some i) (k, l) =
          (k, Below-all p.floor o.port.floor r.0 h.keeps.floor later.above)

      first_counted :
          (a : Option ℕ)
          → AcceptedAt p.floor o.port.counters.highest_index a
          → All (λ i. IndexLe (some i) r.1.counters.highest_index) (prepend_index args a r.0)
      first_counted none k = later.counted
      first_counted (some i) (k, l) = (
        IndexLe-trans (some i) o.port.counters.highest_index r.1.counters.highest_index l
            later.keeps.highest,
        later.counted,
      )

  pub run_port-Runs : (events : List Event) (p : SrtpPort) → Runs p (run_port args events p)
  unfolding run_port
  run_port-Runs [] p = record { keeps = same-Keeps p ([], p) refl refl; above = tt; counted = tt }
  run_port-Runs (e ∷ events) p =
      let o = handle_event args e p in
      prepend-Runs p o (run_port args events o.port) (handle_event-Handles e p)
        (run_port-Runs events o.port)

  -- Whatever a port's packets, keys, ticks and commands are, before and after: every packet that is
  -- accepted after a session was rebuilt has a higher index than every packet that was accepted
  -- before.
  pub run_port-once :
      (before after : List Event) (now : ℕ) (seed : Option ℕ) (p : SrtpPort)
      → let (accepted, q) = run_port args before p in
        All (λ j. All (λ i. i < j) accepted) (run_port args after (reset_session args now seed q)).0
  unfolding reset_session
  run_port-once before after now seed p =
      let (accepted, q) = run_port args before p in
      let fresh = reset_session args now seed q in
      All-below_highest q.counters.highest_index fresh.floor accepted (run_port args after fresh).0
        (run_port-Runs before p).counted (raised_floor-covers q.counters.highest_index q.floor)
        (run_port-Runs after fresh).above
