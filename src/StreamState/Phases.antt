-- ===== src/StreamState/Phases.antt =====
-- The events of a port are those of a stream that starts once, and then stops and resumes in turn.
use video_thingy_rocks.Common.{
  ℕ, ◌+◌, subst, ◌-◌, ◌≤◌, ◌≡◌, refl, sym, ap, ◌∙◌, inl, inr, true, false, Option, none, some, List,
  [], ◌∷◌, ◌++◌, leb, ◌==◌, if◌then◌else◌, arith, Bool-cases, leb→le, map_delete,
}
use video_thingy_rocks.StreamState.{
  StreamStatus, active, inactive, StreamState, StreamEvent, stream_start, stream_resume,
  stream_stop, StreamStateManager, new_manager, update_stream, received, on_packet_received,
  handle_stream_inactivity, fire_timer, Input, packet, timer, handle_input, handle_inputs,
}

pub data Phase : Type 0 where
  absent : Phase
  running : Phase
  silent : Phase

unfoldable pub phase_of : Option StreamState → Phase
phase_of none = absent
phase_of (some s) = elim s.status [ active ↦ running | inactive ↦ silent ]

port_of : StreamEvent → ℕ
port_of (stream_start port) = port
port_of (stream_resume port) = port
port_of (stream_stop port duration) = port

-- A stop reports at least the time-out.
move : ℕ → Option Phase → StreamEvent → Option Phase
move timeout (some absent) (stream_start port) = some running
move timeout (some silent) (stream_resume port) = some running
move timeout (some running) (stream_stop port duration) =
    if leb timeout duration then some silent else none
move timeout _ _ = none

pub follow : ℕ → ℕ → Option Phase → List StreamEvent → Option Phase
follow timeout k ph [] = ph
follow timeout k ph (e ∷ es) =
    follow timeout k (if port_of e == k then move timeout ph e else ph) es

==_refl : (a : ℕ) → (a == a) ≡ true
==_refl a = ground arith

==-sym : (a b : ℕ) → (a == b) ≡ false → (b == a) ≡ false
==-sym a b h = ground arith

==→≡ : (a b : ℕ) → (a == b) ≡ true → b ≡ a
==→≡ a b h = ground arith

module _ (timeout k : ℕ) where
  follow-append :
      (ph : Option Phase) (xs ys : List StreamEvent)
      → follow timeout k ph (xs ++ ys) ≡ follow timeout k (follow timeout k ph xs) ys
  unfolding follow
  follow-append ph [] ys = refl
  follow-append ph (e ∷ xs) ys =
      follow-append (if port_of e == k then move timeout ph e else ph) xs ys

  -- A stream is active while its timer is set, which is no earlier than the time-out allows.
  abbrev pub Timed : Option StreamState → Option ℕ → Type 0
  Timed none none = Unit
  Timed none (some due) = ⊥
  Timed (some s) none = s.status ≡ inactive
  Timed (some s) (some due) = (s.status ≡ active) × (s.last_packet_time + timeout ≤ due)

  record Step (m : StreamStateManager) (r : StreamStateManager × List StreamEvent) : Type 0 where
    timed : Timed (r.0.streams k) (r.0.inactivity_timers k)
    follows : follow timeout k (some (phase_of (m.streams k))) r.1 ≡ some (phase_of (r.0.streams k))

  -- What a packet makes of the port's stream.
  pub record Receives (timestamp : ℕ) (o : Option StreamState) (r : StreamState × List StreamEvent)
      : Type 0 where
    pub running_now : r.0.status ≡ active
    pub latest : r.0.last_packet_time ≡ timestamp
    pub follows : follow timeout k (some (phase_of o)) r.1 ≡ some (phase_of (some r.0))

  update_stream-Receives :
      (timestamp : ℕ) (s : StreamState) (st : StreamStatus)
      → s.status ≡ st
      → Receives timestamp (some s) (update_stream k timestamp s)
  unfolding update_stream follow port_of move phase_of
  update_stream-Receives timestamp s active e =
      rw (e, update_stream, phase_of)
        (record { running_now = e; latest = refl; follows = rw (e, phase_of) refl })
  update_stream-Receives timestamp s inactive e =
      rw (e, update_stream, phase_of)
        (record { running_now = refl; latest = refl; follows = simp (==_refl k) refl })

  pub received-Receives :
      (timestamp : ℕ) (o : Option StreamState) → Receives timestamp o (received k timestamp o)
  unfolding received follow port_of move phase_of
  received-Receives timestamp none = record {
    running_now = refl;
    latest = refl;
    follows = ground arith;
  }
  received-Receives timestamp (some s) = update_stream-Receives timestamp s s.status refl

  received-elsewhere :
      (port timestamp : ℕ) (ph : Option Phase) (o : Option StreamState)
      → (port == k) ≡ false
      → follow timeout k ph (received port timestamp o).1 ≡ ph
  unfolding received update_stream follow port_of
  received-elsewhere port timestamp ph none e = simp e refl
  received-elsewhere port timestamp ph (some s) e = by_status s.status refl
    where
      by_status :
          (st : StreamStatus)
          → s.status ≡ st
          → follow timeout k ph (update_stream port timestamp s).1 ≡ ph
      by_status active q = rw (q, update_stream) refl
      by_status inactive q = rw (q, update_stream) (simp e refl)

  on_packet_received-Step_here :
      (timestamp delay : ℕ) (m : StreamStateManager)
      → Step m (on_packet_received timeout k timestamp (timestamp + delay) m)
  unfolding on_packet_received
  on_packet_received-Step_here timestamp delay m =
      let r = received-Receives timestamp (m.streams k) in
      record {
        timed = simp (==_refl k) (r.running_now, omega (arith, r.latest));
        follows = simp (==_refl k) r.follows;
      }

  on_packet_received-Step :
      (port timestamp delay : ℕ) (m : StreamStateManager)
      → Timed (m.streams k) (m.inactivity_timers k)
      → Step m (on_packet_received timeout port timestamp (timestamp + delay) m)
  unfolding on_packet_received
  on_packet_received-Step port timestamp delay m h = elim (Bool-cases (k == port)) [
    | inl e ↦
        subst (λ (q : ℕ). Step m (on_packet_received timeout q timestamp (timestamp + delay) m))
          (sym (==→≡ k port e)) (on_packet_received-Step_here timestamp delay m)
    | inr e ↦ record {
      timed = simp e h;
      follows = simp e (
          received-elsewhere port timestamp (some (phase_of (m.streams k))) (m.streams port)
            (==-sym k port e));
    }
  ]

  handle_stream_inactivity-Step_here :
      (now due : ℕ) (m : StreamStateManager) (o : Option StreamState)
      → m.streams k ≡ o
      → Timed o (some due)
      → due ≤ now
      → Step m (
          handle_stream_inactivity k now
            (record m { inactivity_timers = map_delete m.inactivity_timers k }))
  unfolding handle_stream_inactivity follow port_of move phase_of
  handle_stream_inactivity-Step_here now due m none e h late = elim h [ ]
  handle_stream_inactivity-Step_here now due m (some s) e (running_now, set) late =
      let was_running : phase_of (m.streams k) ≡ running =
        ap phase_of e ∙ rw (running_now, phase_of) refl in
      let long : leb timeout (now - s.last_packet_time) ≡ true = ground arith in
      rw (e, handle_stream_inactivity)
        (record {
          timed = simp (==_refl k) refl;
          follows = simp (==_refl k, was_running, long) refl;
        })

  handle_stream_inactivity-Step_elsewhere :
      (port now : ℕ) (m : StreamStateManager) (o : Option StreamState)
      → m.streams port ≡ o
      → (k == port) ≡ false
      → Timed (m.streams k) (m.inactivity_timers k)
      → Step m (
          handle_stream_inactivity port now
            (record m { inactivity_timers = map_delete m.inactivity_timers port }))
  unfolding handle_stream_inactivity follow port_of
  handle_stream_inactivity-Step_elsewhere port now m none e other h =
      rw (e, handle_stream_inactivity) (record { timed = simp other h; follows = refl })
  handle_stream_inactivity-Step_elsewhere port now m (some s) e other h =
      rw (e, handle_stream_inactivity)
        (record { timed = simp other h; follows = simp (other, ==-sym k port other) refl })

  fire_timer-Step_at :
      (port now : ℕ) (m : StreamStateManager) (t : Option ℕ)
      → m.inactivity_timers port ≡ t
      → Timed (m.streams k) (m.inactivity_timers k)
      → Step m (fire_timer port now m)
  unfolding fire_timer follow
  fire_timer-Step_at port now m none e h = rw (e, fire_timer) (record { timed = h; follows = refl })
  fire_timer-Step_at port now m (some due) e h = elim (Bool-cases (leb due now)) [
    | inr early ↦ rw (e, early, fire_timer) (record { timed = h; follows = refl })
    | inl late ↦ elim (Bool-cases (k == port)) [
      | inr other ↦
          rw (e, late, fire_timer)
            (handle_stream_inactivity-Step_elsewhere port now m (m.streams port) refl other h)
      | inl same ↦
          let at_k : port ≡ k = ==→≡ k port same in
          rw (e, late, fire_timer)
            (subst
              (λ (q : ℕ). Step m (
                handle_stream_inactivity q now
                  (record m { inactivity_timers = map_delete m.inactivity_timers q })))
              (sym at_k)
              (handle_stream_inactivity-Step_here now due m (m.streams k) refl
                (subst (Timed (m.streams k)) (ap m.inactivity_timers (sym at_k) ∙ e) h)
                (leb→le due now late)))
    ]
  ]

  handle_input-Step :
      (i : Input) (m : StreamStateManager)
      → Timed (m.streams k) (m.inactivity_timers k)
      → Step m (handle_input timeout i m)
  unfolding handle_input
  handle_input-Step (packet port timestamp delay) m h =
      on_packet_received-Step port timestamp delay m h
  handle_input-Step (timer port now) m h =
      fire_timer-Step_at port now m (m.inactivity_timers port) refl h

  handle_inputs-Step :
      (is : List Input) (m : StreamStateManager)
      → Timed (m.streams k) (m.inactivity_timers k)
      → Step m (handle_inputs timeout is m)
  unfolding handle_inputs follow
  handle_inputs-Step [] m h = record { timed = h; follows = refl }
  handle_inputs-Step (i ∷ is) m h =
      let s = handle_input-Step i m h in
      let later = handle_inputs-Step is (handle_input timeout i m).0 s.timed in
      record {
        timed = later.timed;
        follows =
            follow-append (some (phase_of (m.streams k))) (handle_input timeout i m).1 _
            ∙ ap
                (λ (ph : Option Phase).
                  follow timeout k ph (handle_inputs timeout is (handle_input timeout i m).0).1)
                s.follows
            ∙ later.follows;
      }

  -- Over any packets and timers, on any ports: the events of a port begin with its start and then stop
  -- and resume in turn, each stop reporting at least the time-out of silence, and they lead to the
  -- phase that the port's stream is in. The stream is active exactly while its timer is set.
  pub handle_inputs-follow :
      (is : List Input)
      → (let r = handle_inputs timeout is new_manager in
          (follow timeout k (some absent) r.1 ≡ some (phase_of (r.0.streams k)))
          × Timed (r.0.streams k) (r.0.inactivity_timers k))
  unfolding phase_of
  handle_inputs-follow is = let s = handle_inputs-Step is new_manager tt in (s.follows, s.timed)
