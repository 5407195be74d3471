-- ===== src/Transport/Serving.antt =====
-- `recomputeServing`, `onSupervisorTransition` and `stop`: whether the transport reports that it serves.
pub mod Stopped
mod Tests
use video_thingy_rocks.Common.{
  ℕ, ◌≡◌, refl, ap, ◌∙◌, Bool, true, false, not, ◌&&◌, ◌||◌, List, [], ◌∷◌, ◌==◌, if◌then◌else◌,
  arith,
}
use video_thingy_rocks.Supervisor.{SrtpSupervisorState, idle, searching, disabled}

abbrev pub is_searching : SrtpSupervisorState → Bool
is_searching searching = true
is_searching _ = false

abbrev pub is_disabled : SrtpSupervisorState → Bool
is_disabled disabled = true
is_disabled _ = false

-- The supervisors by their port and `currentState`, and the last value that `setServing` was given.
pub record Serving : Type 0 where
  pub supervisors : List (ℕ × SrtpSupervisorState)
  pub ports_ever_ready : List ℕ
  pub is_serving : Bool

unfoldable pub every_port_gave_up : List (ℕ × SrtpSupervisorState) → Bool
every_port_gave_up [] = true
every_port_gave_up ((port, state) ∷ ss) = is_disabled state && every_port_gave_up ss

abbrev is_empty : {A : Type 0} → List A → Bool
is_empty [] = true
is_empty (x ∷ xs) = false

unfoldable pub recompute_serving : Serving → Serving
unfolding every_port_gave_up
recompute_serving s = if is_empty s.supervisors then s else record s {
  is_serving = not (is_empty s.ports_ever_ready) && not (every_port_gave_up s.supervisors);
}

-- A supervisor sets its state before it reports the transition.
unfoldable pub set_state :
    ℕ → SrtpSupervisorState → List (ℕ × SrtpSupervisorState) → List (ℕ × SrtpSupervisorState)
set_state port to [] = []
set_state port to ((p, state) ∷ ss) = (p, if p == port then to else state) ∷ set_state port to ss

unfoldable pub on_supervisor_transition : ℕ → SrtpSupervisorState → Serving → Serving
unfolding recompute_serving set_state
on_supervisor_transition port to s = recompute_serving (record s {
  supervisors = set_state port to s.supervisors;
  ports_ever_ready = if is_searching to then port ∷ s.ports_ever_ready else s.ports_ever_ready;
})

unfoldable pub on_transitions : List (ℕ × SrtpSupervisorState) → Serving → Serving
unfolding on_supervisor_transition
on_transitions [] s = s
on_transitions ((port, to) ∷ es) s = on_transitions es (on_supervisor_transition port to s)

-- `stop`: what the supervisors report until all of them have stopped.
unfoldable pub stop : List (ℕ × SrtpSupervisorState) → Serving → Serving
unfolding on_transitions
stop es s = record (on_transitions es (record s { is_serving = false })) { supervisors = [] }

-- Supervisors in the states that `f` gives; those of the keyed ports begin idle.
unfoldable pub supervisors_in : (ℕ → SrtpSupervisorState) → List ℕ → List (ℕ × SrtpSupervisorState)
supervisors_in f [] = []
supervisors_in f (port ∷ ports) = (port, f port) ∷ supervisors_in f ports

abbrev pub all_idle : ℕ → SrtpSupervisorState
all_idle port = idle

abbrev pub new_serving : List ℕ → Serving
new_serving ports = record {
  supervisors = supervisors_in all_idle ports;
  ports_ever_ready = [];
  is_serving = false;
}

-- The states of the ports after the transitions, and whether any of them was to `searching`.
unfoldable pub latest :
    List (ℕ × SrtpSupervisorState) → (ℕ → SrtpSupervisorState) → ℕ → SrtpSupervisorState
latest [] f = f
latest ((port, to) ∷ es) f = latest es (λ k. if k == port then to else f k)

unfoldable pub any_searching : List (ℕ × SrtpSupervisorState) → Bool
any_searching [] = false
any_searching ((port, to) ∷ es) = is_searching to || any_searching es

unfoldable pub all_disabled : (ℕ → SrtpSupervisorState) → List ℕ → Bool
all_disabled f [] = true
all_disabled f (port ∷ ports) = is_disabled (f port) && all_disabled f ports

pub set_state-supervisors_in :
    (port : ℕ) (to : SrtpSupervisorState) (f : ℕ → SrtpSupervisorState) (ports : List ℕ)
    → set_state port to (supervisors_in f ports)
      ≡ supervisors_in (λ k. if k == port then to else f k) ports
unfolding set_state supervisors_in
set_state-supervisors_in port to f [] = refl
set_state-supervisors_in port to f (p ∷ ports) =
    ap (λ (ss : List (ℕ × SrtpSupervisorState)). (p, if p == port then to else f p) ∷ ss)
      (set_state-supervisors_in port to f ports)

gave_up-all_disabled :
    (f : ℕ → SrtpSupervisorState) (ports : List ℕ)
    → every_port_gave_up (supervisors_in f ports) ≡ all_disabled f ports
unfolding every_port_gave_up supervisors_in all_disabled
gave_up-all_disabled f [] = refl
gave_up-all_disabled f (p ∷ ports) =
    ap (λ (b : Bool). is_disabled (f p) && b) (gave_up-all_disabled f ports)

-- What is reported for a state of the supervisors, once a port was ready or not.
record Reports (f : ℕ → SrtpSupervisorState) (ready : Bool) (p : ℕ) (ports : List ℕ) (s : Serving)
    : Type 0 where
  states : s.supervisors ≡ supervisors_in f (p ∷ ports)
  known : not (is_empty s.ports_ever_ready) ≡ ready
  reported : s.is_serving ≡ (ready && not (all_disabled f (p ∷ ports)))

or_assoc : (a b c : Bool) → ((a || b) || c) ≡ (a || (b || c))
or_assoc a b c = ground arith

ready_after :
    (searching_now ready : Bool) (port : ℕ) (ports : List ℕ)
    → not (is_empty ports) ≡ ready
    → not (is_empty (if searching_now then port ∷ ports else ports)) ≡ (ready || searching_now)
ready_after true ready port ports h = ground arith
ready_after false ready port ports h = ground (arith, h)

transition-Reports :
    (port : ℕ) (to : SrtpSupervisorState) (f : ℕ → SrtpSupervisorState) (ready : Bool) (p : ℕ)
    (ports : List ℕ) (s : Serving)
    → Reports f ready p ports s
    → Reports
        (λ k. if k == port then to else f k)
        (ready || is_searching to)
        p
        ports
        (on_supervisor_transition port to s)
unfolding on_supervisor_transition recompute_serving supervisors_in
transition-Reports port to f ready p ports s h =
    let e = ap (set_state port to) h.states ∙ set_state-supervisors_in port to f (p ∷ ports) in
    let f' : ℕ → SrtpSupervisorState = λ k. if k == port then to else f k in
    let known = ready_after (is_searching to) ready port s.ports_ever_ready h.known in
    let off = gave_up-all_disabled f' (p ∷ ports) in
    rw (e, recompute_serving)
      (record { states = refl; known = known; reported = λ i. known i && not (off i) })

on_transitions-Reports :
    (es : List (ℕ × SrtpSupervisorState)) (f : ℕ → SrtpSupervisorState) (ready : Bool) (p : ℕ)
    (ports : List ℕ) (s : Serving)
    → Reports f ready p ports s
    → (on_transitions es s).is_serving
      ≡ ((ready || any_searching es) && not (all_disabled (latest es f) (p ∷ ports)))
unfolding on_transitions any_searching latest
on_transitions-Reports [] f ready p ports s h = ground (arith, h.reported)
on_transitions-Reports ((port, to) ∷ es) f ready p ports s h =
    on_transitions-Reports es (λ k. if k == port then to else f k) (ready || is_searching to) p
      ports (on_supervisor_transition port to s) (transition-Reports port to f ready p ports s h)
    ∙ ap
        (λ (b : Bool).
          b && not (all_disabled (latest es (λ k. if k == port then to else f k)) (p ∷ ports)))
        (or_assoc ready (is_searching to) (any_searching es))

-- After any transitions of the supervisors of at least one keyed port, the transport reports that it
-- serves exactly if some port was ever searching and not every port is disabled now.
pub on_transitions-serving :
    (es : List (ℕ × SrtpSupervisorState)) (p : ℕ) (ports : List ℕ)
    → (on_transitions es (new_serving (p ∷ ports))).is_serving
      ≡ (any_searching es && not (all_disabled (latest es all_idle) (p ∷ ports)))
on_transitions-serving es p ports =
    on_transitions-Reports es all_idle false p ports (new_serving (p ∷ ports))
      (record { states = refl; known = refl; reported = refl })
