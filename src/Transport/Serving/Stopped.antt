-- ===== src/Transport/Serving/Stopped.antt =====
-- What a transport that stops leaves behind in the metrics.
use video_thingy_rocks.Common.{
  ℕ, ◌≡◌, refl, sym, ap, arith, ◌∙◌, false, not, ◌&&◌, List, [], ◌∷◌, ◌++◌, ◌==◌, if◌then◌else◌,
}
use video_thingy_rocks.Supervisor.{SrtpSupervisorState}
use video_thingy_rocks.Transport.Serving.{
  Serving, set_state, recompute_serving, on_supervisor_transition, on_transitions, stop,
  supervisors_in, all_idle, new_serving, latest, any_searching, all_disabled,
  set_state-supervisors_in, on_transitions-serving,
}

recompute_serving-supervisors : (s : Serving) → (recompute_serving s).supervisors ≡ s.supervisors
unfolding recompute_serving
recompute_serving-supervisors s = ground arith

states_after :
    (port : ℕ) (to : SrtpSupervisorState) (f : ℕ → SrtpSupervisorState) (ports : List ℕ)
    (s : Serving)
    → s.supervisors ≡ supervisors_in f ports
    → set_state port to s.supervisors ≡ supervisors_in (λ k. if k == port then to else f k) ports
states_after port to f ports s h =
    ap (set_state port to) h ∙ set_state-supervisors_in port to f ports

on_transitions-supervisors :
    (es : List (ℕ × SrtpSupervisorState)) (f : ℕ → SrtpSupervisorState) (ports : List ℕ)
    (s : Serving)
    → s.supervisors ≡ supervisors_in f ports
    → (on_transitions es s).supervisors ≡ supervisors_in (latest es f) ports
unfolding on_transitions on_supervisor_transition recompute_serving latest
on_transitions-supervisors [] f ports s h = h
on_transitions-supervisors ((port, to) ∷ es) f ports s h =
    on_transitions-supervisors es (λ k. if k == port then to else f k) ports
      (on_supervisor_transition port to s)
      (recompute_serving-supervisors _ ∙ states_after port to f ports s h)

on_transitions-append :
    (es fs : List (ℕ × SrtpSupervisorState)) (s : Serving)
    → on_transitions (es ++ fs) s ≡ on_transitions fs (on_transitions es s)
unfolding on_transitions
on_transitions-append [] fs s = refl
on_transitions-append ((port, to) ∷ es) fs s =
    on_transitions-append es fs (on_supervisor_transition port to s)

-- A transition sets the metric anew.
transition-told :
    (port : ℕ) (to : SrtpSupervisorState) (f : ℕ → SrtpSupervisorState) (p : ℕ) (ports : List ℕ)
    (s : Serving)
    → s.supervisors ≡ supervisors_in f (p ∷ ports)
    → on_supervisor_transition port to (record s { is_serving = false })
      ≡ on_supervisor_transition port to s
unfolding on_supervisor_transition recompute_serving supervisors_in
transition-told port to f p ports s h =
    rw (states_after port to f (p ∷ ports) s h, supervisors_in) refl

-- The transport's stop tells the metrics that it does not serve, but the first supervisor that
-- reports a transition while it stops sets that anew: whatever the supervisors of at least one keyed
-- port reported before and report then, what the metrics were told last is whether some port was ever
-- searching and not every port is disabled now.
pub stop-serving :
    (es : List (ℕ × SrtpSupervisorState)) (port : ℕ) (to : SrtpSupervisorState)
    (fs : List (ℕ × SrtpSupervisorState)) (p : ℕ) (ports : List ℕ)
    → (stop ((port, to) ∷ fs) (on_transitions es (new_serving (p ∷ ports)))).is_serving ≡ (
        any_searching (es ++ (port, to) ∷ fs)
        && not (all_disabled (latest (es ++ (port, to) ∷ fs) all_idle) (p ∷ ports)))
unfolding stop on_transitions
stop-serving es port to fs p ports =
    let s = on_transitions es (new_serving (p ∷ ports)) in
    ap (λ (t : Serving). (on_transitions fs t).is_serving)
      (transition-told port to (latest es all_idle) p ports s
        (on_transitions-supervisors es all_idle (p ∷ ports) (new_serving (p ∷ ports)) refl))
    ∙ ap (λ (t : Serving). t.is_serving)
        (sym (on_transitions-append es ((port, to) ∷ fs) (new_serving (p ∷ ports))))
    ∙ on_transitions-serving (es ++ (port, to) ∷ fs) p ports
