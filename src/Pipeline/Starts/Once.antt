-- ===== src/Pipeline/Starts/Once.antt =====
-- Concurrent starts of a port are one run.
use video_thingy_rocks.Common.{
  ℕ, zero, suc, ◌+◌, ◌≤◌, ◌≡◌, refl, sym, ap, ◌∙◌, inl, inr, Bool, true, false, not, ◌||◌, Option,
  none, some, List, [], ◌∷◌, ◌==◌, is_none, if◌then◌else◌, arith, Bool-cases, PortMap, map_set,
  map_delete,
}
use mathlib.Core.Option.{some-injective}
use video_thingy_rocks.Pipeline.Starts.{
  Run, resolving, opening, port_of, Pipelines, no_pipelines, nth, remove, start, end_run, go_on,
  continued, delete_active, on_exit, on_error, PipelineEvent, starts, goes_on, stops, exits, fails,
  handle, handle_all,
}

free_and_fresh :
    (inside : Bool) (active : Option ℕ) (pending : Bool)
    → (not inside || not (is_none active) || pending) ≡ false
    → (active ≡ none) × (pending ≡ false)
free_and_fresh true none pending e = (refl, e)
free_and_fresh true (some n) pending e = absurd cc
free_and_fresh false none pending e = absurd cc
free_and_fresh false (some n) pending e = absurd cc

zero_left : (b : Bool) (m : ℕ) {n : ℕ} → b ≡ true → (if b then 1 else 0) + m ≡ n → n ≤ 1 → m ≡ 0
zero_left true m e h le = omega (arith, h, le)
zero_left false m e h le = absurd cc

none_taken : (b : Bool) (m : ℕ) {n : ℕ} → b ≡ false → (if b then 1 else 0) + m ≡ n → m ≡ n
none_taken false m e h = omega (arith, h)
none_taken true m e h = absurd cc

module _ (k : ℕ) where
  map_delete-none : (port : ℕ) (m : PortMap ℕ) → m k ≡ none → map_delete m port k ≡ none
  map_delete-none port m e = elim (Bool-cases (k == port)) [
    | inl same ↦ simp same refl
    | inr other ↦ simp other e
  ]

  -- The runs of port `k`.
  unfoldable pub runs_of : List Run → ℕ
  runs_of [] = 0
  runs_of (r ∷ rs) = (if port_of r == k then 1 else 0) + runs_of rs

  runs_of-remove :
      (i : ℕ) (rs : List Run) (r : Run)
      → nth i rs ≡ some r
      → (if port_of r == k then 1 else 0) + runs_of (remove i rs) ≡ runs_of rs
  unfolding runs_of nth remove
  runs_of-remove i [] r e = absurd cc
  runs_of-remove zero (q ∷ rs) r e =
      ap (λ (v : Run). (if port_of v == k then 1 else 0) + runs_of rs) (sym (some-injective q r e))
  runs_of-remove (suc i) (q ∷ rs) r e = ground (arith, runs_of-remove i rs r e)

  -- While a start of the port is pending there is one run of it and no pipeline; otherwise there is no
  -- run.
  pub record Single (s : Pipelines) : Type 0 where
    pub pending : s.pending_starts k ≡ true → (runs_of s.runs ≡ 1) × (s.active_pipelines k ≡ none)
    pub idle : s.pending_starts k ≡ false → runs_of s.runs ≡ 0

  at_most_one : (s : Pipelines) → Single s → runs_of s.runs ≤ 1
  at_most_one s h = elim (Bool-cases (s.pending_starts k)) [
    | inl e ↦ omega (arith, (h.pending e).0)
    | inr e ↦ omega (arith, h.idle e)
  ]

  start-Single :
      (in_range : ℕ → Bool) (port : ℕ) (s : Pipelines) → Single s → Single (start in_range port s)
  unfolding start runs_of
  start-Single in_range port s h =
      elim (Bool-cases
        (not (in_range port) || not (is_none (s.active_pipelines port)) || s.pending_starts port)) [
          | inl e ↦ simp e h
          | inr e ↦
              let (free, fresh) = free_and_fresh (in_range port) (s.active_pipelines port) _ e in
              simp e (elim (Bool-cases (k == port)) [
                | inl same ↦
                    let at_k : port ≡ k = ground arith in
                    let here : (port == k) ≡ true = ground arith in
                    let none_before = h.idle (ap s.pending_starts (sym at_k) ∙ fresh) in
                    record {
                      pending = λ p. (
                        simp here (omega (arith, none_before)),
                        ap s.active_pipelines (sym at_k) ∙ free,
                      );
                      idle = λ p. (let q = simp same at p in absurd cc);
                    }
                | inr other ↦
                    let elsewhere : (port == k) ≡ false = ground arith in
                    record {
                      pending = λ p.
                          (let q = h.pending (simp other at p) in
                            (simp elsewhere (omega (arith, q.0)), q.1));
                      idle = λ p.
                          (let q = h.idle (simp other at p) in simp elsewhere (omega (arith, q)));
                    }
              ])
        ]

  delete_active-Single : (port : ℕ) (s : Pipelines) → Single s → Single (delete_active port s)
  delete_active-Single port s h = record {
    pending = λ p. ((h.pending p).0, map_delete-none port (s.active_pipelines) (h.pending p).1);
    idle = h.idle;
  }

  -- The end of a run, whose process is registered or not.
  end_run-Single :
      (i : ℕ) (r : Run) (s s' : Pipelines)
      → nth i s.runs ≡ some r
      → Single s
      → s'.runs ≡ s.runs
      → s'.pending_starts ≡ s.pending_starts
      → ((k == port_of r) ≡ false → s'.active_pipelines k ≡ s.active_pipelines k)
      → Single (end_run i r s')
  end_run-Single i r s s' e h same_runs same_pending same_active =
      let left = ap (λ (rs : List Run). runs_of (remove i rs)) same_runs in
      let count = runs_of-remove i s.runs r e in
      elim (Bool-cases (k == port_of r)) [
        | inl same ↦
            let here : (port_of r == k) ≡ true = ground arith in
            record {
              pending = λ p. (let q = simp same at p in absurd cc);
              idle = λ p. left ∙ zero_left _ _ here count (at_most_one s h);
            }
        | inr other ↦
            let elsewhere : (port_of r == k) ≡ false = ground arith in
            let unchanged = left ∙ none_taken _ _ elsewhere count in
            let before = ap (λ (f : ℕ → Bool). f k) same_pending in
            record {
              pending = λ p.
                  (let q = h.pending (sym before ∙ (simp other at p)) in
                    (unchanged ∙ q.0, same_active other ∙ q.1));
              idle = λ p. unchanged ∙ h.idle (sym before ∙ (simp other at p));
            }
      ]

  go_on-Single :
      (i : ℕ) (r : Run) (ok : Bool) (s : Pipelines)
      → nth i s.runs ≡ some r
      → Single s
      → Single (go_on i r ok s)
  unfolding go_on runs_of
  go_on-Single i (resolving port) false s e h =
      end_run-Single i (resolving port) s s e h refl refl (λ p. refl)
  go_on-Single i (opening port process) false s e h =
      end_run-Single i (opening port process) s s e h refl refl (λ p. refl)
  go_on-Single i (resolving port) true s e h =
      let count = runs_of-remove i s.runs (resolving port) e in
      record {
        pending = λ p. (count ∙ (h.pending p).0, (h.pending p).1);
        idle = λ p. count ∙ h.idle p;
      }
  go_on-Single i (opening port process) true s e h =
      end_run-Single i (opening port process) s
        (record s {
          active_pipelines = map_set s.active_pipelines port process;
          attached = map_set s.attached process port;
        })
        e h refl refl (λ p. simp p refl)

  continued-Single :
      (i : ℕ) (o : Option Run) (ok : Bool) (s : Pipelines)
      → nth i s.runs ≡ o
      → Single s
      → Single (continued i o ok s)
  continued-Single i none ok s e h = h
  continued-Single i (some r) ok s e h = go_on-Single i r ok s e h

  on_exit-Single : (o : Option ℕ) (s : Pipelines) → Single s → Single (on_exit o s)
  unfolding on_exit
  on_exit-Single none s h = h
  on_exit-Single (some port) s h =
      let d = delete_active-Single port s h in record { pending = d.pending; idle = d.idle }

  on_error-Single : (o : Option ℕ) (s : Pipelines) → Single s → Single (on_error o s)
  unfolding on_error
  on_error-Single none s h = h
  on_error-Single (some port) s h = delete_active-Single port s h

  handle-Single :
      (in_range : ℕ → Bool) (e : PipelineEvent) (s : Pipelines)
      → Single s
      → Single (handle in_range e s)
  unfolding handle
  handle-Single in_range (starts port) s h = start-Single in_range port s h
  handle-Single in_range (goes_on i ok) s h = continued-Single i (nth i s.runs) ok s refl h
  handle-Single in_range (stops port) s h = delete_active-Single port s h
  handle-Single in_range (exits process) s h = on_exit-Single (s.attached process) s h
  handle-Single in_range (fails process) s h = on_error-Single (s.attached process) s h

  handle_all-Single :
      (in_range : ℕ → Bool) (es : List PipelineEvent) (s : Pipelines)
      → Single s
      → Single (handle_all in_range es s)
  unfolding handle_all
  handle_all-Single in_range [] s h = h
  handle_all-Single in_range (e ∷ es) s h =
      handle_all-Single in_range es (handle in_range e s) (handle-Single in_range e s h)

  -- Over any starts, stops, exits and errors, and whatever the runs meet: while a start of a port is
  -- pending there is exactly one run for it and no pipeline is registered, and otherwise there is no
  -- run for it.
  pub handle_all-once :
      (in_range : ℕ → Bool) (es : List PipelineEvent) → Single (handle_all in_range es no_pipelines)
  unfolding runs_of
  handle_all-once in_range es =
      handle_all-Single in_range es no_pipelines
        (record { pending = λ p. absurd cc; idle = λ p. refl })
