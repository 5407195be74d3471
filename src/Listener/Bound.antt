-- ===== src/Listener/Bound.antt =====
-- Which ports listen after `start`, and how long it takes.
use video_thingy_rocks.Common.{
  ℕ, zero, suc, ◌+◌, ◌-◌, ◌*◌, ◌≤◌, ◌≡◌, refl, sym, ap, ◌∙◌, inl, inr, Bool, true, false, List, [],
  ◌∷◌, ◌++◌, length, arith, Bool-cases,
}
use mathlib.Core.List.{append_assoc, append-nil}
use video_thingy_rocks.Listener.{
  max_retries, backoff_ms, Network, Listener, get_port_range, try_bind, wait_backoff, bind_port,
  start_ports, start,
}

module _ (net : Network) where
  -- A port listens after at most the waits that were left, or it does not after all of them.
  abbrev Binds : ℕ → ℕ → Listener net → Bool × Listener net → Type 0
  Binds budget port l (true, l') =
      (l'.sockets ≡ l.sockets ++ port ∷ [])
      × (l.waited_ms ≤ l'.waited_ms)
      × (l'.waited_ms ≤ l.waited_ms + budget)
  Binds budget port l (false, l') = (l'.sockets ≡ l.sockets) × (l'.waited_ms ≡ l.waited_ms + budget)

  -- The waits of the retries that are left.
  abbrev budget : ℕ → ℕ
  budget zero = 0
  budget (suc left) = backoff_ms (max_retries - suc left) + budget left

  try_bind-Binds : (port : ℕ) (l : Listener net) → Binds 0 port l (try_bind net port l)
  unfolding try_bind
  try_bind-Binds port l = elim (Bool-cases (net.bind port l.world).0) [
    | inl e ↦ simp e (refl, omega arith, omega arith)
    | inr e ↦ simp e (refl, omega arith)
  ]

  Binds-later :
      (wait n port : ℕ) (l l' : Listener net) (r : Bool × Listener net)
      → l'.sockets ≡ l.sockets
      → l'.waited_ms ≡ l.waited_ms + wait
      → Binds n port l' r
      → Binds (wait + n) port l r
  Binds-later wait n port l l' (true, r) e f (bound, from, few) = (
    bound ∙ ap (λ (ports : List ℕ). ports ++ port ∷ []) e,
    omega (arith, f, from),
    omega (arith, f, few),
  )
  Binds-later wait n port l l' (false, r) e f (unbound, all) = (unbound ∙ e, omega (arith, f, all))

  -- One attempt, and those that may follow it.
  Binds-again :
      (left port : ℕ) (l : Listener net) (r : Bool × Listener net)
      → Binds 0 port l r
      → ((l' : Listener net) → Binds (budget left) port l' (bind_port net left port l'))
      → Binds (budget (suc left)) port l (elim r.0 [
        | true ↦ (true, r.1)
        | false ↦ bind_port net left port (wait_backoff net (max_retries - suc left) r.1)
      ])
  Binds-again left port l (true, r) (bound, from, few) ih = (bound, from, omega (arith, few))
  Binds-again left port l (false, r) (unbound, all) ih =
      let l' : Listener net = wait_backoff net (max_retries - suc left) r in
      Binds-later (backoff_ms (max_retries - suc left)) (budget left) port l l'
        (bind_port net left port l') unbound (omega (arith, all)) (ih l')

  bind_port-Binds :
      (left port : ℕ) (l : Listener net) → Binds (budget left) port l (bind_port net left port l)
  unfolding bind_port
  bind_port-Binds zero port l = try_bind-Binds port l
  bind_port-Binds (suc left) port l =
      Binds-again left port l (try_bind net port l) (try_bind-Binds port l)
        (λ l'. bind_port-Binds left port l')

  -- All the ports listen; or those before one do, and that one was then tried again for seven seconds
  -- of its own.
  pub data Starts (ports : List ℕ) (l : Listener net) (r : Bool × Listener net) : Type 0 where
    all_bound :
        r.0 ≡ true
        → r.1.sockets ≡ l.sockets ++ ports
        → r.1.waited_ms ≤ l.waited_ms + 7000 * length ports
        → Starts ports l r
    refused :
        r.0 ≡ false
        → (before : List ℕ) (port : ℕ) (after : List ℕ) → ports ≡ before ++ port ∷ after
        → (reached : Listener net) → start_ports net before l ≡ (true, reached)
        → reached.sockets ≡ l.sockets ++ before
        → r.1.sockets ≡ reached.sockets
        → r.1.waited_ms ≡ reached.waited_ms + 7000
        → r.1.waited_ms ≤ l.waited_ms + 7000 * length ports
        → Starts ports l r

  start_ports-bound :
      (port : ℕ) (ports : List ℕ) (l l' : Listener net)
      → bind_port net max_retries port l ≡ (true, l')
      → start_ports net (port ∷ ports) l ≡ start_ports net ports l'
  unfolding start_ports
  start_ports-bound port ports l l' e =
      ap
        (λ (r : Bool × Listener net). elim r.0 as (λ _. Bool × Listener net) [
          | true ↦ start_ports net ports r.1
          | false ↦ (false, r.1)
        ])
        e

  Starts-next :
      (port : ℕ) (ports : List ℕ) (l l' : Listener net) (r : Bool × Listener net)
      → bind_port net max_retries port l ≡ (true, l')
      → Binds 7000 port l (true, l')
      → Starts ports l' r
      → Starts (port ∷ ports) l r
  Starts-next port ports l l' r came (e, from, upto) (all_bound ok bound few) =
      all_bound ok
        (bound ∙ ap (λ (s : List ℕ). s ++ ports) e ∙ append_assoc l.sockets (port ∷ []) ports)
        (omega (arith, few))
  Starts-next port ports l l' r came (e, from, upto)
        (refused failed before p after split reached others bound unbound all most) =
      refused failed (port ∷ before) p after (ap (λ (s : List ℕ). port ∷ s) split) reached
        (start_ports-bound port before l l' came ∙ others)
        (bound ∙ ap (λ (s : List ℕ). s ++ before) e ∙ append_assoc l.sockets (port ∷ []) before)
        unbound all (omega (arith, most, upto))

  start_ports-next :
      (port : ℕ) (ports : List ℕ) (l : Listener net) (r : Bool × Listener net)
      → bind_port net max_retries port l ≡ r
      → Binds 7000 port l r
      → ((l' : Listener net) → Starts ports l' (start_ports net ports l'))
      → Starts
          (port ∷ ports)
          l
          (elim r.0 [ true ↦ start_ports net ports r.1 | false ↦ (false, r.1) ])
  unfolding start_ports
  start_ports-next port ports l (true, r) came bound ih =
      Starts-next port ports l r (start_ports net ports r) came bound (ih r)
  start_ports-next port ports l (false, r) came (unbound, all) ih =
      refused refl [] port ports refl l refl (sym (append-nil l.sockets)) unbound all
        (omega (arith, all))

  start_ports-Starts :
      (ports : List ℕ) (l : Listener net) → Starts ports l (start_ports net ports l)
  unfolding start_ports
  start_ports-Starts [] l = all_bound refl (sym (append-nil l.sockets)) (omega arith)
  start_ports-Starts (port ∷ ports) l =
      start_ports-next port ports l (bind_port net max_retries port l) refl
        (bind_port-Binds max_retries port l) (λ l'. start_ports-Starts ports l')

  -- `start` either binds every port of the range, in order; or it rejects, and then exactly the ports
  -- before one of the range are bound, and after the last of them came up the waits for that one were
  -- seven seconds of its own. It waits at most seven seconds for each port of the range.
  pub start-Starts :
      (first last : ℕ) (l : Listener net)
      → Starts (get_port_range first last) l (start net first last l)
  unfolding start
  start-Starts first last l = start_ports-Starts (get_port_range first last) l
