-- ===== src/Supervisor/Invariant.antt =====
-- What the supervisor's log must look like, the invariant that keeps it so, and the small steps'
-- part in it.
pub mod Session
pub mod Lock
pub mod Frames
pub mod Steps
use video_thingy_rocks.Common.{
  ℕ, ◌+◌, ◌*◌, min, ◌≡◌, refl, sym, ap, ◌∙◌, subst, inl, inr, Bool, true, false, not, ◌||◌, Option,
  none, some, List, [], ◌∷◌, ◌==◌, arith, Bool-cases, is_none, if◌then◌else◌,
}
use video_thingy_rocks.Supervisor.{
  SrtpSupervisorState, idle, starting, searching, acquiring, producing, stopping, cooldown,
  disabled, terminated, SrtpPortSupervisorConfig, Services, Effect, started, reported, ended,
  acquired, released, moved, Supervisor,
}
use video_thingy_rocks.Supervisor.Operations.{
  is, transition, release_lock, enter_cooldown, end_helper, end_session,
}

abbrev pub holds_lock : SrtpSupervisorState → Bool
holds_lock producing = true
holds_lock stopping = true
holds_lock _ = false

abbrev pub has_helper : SrtpSupervisorState → Bool
has_helper starting = true
has_helper searching = true
has_helper acquiring = true
has_helper producing = true
has_helper stopping = true
has_helper _ = false

-- Whether session `k` may be writing to the stream: it was told to start, and neither reported that
-- it stopped nor ended since. The newest effect comes first.
abbrev pub may_write : ℕ → List Effect → Bool
may_write k [] = false
may_write k (started j ∷ log) = if j == k then true else may_write k log
may_write k (reported j ∷ log) = if j == k then false else may_write k log
may_write k (ended j ∷ log) = if j == k then false else may_write k log
may_write k (_ ∷ log) = may_write k log

abbrev pub Quiet : List Effect → Type 0
Quiet log = (k : ℕ) → may_write k log ≡ false

-- Whether the last lock operation acquired it.
abbrev pub locked : List Effect → Bool
locked [] = false
locked (acquired ∷ log) = true
locked (released ∷ log) = false
locked (_ ∷ log) = locked log

-- No session may be writing when the lock is released; a session is told to start only under the
-- lock; and every transition leaves the lock held exactly in the states that hold it.
abbrev pub IsSafe : List Effect → Type 0
IsSafe [] = Unit
IsSafe (released ∷ log) = Quiet log × IsSafe log
IsSafe (started k ∷ log) = (locked log ≡ true) × IsSafe log
IsSafe (moved from to held ∷ log) = (held ≡ holds_lock to) × IsSafe log
IsSafe (_ ∷ log) = IsSafe log

-- A helper is there exactly in the states that have one; of `terminated` nothing is said.
abbrev pub Up : SrtpSupervisorState → Option ℕ → Type 0
Up terminated helper = Unit
Up state helper = is_none helper ≡ not (has_helper state)

-- The part of the invariant that does not speak of the state.
pub record Facts (held : Bool) (helper : Option ℕ) (log : List Effect) : Type 0 where
  pub writers : (k : ℕ) → may_write k log ≡ true → (held ≡ true) × (helper ≡ some k)
  pub safe : IsSafe log

pub record Inv (state : SrtpSupervisorState) (held : Bool) (helper : Option ℕ) (log : List Effect)
    : Type 0 where
  pub facts : Facts held helper log
  pub lock : held ≡ holds_lock state
  pub up : Up state helper

abbrev pub Sound : {W : Type 0} → Supervisor W → Type 0
Sound s = Inv s.state s.lock_held s.helper s.log

pub is_eq : (a b : SrtpSupervisorState) → is a b ≡ true → a ≡ b
is_eq a b h = ground arith

pub at_state :
    {W : Type 0} (s : Supervisor W) (state : SrtpSupervisorState)
    → Sound s
    → is s.state state ≡ true
    → Inv state s.lock_held s.helper s.log
at_state s state h e = subst (λ x. Inv x s.lock_held s.helper s.log) (is_eq s.state state e) h

pub if-Sound :
    {W : Type 0} (b : Bool) (x y : Supervisor W)
    → (b ≡ true → Sound x)
    → (b ≡ false → Sound y)
    → Sound (if b then x else y)
if-Sound true x y h k = h refl
if-Sound false x y h k = k refl

pub or-false : (a b : Bool) → (a || b) ≡ false → a ≡ false
or-false true b h = h
or-false false b h = refl

pub Quiet-Facts :
    (held : Bool) (helper : Option ℕ) (log : List Effect)
    → Quiet log
    → IsSafe log
    → Facts held helper log
Quiet-Facts held helper log q safe = record { writers = λ k h. cc (h, q k); safe = safe }

pub unheld-Quiet : (helper : Option ℕ) (log : List Effect) → Facts false helper log → Quiet log
unheld-Quiet helper log f k = elim (Bool-cases (may_write k log)) [
  | inl e ↦ cc ((f.writers k e).0)
  | inr e ↦ e
]

pub none-Quiet : (held : Bool) (log : List Effect) → Facts held none log → Quiet log
none-Quiet held log f k = elim (Bool-cases (may_write k log)) [
  | inl e ↦ cc ((f.writers k e).1)
  | inr e ↦ e
]

-- The current session is the only one that may be writing.
pub others-Quiet :
    (held : Bool) (j : ℕ) (log : List Effect)
    → Facts held (some j) log
    → (k : ℕ) → (if j == k then false else may_write k log) ≡ false
others-Quiet held j log f k = elim (Bool-cases (may_write k log)) [
  | inl e ↦ ground (arith, f.writers k e)
  | inr e ↦ ground (arith, e)
]

module _ (c : SrtpPortSupervisorConfig) (srv : Services) where
  pub transition-Sound :
      (to : SrtpSupervisorState) (s : Supervisor srv.World)
      → Facts s.lock_held s.helper s.log
      → s.lock_held ≡ holds_lock to
      → Up to s.helper
      → Sound (transition c srv to s)
  unfolding transition
  transition-Sound to s f lock up = elim (Bool-cases (is s.state to)) [
    | inl e ↦ rw e (
        subst (λ state. Inv state s.lock_held s.helper s.log) (sym (is_eq s.state to e))
          (record { facts = f; lock = lock; up = up }))
    | inr e ↦ rw e (record {
      facts = record { writers = f.writers; safe = (lock, f.safe) };
      lock = lock;
      up = up;
    })
  ]

  -- With nobody writing, the lock is let go if it was held, and no other fact changes.
  pub record Freed (s s' : Supervisor srv.World) : Type 0 where
    pub unheld : s'.lock_held ≡ false
    pub quiet : Quiet s'.log
    pub safe : IsSafe s'.log
    pub state : s'.state ≡ s.state
    pub helper : s'.helper ≡ s.helper

  pub release_lock-Freed :
      (s : Supervisor srv.World) → Quiet s.log → IsSafe s.log → Freed s (release_lock c srv s)
  unfolding release_lock
  release_lock-Freed s quiet safe = elim (Bool-cases s.lock_held) [
    | inl e ↦
        rw e (record {
          unheld = refl;
          quiet = quiet;
          safe = (quiet, safe);
          state = refl;
          helper = refl;
        })
    | inr e ↦
        simp e (record { unheld = e; quiet = quiet; safe = safe; state = refl; helper = refl })
  ]

  pub released-Sound :
      (to : SrtpSupervisorState) (s : Supervisor srv.World)
      → Quiet s.log
      → IsSafe s.log
      → holds_lock to ≡ false
      → Up to s.helper
      → Sound (transition c srv to (release_lock c srv s))
  released-Sound to s quiet safe free up =
      let r = release_lock-Freed s quiet safe in
      let s' = release_lock c srv s in
      transition-Sound to s' (Quiet-Facts s'.lock_held s'.helper s'.log r.quiet r.safe)
        (r.unheld ∙ sym free) (subst (Up to) (sym r.helper) up)

  pub enter_cooldown-Sound :
      (s : Supervisor srv.World)
      → s.lock_held ≡ false
      → s.helper ≡ none
      → Facts s.lock_held s.helper s.log
      → Sound (enter_cooldown c srv s)
  unfolding enter_cooldown
  enter_cooldown-Sound s unheld gone f =
      transition-Sound cooldown
        (record s {
          retry_at_ms = (srv.now s.world).0 + s.backoff_ms;
          backoff_ms = min (s.backoff_ms * 2) c.timeouts.restart_max_ms;
          world = (srv.now s.world).1;
        })
        f unheld (ap is_none gone)

  pub cooldown-Sound :
      (s s' : Supervisor srv.World) → Freed s s' → s.helper ≡ none → Sound (enter_cooldown c srv s')
  cooldown-Sound s s' r gone =
      enter_cooldown-Sound s' r.unheld (r.helper ∙ gone)
        (Quiet-Facts s'.lock_held s'.helper s'.log r.quiet r.safe)

  -- Once its process is gone the current session writes no more, and the lock can go.
  pub without_helper-Freed :
      (k : ℕ) (s : Supervisor srv.World)
      → Facts s.lock_held (some k) s.log
      → Freed (end_helper c srv k s) (release_lock c srv (end_helper c srv k s))
  unfolding end_helper
  without_helper-Freed k s f =
      release_lock-Freed (end_helper c srv k s) (others-Quiet s.lock_held k s.log f) f.safe

  pub end_session-Sound :
      (k : ℕ) (s : Supervisor srv.World)
      → Facts s.lock_held s.helper s.log
      → s.helper ≡ some k
      → is s.state terminated ≡ false
      → Sound (end_session c srv s)
  unfolding end_session end_helper
  end_session-Sound k s f up live =
      let f' : Facts s.lock_held (some k) s.log =
        subst (λ helper. Facts s.lock_held helper s.log) up f in
      let r = without_helper-Freed k s f' in
      simp (up, ap (λ (state : SrtpSupervisorState). is state terminated) r.state, live)
        (cooldown-Sound (end_helper c srv k s) (release_lock c srv (end_helper c srv k s)) r refl)
