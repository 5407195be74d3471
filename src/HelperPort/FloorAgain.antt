-- ===== src/HelperPort/FloorAgain.antt =====
-- The search offers the floor's rollover counter again and again.
use video_thingy_rocks.Common.{
  ℕ, zero, suc, ◌+◌, ◌-◌, ◌≤◌, ◌≡◌, inl, inr, refl, Bool, true, false, Option, none, some, ltb,
  ltb→lt, arith, Bool-cases, subst,
}
use video_thingy_rocks.HelperPort.Candidates.{
  Search, roc_max, floor_due, count_up, far_candidate, next_candidate,
}
use video_thingy_rocks.HelperPort.Climb.{
  after, IsClimbing, bump, Waits, Waits-IsClimbing, due-step, sweep-step, far-step, near-step,
  skip-step,
}

-- Some later candidate is `c`.
abbrev pub Offers : Search → ℕ → Type 0
Offers s c = (n : ℕ) × ((next_candidate (after n s)).0 ≡ c)

pub Offers-after : (m : ℕ) (s : Search) (c : ℕ) → Offers (after m s) c → Offers s c
unfolding after
Offers-after zero s c o = o
Offers-after (suc m) s c o = let (n, e) = Offers-after m (next_candidate s).1 c o in (suc n, e)

pub Offers-next : (s : Search) (c : ℕ) → Offers (next_candidate s).1 c → Offers s c
unfolding after
Offers-next s c (n, e) = (suc n, e)

pub bump-IsClimbing :
    (s s' : Search)
    → s'.far ≡ bump s
    → s'.base ≡ s.base
    → s'.floor_every ≡ s.floor_every
    → IsClimbing s
    → IsClimbing s'
unfolding bump
bump-IsClimbing s s' f b e c = record {
  room = rw b c.room;
  above = let h = c.above in rw (b, f) (ground arith);
  within = let h = c.room in rw f (ground arith);
  every = rw e c.every;
}

-- How many climbing candidates are left before the floor is due.
abbrev pub gap : Search → ℕ
gap s = elim s.since_floor [ none ↦ 0 | some n ↦ s.floor_every - n ]

-- A climbing candidate.
pub record Counts (s s' : Search) : Type 0 where
  pub base : s'.base ≡ s.base
  pub climbing : IsClimbing s'
  pub since : s'.since_floor ≡ count_up s.since_floor
  pub every : s'.floor_every ≡ s.floor_every

far-Counts :
    (s : Search) (b : Bool)
    → IsClimbing s
    → next_candidate s
      ≡ far_candidate (record s { since_floor = count_up s.since_floor; far_turn = b })
    → Counts s (next_candidate s).1
unfolding far_candidate bump
far-Counts s b c e = rw e (record {
  base = refl;
  climbing =
      bump-IsClimbing s
        (far_candidate (record s { since_floor = count_up s.since_floor; far_turn = b })).1 refl
        refl refl c;
  since = refl;
  every = refl;
})

pub climb-Counts :
    (s : Search)
    → IsClimbing s
    → floor_due s.floor_every s.since_floor ≡ false
    → ltb 0 s.resweep ≡ false
    → Counts s (next_candidate s).1
climb-Counts s c due swept = elim (Bool-cases s.far_turn) [
  | inr far ↦ far-Counts s _ c (far-step s c due swept far)
  | inl near ↦ elim (Bool-cases (ltb s.near s.far_start)) [
    | inr none_left ↦ far-Counts s _ c (skip-step s c due swept near none_left)
    | inl more ↦ rw (near-step s c due swept near more) (record {
      base = refl;
      climbing = record { room = c.room; above = c.above; within = c.within; every = c.every };
      since = refl;
      every = refl;
    })
  ]
]

due_or_gap : (s : Search) → gap s ≤ 0 → floor_due s.floor_every s.since_floor ≡ true
due_or_gap s h = ground arith

gap-Counts :
    (s s' : Search)
    → Counts s s'
    → floor_due s.floor_every s.since_floor ≡ false
    → gap s' + 1 ≤ gap s
gap-Counts s s' k due = rw (k.since, k.every) (go s.since_floor due)
  where
    go :
        (o : Option ℕ)
        → floor_due s.floor_every o ≡ false
        → elim (count_up o) as (λ _. ℕ) [ none ↦ 0 | some n ↦ s.floor_every - n ] + 1
          ≤ elim o as (λ _. ℕ) [ none ↦ 0 | some n ↦ s.floor_every - n ]
    go none due = cc
    go (some n) due = ground arith

-- After a climbing candidate the floor is nearer.
climbs_on :
    (g : ℕ)
    → ((k : ℕ) (s : Search) → IsClimbing s → gap s ≤ g → s.resweep ≤ k → Offers s s.base)
    → (s : Search) → IsClimbing s
    → gap s ≤ suc g
    → floor_due s.floor_every s.since_floor ≡ false
    → ltb 0 s.resweep ≡ false
    → Offers s s.base
climbs_on g ih s c hg climbing swept =
    let s' = (next_candidate s).1 in
    let k = climb-Counts s c climbing swept in
    let nearer = gap-Counts s s' k climbing in
    Offers-next s s.base
      (subst (Offers s') k.base (ih s'.resweep s' k.climbing (omega (arith, nearer)) (omega arith)))

pub floor_again :
    (g k : ℕ) (s : Search) → IsClimbing s → gap s ≤ g → s.resweep ≤ k → Offers s s.base
unfolding after
floor_again zero k s c hg hk = (0, rw (due-step s c (due_or_gap s hg)) refl)
floor_again (suc g) zero s c hg hk = elim (Bool-cases (floor_due s.floor_every s.since_floor)) [
  | inl due ↦ (0, rw (due-step s c due) refl)
  | inr climbing ↦ climbs_on g (floor_again g) s c hg climbing (ground arith)
]
floor_again (suc g) (suc k) s c hg hk = elim (Bool-cases (floor_due s.floor_every s.since_floor)) [
  | inl due ↦ (0, rw (due-step s c due) refl)
  | inr climbing ↦ elim (Bool-cases (ltb 0 s.resweep)) [
    | inr swept ↦ climbs_on g (floor_again g) s c hg climbing swept
    | inl more ↦
        let s' = record s { resweep = s.resweep - 1 } in
        let w : Waits s s' = record { far = refl; base = refl; every = refl } in
        Offers-next s s.base (
          rw (sweep-step s c climbing more) (
            floor_again (suc g) k s' (Waits-IsClimbing s s' w c) hg
              (let h = ltb→lt 0 s.resweep more in omega arith)))
  ]
]

-- A search whose base is the top counter gives only that.
pub top-Offers : (s : Search) → s.base ≡ roc_max → Offers s s.base
unfolding after next_candidate
top-Offers s e = (0, ground arith)
