-- ===== src/HelperPort/Reached.antt =====
-- The search reaches every rollover counter from the floor's upward, again and again.
use video_thingy_rocks.Common.{
  ℕ, zero, suc, ◌+◌, ◌-◌, ◌≤◌, ◌<◌, ◌≡◌, inl, inr, refl, ◌∙◌, Option, none, some, ltb, ltb→lt, ◌==◌,
  arith, Bool-cases, subst, min,
}
use video_thingy_rocks.HelperPort.Candidates.{
  Search, roc_max, floor_due, new_search, next_candidate,
}
use video_thingy_rocks.HelperPort.Climb.{
  after, IsClimbing, bump, due-step, sweep-step, climbing-TurnsFar,
}
use video_thingy_rocks.HelperPort.FloorAgain.{
  Offers, Offers-after, Offers-next, bump-IsClimbing, climb-Counts, gap, floor_again, top-Offers,
}

module _ (c : ℕ) (small : c ≤ roc_max) where
  up : (d : ℕ) (s : Search) → IsClimbing s → s.far + d ≡ c → Offers s c
  unfolding bump
  up zero s k e = let t = climbing-TurnsFar s k in (t.n, t.yields ∙ omega arith)
  up (suc d) s k e =
      let t = climbing-TurnsFar s k in
      let s' = (next_candidate (after t.n s)).1 in
      let f = t.far in
      Offers-after t.n s c (
        Offers-next (after t.n s) c
          (up d s' (bump-IsClimbing s s' t.far t.base t.every k) (ground arith)))

  -- The climb passes the top and starts anew above the base.
  round : (d : ℕ) (s : Search) → IsClimbing s → s.far + d ≡ roc_max → s.base < c → Offers s c
  unfolding bump
  round zero s k e above =
      let t = climbing-TurnsFar s k in
      let s' = (next_candidate (after t.n s)).1 in
      let f = t.far in
      let b = t.base in
      Offers-after t.n s c (
        Offers-next (after t.n s) c
          (up (c - (s.base + 1)) s' (bump-IsClimbing s s' t.far t.base t.every k) (ground arith)))
  round (suc d) s k e above =
      let t = climbing-TurnsFar s k in
      let s' = (next_candidate (after t.n s)).1 in
      let f = t.far in
      let b = t.base in
      Offers-after t.n s c (
        Offers-next (after t.n s) c (
          round d s' (bump-IsClimbing s s' t.far t.base t.every k) (ground arith)
            (omega (arith, b))))

-- Every step leaves a search climbing from its base.
next-IsClimbing :
    (s : Search)
    → IsClimbing s
    → IsClimbing (next_candidate s).1 × ((next_candidate s).1.base ≡ s.base)
next-IsClimbing s c = elim (Bool-cases (floor_due s.floor_every s.since_floor)) [
  | inl due ↦
      rw (due-step s c due)
        (record { room = c.room; above = c.above; within = c.within; every = c.every }, refl)
  | inr climbing ↦ elim (Bool-cases (ltb 0 s.resweep)) [
    | inl more ↦
        rw (sweep-step s c climbing more)
          (record { room = c.room; above = c.above; within = c.within; every = c.every }, refl)
    | inr swept ↦ let k = climb-Counts s c climbing swept in (k.climbing, k.base)
  ]
]

after-IsClimbing :
    (m : ℕ) (s : Search) → IsClimbing s → IsClimbing (after m s) × ((after m s).base ≡ s.base)
unfolding after
after-IsClimbing zero s c = (c, refl)
after-IsClimbing (suc m) s c =
    let (c₁, b₁) = next-IsClimbing s c in
    let (c₂, b₂) = after-IsClimbing m (next_candidate s).1 c₁ in (c₂, b₂ ∙ b₁)

climbing-Offers : (s : Search) (c : ℕ) → IsClimbing s → s.base ≤ c → c ≤ roc_max → Offers s c
climbing-Offers s c k lo hi = elim (Bool-cases (s.base == c)) [
  | inl at_base ↦
      subst (Offers s) (ground arith)
        (floor_again (gap s) s.resweep s k (omega arith) (omega arith))
  | inr other ↦ round c hi (roc_max - s.far) s k (let h = k.within in omega arith) (ground arith)
]

new_search-IsClimbing :
    (floor_roc : ℕ) (search_from : Option ℕ) (floor_every : ℕ)
    → floor_roc < roc_max
    → IsClimbing (new_search floor_roc search_from floor_every)
unfolding new_search
new_search-IsClimbing floor_roc none floor_every h = ground arith
new_search-IsClimbing floor_roc (some search_from) floor_every h = ground arith

new_search-base :
    (floor_roc : ℕ) (search_from : Option ℕ) (floor_every : ℕ)
    → (new_search floor_roc search_from floor_every).base ≡ min floor_roc roc_max
unfolding new_search
new_search-base floor_roc search_from floor_every = refl

top_stays : (m : ℕ) (s : Search) → s.base ≡ roc_max → (after m s).base ≡ roc_max
unfolding after next_candidate
top_stays zero s e = e
top_stays (suc m) s e = top_stays m (next_candidate s).1 (ground arith)

-- However many candidates a new search gave, every rollover counter from that of the floor to the
-- highest is among those that follow. It does not matter where the far climb starts, nor how often
-- the floor is offered.
pub new_search-Offers :
    (floor_roc : ℕ) (search_from : Option ℕ) (floor_every m c : ℕ)
    → floor_roc ≤ c
    → c ≤ roc_max
    → Offers (after m (new_search floor_roc search_from floor_every)) c
new_search-Offers floor_roc search_from floor_every m c lo hi =
    elim (Bool-cases (ltb floor_roc roc_max)) [
      | inl room ↦
          let s = new_search floor_roc search_from floor_every in
          let (k, b) = after-IsClimbing m s (
            new_search-IsClimbing floor_roc search_from floor_every
              (ltb→lt floor_roc roc_max room)) in
          climbing-Offers (after m s) c k
            (rw (b, new_search-base floor_roc search_from floor_every) (ground arith)) hi
      | inr top ↦
          let s = new_search floor_roc search_from floor_every in
          let e =
            top_stays m s (new_search-base floor_roc search_from floor_every ∙ ground arith) in
          subst (Offers (after m s)) (e ∙ ground arith) (top-Offers (after m s) e)
    ]
