-- ===== src/HelperPort/Climb.antt =====
-- What one candidate does to the search, and that the far climb always moves on.
use video_thingy_rocks.Common.{
  ℕ, zero, suc, ◌+◌, ◌-◌, ◌≤◌, ◌<◌, ◌≡◌, inl, inr, refl, ◌∙◌, Bool, true, false, Option, some, ltb,
  ltb→lt, ◌==◌, if◌then◌else◌, arith, Bool-cases, min,
}
use video_thingy_rocks.HelperPort.Candidates.{
  Search, roc_max, resweep_window, floor_due, count_up, far_candidate, climb, next_candidate,
}

-- The search after some candidates, and the one that it gives then.
unfoldable pub after : ℕ → Search → Search
after zero s = s
after (suc n) s = after n (next_candidate s).1

pub record IsClimbing (s : Search) : Type 0 where
  pub room : s.base < roc_max
  pub above : s.base < s.far
  pub within : s.far ≤ roc_max
  pub every : 1 ≤ s.floor_every

unfoldable pub bump : Search → ℕ
bump s = if ltb s.far roc_max then s.far + 1 else s.base + 1

-- A later candidate is that of the far climb, which moves on; before it the far climb stands.
pub record TurnsFar (s : Search) : Type 0 where
  pub n : ℕ
  pub yields : (next_candidate (after n s)).0 ≡ s.far
  pub far : (next_candidate (after n s)).1.far ≡ bump s
  pub base : (next_candidate (after n s)).1.base ≡ s.base
  pub every : (next_candidate (after n s)).1.floor_every ≡ s.floor_every

pub not_max : (s : Search) → IsClimbing s → (s.base == roc_max) ≡ false
not_max s w = let h = w.room in ground arith

-- One candidate that leaves the far climb where it is.
pub record Waits (s s' : Search) : Type 0 where
  pub far : s'.far ≡ s.far
  pub base : s'.base ≡ s.base
  pub every : s'.floor_every ≡ s.floor_every

pub Waits-IsClimbing : (s s' : Search) → Waits s s' → IsClimbing s → IsClimbing s'
Waits-IsClimbing s s' w c = record {
  room = rw w.base c.room;
  above = rw (w.base, w.far) c.above;
  within = rw w.far c.within;
  every = rw w.every c.every;
}

bump-Waits : (s s' : Search) → Waits s s' → bump s' ≡ bump s
unfolding bump
bump-Waits s s' w = rw (w.far, w.base) refl

later-TurnsFar :
    (s : Search) (r : ℕ × Search) → next_candidate s ≡ r → Waits s r.1 → TurnsFar r.1 → TurnsFar s
unfolding after
later-TurnsFar s r e w t = record {
  n = suc t.n;
  yields = rw e (t.yields ∙ w.far);
  far = rw e (t.far ∙ bump-Waits s r.1 w);
  base = rw e (t.base ∙ w.base);
  every = rw e (t.every ∙ w.every);
}

now-TurnsFar :
    (s : Search) (o : Option ℕ) (b : Bool)
    → next_candidate s ≡ far_candidate (record s { since_floor = o; far_turn = b })
    → TurnsFar s
unfolding after far_candidate bump
now-TurnsFar s o b e = record {
  n = 0;
  yields = rw e refl;
  far = rw e refl;
  base = rw e refl;
  every = rw e refl;
}

module _ (s : Search) (c : IsClimbing s) where
  pub due-step :
      floor_due s.floor_every s.since_floor ≡ true
      → next_candidate s ≡ (s.base, record s { since_floor = some 0; resweep = resweep_window })
  unfolding next_candidate
  due-step due = simp (not_max s c, due)

  pub sweep-step :
      floor_due s.floor_every s.since_floor ≡ false
      → ltb 0 s.resweep ≡ true
      → next_candidate s ≡ (
        min (s.base + (resweep_window - (s.resweep - 1))) roc_max,
        record s { resweep = s.resweep - 1 },
      )
  unfolding next_candidate
  sweep-step due more = simp (not_max s c, due, more)

  module _ (due : floor_due s.floor_every s.since_floor ≡ false)
      (swept : ltb 0 s.resweep ≡ false) where
    pub far-step :
        s.far_turn ≡ false
        → next_candidate s
          ≡ far_candidate (record s { since_floor = count_up s.since_floor; far_turn = true })
    unfolding next_candidate climb
    far-step turn = simp (not_max s c, due, swept, turn)

    pub near-step :
        s.far_turn ≡ true
        → ltb s.near s.far_start ≡ true
        → next_candidate s ≡ (
          s.near,
          record s { since_floor = count_up s.since_floor; far_turn = false; near = s.near + 1 },
        )
    unfolding next_candidate climb
    near-step turn more = simp (not_max s c, due, swept, turn, more)

    pub skip-step :
        s.far_turn ≡ true
        → ltb s.near s.far_start ≡ false
        → next_candidate s
          ≡ far_candidate (record s { since_floor = count_up s.since_floor; far_turn = true })
    unfolding next_candidate climb
    skip-step turn none_left = simp (not_max s c, due, swept, turn, none_left)

-- What holds where the search climbs holds before a floor candidate and a sweep.
module _ {ℓ} (P : Search → Type ℓ)
    (back : (s : Search) (r : ℕ × Search)
      → next_candidate s ≡ r
      → Waits s r.1
      → IsClimbing s
      → P r.1
      → P s)
    (turn : Bool)
    (climbs : (s : Search)
      → IsClimbing s
      → s.far_turn ≡ turn
      → floor_due s.floor_every s.since_floor ≡ false
      → ltb 0 s.resweep ≡ false
      → P s) where
  swept :
      (k : ℕ) (s : Search)
      → IsClimbing s
      → s.far_turn ≡ turn
      → floor_due s.floor_every s.since_floor ≡ false
      → s.resweep ≤ k
      → P s
  swept zero s c t due le = climbs s c t due (ground arith)
  swept (suc k) s c t due le = elim (Bool-cases (ltb 0 s.resweep)) [
    | inr done ↦ climbs s c t due done
    | inl more ↦
        let w : Waits s (record s { resweep = s.resweep - 1 }) = record {
          far = refl;
          base = refl;
          every = refl;
        } in
        back s _ (sweep-step s c due more) w c (
          swept k (record s { resweep = s.resweep - 1 })
            (Waits-IsClimbing s (record s { resweep = s.resweep - 1 }) w c) t due
            (let h = ltb→lt 0 s.resweep more in omega arith))
  ]

  from_any : (s : Search) → IsClimbing s → s.far_turn ≡ turn → P s
  from_any s c t = elim (Bool-cases (floor_due s.floor_every s.since_floor)) [
    | inr climbing ↦ swept s.resweep s c t climbing (omega arith)
    | inl due ↦
        let w : Waits s (record s { since_floor = some 0; resweep = resweep_window }) = record {
          far = refl;
          base = refl;
          every = refl;
        } in
        back s _ (due-step s c due) w c (
          swept resweep_window (record s { since_floor = some 0; resweep = resweep_window })
            (Waits-IsClimbing s (record s { since_floor = some 0; resweep = resweep_window }) w c) t
            (let h = c.every in ground arith) (omega arith))
  ]

back-TurnsFar :
    (s : Search) (r : ℕ × Search)
    → next_candidate s ≡ r
    → Waits s r.1
    → IsClimbing s
    → TurnsFar r.1
    → TurnsFar s
back-TurnsFar s r e w c t = later-TurnsFar s r e w t

far_next-TurnsFar : (s : Search) → IsClimbing s → s.far_turn ≡ false → TurnsFar s
far_next-TurnsFar =
    from_any TurnsFar back-TurnsFar false
      λ s c t due swept. now-TurnsFar s _ _ (far-step s c due swept t)

near_next-TurnsFar : (s : Search) → IsClimbing s → s.far_turn ≡ true → TurnsFar s
near_next-TurnsFar = from_any TurnsFar back-TurnsFar true λ s c t due swept.
    elim (Bool-cases (ltb s.near s.far_start)) [
      | inr none_left ↦ now-TurnsFar s _ _ (skip-step s c due swept t none_left)
      | inl more ↦
          let s' = record s {
            since_floor = count_up s.since_floor;
            far_turn = false;
            near = s.near + 1;
          } in
          let w : Waits s s' = record { far = refl; base = refl; every = refl } in
          later-TurnsFar s _ (near-step s c due swept t more) w
            (far_next-TurnsFar s' (Waits-IsClimbing s s' w c) refl)
    ]

-- Wherever the search stands, the far climb moves on.
pub climbing-TurnsFar : (s : Search) → IsClimbing s → TurnsFar s
climbing-TurnsFar s c = elim (Bool-cases s.far_turn) [
  | inl near ↦ near_next-TurnsFar s c near
  | inr far ↦ far_next-TurnsFar s c far
]
