-- ===== src/HelperPort/Candidates.antt =====
-- backend/src/srtp_port.py: `Search`, the order in which rollover counters are tried.
use video_thingy_rocks.Common.{
  ℕ, zero, suc, ◌+◌, ◌-◌, Bool, true, false, not, Option, none, some, ltb, leb, ◌==◌, ◌&&◌,
  if◌then◌else◌, min, max,
}

abbrev pub roc_modulo : ℕ
roc_modulo = 4294967296

abbrev pub roc_max : ℕ
roc_max = 4294967295

abbrev pub resweep_window : ℕ
resweep_window = 16

pub record Search : Type 0 where
  pub base : ℕ
  pub floor_every : ℕ
  pub far_start : ℕ
  pub far : ℕ
  pub near : ℕ
  pub since_floor : Option ℕ
  pub far_turn : Bool
  pub resweep : ℕ

abbrev start_of : ℕ → Option ℕ → ℕ
start_of base none = base + 1
start_of base (some search_from) = search_from

-- `Search.__init__`, for a counter that is not negative.
unfoldable pub new_search : ℕ → Option ℕ → ℕ → Search
new_search floor_roc search_from floor_every =
    let base = min floor_roc roc_max in
    let start = start_of base search_from in
    let far_start = if ltb base start && leb start roc_max then start else base + 1 in
    record {
      base = base;
      floor_every = max floor_every 1;
      far_start = far_start;
      far = far_start;
      near = base + 1;
      since_floor = none;
      far_turn = false;
      resweep = 0;
    }

-- `since_floor is None or since_floor >= floor_every`
abbrev pub floor_due : ℕ → Option ℕ → Bool
floor_due floor_every none = true
floor_due floor_every (some n) = leb floor_every n

abbrev pub count_up : Option ℕ → Option ℕ
count_up none = none
count_up (some n) = some (n + 1)

unfoldable pub far_candidate : Search → ℕ × Search
far_candidate s = (s.far, record s { far = if ltb s.far roc_max then s.far + 1 else s.base + 1 })

-- The rounds of the loop that are left.
unfoldable pub climb : ℕ → Search → ℕ × Search
unfolding far_candidate
climb zero s = (s.base, s)
climb (suc rounds) s =
    let turned = record s { far_turn = not s.far_turn } in
    let next_round = climb rounds turned in
    if s.far_turn
    then if ltb s.near s.far_start
      then (s.near, record turned { near = s.near + 1 })
      else next_round
    else far_candidate turned

-- `Search.__next__`
unfoldable pub next_candidate : Search → ℕ × Search
unfolding climb
next_candidate s =
    if s.base == roc_max
    then (s.base, s)
    else if floor_due s.floor_every s.since_floor
    then (s.base, record s { since_floor = some 0; resweep = resweep_window })
    else if ltb 0 s.resweep
    then (
      min (s.base + (resweep_window - (s.resweep - 1))) roc_max,
      record s { resweep = s.resweep - 1 },
    )
    else climb 2 (record s { since_floor = count_up s.since_floor })
