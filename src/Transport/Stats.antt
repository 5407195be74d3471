-- ===== src/Transport/Stats.antt =====
-- `onStats` and `onTransition` of a port: the bytes that are counted for the traffic metrics.
use video_thingy_rocks.Common.{
  ℕ, ◌+◌, ◌-◌, ◌≤◌, ◌≡◌, refl, ap, ◌∙◌, Option, none, some, List, [], ◌∷◌, ◌++◌, leb, get_or_else,
  if◌then◌else◌, arith, All,
}

-- `last` is the port's entry in `lastInputBytes`; `recorded` is what was counted in all.
pub record InputBytes : Type 0 where
  pub last : Option ℕ
  pub recorded : ℕ

-- A transition to `starting`, which each spawn of a helper makes, or a helper's cumulative count.
pub data PortReport : Type 0 where
  starts : PortReport
  stats : (input_bytes : ℕ) → PortReport

unfoldable pub on_report : PortReport → InputBytes → InputBytes
on_report starts s = record s { last = none }
on_report (stats input_bytes) s =
    let last = get_or_else s.last 0 in
    let delta = if leb last input_bytes then input_bytes - last else input_bytes in
    record { last = some input_bytes; recorded = s.recorded + delta }

unfoldable pub on_reports : List PortReport → InputBytes → InputBytes
unfolding on_report
on_reports [] s = s
on_reports (r ∷ rs) s = on_reports rs (on_report r s)

-- The counts of one helper after another.
unfoldable pub of_helper : List ℕ → List PortReport
of_helper [] = []
of_helper (n ∷ ns) = stats n ∷ of_helper ns

unfoldable pub of_helpers : List (List ℕ) → List PortReport
unfolding of_helper
of_helpers [] = []
of_helpers (ns ∷ helpers) = starts ∷ (of_helper ns ++ of_helpers helpers)

-- A helper's counter does not fall, from `from` on.
abbrev pub Rising : ℕ → List ℕ → Type 0
Rising from [] = Unit
Rising from (n ∷ ns) = (from ≤ n) × Rising n ns

-- The last count of a helper, and the sum over the helpers.
unfoldable pub final : ℕ → List ℕ → ℕ
final from [] = from
final from (n ∷ ns) = final n ns

unfoldable pub total : List (List ℕ) → ℕ
unfolding final
total [] = 0
total (ns ∷ helpers) = final 0 ns + total helpers

-- One helper's reports, and then those of the others.
helper-recorded :
    (ns : List ℕ) (rest : List PortReport) (s : InputBytes)
    → Rising (get_or_else s.last 0) ns
    → (s' : InputBytes) × ((on_reports (of_helper ns ++ rest) s ≡ on_reports rest s')
        × (s'.recorded + get_or_else s.last 0 ≡ s.recorded + final (get_or_else s.last 0) ns))
unfolding on_reports of_helper final
helper-recorded [] rest s h = (s, (refl, refl))
helper-recorded (n ∷ ns) rest s (above, h) =
    let t = on_report (stats n) s in
    let (s', (same, sum)) = helper-recorded ns rest t h in (s', (same, ground (arith, sum, above)))

-- However often a port's helper is replaced: what is counted for the metrics is the sum of what each
-- helper read, by its last count, where the counts of one helper do not fall.
pub recorded-total :
    (helpers : List (List ℕ)) (s : InputBytes)
    → All (Rising 0) helpers
    → (on_reports (of_helpers helpers) s).recorded ≡ s.recorded + total helpers
unfolding on_reports of_helpers total
recorded-total [] s h = omega arith
recorded-total (ns ∷ helpers) s (rising, h) =
    let (s', (same, sum)) = helper-recorded ns (of_helpers helpers) (on_report starts s) rising in
    ap (λ (r : InputBytes). r.recorded) same ∙ recorded-total helpers s' h ∙ omega (arith, sum)
