-- ===== src/Common/Lists.antt =====
-- Lists measured by native numbers, and maps as functions.
use Prim.Native.Nat.{ℕ, zero, suc, ◌+◌}
use mathlib.Core.Path.{◌≡◌}
use mathlib.Core.List.{List, [], ◌∷◌, ◌++◌}
use mathlib.Core.Option.{Option, none, some}
use native.Mathlib.Omega.{arith}
use video_thingy_rocks.Common.Tests.{◌==◌, if◌then◌else◌}

module _ {ℓ} {A : Type ℓ} where
  abbrev pub length : List A → ℕ
  length [] = 0
  length (x ∷ xs) = suc (length xs)

  abbrev pub take : ℕ → List A → List A
  take zero xs = []
  take (suc n) [] = []
  take (suc n) (x ∷ xs) = x ∷ take n xs

  pub length-append : (xs ys : List A) → length (xs ++ ys) ≡ length xs + length ys
  length-append [] ys = omega arith
  length-append (x ∷ xs) ys = omega (arith, length-append xs ys)

module _ {ℓ κ} {A : Type ℓ} (P : A → Type κ) where
  abbrev pub All : List A → Type κ
  All [] = Unit
  All (x ∷ xs) = P x × All xs

-- A JavaScript `Map` keyed by a port.
abbrev pub PortMap {ℓ} : Type ℓ → Type ℓ
PortMap V = ℕ → Option V

module _ {ℓ} {V : Type ℓ} where
  abbrev pub map_set : PortMap V → ℕ → V → PortMap V
  map_set m k v j = if j == k then some v else m j

  abbrev pub map_delete : PortMap V → ℕ → PortMap V
  map_delete m k j = if j == k then none else m j
