-- ===== src/HelperProtocol/Parse/Ensures.antt =====
-- Properties of the frame that a chain of readers returns, if it returns one.
use video_thingy_rocks.Common.{
  subst, ◌≡◌, inl, inr, refl, String, Option, none, some, str_eq, str_eq_iff, if◌then◌else◌,
  Bool-cases,
}
use video_thingy_rocks.HelperProtocol.{SrtpHelperMessage}
use video_thingy_rocks.HelperProtocol.Parse.{◌>>=◌}

-- Whatever frame is returned has the property.
pub record Ensures (P : SrtpHelperMessage → Type 0) (o : Option SrtpHelperMessage) : Type 0 where
  pub at : (m : SrtpHelperMessage) → o ≡ some m → P m

some-eq : {m n : SrtpHelperMessage} → some m ≡ some n → m ≡ n
some-eq e = cc

module _ {P : SrtpHelperMessage → Type 0} where
  pub none-Ensures : Ensures P none
  none-Ensures = record { at = λ m e. cc }

  pub some-Ensures : {m : SrtpHelperMessage} → P m → Ensures P (some m)
  some-Ensures {m} h = record { at = λ n e. subst P (some-eq e) h }

  pub bind-Ensures :
      {A : Type 0} {o : Option A} {f : A → Option SrtpHelperMessage}
      → ((a : A) → o ≡ some a → Ensures P (f a))
      → Ensures P (o >>= f)
  unfolding ◌>>=◌
  bind-Ensures {o = none} h = none-Ensures
  bind-Ensures {o = some a} h = h a refl

  pub if-Ensures :
      (s t : String) {x y : Option SrtpHelperMessage}
      → (s ≡ t → Ensures P x)
      → Ensures P y
      → Ensures P (if str_eq s t then x else y)
  if-Ensures s t h k = elim (Bool-cases (str_eq s t)) [
    | inl same ↦ rw same (h ((str_eq_iff s t).0 same))
    | inr other ↦ rw other k
  ]
