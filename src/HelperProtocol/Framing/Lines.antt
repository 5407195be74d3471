-- ===== src/HelperProtocol/Framing/Lines.antt =====
-- The lines of a text, and what the cutting loop makes of them.
use video_thingy_rocks.Common.{
  ℕ, zero, suc, ◌<◌, ◌≡◌, ◌⊎◌, inl, inr, refl, Bool, false, Option, none, some, List, [], ◌∷◌, ◌++◌,
  length, ◌==◌, if◌then◌else◌, arith, All, Bool-cases,
}
use video_thingy_rocks.HelperProtocol.{SrtpHelperMessage}
use video_thingy_rocks.HelperProtocol.Json.{Json}
use video_thingy_rocks.HelperProtocol.Framing.{
  newline, cut_line, SrtpHelperProtocol, line_messages, take_lines,
}

-- Puts text in front of the first line, or of the rest if there is no line.
unfoldable pub prepend : List ℕ → List (List ℕ) × List ℕ → List (List ℕ) × List ℕ
prepend d ([], p) = ([], d ++ p)
prepend d (l ∷ ls, p) = ((d ++ l) ∷ ls, p)

-- The complete lines of a text, and the rest behind its last newline.
unfoldable pub split : List ℕ → List (List ℕ) × List ℕ
unfolding prepend
split [] = ([], [])
split (c ∷ cs) =
    if c == newline then ([] ∷ (split cs).0, (split cs).1) else prepend (c ∷ []) (split cs)

abbrev pub NoNewline : List ℕ → Type 0
NoNewline = All (λ c. (c == newline) ≡ false)

pub split-prepend : (d x : List ℕ) → NoNewline d → split (d ++ x) ≡ prepend d (split x)
unfolding split prepend
split-prepend [] x h = go (split x)
  where
    go : (s : List (List ℕ) × List ℕ) → s ≡ prepend [] s
    go ([], p) = refl
    go (l ∷ ls, p) = refl
split-prepend (c ∷ d) x (h, k) = rw (h, split-prepend d x k) (go (split x))
  where
    go : (s : List (List ℕ) × List ℕ) → prepend (c ∷ []) (prepend d s) ≡ prepend (c ∷ d) s
    go ([], p) = refl
    go (l ∷ ls, p) = refl

pub split-NoNewline : (x : List ℕ) → NoNewline (split x).1
unfolding split prepend
split-NoNewline [] = tt
split-NoNewline (c ∷ cs) = elim (Bool-cases (c == newline)) [
  | inl cut ↦ rw cut (split-NoNewline cs)
  | inr other ↦ rw other (go (split cs) (split-NoNewline cs) other)
]
  where
    go :
        (s : List (List ℕ) × List ℕ)
        → NoNewline s.1
        → (c == newline) ≡ false
        → NoNewline (prepend (c ∷ []) s).1
    go ([], p) h e = (e, h)
    go (l ∷ ls, p) h e = h

-- The lines of a longer text: those of the first part, then those of its rest and the second.
pub split-append :
    (a b : List ℕ)
    → split (a ++ b) ≡ ((split a).0 ++ (split ((split a).1 ++ b)).0, (split ((split a).1 ++ b)).1)
unfolding split prepend
split-append [] b = refl
split-append (c ∷ a) b = elim (Bool-cases (c == newline)) [
  | inl cut ↦ rw (cut, split-append a b)
  | inr other ↦ rw (other, split-append a b) (go (split a) other)
]
  where
    go :
        (s : List (List ℕ) × List ℕ)
        → (c == newline) ≡ false
        → prepend (c ∷ []) (s.0 ++ (split (s.1 ++ b)).0, (split (s.1 ++ b)).1) ≡ (
          (prepend (c ∷ []) s).0 ++ (split ((prepend (c ∷ []) s).1 ++ b)).0,
          (split ((prepend (c ∷ []) s).1 ++ b)).1,
        )
    go ([], p) e = rw e
    go (l ∷ ls, p) e = refl

cut_line-split :
    (b : List ℕ)
    → ((cut_line b ≡ none) × (split b ≡ ([], b)))
      ⊎ ((raw : List ℕ) × (rest : List ℕ) × (cut_line b ≡ some (raw, rest))
          × (split b ≡ (raw ∷ (split rest).0, (split rest).1))
          × (length rest < length b))
unfolding split prepend cut_line
cut_line-split [] = inl (refl, refl)
cut_line-split (c ∷ cs) = elim (Bool-cases (c == newline)) [
  | inl cut ↦ rw cut (inr ([], cs, refl, refl, omega arith))
  | inr other ↦ elim (cut_line-split cs) [
    | inl (e, s) ↦ rw (other, e, s) (inl (refl, refl))
    | inr (raw, rest, e, s, lt) ↦ rw (other, e, s) (inr (c ∷ raw, rest, refl, refl, omega arith))
  ]
]

module _ (json_parse : List ℕ → Option Json) where
  -- What a run of complete lines yields, the first of which may be the tail of a discarded one.
  unfoldable pub process : Bool → List (List ℕ) → List SrtpHelperMessage
  process skip [] = []
  process skip (l ∷ ls) = line_messages json_parse skip l ++ process false ls

  abbrev pub after_lines : Bool → List (List ℕ) → Bool
  after_lines skip [] = skip
  after_lines skip (l ∷ ls) = false

  after_lines-false : (ls : List (List ℕ)) → after_lines false ls ≡ false
  after_lines-false [] = refl
  after_lines-false (l ∷ ls) = refl

  -- With fuel above the buffer's length the loop ends by itself: it has taken every complete line,
  -- in order, and the buffer holds the rest.
  pub take_lines_lem :
      (fuel : ℕ) (p : SrtpHelperProtocol)
      → length p.buffer < fuel
      → take_lines json_parse fuel p ≡ (
        process p.overlong (split p.buffer).0,
        record {
          buffer = (split p.buffer).1;
          overlong = after_lines p.overlong (split p.buffer).0;
        },
      )
  unfolding process take_lines split
  take_lines_lem zero p lt = absurd (omega arith)
  take_lines_lem (suc fuel) p lt = elim (cut_line-split p.buffer) [
    | inl (e, s) ↦ rw (e, take_lines, s) refl
    | inr (raw, rest, e, s, shorter) ↦
        rw
          (
            e,
            take_lines,
            s,
            take_lines_lem fuel (record { buffer = rest; overlong = false }) (omega arith),
            after_lines-false (split rest).0,
          )
          refl
  ]
