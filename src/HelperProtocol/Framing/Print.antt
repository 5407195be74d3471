-- ===== src/HelperProtocol/Framing/Print.antt =====
-- Texts on lines of their own.
use video_thingy_rocks.Common.{ℕ, ◌≡◌, refl, sym, ap, List, [], ◌∷◌, ◌++◌, All}
use mathlib.Core.List.{append-nil, reverse-append, reverse-reverse}
use video_thingy_rocks.HelperProtocol.Framing.{trim, trim_start, newline, is_space}
use video_thingy_rocks.HelperProtocol.Framing.Lines.{split, prepend, split-prepend, NoNewline}

abbrev pub braces : List ℕ → List ℕ
braces body = 123 ∷ (body ++ 125 ∷ [])

pub trim-braces : (body : List ℕ) → trim (braces body) ≡ braces body
unfolding trim trim_start is_space
trim-braces body =
    rw (reverse-append (123 ∷ body) (125 ∷ []))
      (rw (sym (reverse-append (123 ∷ body) (125 ∷ []))) (reverse-reverse (braces body)))

-- Every text and a newline behind it.
unfoldable pub print_all : List (List ℕ) → List ℕ
print_all [] = []
print_all (l ∷ ls) = l ++ newline ∷ print_all ls

pub split-print_all : (ls : List (List ℕ)) → All NoNewline ls → (split (print_all ls)).0 ≡ ls
unfolding print_all split prepend
split-print_all [] h = refl
split-print_all (l ∷ ls) (h, k) =
    rw (split-prepend l (newline ∷ print_all ls) h, split-print_all ls k)
      (ap (λ x. x ∷ ls) (append-nil l))
