-- ===== src/HelperProtocol/Framing/Frames.antt =====
-- The frames of complete lines, each read by itself.
use video_thingy_rocks.Common.{
  ℕ, ◌≡◌, inl, inr, refl, sym, false, Option, List, [], ◌∷◌, ◌++◌, length, ltb, if◌then◌else◌,
  Bool-cases,
}
use mathlib.Core.List.{append_assoc}
use video_thingy_rocks.HelperProtocol.{SrtpHelperMessage}
use video_thingy_rocks.HelperProtocol.Json.{Json}
use video_thingy_rocks.HelperProtocol.Parse.Reads.{is_report, parse_message-is_report}
use video_thingy_rocks.HelperProtocol.Framing.{max_line_bytes, trim, parse_line, line_messages}
use video_thingy_rocks.HelperProtocol.Framing.Lines.{process}

-- Without the reports of discarded lines.
unfoldable pub frames : List SrtpHelperMessage → List SrtpHelperMessage
frames [] = []
frames (m ∷ ms) = if is_report m then frames ms else m ∷ frames ms

pub frames-append : (xs ys : List SrtpHelperMessage) → frames (xs ++ ys) ≡ frames xs ++ frames ys
unfolding frames
frames-append [] ys = refl
frames-append (m ∷ xs) ys = elim (Bool-cases (is_report m)) [
  | inl e ↦ rw (e, frames-append xs ys) refl
  | inr e ↦ rw (e, frames-append xs ys) refl
]

module _ (json_parse : List ℕ → Option Json) where
  -- One complete line by itself: nothing if it is too long or blank, else its frame.
  unfoldable pub line_frames : List ℕ → List SrtpHelperMessage
  line_frames raw = if ltb max_line_bytes (length raw) then [] else parse_line json_parse (trim raw)

  unfoldable pub all_frames : List (List ℕ) → List SrtpHelperMessage
  all_frames [] = []
  all_frames (l ∷ ls) = line_frames l ++ all_frames ls

  pub all_frames-append :
      (xs ys : List (List ℕ)) → all_frames (xs ++ ys) ≡ all_frames xs ++ all_frames ys
  unfolding all_frames
  all_frames-append [] ys = refl
  all_frames-append (l ∷ xs) ys =
      rw (all_frames-append xs ys)
        (sym (append_assoc (line_frames l) (all_frames xs) (all_frames ys)))

  frames-parse_line : (l : List ℕ) → frames (parse_line json_parse l) ≡ parse_line json_parse l
  unfolding frames parse_line
  frames-parse_line [] = refl
  frames-parse_line (c ∷ cs) = rw (parse_message-is_report json_parse (c ∷ cs)) refl

  frames-line_messages : (l : List ℕ) → frames (line_messages json_parse false l) ≡ line_frames l
  unfolding line_messages line_frames frames is_report
  frames-line_messages l = elim (Bool-cases (ltb max_line_bytes (length l))) [
    | inl e ↦ rw e refl
    | inr e ↦ rw e (frames-parse_line (trim l))
  ]

  pub frames-process : (ls : List (List ℕ)) → frames (process json_parse false ls) ≡ all_frames ls
  unfolding frames process all_frames
  frames-process [] = refl
  frames-process (l ∷ ls) =
      rw
        (
          frames-append (line_messages json_parse false l) (process json_parse false ls),
          frames-line_messages l,
          frames-process ls,
        )
        refl
