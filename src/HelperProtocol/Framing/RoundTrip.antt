-- ===== src/HelperProtocol/Framing/RoundTrip.antt =====
-- What the helper emits is what the supervisor reads.
use video_thingy_rocks.Common.{
  ℕ, ◌≤◌, ◌≡◌, refl, sym, ap, ◌∙◌, subst, false, Option, some, List, [], ◌∷◌, length, ltb, map,
  arith, All,
}
use mathlib.Core.List.{append_assoc}
use video_thingy_rocks.HelperProtocol.Json.{Json, object, Fields}
use video_thingy_rocks.HelperProtocol.Emit.{Emission, frame, emit, output}
use video_thingy_rocks.HelperProtocol.Parse.{parse_message}
use video_thingy_rocks.HelperProtocol.Parse.ReadBack.{message_of, InRange, parse_message-frame}
use video_thingy_rocks.HelperProtocol.Framing.{
  max_line_bytes, newline, new_protocol, parse_line, push_all,
}
use video_thingy_rocks.HelperProtocol.Framing.Lines.{split, NoNewline}
use video_thingy_rocks.HelperProtocol.Framing.Frames.{frames, line_frames, all_frames}
use video_thingy_rocks.HelperProtocol.Framing.Chunks.{concat, push_all-frames}
use video_thingy_rocks.HelperProtocol.Framing.Print.{
  braces, trim-braces, print_all, split-print_all,
}

module _ (json_parse : List ℕ → Option Json) (json_dumps : Fields → List ℕ) where
  -- `json.dumps` writes an object on one line between braces, and `JSON.parse` reads it back. The
  -- text of a frame is short enough for a line.
  pub record Prints (e : Emission) : Type 0 where
    pub body : List ℕ
    pub text : json_dumps (frame e) ≡ braces body
    pub one_line : NoNewline (braces body)
    pub fits : length (braces body) ≤ max_line_bytes
    pub parsed : json_parse (json_dumps (frame e)) ≡ some (object (frame e))

  line_of : Emission → List ℕ
  line_of e = json_dumps (frame e)

  output-print_all : (es : List Emission) → output json_dumps es ≡ print_all (map line_of es)
  unfolding output emit print_all line_of
  output-print_all [] = refl
  output-print_all (e ∷ es) =
      rw
        (
          append_assoc (json_dumps (frame e)) (newline ∷ []) (output json_dumps es),
          output-print_all es,
        )
        refl

  lines-NoNewline : (es : List Emission) → All Prints es → All NoNewline (map line_of es)
  unfolding line_of
  lines-NoNewline [] h = tt
  lines-NoNewline (e ∷ es) (h, k) = (subst NoNewline (sym h.text) h.one_line, lines-NoNewline es k)

  line_frames-braces :
      (body : List ℕ)
      → length (braces body) ≤ max_line_bytes
      → line_frames json_parse (braces body) ≡ parse_message json_parse (braces body) ∷ []
  unfolding line_frames parse_line
  line_frames-braces body fits = rw (short, trim-braces body) refl
    where
      short : ltb max_line_bytes (length (braces body)) ≡ false
      short = ground (arith, fits)

  line_frames-line_of :
      (e : Emission) → Prints e → InRange e → line_frames json_parse (line_of e) ≡ message_of e ∷ []
  unfolding line_of
  line_frames-line_of e p h =
      ap (line_frames json_parse) p.text
      ∙ line_frames-braces p.body p.fits
      ∙ ap (λ m. m ∷ [])
          (parse_message-frame json_parse (braces p.body) e h
            (ap json_parse (sym p.text) ∙ p.parsed))

  all_frames-lines :
      (es : List Emission)
      → All Prints es
      → All InRange es
      → all_frames json_parse (map line_of es) ≡ map message_of es
  unfolding all_frames
  all_frames-lines [] p h = refl
  all_frames-lines (e ∷ es) (p, ps) (h, hs) =
      rw (line_frames-line_of e p h, all_frames-lines es ps hs) refl

  -- If the numbers that the helper emits are in range and its texts are printed as JSON, then the
  -- supervisor reads exactly what the helper emitted, in order, however the output was cut into
  -- chunks. Reports of discarded text are left out.
  pub push_all-output :
      (es : List Emission) (chunks : List (List ℕ))
      → All Prints es
      → All InRange es
      → concat chunks ≡ output json_dumps es
      → frames (push_all json_parse chunks new_protocol).0 ≡ map message_of es
  push_all-output es chunks p h whole =
      push_all-frames json_parse chunks
      ∙ ap (λ x. all_frames json_parse (split x).0) (whole ∙ output-print_all es)
      ∙ ap (all_frames json_parse) (split-print_all (map line_of es) (lines-NoNewline es p))
      ∙ all_frames-lines es p h
