-- ===== src/HelperProtocol/Framing/Chunks.antt =====
-- The frames of a helper's output do not depend on how the output was cut into chunks.
use video_thingy_rocks.Common.{
  ℕ, suc, ◌≤◌, ◌<◌, ◌≡◌, ◌⊎◌, inl, inr, refl, sym, ◌∙◌, subst, true, false, Option, List, [], ◌∷◌,
  ◌++◌, length, length-append, ltb, lt→ltb, ltb→lt, if◌then◌else◌, arith, Bool-cases,
}
use mathlib.Core.List.{append-nil, append_assoc}
use video_thingy_rocks.HelperProtocol.{SrtpHelperMessage, unparsed, overlong}
use video_thingy_rocks.HelperProtocol.Json.{Json}
use video_thingy_rocks.HelperProtocol.Parse.Reads.{is_report}
use video_thingy_rocks.HelperProtocol.Framing.{
  max_line_bytes, SrtpHelperProtocol, new_protocol, line_messages, take_lines, push, push_all,
}
use video_thingy_rocks.HelperProtocol.Framing.Lines.{
  prepend, split, NoNewline, split-prepend, split-NoNewline, split-append, process, after_lines,
  take_lines_lem,
}
use video_thingy_rocks.HelperProtocol.Framing.Frames.{
  frames, frames-append, line_frames, all_frames, all_frames-append, frames-process,
}

unfoldable pub concat : List (List ℕ) → List ℕ
concat [] = []
concat (c ∷ cs) = c ++ concat cs

NoNewline-append : (x y : List ℕ) → NoNewline x → NoNewline y → NoNewline (x ++ y)
NoNewline-append [] y h k = k
NoNewline-append (c ∷ x) y (e, h) k = (e, NoNewline-append x y h k)

module _ (json_parse : List ℕ → Option Json) where
  -- The text `d` in front of the buffer was received and is discarded: it is empty, or already too
  -- long for a line.
  pub record Represents (p : SrtpHelperProtocol) (d : List ℕ) : Type 0 where
    pub discarded :
        ((p.overlong ≡ false) × (d ≡ [])) ⊎ ((p.overlong ≡ true) × (max_line_bytes < length d))
    pub one_line : NoNewline d

  frames-process_discarded :
      (p : SrtpHelperProtocol) (d : List ℕ) (ls : List (List ℕ)) (rest : List ℕ)
      → Represents p d
      → frames (process json_parse p.overlong ls) ≡ all_frames json_parse (prepend d (ls, rest)).0
  unfolding frames process all_frames prepend line_messages line_frames
  frames-process_discarded p d [] rest r = refl
  frames-process_discarded p d (l ∷ ls) rest r = elim r.discarded [
    | inl (whole, e) ↦ rw (whole, e) (frames-process json_parse (l ∷ ls))
    | inr (skip, long) ↦
        rw
          (
            skip,
            frames-process json_parse ls,
            lt→ltb max_line_bytes (length (d ++ l)) (omega (arith, length-append d l)),
          )
          refl
  ]

  -- What a chunk leaves behind, when the text received so far is cut into lines and a rest.
  record Steps (cut : List (List ℕ) × List ℕ) (r : List SrtpHelperMessage × SrtpHelperProtocol)
      : Type 0 where
    front : List ℕ
    represents : Represents r.1 front
    rest : front ++ r.1.buffer ≡ cut.1
    read : frames r.0 ≡ all_frames json_parse cut.0

  abbrev settled :
      List SrtpHelperMessage → SrtpHelperProtocol → List SrtpHelperMessage × SrtpHelperProtocol
  settled messages q =
      if ltb max_line_bytes (length q.buffer)
      then (
        messages ++ unparsed (overlong (length q.buffer)) ∷ [],
        record { buffer = []; overlong = true },
      )
      else (messages, q)

  -- The part of the discarded text that still belongs to the partial line.
  front_of : List ℕ → List (List ℕ) → List ℕ
  front_of d [] = d
  front_of d (l ∷ ls) = []

  front_of-rest :
      (d : List ℕ) (ls : List (List ℕ)) (rest : List ℕ)
      → front_of d ls ++ rest ≡ (prepend d (ls, rest)).1
  unfolding front_of prepend
  front_of-rest d [] rest = refl
  front_of-rest d (l ∷ ls) rest = refl

  front_of-Represents :
      (p : SrtpHelperProtocol) (d : List ℕ) (ls : List (List ℕ)) (rest : List ℕ)
      → Represents p d
      → Represents
          (record { buffer = rest; overlong = after_lines json_parse p.overlong ls })
          (front_of d ls)
  unfolding front_of
  front_of-Represents p d [] rest r = record { discarded = r.discarded; one_line = r.one_line }
  front_of-Represents p d (l ∷ ls) rest r = record { discarded = inl (refl, refl); one_line = tt }

  frames-settled :
      (messages : List SrtpHelperMessage) (n : ℕ)
      → frames (messages ++ unparsed (overlong n) ∷ []) ≡ frames messages
  unfolding frames is_report
  frames-settled messages n =
      rw (frames-append messages (unparsed (overlong n) ∷ [])) (append-nil (frames messages))

  settled-Steps :
      (p : SrtpHelperProtocol) (d : List ℕ) (ls : List (List ℕ)) (rest : List ℕ)
      → Represents p d
      → NoNewline rest
      → Steps (prepend d (ls, rest)) (
          settled
            (process json_parse p.overlong ls)
            (record { buffer = rest; overlong = after_lines json_parse p.overlong ls }))
  settled-Steps p d ls rest r one = elim (Bool-cases (ltb max_line_bytes (length rest))) [
    | inl long ↦ rw long (record {
      front = front_of d ls ++ rest;
      represents = record {
        discarded = inr (
          refl,
          omega
              (arith, length-append (front_of d ls) rest, ltb→lt max_line_bytes (length rest) long),
        );
        one_line =
            NoNewline-append (front_of d ls) rest (front_of-Represents p d ls rest r).one_line one;
      };
      rest = append-nil (front_of d ls ++ rest) ∙ front_of-rest d ls rest;
      read =
          frames-settled (process json_parse p.overlong ls) (length rest)
          ∙ frames-process_discarded p d ls rest r;
    })
    | inr short ↦ rw short (record {
      front = front_of d ls;
      represents = front_of-Represents p d ls rest r;
      rest = front_of-rest d ls rest;
      read = frames-process_discarded p d ls rest r;
    })
  ]

  push-Steps :
      (chunk : List ℕ) (p : SrtpHelperProtocol) (d : List ℕ)
      → Represents p d
      → Steps (split ((d ++ p.buffer) ++ chunk)) (push json_parse chunk p)
  unfolding push
  push-Steps chunk p d r =
      rw
        (
          append_assoc d p.buffer chunk,
          split-prepend d (p.buffer ++ chunk) r.one_line,
          take_lines_lem json_parse (suc (length (p.buffer ++ chunk)))
              (record p { buffer = p.buffer ++ chunk }) (omega arith),
        )
        (settled-Steps p d (split (p.buffer ++ chunk)).0 (split (p.buffer ++ chunk)).1 r
          (split-NoNewline (p.buffer ++ chunk)))

  split-whole : (t : List ℕ) → NoNewline t → split (t ++ []) ≡ ([], t ++ [])
  unfolding split prepend
  split-whole t h = split-prepend t [] h

  push_all-Represents :
      (chunks : List (List ℕ)) (p : SrtpHelperProtocol) (d : List ℕ)
      → Represents p d
      → NoNewline (d ++ p.buffer)
      → frames (push_all json_parse chunks p).0
        ≡ all_frames json_parse (split ((d ++ p.buffer) ++ concat chunks)).0
  unfolding push_all concat frames all_frames
  push_all-Represents [] p d r one = rw (split-whole (d ++ p.buffer) one) refl
  push_all-Represents (chunk ∷ chunks) p d r one =
      let t = d ++ p.buffer in
      let s : Steps (split (t ++ chunk)) (push json_parse chunk p) = push-Steps chunk p d r in
      let later : frames (push_all json_parse chunks (push json_parse chunk p).1).0
          ≡ all_frames json_parse (split ((split (t ++ chunk)).1 ++ concat chunks)).0 =
        subst
          (λ x.
            frames (push_all json_parse chunks (push json_parse chunk p).1).0
            ≡ all_frames json_parse (split (x ++ concat chunks)).0)
          s.rest
          (push_all-Represents chunks (push json_parse chunk p).1 s.front s.represents
            (subst NoNewline (sym s.rest) (split-NoNewline (t ++ chunk)))) in
      rw
        (
          sym (append_assoc t chunk (concat chunks)),
          split-append (t ++ chunk) (concat chunks),
          frames-append (push json_parse chunk p).0
              (push_all json_parse chunks (push json_parse chunk p).1).0,
          all_frames-append json_parse (split (t ++ chunk)).0
              (split ((split (t ++ chunk)).1 ++ concat chunks)).0,
          s.read,
          later,
        )
        refl

  -- However the output of a child process was cut into chunks, the frames read from it are those of
  -- the complete lines of the whole output, in order, each read by itself: a line longer than
  -- `max_line_bytes` and a blank one yield none. Reports of discarded text are left out.
  pub push_all-frames :
      (chunks : List (List ℕ))
      → frames (push_all json_parse chunks new_protocol).0
        ≡ all_frames json_parse (split (concat chunks)).0
  push_all-frames chunks =
      push_all-Represents chunks new_protocol []
        (record { discarded = inl (refl, refl); one_line = tt }) tt

  settled-bounded :
      (messages : List SrtpHelperMessage) (q : SrtpHelperProtocol)
      → length (settled messages q).1.buffer ≤ max_line_bytes
  settled-bounded messages q = elim (Bool-cases (ltb max_line_bytes (length q.buffer))) [
    | inl long ↦ rw long (omega arith)
    | inr short ↦ rw short (ground (arith, short))
  ]

  -- Whatever arrives, the buffer is never left longer than `max_line_bytes`.
  pub push-bounded :
      (chunk : List ℕ) (p : SrtpHelperProtocol)
      → length (push json_parse chunk p).1.buffer ≤ max_line_bytes
  unfolding push
  push-bounded chunk p =
      let after =
        take_lines json_parse (suc (length (p.buffer ++ chunk)))
          (record p { buffer = p.buffer ++ chunk }) in
      settled-bounded after.0 after.1
