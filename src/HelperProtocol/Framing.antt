-- ===== src/HelperProtocol/Framing.antt =====
-- `SrtpHelperProtocol`: the helper's output in chunks, cut into lines.
pub mod Lines
pub mod Frames
pub mod Chunks
pub mod Print
pub mod RoundTrip
mod Tests
use video_thingy_rocks.Common.{
  ℕ, zero, suc, ◌*◌, Bool, true, false, ◌||◌, ◌&&◌, Option, none, some, List, [], ◌∷◌, ◌++◌, length,
  ltb, leb, ◌==◌, if◌then◌else◌,
}
use mathlib.Core.List.{reverse}
use video_thingy_rocks.HelperProtocol.{SrtpHelperMessage, unparsed, overlong}
use video_thingy_rocks.HelperProtocol.Json.{Json}
use video_thingy_rocks.HelperProtocol.Parse.{parse_message}

abbrev pub max_line_bytes : ℕ
max_line_bytes = 64 * 1024

abbrev newline : ℕ
newline = 10

-- White space and line terminators of JavaScript.
is_space : ℕ → Bool
is_space c =
    leb 9 c && leb c 13
    || (c == 32
        || (c == 0xa0
            || (c == 0x1680
                || (leb 0x2000 c && leb c 0x200a
                    || (c == 0x2028
                        || (c == 0x2029
                            || (c == 0x202f || (c == 0x205f || (c == 0x3000 || c == 0xfeff)))))))))

trim_start : List ℕ → List ℕ
unfolding is_space
trim_start [] = []
trim_start (c ∷ cs) = if is_space c then trim_start cs else c ∷ cs

-- `String.prototype.trim`
unfoldable pub trim : List ℕ → List ℕ
unfolding trim_start
trim cs = reverse (trim_start (reverse (trim_start cs)))

-- `indexOf('\n')` and the two slices around it.
unfoldable pub cut_line : List ℕ → Option (List ℕ × List ℕ)
cut_line [] = none
cut_line (c ∷ cs) =
    if c == newline
    then some ([], cs)
    else elim (cut_line cs) [ none ↦ none | some (line, rest) ↦ some (c ∷ line, rest) ]

pub record SrtpHelperProtocol : Type 0 where
  pub buffer : List ℕ
  pub overlong : Bool

abbrev pub new_protocol : SrtpHelperProtocol
new_protocol = record { buffer = []; overlong = false }

module _ (json_parse : List ℕ → Option Json) where
  abbrev overlong_line : ℕ → SrtpHelperMessage
  overlong_line n = unparsed (overlong n)

  pub parse_line : List ℕ → List SrtpHelperMessage
  parse_line [] = []
  parse_line (c ∷ cs) = parse_message json_parse (c ∷ cs) ∷ []

  -- What the loop makes of one complete line; the tail of a line already reported is dropped.
  pub line_messages : Bool → List ℕ → List SrtpHelperMessage
  unfolding parse_line
  line_messages true raw = []
  line_messages false raw =
      if ltb max_line_bytes (length raw)
      then overlong_line (length raw) ∷ []
      else parse_line (trim raw)

  -- The `for (;;)` of `push`, on fuel; every round cuts one line off the buffer.
  pub take_lines : ℕ → SrtpHelperProtocol → List SrtpHelperMessage × SrtpHelperProtocol
  take_lines zero p = ([], p)
  take_lines (suc fuel) p = elim (cut_line p.buffer) [
    | none ↦ ([], p)
    | some (raw, rest) ↦
        let (messages, q) = take_lines fuel (record { buffer = rest; overlong = false }) in
        (line_messages p.overlong raw ++ messages, q)
  ]

  unfoldable pub push : List ℕ → SrtpHelperProtocol → List SrtpHelperMessage × SrtpHelperProtocol
  unfolding take_lines line_messages cut_line trim
  push chunk p =
      let buffer = p.buffer ++ chunk in
      let (messages, q) = take_lines (suc (length buffer)) (record p { buffer = buffer }) in
      if ltb max_line_bytes (length q.buffer)
      then (
        messages ++ overlong_line (length q.buffer) ∷ [],
        record { buffer = []; overlong = true },
      )
      else (messages, q)

  -- The chunks of one child process, in order.
  pub push_all : List (List ℕ) → SrtpHelperProtocol → List SrtpHelperMessage × SrtpHelperProtocol
  push_all [] p = ([], p)
  push_all (chunk ∷ chunks) p =
      let (messages, q) = push chunk p in
      let (later, r) = push_all chunks q in (messages ++ later, r)
