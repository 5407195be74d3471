-- ===== src/HelperProtocol/Framing/Tests.antt =====
-- The framing at concrete output: one frame in three chunks, a blank line, and a rest.
use video_thingy_rocks.Common.{
  ℕ, ◌≡◌, ◌≤◌, refl, List, [], ◌∷◌, Option, some, none, length, map, arith,
}
use video_thingy_rocks.HelperProtocol.{eos, text, unparsed, stats}
use video_thingy_rocks.HelperProtocol.Json.{
  Json, string, object, Fields, field, end, number, natural,
}
use video_thingy_rocks.HelperProtocol.Emit.{Emission, frame, emit, output}
use video_thingy_rocks.HelperProtocol.Parse.ReadBack.{message_of, InRange}
use video_thingy_rocks.HelperProtocol.Parse.{parse_message}
use video_thingy_rocks.HelperProtocol.Parse.Reads.{SaysOf, parse_message-Reads}
use video_thingy_rocks.HelperProtocol.Framing.{max_line_bytes, new_protocol, push, push_all}
use video_thingy_rocks.HelperProtocol.Framing.Lines.{split}
use video_thingy_rocks.HelperProtocol.Framing.Frames.{frames, all_frames}
use video_thingy_rocks.HelperProtocol.Framing.Chunks.{concat, push_all-frames, push-bounded}
use video_thingy_rocks.HelperProtocol.Framing.RoundTrip.{Prints, push_all-output}

-- Stands in for `JSON.parse`: it knows one object, under a text of two characters.
abbrev json_parse : List ℕ → Option Json
json_parse (a ∷ b ∷ []) = some (object (field "t" (string "eos") end))
json_parse _ = none

abbrev chunks : List (List ℕ)
chunks = (32 ∷ 123 ∷ []) ∷ (125 ∷ 10 ∷ 32 ∷ 10 ∷ 123 ∷ []) ∷ (10 ∷ 123 ∷ 125 ∷ []) ∷ []

reads_chunks : (push_all json_parse chunks new_protocol).0 ≡ eos ∷ unparsed (text (123 ∷ [])) ∷ []
unfolding push_all parse_message push
reads_chunks = refl

push_all-frames_example :
    frames (push_all json_parse chunks new_protocol).0
    ≡ all_frames json_parse (split (concat chunks)).0
push_all-frames_example = push_all-frames json_parse chunks

push-bounded_example :
    length (push json_parse (123 ∷ 125 ∷ 10 ∷ 123 ∷ []) new_protocol).1.buffer ≤ max_line_bytes
push-bounded_example = push-bounded json_parse (123 ∷ 125 ∷ 10 ∷ 123 ∷ []) new_protocol

-- Of the optional numbers only the drops are in range.
abbrev read_stats : List ℕ → Option Json
read_stats raw = some (
    object (
      field "t" (string "stats") (
        field "inputs" (number (natural 3)) (
          field "inputBytes" (number (natural 900)) (
            field "authenticated" (number (natural 2))
              (field "aus" (string "4") (field "drops" (number (natural 1)) end)))))))

read_stats_lem : parse_message read_stats [] ≡ stats 3 900 2 0 none 1
unfolding parse_message
read_stats_lem = refl

parse_message-Reads_example :
    SaysOf
      (read_stats (123 ∷ 125 ∷ []))
      (123 ∷ 125 ∷ [])
      (parse_message read_stats (123 ∷ 125 ∷ []))
parse_message-Reads_example = parse_message-Reads read_stats (123 ∷ 125 ∷ [])

abbrev emitted : List Emission
emitted = Emission.ready 5000 7 ∷ Emission.stopped none ∷ []

-- Stand in for `json.dumps` and `JSON.parse` on the two frames above.
abbrev json_dumps : Fields → List ℕ
json_dumps (field k v (field k2 v2 end)) = 123 ∷ 125 ∷ []
json_dumps _ = 123 ∷ 49 ∷ 125 ∷ []

abbrev json_loads : List ℕ → Option Json
json_loads (a ∷ b ∷ []) = some (object (frame (Emission.stopped none)))
json_loads _ = some (object (frame (Emission.ready 5000 7)))

abbrev two_chunks : List (List ℕ)
two_chunks = (123 ∷ 49 ∷ []) ∷ (125 ∷ 10 ∷ 123 ∷ 125 ∷ 10 ∷ []) ∷ []

ready-Prints : Prints json_loads json_dumps (Emission.ready 5000 7)
unfolding frame
ready-Prints = record {
  body = 49 ∷ [];
  text = refl;
  one_line = (refl, (refl, (refl, tt)));
  fits = omega arith;
  parsed = refl;
}

stopped-Prints : Prints json_loads json_dumps (Emission.stopped none)
unfolding frame
stopped-Prints = record {
  body = [];
  text = refl;
  one_line = (refl, (refl, tt));
  fits = omega arith;
  parsed = refl;
}

ready-InRange : InRange (Emission.ready 5000 7)
unfolding InRange
ready-InRange = (omega arith, omega arith, omega arith)

stopped-InRange : InRange (Emission.stopped none)
unfolding InRange
stopped-InRange = tt

two_chunks-output : concat two_chunks ≡ output json_dumps emitted
unfolding concat output frame emit
two_chunks-output = refl

push_all-output_example :
    frames (push_all json_loads two_chunks new_protocol).0 ≡ map message_of emitted
push_all-output_example =
    push_all-output json_loads json_dumps emitted two_chunks (ready-Prints, (stopped-Prints, tt))
      (ready-InRange, (stopped-InRange, tt)) two_chunks-output
