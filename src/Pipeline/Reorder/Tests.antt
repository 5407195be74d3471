-- ===== src/Pipeline/Reorder/Tests.antt =====
-- A stream with room for a number of packets before it is full, as a test of the buffer.
use video_thingy_rocks.Common.{ℕ, ◌-◌, ◌≡◌, refl, List, [], ◌∷◌, ltb, arith, if◌then◌else◌}
use video_thingy_rocks.Pipeline.Reorder.{
  Writable, new_pipeline, default_reorder_buffer_size, PortEvent, packet, changed, drained,
  run_port,
}
use video_thingy_rocks.Pipeline.Reorder.Immediate.{
  accepted, unbuffered, run_port-immediate, run_port-written,
}

-- A stream without room for another packet still takes it; at 0 it is closed.
abbrev small_pipe : Writable ℕ
small_pipe = record {
  Stream = ℕ;
  write = λ x room. (ltb 2 room, if ltb 1 room then room - 1 else room);
  writable = λ room. ltb 0 room;
}

abbrev busy_port : List (PortEvent ℕ ℕ)
busy_port =
    packet 7 ∷ packet 8 ∷ packet 9 ∷ drained ∷ changed 0 ∷ packet 10 ∷ changed 5 ∷ packet 11 ∷ []

busy_port_lem : accepted small_pipe busy_port 2 ≡ 7 ∷ 8 ∷ 9 ∷ 11 ∷ []
unfolding accepted
busy_port_lem = refl

run_port-immediate_example :
    ((run_port small_pipe default_reorder_buffer_size busy_port (new_pipeline 2)).buffer ≡ [])
    × (unbuffered small_pipe
          (run_port small_pipe default_reorder_buffer_size busy_port (new_pipeline 2))
        ≡ run_port small_pipe 0 busy_port (new_pipeline 2))
run_port-immediate_example =
    run_port-immediate small_pipe default_reorder_buffer_size busy_port 2 (omega arith)

run_port-written_example :
    (run_port small_pipe default_reorder_buffer_size busy_port (new_pipeline 2)).written
    ≡ accepted small_pipe busy_port 2
run_port-written_example =
    run_port-written small_pipe default_reorder_buffer_size busy_port 2 (omega arith)
