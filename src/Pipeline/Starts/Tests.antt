-- ===== src/Pipeline/Starts/Tests.antt =====
-- Two starts at once, and a pipeline that is stopped and started again before its process has exited.
use video_thingy_rocks.Common.{ℕ, ◌≡◌, refl, Bool, true, ◌&&◌, none, List, [], ◌∷◌, leb}
use video_thingy_rocks.Pipeline.Starts.{
  no_pipelines, nth, remove, start, go_on, on_exit, PipelineEvent, starts, goes_on, stops, exits,
  handle, handle_all,
}
use video_thingy_rocks.Pipeline.Starts.Once.{Single, handle_all-once}

abbrev in_range : ℕ → Bool
in_range port = leb 5000 port && leb port 5009

abbrev twice : List PipelineEvent
twice = starts 5003 ∷ starts 5003 ∷ goes_on 0 true ∷ starts 5003 ∷ goes_on 0 true ∷ starts 5003 ∷ []

twice_lem : (handle_all in_range twice no_pipelines).spawned ≡ 1
unfolding handle_all handle start go_on nth remove
twice_lem = refl

-- Process 0 is stopped and process 1 takes its place; then process 0 exits, and process 1 is forgotten
-- while it runs.
abbrev restarted : List PipelineEvent
restarted =
    starts 5003
    ∷ goes_on 0 true
    ∷ goes_on 0 true
    ∷ stops 5003
    ∷ starts 5003
    ∷ goes_on 0 true
    ∷ goes_on 0 true
    ∷ exits 0
    ∷ []

restarted_lem :
    ((handle_all in_range restarted no_pipelines).active_pipelines 5003 ≡ none)
    × ((handle_all in_range restarted no_pipelines).exited_ports ≡ 5003 ∷ [])
unfolding handle_all handle start go_on nth remove on_exit
restarted_lem = (refl, refl)

handle_all-once_example : Single 5003 (handle_all in_range twice no_pipelines)
handle_all-once_example = handle_all-once 5003 in_range twice
