-- ===== src/ChildProcessExit/Tests.antt =====
-- A child that ignores `SIGTERM`, and whose exit is announced by an error first.
use video_thingy_rocks.Common.{◌≡◌, refl, true, false, some, List, [], ◌∷◌}
use video_thingy_rocks.ChildProcessExit.{
  Happening, exits, exit_event, error_event, passes, sigterm, sigkill, EndChildProcessOptions,
  watch, wait_for_exit, after_kill, after_term, terminate, after_drain, drain, end_child_process,
}
use video_thingy_rocks.ChildProcessExit.Gone.{IsGone, end_child_process-IsGone}
use video_thingy_rocks.ChildProcessExit.Returns.{
  Returns, announced_after, exits_within, escalation, due_after, signals_due,
  end_child_process-Returns,
}

abbrev options : EndChildProcessOptions
options = record { drain_ms = some 2; sigkill_after_ms = 1 }

abbrev stubborn : List Happening
stubborn =
    passes ∷ error_event ∷ passes ∷ passes ∷ passes ∷ passes ∷ error_event ∷ exits ∷ exit_event ∷ []

stubborn_lem :
    end_child_process options false stubborn
    ≡ some (record { signals = sigterm ∷ sigkill ∷ []; has_exited = true; rest = [] })
unfolding end_child_process drain after_drain terminate after_term after_kill wait_for_exit watch
stubborn_lem = refl

end_child_process-IsGone_example : IsGone (end_child_process options false stubborn)
end_child_process-IsGone_example = end_child_process-IsGone options false stubborn (refl, tt)

-- The exit is announced after five milliseconds; the drain and the wait for `SIGKILL` allow four.
end_child_process-Returns_example :
    Returns (end_child_process options false stubborn) (sigterm ∷ sigkill ∷ [])
unfolding signals_due due_after announced_after exits_within escalation
end_child_process-Returns_example = end_child_process-Returns options false stubborn tt
