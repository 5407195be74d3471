-- ===== src/ChildProcessExit.antt =====
-- backend/src/ChildProcessExit.ts: ending a child process, over what happens to the child meanwhile.
pub mod Gone
pub mod Returns
mod Tests
use video_thingy_rocks.Common.{
  ℕ, zero, suc, Bool, true, false, Option, none, some, List, [], ◌∷◌, ◌++◌, if◌then◌else◌,
}

-- `exits` is the child setting its exit fields, `passes` a millisecond. Either event may come late, or
-- not at all.
pub data Happening : Type 0 where
  exits : Happening
  exit_event : Happening
  error_event : Happening
  passes : Happening

pub data Signal : Type 0 where
  sigterm : Signal
  sigkill : Signal

pub record EndChildProcessOptions : Type 0 where
  pub drain_ms : Option ℕ
  pub sigkill_after_ms : ℕ

-- What is known when a wait is over: whether the child was seen to be gone, whether it has exited, and
-- what is still to happen.
pub record Wait : Type 0 where
  pub gone : Bool
  pub has_exited : Bool
  pub rest : List Happening

-- The race of `watchForExit` and the timer; `none` is a wait that is not over.
unfoldable pub watch : Option ℕ → Bool → List Happening → Option Wait
watch ms has_exited [] = none
watch ms has_exited (exits ∷ hs) = watch ms true hs
watch ms has_exited (exit_event ∷ hs) =
    some (record { gone = true; has_exited = has_exited; rest = hs })
watch ms true (error_event ∷ hs) = some (record { gone = true; has_exited = true; rest = hs })
watch ms false (error_event ∷ hs) = watch ms false hs
watch none has_exited (passes ∷ hs) = watch none has_exited hs
watch (some zero) has_exited (passes ∷ hs) =
    some (record { gone = false; has_exited = has_exited; rest = hs })
watch (some (suc n)) has_exited (passes ∷ hs) = watch (some n) has_exited hs

unfoldable pub wait_for_exit : Option ℕ → Bool → List Happening → Option Wait
unfolding watch
wait_for_exit ms true hs = some (record { gone = true; has_exited = true; rest = hs })
wait_for_exit ms false hs = watch ms false hs

-- The signals that were sent, and whether the child had exited when the call returned.
pub record Ended : Type 0 where
  pub signals : List Signal
  pub has_exited : Bool
  pub rest : List Happening

abbrev ended : List Signal → Wait → Ended
ended signals w = record { signals = signals; has_exited = w.has_exited; rest = w.rest }

-- After `SIGKILL`.
unfoldable pub after_kill : Option Wait → Option Ended
after_kill none = none
after_kill (some w) = some (ended (sigterm ∷ sigkill ∷ []) w)

-- After the wait that follows `SIGTERM`.
unfoldable pub after_term : Option Wait → Option Ended
unfolding after_kill wait_for_exit
after_term none = none
after_term (some w) =
    if w.gone
    then some (ended (sigterm ∷ []) w)
    else after_kill (wait_for_exit none w.has_exited w.rest)

unfoldable pub terminate : EndChildProcessOptions → Bool → List Happening → Option Ended
unfolding after_term
terminate options has_exited hs =
    after_term (wait_for_exit (some options.sigkill_after_ms) has_exited hs)

unfoldable pub after_drain : EndChildProcessOptions → Option Wait → Option Ended
unfolding terminate
after_drain options none = none
after_drain options (some w) =
    if w.gone then some (ended [] w) else terminate options w.has_exited w.rest

unfoldable pub drain : EndChildProcessOptions → Option ℕ → List Happening → Option Ended
unfolding after_drain terminate
drain options none hs = terminate options false hs
drain options (some ms) hs = after_drain options (wait_for_exit (some ms) false hs)

unfoldable pub end_child_process : EndChildProcessOptions → Bool → List Happening → Option Ended
unfolding drain
end_child_process options true hs = some (record { signals = []; has_exited = true; rest = hs })
end_child_process options false hs = drain options options.drain_ms hs
