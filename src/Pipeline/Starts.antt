-- ===== src/Pipeline/Starts.antt =====
-- The pipelines of the ports: `start` and its runs, `stop`, and the exit of a process.
pub mod Once
mod Tests
use video_thingy_rocks.Common.{
  ℕ, zero, suc, ◌+◌, Bool, true, false, not, ◌&&◌, ◌||◌, Option, none, some, List, [], ◌∷◌, ◌++◌,
  ◌==◌, is_none, if◌then◌else◌, PortMap, map_set, map_delete,
}

-- A run of `runStartForPort` that waits: for the credentials, or for the FIFO of a process to open.
pub data Run : Type 0 where
  resolving : (port : ℕ) → Run
  opening : (port : ℕ) (process : ℕ) → Run

abbrev pub port_of : Run → ℕ
port_of (resolving port) = port
port_of (opening port process) = port

-- A process is a number. Once its listeners are attached its port is in `attached`, where an exit finds
-- it. `spawned` counts the processes and `exited_ports` are the `pipelineExited` events.
pub record Pipelines : Type 0 where
  pub active_pipelines : PortMap ℕ
  pub pending_starts : ℕ → Bool
  pub runs : List Run
  pub attached : PortMap ℕ
  pub spawned : ℕ
  pub exited_ports : List ℕ

abbrev pub no_pipelines : Pipelines
no_pipelines = record {
  active_pipelines = λ k. none;
  pending_starts = λ k. false;
  runs = [];
  attached = λ k. none;
  spawned = 0;
  exited_ports = [];
}

abbrev set_pending : ℕ → Bool → Pipelines → Pipelines
set_pending port pending s = record s {
  pending_starts = λ k. if k == port then pending else s.pending_starts k;
}

unfoldable pub nth : ℕ → List Run → Option Run
nth i [] = none
nth zero (r ∷ rs) = some r
nth (suc i) (r ∷ rs) = nth i rs

unfoldable pub remove : ℕ → List Run → List Run
remove i [] = []
remove zero (r ∷ rs) = rs
remove (suc i) (r ∷ rs) = r ∷ remove i rs

-- `start`: a call that finds a run of the port waits for it and does nothing more.
unfoldable pub start : (ℕ → Bool) → ℕ → Pipelines → Pipelines
start in_range port s =
    if not (in_range port) || not (is_none (s.active_pipelines port)) || s.pending_starts port
    then s
    else set_pending port true (record s { runs = resolving port ∷ s.runs })

-- A run's end, which takes it off `pendingStarts`. The source does so in a microtask after it has
-- registered the pipeline; no event of the model comes between the two.
abbrev pub end_run : ℕ → Run → Pipelines → Pipelines
end_run i r s = set_pending (port_of r) false (record s { runs = remove i s.runs })

-- What the `i`-th run waits for: `true`, credentials and the FIFO were had, or the FIFO is open.
unfoldable pub go_on : ℕ → Run → Bool → Pipelines → Pipelines
unfolding remove
go_on i r false s = end_run i r s
go_on i (resolving port) true s = record s {
  runs = opening port s.spawned ∷ remove i s.runs;
  spawned = s.spawned + 1;
}
go_on i (opening port process) true s = end_run i (opening port process) (record s {
  active_pipelines = map_set s.active_pipelines port process;
  attached = map_set s.attached process port;
})

abbrev pub continued : ℕ → Option Run → Bool → Pipelines → Pipelines
continued i none ok s = s
continued i (some r) ok s = go_on i r ok s

abbrev pub delete_active : ℕ → Pipelines → Pipelines
delete_active port s = record s { active_pipelines = map_delete s.active_pipelines port }

-- The `exit` of a process: the port's pipeline is taken out, whichever process it is of.
unfoldable pub on_exit : Option ℕ → Pipelines → Pipelines
on_exit none s = s
on_exit (some port) s = record (delete_active port s) {
  exited_ports =
      if not (is_none (s.active_pipelines port)) then port ∷ s.exited_ports else s.exited_ports;
}

unfoldable pub on_error : Option ℕ → Pipelines → Pipelines
on_error none s = s
on_error (some port) s = delete_active port s

pub data PipelineEvent : Type 0 where
  starts : (port : ℕ) → PipelineEvent
  goes_on : (i : ℕ) (ok : Bool) → PipelineEvent
  stops : (port : ℕ) → PipelineEvent
  exits : (process : ℕ) → PipelineEvent
  fails : (process : ℕ) → PipelineEvent

unfoldable pub handle : (ℕ → Bool) → PipelineEvent → Pipelines → Pipelines
unfolding start nth go_on on_exit on_error
handle in_range (starts port) s = start in_range port s
handle in_range (goes_on i ok) s = continued i (nth i s.runs) ok s
handle in_range (stops port) s = delete_active port s
handle in_range (exits process) s = on_exit (s.attached process) s
handle in_range (fails process) s = on_error (s.attached process) s

unfoldable pub handle_all : (ℕ → Bool) → List PipelineEvent → Pipelines → Pipelines
unfolding handle
handle_all in_range [] s = s
handle_all in_range (e ∷ es) s = handle_all in_range es (handle in_range e s)
