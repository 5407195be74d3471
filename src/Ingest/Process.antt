-- ===== src/Ingest/Process.antt =====
-- The process of backend/src/index.ts: the handlers that wait for an answer, and what each event does.
use video_thingy_rocks.Common.{ℕ, zero, suc, Option, none, some, List, [], ◌∷◌, ◌++◌}
use video_thingy_rocks.Ingest.{Config, Buffer, Main, new_main, Call, Waiting, Answer, Turn}
use video_thingy_rocks.Ingest.Handlers.{on_packet, resume, on_timer, on_pipeline_exited}

-- The process: its handlers that wait, and the calls made so far.
pub record Process : Type 0 where
  pub main : Main
  pub waiting : List Waiting
  pub calls : List Call

-- `answer i a` answers the call of the `i`-th waiting handler; a timer to restart is one of them.
pub data Event : Type 0 where
  arrive : (port : ℕ) (bytes : Buffer) (timestamp now : ℕ) → Event
  answer : (i : ℕ) (a : Answer) (now : ℕ) → Event
  inactivity : (port now : ℕ) → Event
  exited : (port now : ℕ) → Event

abbrev pub take_turn : Process → List Waiting → Turn → Process
take_turn p waiting t = record {
  main = t.main;
  waiting = waiting ++ t.waits;
  calls = p.calls ++ t.calls;
}

unfoldable pub nth : ℕ → List Waiting → Option Waiting
nth i [] = none
nth zero (w ∷ ws) = some w
nth (suc i) (w ∷ ws) = nth i ws

unfoldable pub remove : ℕ → List Waiting → List Waiting
remove i [] = []
remove zero (w ∷ ws) = ws
remove (suc i) (w ∷ ws) = w ∷ remove i ws

abbrev pub new_process : Process
new_process = record { main = new_main; waiting = []; calls = [] }

module _ (c : Config) where
  abbrev pub answered : Process → List Waiting → Answer → ℕ → Option Waiting → Process
  answered p rest a now none = p
  answered p rest a now (some w) = take_turn p rest (resume c w a now p.main)

  unfoldable pub handle_event : Event → Process → Process
  unfolding on_packet resume on_timer on_pipeline_exited nth remove
  handle_event (arrive port bytes timestamp now) p =
      take_turn p p.waiting (on_packet c port bytes timestamp now p.main)
  handle_event (answer i a now) p = answered p (remove i p.waiting) a now (nth i p.waiting)
  handle_event (inactivity port now) p = take_turn p p.waiting (on_timer c port now p.main)
  handle_event (exited port now) p = take_turn p p.waiting (on_pipeline_exited c port now p.main)

  unfoldable pub handle_events : List Event → Process → Process
  unfolding handle_event
  handle_events [] p = p
  handle_events (e ∷ es) p = handle_events es (handle_event e p)
