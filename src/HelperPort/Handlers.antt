-- ===== src/HelperPort/Handlers.antt =====
-- backend/src/srtp_port.py: the tick and the commands of an SRTP port, and a run of its events.
use video_thingy_rocks.Common.{
  ℕ, ◌-◌, Bool, true, false, not, ◌&&◌, ◌||◌, Option, none, some, List, [], ◌∷◌, ◌++◌, ltb,
  if◌then◌else◌,
}
use video_thingy_rocks.HelperProtocol.Emit.{Emission}
use video_thingy_rocks.HelperPort.{index_of}
use video_thingy_rocks.HelperPort.Session.{
  Settings, SrtpPort, reset_session, on_input, on_authenticated, on_request_key,
  advance_search_if_tried, report_index,
}

module _ (args : Settings) where
  -- The report of a session that starts to confirm, or of a counter that has rolled over.
  abbrev pub confirm : Bool → SrtpPort → List Emission × SrtpPort
  confirm roc_changed p =
      if not p.confirmed
      then (
        Emission.confirmed p.counters.roc p.counters.highest_seq p.candidate p.key_requests
              p.counters.key_authenticated
            ∷ [],
        record p { confirmed = true },
      )
      else if roc_changed
      then (Emission.rolled_over p.counters.roc p.counters.highest_seq ∷ [], p)
      else ([], p)

  unfoldable pub lose : ℕ → ℕ → SrtpPort → List Emission × SrtpPort
  lose now drops p = (
    (if p.producing then Emission.stopped p.counters.highest_index ∷ [] else [])
        ++ Emission.lost (now - p.counters.last_auth_ms) drops ∷ [],
    record (reset_session args now none p) { producing = false },
  )

  abbrev pub auth_lost : ℕ → SrtpPort → Bool
  auth_lost now p =
      ltb 0 p.counters.last_auth_ms
      && (ltb args.auth_loss_ms (now - p.counters.last_auth_ms) && (p.confirmed || p.producing))

  abbrev proved_candidate : Option ℕ → ℕ → ℕ
  proved_candidate none candidate = candidate
  proved_candidate (some key_candidate) candidate = key_candidate

  -- The look at the counters under the lock.
  unfoldable pub look : SrtpPort → SrtpPort
  look p = record p {
    candidate =
        if ltb 0 p.counters.key_authenticated && not p.confirmed
        then proved_candidate p.counters.key_candidate p.candidate
        else p.candidate;
    counters = record p.counters { roc_changed = false };
  }

  unfoldable pub confirm_and_report : ℕ → Bool → SrtpPort → List Emission × SrtpPort
  confirm_and_report now roc_changed p =
      let (frames, p₁) = confirm roc_changed p in
      let (later, p₂) = report_index args now false p₁ in (frames ++ later, p₂)

  -- `_tick`
  unfoldable pub tick : ℕ → ℕ → SrtpPort → List Emission × SrtpPort
  unfolding look lose confirm_and_report
  tick now drops p =
      let p₁ = look p in
      if auth_lost now p₁
      then lose now drops p₁
      else if not (ltb 0 p₁.counters.key_authenticated) && not p₁.confirmed
      then advance_search_if_tried args now drops p₁
      else confirm_and_report now p.counters.roc_changed p₁

  -- `_cmd_start`, where the producing pipeline starts; if it cannot, the process ends.
  unfoldable pub cmd_start : ℕ → SrtpPort → List Emission × SrtpPort
  cmd_start now p =
      if p.stopping || p.producing
      then ([], p)
      else let seed : Option ℕ = if p.confirmed then some p.counters.roc else none in
        (Emission.producing ∷ [], record (reset_session args now seed p) { producing = true })

  -- `_cmd_stop`
  unfoldable pub cmd_stop : SrtpPort → List Emission × SrtpPort
  cmd_stop p =
      if p.stopping
      then ([], p)
      else if not p.producing
      then (Emission.stopped p.counters.highest_index ∷ [], p)
      else ([], record p { stopping = true })

  -- `_finish_stop`
  unfoldable pub finish_stop : ℕ → SrtpPort → List Emission × SrtpPort
  finish_stop now p = if not p.stopping then ([], p) else (
    Emission.stopped p.counters.highest_index ∷ [],
    record (reset_session args now none p) { stopping = false; producing = false },
  )

  -- `_on_pipeline_error` of a port that produces; one that does not ends the process.
  unfoldable pub on_pipeline_error : ℕ → SrtpPort → List Emission × SrtpPort
  on_pipeline_error now p = if not p.producing then ([], p) else (
    Emission.stopped p.counters.highest_index ∷ [],
    record (reset_session args now none p) { producing = false },
  )

-- What comes to a process that lives: a run is over when the process ends, which it does where a
-- pipeline cannot be started, or fails while it searches.
pub data Event : Type 0 where
  arrives : (size : ℕ) → Event
  authenticates : (now : ℕ) (seq : Option ℕ) → Event
  requests_key : (ssrc : ℕ) → Event
  ticks : (now drops : ℕ) → Event
  starts : (now : ℕ) → Event
  fails : (now : ℕ) → Event
  stops : Event
  flushed : (now : ℕ) → Event

-- What came of an event: the index of the packet, if one was accepted, the frames, and the port.
pub record Outcome : Type 0 where
  pub accepted : Option ℕ
  pub frames : List Emission
  pub port : SrtpPort

abbrev pub without_packet : List Emission × SrtpPort → Outcome
without_packet (frames, p) = record { accepted = none; frames = frames; port = p }

abbrev pub accepted_index : Bool → SrtpPort → Option ℕ → Option ℕ
accepted_index true p (some seq) = some (index_of p.counters seq)
accepted_index true p none = none
accepted_index false p seq = none

module _ (args : Settings) where
  unfoldable pub handle_event : Event → SrtpPort → Outcome
  handle_event (arrives size) p = without_packet ([], on_input args size p)
  handle_event (authenticates now seq) p =
      let (accepted, p₁) = on_authenticated args now seq p in
      record { accepted = accepted_index accepted p seq; frames = []; port = p₁ }
  handle_event (requests_key ssrc) p = without_packet (on_request_key args ssrc p)
  handle_event (ticks now drops) p = without_packet (tick args now drops p)
  handle_event (starts now) p = without_packet (cmd_start args now p)
  handle_event (fails now) p = without_packet (on_pipeline_error args now p)
  handle_event stops p = without_packet (cmd_stop args p)
  handle_event (flushed now) p = without_packet (finish_stop args now p)

  abbrev pub prepend_index : Option ℕ → List ℕ → List ℕ
  prepend_index none is = is
  prepend_index (some i) is = i ∷ is

  -- The indexes of the packets accepted over a run, and the port after it.
  unfoldable pub run_port : List Event → SrtpPort → List ℕ × SrtpPort
  run_port [] p = ([], p)
  run_port (e ∷ events) p =
      let o = handle_event e p in
      let (later, q) = run_port events o.port in (prepend_index o.accepted later, q)
