-- ===== src/HelperPort/Session.antt =====
-- backend/src/srtp_port.py: `SrtpPort`, as far as it decides which packets are accepted and what is
-- reported of them. A handler returns the frames that it emits. The pipeline's elements are not
-- modelled: what they call is an event.
use video_thingy_rocks.Common.{
  ℕ, ◌+◌, ◌-◌, ◌/◌, Bool, false, not, ◌&&◌, Option, none, some, List, [], ◌∷◌, ltb, ◌==◌,
  if◌then◌else◌,
}
use video_thingy_rocks.HelperProtocol.Emit.{Emission}
use video_thingy_rocks.HelperPort.{
  seq_space, index_space, Counters, new_counters, record_authenticated,
}
use video_thingy_rocks.HelperPort.Candidates.{Search, new_search, next_candidate}

pub record Settings : Type 0 where
  pub ssrc : ℕ
  pub floor_every : ℕ
  pub trial_drops : ℕ
  pub trial_timeout_ms : ℕ
  pub auth_loss_ms : ℕ

pub record SrtpPort : Type 0 where
  pub floor : Option ℕ
  pub carried_search_from : Option ℕ
  -- Whether the producing tail is built.
  pub producing : Bool
  pub candidates : Search
  pub candidate : ℕ
  pub trial_started_ms : ℕ
  pub trial_inputs0 : ℕ
  pub trial_drops0 : ℕ
  pub confirmed : Bool
  pub counters : Counters
  pub key_requests : ℕ
  pub reported_index : Option ℕ
  pub index_reported_ms : ℕ
  pub stopping : Bool

abbrev pub index_report_ms : ℕ
index_report_ms = 1000

abbrev same_index : ℕ → Option ℕ → Bool
same_index i none = false
same_index i (some j) = i == j

abbrev taken_floor : Option ℕ → Option ℕ
taken_floor none = none
taken_floor (some floor) = if ltb floor index_space then some floor else none

-- `highest is not None and (self.floor is None or highest > self.floor)`
abbrev pub raised_floor : Option ℕ → Option ℕ → Option ℕ
raised_floor none floor = floor
raised_floor (some highest) none = some highest
raised_floor (some highest) (some floor) = if ltb floor highest then some highest else some floor

abbrev base_of : Option ℕ → ℕ
base_of none = 0
base_of (some floor) = floor / seq_space

abbrev seeded : Option ℕ → Search → ℕ × Search
seeded (some seed) s = (seed, s)
seeded none s = next_candidate s

module _ (args : Settings) where
  -- `__init__`
  unfoldable pub new_port : Option ℕ → Option ℕ → SrtpPort
  new_port floor search_from = record {
    floor = taken_floor floor;
    carried_search_from = search_from;
    producing = false;
    candidates = new_search 0 none args.floor_every;
    candidate = 0;
    trial_started_ms = 0;
    trial_inputs0 = 0;
    trial_drops0 = 0;
    confirmed = false;
    counters = new_counters;
    key_requests = 0;
    reported_index = none;
    index_reported_ms = 0;
    stopping = false;
  }

  unfoldable pub reset_session : ℕ → Option ℕ → SrtpPort → SrtpPort
  reset_session now seed p =
      let floor = raised_floor p.counters.highest_index p.floor in
      let (candidate, candidates) =
        seeded seed (new_search (base_of floor) p.carried_search_from args.floor_every) in
      record p {
        floor = floor;
        candidates = candidates;
        candidate = candidate;
        trial_started_ms = now;
        counters = record p.counters {
          key_candidate = none;
          key_authenticated = 0;
          highest_seq = none;
          roc_changed = false;
        };
        confirmed = false;
      }

  -- `_on_input`
  unfoldable pub on_input : ℕ → SrtpPort → SrtpPort
  on_input size p = record p {
    counters = record p.counters {
      inputs = p.counters.inputs + 1;
      input_bytes = p.counters.input_bytes + size;
    };
  }

  -- `_on_authenticated`, for a sequence number that was read or could not be.
  unfoldable pub on_authenticated : ℕ → Option ℕ → SrtpPort → Bool × SrtpPort
  on_authenticated now seq p =
      let (accepted, counters) = record_authenticated p.floor now seq p.counters in
      (accepted, record p { counters = counters })

  abbrev pub proved_key : Counters → Option ℕ
  proved_key c = if ltb 0 c.key_authenticated then c.key_candidate else none

  -- `candidate` is the key that is handed out, `c` has its credit.
  unfoldable pub hand_out : ℕ → Counters → SrtpPort → List Emission × SrtpPort
  hand_out candidate c p = (
    Emission.searching candidate p.key_requests ∷ [],
    record p {
      candidate = candidate;
      counters = record c { roc = candidate; highest_seq = none; roc_changed = false };
      key_requests = p.key_requests + 1;
    },
  )

  abbrev pub choose_key : Option ℕ → SrtpPort → List Emission × SrtpPort
  choose_key (some proved) p = hand_out proved p.counters p
  choose_key none p =
      hand_out p.candidate
        (record p.counters { key_candidate = some p.candidate; key_authenticated = 0 }) p

  unfoldable pub on_request_key : ℕ → SrtpPort → List Emission × SrtpPort
  unfolding hand_out
  on_request_key ssrc p =
      if not (ssrc == args.ssrc)
      then (
        [],
        record p { counters = record p.counters { foreign_ssrc = p.counters.foreign_ssrc + 1 } },
      )
      else choose_key (proved_key p.counters) p

  unfoldable pub begin_trial : ℕ → ℕ → SrtpPort → SrtpPort
  begin_trial now drops p = record p {
    trial_inputs0 = p.counters.inputs;
    trial_drops0 = drops;
    trial_started_ms = now;
  }

  -- Whether the trial is still running.
  abbrev pub untried : ℕ → ℕ → SrtpPort → Bool
  untried now drops p =
      ltb (drops - p.trial_drops0) args.trial_drops
      && not (
          ltb p.trial_inputs0 p.counters.inputs
          && ltb args.trial_timeout_ms (now - p.trial_started_ms))

  -- The switch to the next candidate.
  unfoldable pub step_search : ℕ → ℕ → SrtpPort → List Emission × SrtpPort
  unfolding begin_trial
  step_search now drops p =
      let (candidate, candidates) = next_candidate p.candidates in
      (
        Emission.failed p.candidate (p.counters.inputs - p.trial_inputs0) (drops - p.trial_drops0)
              candidates.far
            ∷ [],
        begin_trial now drops (record p {
          candidates = candidates;
          candidate = candidate;
          carried_search_from = some candidates.far;
        }),
      )

  -- `drops` is srtpdec's count, which starts anew with a new pipeline; a fall reads as no drop.
  unfoldable pub advance_search_if_tried : ℕ → ℕ → SrtpPort → List Emission × SrtpPort
  unfolding step_search
  advance_search_if_tried now drops p =
      if untried now drops p
      then ([], p)
      else if ltb 0 p.counters.key_authenticated
      then ([], p)
      else step_search now drops p

  abbrev pub report : ℕ → Bool → Option ℕ → SrtpPort → List Emission × SrtpPort
  report now force none p = ([], p)
  report now force (some i) p =
      if same_index i p.reported_index
      then ([], p)
      else if not force && ltb (now - p.index_reported_ms) index_report_ms
      then ([], p)
      else (Emission.index i ∷ [], record p { reported_index = some i; index_reported_ms = now })

  unfoldable pub report_index : ℕ → Bool → SrtpPort → List Emission × SrtpPort
  report_index now force p = report now force p.counters.highest_index p
