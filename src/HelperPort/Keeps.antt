-- ===== src/HelperPort/Keeps.antt =====
-- Every handler of an SRTP port moves its floor and its highest accepted index only upward.
use video_thingy_rocks.Common.{
  ℕ, ◌≤◌, ◌<◌, ◌≡◌, refl, Bool, false, Option, none, some, List, [], if◌then◌else◌, arith,
}
use video_thingy_rocks.HelperProtocol.Emit.{Emission}
use video_thingy_rocks.HelperPort.Session.{
  Settings, SrtpPort, reset_session, on_request_key, choose_key, hand_out, step_search, begin_trial,
  advance_search_if_tried, report_index, raised_floor, report, proved_key,
}
use video_thingy_rocks.HelperPort.Handlers.{
  look, lose, confirm, confirm_and_report, tick, cmd_start, cmd_stop, finish_stop,
  on_pipeline_error,
}

-- `none` lies below every index.
abbrev pub IndexLe : Option ℕ → Option ℕ → Type 0
IndexLe none b = Unit
IndexLe (some a) none = ⊥
IndexLe (some a) (some b) = a ≤ b

abbrev pub Below : Option ℕ → ℕ → Type 0
Below none i = Unit
Below (some a) i = a < i

pub IndexLe-refl : (a : Option ℕ) → IndexLe a a
IndexLe-refl none = tt
IndexLe-refl (some a) = omega arith

pub IndexLe-trans : (a b c : Option ℕ) → IndexLe a b → IndexLe b c → IndexLe a c
IndexLe-trans none b c h k = tt
IndexLe-trans (some a) none c h k = absurd h
IndexLe-trans (some a) (some b) none h k = absurd k
IndexLe-trans (some a) (some b) (some c) h k = omega arith

pub Below-mono : (a b : Option ℕ) (i : ℕ) → IndexLe a b → Below b i → Below a i
Below-mono none b i h k = tt
Below-mono (some a) none i h k = absurd h
Below-mono (some a) (some b) i h k = omega arith

-- A handler moves the floor and the highest accepted index only upward.
pub record Keeps (p : SrtpPort) (r : List Emission × SrtpPort) : Type 0 where
  pub floor : IndexLe p.floor r.1.floor
  pub highest : IndexLe p.counters.highest_index r.1.counters.highest_index

pub same-Keeps :
    (p : SrtpPort) (r : List Emission × SrtpPort)
    → r.1.floor ≡ p.floor
    → r.1.counters.highest_index ≡ p.counters.highest_index
    → Keeps p r
same-Keeps p r e f = record {
  floor = rw e (IndexLe-refl p.floor);
  highest = rw f (IndexLe-refl p.counters.highest_index);
}

pub Keeps-trans :
    (p q : SrtpPort) (f : List Emission) (r : List Emission × SrtpPort)
    → Keeps p (f, q)
    → Keeps q r
    → Keeps p r
Keeps-trans p q f r h k = record {
  floor = IndexLe-trans p.floor q.floor r.1.floor h.floor k.floor;
  highest =
      IndexLe-trans p.counters.highest_index q.counters.highest_index r.1.counters.highest_index
        h.highest k.highest;
}

raised_floor-IndexLe : (h floor : Option ℕ) → IndexLe floor (raised_floor h floor)
raised_floor-IndexLe none floor = IndexLe-refl floor
raised_floor-IndexLe (some h) none = tt
raised_floor-IndexLe (some h) (some floor) = ground arith

pub raised_floor-covers : (h floor : Option ℕ) → IndexLe h (raised_floor h floor)
raised_floor-covers none floor = tt
raised_floor-covers (some h) none = omega arith
raised_floor-covers (some h) (some floor) = ground arith

module _ (args : Settings) where
  reset_session-Keeps :
      (now : ℕ) (seed : Option ℕ) (p : SrtpPort) → Keeps p ([], reset_session args now seed p)
  unfolding reset_session
  reset_session-Keeps now seed p = record {
    floor = raised_floor-IndexLe p.counters.highest_index p.floor;
    highest = IndexLe-refl p.counters.highest_index;
  }

  look-Keeps : (p : SrtpPort) → Keeps p ([], look args p)
  unfolding look
  look-Keeps p = same-Keeps p ([], look args p) refl refl

  lose-Keeps : (now drops : ℕ) (p : SrtpPort) → Keeps p (lose args now drops p)
  unfolding lose
  lose-Keeps now drops p =
      let k = reset_session-Keeps now none p in record { floor = k.floor; highest = k.highest }

  self-Keeps : (p : SrtpPort) {f : List Emission} → Keeps p (f, p)
  self-Keeps p {f} = same-Keeps p (f, p) refl refl

  report-Keeps :
      (now : ℕ) (force : Bool) (h : Option ℕ) (p : SrtpPort) → Keeps p (report args now force h p)
  report-Keeps now force none p = self-Keeps p
  report-Keeps now force (some i) p =
      ground (arith, IndexLe-refl p.floor, IndexLe-refl p.counters.highest_index)

  choose_key-Keeps : (o : Option ℕ) (p : SrtpPort) → Keeps p (choose_key args o p)
  unfolding hand_out
  choose_key-Keeps none p = same-Keeps p _ refl refl
  choose_key-Keeps (some k) p = same-Keeps p _ refl refl

  pub on_request_key-Keeps : (ssrc : ℕ) (p : SrtpPort) → Keeps p (on_request_key args ssrc p)
  unfolding on_request_key
  on_request_key-Keeps ssrc p = ground (
    arith,
    choose_key-Keeps (proved_key args p.counters) p,
    IndexLe-refl p.floor,
    IndexLe-refl p.counters.highest_index,
  )

  advance_search-Keeps :
      (now drops : ℕ) (p : SrtpPort) → Keeps p (advance_search_if_tried args now drops p)
  unfolding advance_search_if_tried step_search begin_trial
  advance_search-Keeps now drops p =
      ground (arith, IndexLe-refl p.floor, IndexLe-refl p.counters.highest_index)

  confirm-Keeps : (changed : Bool) (p : SrtpPort) → Keeps p (confirm args changed p)
  confirm-Keeps changed p =
      ground (arith, IndexLe-refl p.floor, IndexLe-refl p.counters.highest_index)

  confirm_and_report-Keeps :
      (now : ℕ) (changed : Bool) (p : SrtpPort) → Keeps p (confirm_and_report args now changed p)
  unfolding confirm_and_report report_index
  confirm_and_report-Keeps now changed p =
      let (frames, q) = confirm args changed p in
      let k =
        Keeps-trans p q frames (report args now false q.counters.highest_index q)
          (confirm-Keeps changed p) (report-Keeps now false q.counters.highest_index q) in
      record { floor = k.floor; highest = k.highest }

  pub tick-Keeps : (now drops : ℕ) (p : SrtpPort) → Keeps p (tick args now drops p)
  unfolding tick
  tick-Keeps now drops p =
      let q = look args p in
      let k = look-Keeps p in
      ground (
        arith,
        Keeps-trans p q [] (lose args now drops q) k (lose-Keeps now drops q),
        Keeps-trans p q [] (advance_search_if_tried args now drops q) k
            (advance_search-Keeps now drops q),
        Keeps-trans p q [] (confirm_and_report args now p.counters.roc_changed q) k
            (confirm_and_report-Keeps now p.counters.roc_changed q),
      )

  pub cmd_start-Keeps : (now : ℕ) (p : SrtpPort) → Keeps p (cmd_start args now p)
  unfolding cmd_start
  cmd_start-Keeps now p = ground (
    arith,
    IndexLe-refl p.floor,
    IndexLe-refl p.counters.highest_index,
    reset_session-Keeps now (if p.confirmed then some p.counters.roc else none) p,
  )

  pub cmd_stop-Keeps : (p : SrtpPort) → Keeps p (cmd_stop args p)
  unfolding cmd_stop
  cmd_stop-Keeps p = ground (arith, IndexLe-refl p.floor, IndexLe-refl p.counters.highest_index)

  pub finish_stop-Keeps : (now : ℕ) (p : SrtpPort) → Keeps p (finish_stop args now p)
  unfolding finish_stop
  finish_stop-Keeps now p = ground (
    arith,
    IndexLe-refl p.floor,
    IndexLe-refl p.counters.highest_index,
    reset_session-Keeps now none p,
  )

  pub on_pipeline_error-Keeps : (now : ℕ) (p : SrtpPort) → Keeps p (on_pipeline_error args now p)
  unfolding on_pipeline_error
  on_pipeline_error-Keeps now p = ground (
    arith,
    IndexLe-refl p.floor,
    IndexLe-refl p.counters.highest_index,
    reset_session-Keeps now none p,
  )
