-- ===== src/HelperProtocol/Emit.antt =====
-- backend/src/srtp_port.py: the frames that the SRTP helper writes to its standard output.
use video_thingy_rocks.Common.{ℕ, String, true, false, Option, none, some, List, [], ◌∷◌, ◌++◌}
use video_thingy_rocks.HelperProtocol.{srtp_helper_protocol_version}
use video_thingy_rocks.HelperProtocol.Json.{
  Json, null, boolean, number, natural, string, Fields, end, field,
}

-- What the helper has to say: one constructor for each form of call of `emit`.
pub data Emission : Type 0 where
  -- `fatal`
  fatal : (reason message : String) → Emission
  -- `_caps_for_current`
  searching : (candidate trial : ℕ) → Emission
  error : (element message : String) → Emission
  warning : (element message : String) → Emission
  eos : Emission
  stopped : (index : Option ℕ) → Emission
  producing : Emission
  ready : (port pid : ℕ) → Emission
  lost : (since_ms drops : ℕ) → Emission
  confirmed : (roc : ℕ) (seq : Option ℕ) (candidate trials authenticated : ℕ) → Emission
  rolled_over : (roc : ℕ) (seq : Option ℕ) → Emission
  index : ℕ → Emission
  failed : (candidate inputs drops search_from : ℕ) → Emission
  stats : (inputs input_bytes authenticated aus : ℕ) (roc : Option ℕ) (drops : ℕ) → Emission

abbrev num : ℕ → Json
num n = number (natural n)

-- `None` is written as `null`.
abbrev pub num_or_null : Option ℕ → Json
num_or_null none = null
num_or_null (some n) = num n

abbrev tagged : String → Fields → Fields
tagged t fs = field "t" (string t) fs

abbrev fatal_frame : String → String → Fields
fatal_frame reason message =
    tagged "fatal" (field "reason" (string reason) (field "message" (string message) end))

abbrev searching_frame : ℕ → ℕ → Fields
searching_frame candidate trial =
    tagged "searching" (field "candidate" (num candidate) (field "trial" (num trial) end))

abbrev error_frame : String → String → Fields
error_frame element message =
    tagged "error" (field "element" (string element) (field "message" (string message) end))

abbrev warning_frame : String → String → Fields
warning_frame element message =
    tagged "warning" (field "element" (string element) (field "message" (string message) end))

abbrev eos_frame : Fields
eos_frame = tagged "eos" end

abbrev stopped_frame : Option ℕ → Fields
stopped_frame i = tagged "stopped" (field "index" (num_or_null i) end)

abbrev producing_frame : Fields
producing_frame = tagged "producing" end

abbrev ready_frame : ℕ → ℕ → Fields
ready_frame port pid = tagged "ready" (
    field "v" (num srtp_helper_protocol_version)
      (field "port" (num port) (field "pid" (num pid) end)))

abbrev lost_frame : ℕ → ℕ → Fields
lost_frame since_ms drops = tagged "auth" (
    field "status" (string "lost") (field "sinceMs" (num since_ms) (field "drops" (num drops) end)))

abbrev confirmed_frame : ℕ → Option ℕ → ℕ → ℕ → ℕ → Fields
confirmed_frame roc seq candidate trials authenticated = tagged "auth" (
    field "status" (string "ok") (
      field "first" (boolean true) (
        field "roc" (num roc) (
          field "seq" (num_or_null seq) (
            field "candidate" (num candidate)
              (field "trials" (num trials) (field "authenticated" (num authenticated) end)))))))

abbrev rolled_over_frame : ℕ → Option ℕ → Fields
rolled_over_frame roc seq = tagged "auth" (
    field "status" (string "ok")
      (field "first" (boolean false) (field "roc" (num roc) (field "seq" (num_or_null seq) end))))

abbrev index_frame : ℕ → Fields
index_frame i = tagged "index" (field "index" (num i) end)

abbrev failed_frame : ℕ → ℕ → ℕ → ℕ → Fields
failed_frame candidate inputs drops search_from = tagged "auth" (
    field "status" (string "fail") (
      field "candidate" (num candidate) (
        field "inputs" (num inputs)
          (field "drops" (num drops) (field "searchFrom" (num search_from) end)))))

abbrev stats_frame : ℕ → ℕ → ℕ → ℕ → Option ℕ → ℕ → Fields
stats_frame inputs input_bytes authenticated aus roc drops = tagged "stats" (
    field "inputs" (num inputs) (
      field "inputBytes" (num input_bytes) (
        field "authenticated" (num authenticated)
          (field "aus" (num aus) (field "roc" (num_or_null roc) (field "drops" (num drops) end))))))

-- The keyword arguments of `emit`, the object that it prints.
unfoldable pub frame : Emission → Fields
frame (fatal reason message) = fatal_frame reason message
frame (searching candidate trial) = searching_frame candidate trial
frame (error element message) = error_frame element message
frame (warning element message) = warning_frame element message
frame eos = eos_frame
frame (stopped i) = stopped_frame i
frame producing = producing_frame
frame (ready port pid) = ready_frame port pid
frame (lost since_ms drops) = lost_frame since_ms drops
frame (confirmed roc seq candidate trials authenticated) =
    confirmed_frame roc seq candidate trials authenticated
frame (rolled_over roc seq) = rolled_over_frame roc seq
frame (index i) = index_frame i
frame (failed candidate inputs drops search_from) = failed_frame candidate inputs drops search_from
frame (stats inputs input_bytes authenticated aus roc drops) =
    stats_frame inputs input_bytes authenticated aus roc drops

-- `json_dumps` is Python's `json.dumps`.
module _ (json_dumps : Fields → List ℕ) where
  -- `print` puts a newline behind the text.
  unfoldable pub emit : Emission → List ℕ
  emit e = json_dumps (frame e) ++ 10 ∷ []

  -- The helper's standard output, over its life.
  unfoldable pub output : List Emission → List ℕ
  output [] = []
  output (e ∷ es) = emit e ++ output es
