-- ===== src/HelperProtocol/Parse.antt =====
-- `parseMessage`: what each line of the helper's output is read as.
pub mod Meaning
mod Ensures
pub mod Reads
pub mod ReadBack
use video_thingy_rocks.Common.{
  ℕ, String, Bool, true, false, Option, none, some, List, take, str_eq, if◌then◌else◌, get_or_else,
  srtp_index_max,
}
use video_thingy_rocks.HelperProtocol.{
  SrtpHelperMessage, ready, searching, auth_ok, auth_fail, auth_exhausted, auth_lost, index,
  producing, stopped, stats, warning, error, fatal, eos, unparsed, text,
}
use video_thingy_rocks.HelperProtocol.Json.{
  Json, object, string, Fields, get, int, port_number, uint16, uint32, count, str, is_true,
}

infixl 5 ◌>>=◌
pub ◌>>=◌ {ℓ κ} : {A : Type ℓ} {B : Type κ} → Option A → (A → Option B) → Option B
none >>= f = none
some a >>= f = f a

parse_ready : Fields → Option SrtpHelperMessage
parse_ready value = do
  bound_port ← port_number (get "port" value)
  v ← count (get "v" value)
  some (ready v bound_port (count (get "pid" value)))

parse_searching : Fields → Option SrtpHelperMessage
parse_searching value = do
  candidate ← uint32 (get "candidate" value)
  trial ← count (get "trial" value)
  some (searching candidate trial)

parse_auth_ok : Fields → Option SrtpHelperMessage
parse_auth_ok value = do
  roc ← uint32 (get "roc" value)
  some (
      auth_ok (is_true (get "first" value)) roc (uint16 (get "seq" value))
        (uint32 (get "candidate" value)) (count (get "trials" value))
        (count (get "authenticated" value)))

parse_auth_fail : Fields → Option SrtpHelperMessage
parse_auth_fail value = do
  candidate ← uint32 (get "candidate" value)
  some (
      auth_fail candidate (count (get "inputs" value)) (count (get "drops" value))
        (uint32 (get "searchFrom" value)))

parse_auth_exhausted : Fields → Option SrtpHelperMessage
parse_auth_exhausted value = do trials ← count (get "trials" value); some (auth_exhausted trials)

-- The `switch` on `value.status`.
parse_auth : Option String → Fields → Option SrtpHelperMessage
unfolding parse_auth_ok parse_auth_fail parse_auth_exhausted
parse_auth none value = none
parse_auth (some status) value =
    if str_eq status "ok"
    then parse_auth_ok value
    else if str_eq status "fail"
    then parse_auth_fail value
    else if str_eq status "exhausted"
    then parse_auth_exhausted value
    else if str_eq status "lost"
    then some (auth_lost (count (get "sinceMs" value)) (count (get "drops" value)))
    else none

parse_index : Fields → Option SrtpHelperMessage
parse_index value = do i ← int 0 srtp_index_max (get "index" value); some (index i)

parse_stats : Fields → Option SrtpHelperMessage
parse_stats value = do
  inputs ← count (get "inputs" value)
  input_bytes ← count (get "inputBytes" value)
  authenticated ← count (get "authenticated" value)
  some (
      stats inputs input_bytes authenticated (get_or_else (count (get "aus" value)) 0)
        (uint32 (get "roc" value)) (get_or_else (count (get "drops" value)) 0))

parse_warning : Fields → Option SrtpHelperMessage
parse_warning value = do
  message ← str (get "message" value)
  some (warning (str (get "element" value)) message)

parse_error : Fields → Option SrtpHelperMessage
parse_error value = do
  message ← str (get "message" value)
  some (error (str (get "element" value)) message)

parse_fatal : Fields → Option SrtpHelperMessage
parse_fatal value = do
  reason ← str (get "reason" value)
  some (fatal reason (get_or_else (str (get "message" value)) ""))

-- The `switch` on `value.t`. `none` is the branch that returns `unparsed`.
parse_fields : Option String → Fields → Option SrtpHelperMessage
unfolding parse_ready parse_searching parse_auth parse_index parse_stats parse_warning parse_error
    parse_fatal
parse_fields none value = none
parse_fields (some t) value =
    if str_eq t "ready"
    then parse_ready value
    else if str_eq t "searching"
    then parse_searching value
    else if str_eq t "auth"
    then parse_auth (str (get "status" value)) value
    else if str_eq t "index"
    then parse_index value
    else if str_eq t "producing"
    then some producing
    else if str_eq t "stopped"
    then some (stopped (int 0 srtp_index_max (get "index" value)))
    else if str_eq t "stats"
    then parse_stats value
    else if str_eq t "warning"
    then parse_warning value
    else if str_eq t "error"
    then parse_error value
    else if str_eq t "fatal"
    then parse_fatal value
    else if str_eq t "eos"
    then some eos
    else none

abbrev parse_value : Option Json → Option SrtpHelperMessage
parse_value (some (object value)) = parse_fields (str (get "t" value)) value
parse_value _ = none

-- `json_parse` is `JSON.parse`, `none` where it throws.
unfoldable pub parse_message : (List ℕ → Option Json) → List ℕ → SrtpHelperMessage
unfolding parse_fields get ◌>>=◌
parse_message json_parse line =
    get_or_else (parse_value (json_parse line)) (unparsed (text (take 200 line)))
