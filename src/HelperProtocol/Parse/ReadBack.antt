-- ===== src/HelperProtocol/Parse/ReadBack.antt =====
-- Every frame of the helper is read back as what the helper had to say.
use video_thingy_rocks.Common.{
  ℕ, ◌≤◌, ◌≡◌, refl, true, false, Option, none, some, List, arith, srtp_index_max, max_safe_integer,
}
use video_thingy_rocks.HelperProtocol.{SrtpHelperMessage, srtp_helper_protocol_version}
use video_thingy_rocks.HelperProtocol.Json.{
  Json, object, number, natural, get, int, uint16_max, uint32_max,
}
use video_thingy_rocks.HelperProtocol.Parse.{
  parse_fields, parse_value, parse_ready, parse_searching, parse_auth, parse_auth_ok,
  parse_auth_fail, parse_index, parse_stats, parse_warning, parse_error, parse_fatal, parse_message,
  ◌>>=◌,
}
use video_thingy_rocks.HelperProtocol.Emit.{Emission, frame, num_or_null}

-- What the supervisor is to read. A number that the helper does not know is left out.
unfoldable pub message_of : Emission → SrtpHelperMessage
message_of (Emission.fatal reason message) = SrtpHelperMessage.fatal reason message
message_of (Emission.searching candidate trial) = SrtpHelperMessage.searching candidate trial
message_of (Emission.error element message) = SrtpHelperMessage.error (some element) message
message_of (Emission.warning element message) = SrtpHelperMessage.warning (some element) message
message_of Emission.eos = SrtpHelperMessage.eos
message_of (Emission.stopped i) = SrtpHelperMessage.stopped i
message_of Emission.producing = SrtpHelperMessage.producing
message_of (Emission.ready port pid) =
    SrtpHelperMessage.ready srtp_helper_protocol_version port (some pid)
message_of (Emission.lost since_ms drops) = SrtpHelperMessage.auth_lost (some since_ms) (some drops)
message_of (Emission.confirmed roc seq candidate trials authenticated) =
    SrtpHelperMessage.auth_ok true roc seq (some candidate) (some trials) (some authenticated)
message_of (Emission.rolled_over roc seq) = SrtpHelperMessage.auth_ok false roc seq none none none
message_of (Emission.index i) = SrtpHelperMessage.index i
message_of (Emission.failed candidate inputs drops search_from) =
    SrtpHelperMessage.auth_fail candidate (some inputs) (some drops) (some search_from)
message_of (Emission.stats inputs input_bytes authenticated aus roc drops) =
    SrtpHelperMessage.stats inputs input_bytes authenticated aus roc drops

abbrev IfSome : ℕ → Option ℕ → Type 0
IfSome hi none = Unit
IfSome hi (some n) = n ≤ hi

-- The counters of the helper are exact in a double, a rollover counter has 32 bits and a sequence
-- number 16.
unfoldable pub InRange : Emission → Type 0
InRange (Emission.fatal reason message) = Unit
InRange (Emission.searching candidate trial) = (candidate ≤ uint32_max) × (trial ≤ max_safe_integer)
InRange (Emission.error element message) = Unit
InRange (Emission.warning element message) = Unit
InRange Emission.eos = Unit
InRange (Emission.stopped i) = IfSome srtp_index_max i
InRange Emission.producing = Unit
InRange (Emission.ready port pid) = (1 ≤ port) × (port ≤ 65535) × (pid ≤ max_safe_integer)
InRange (Emission.lost since_ms drops) = (since_ms ≤ max_safe_integer) × (drops ≤ max_safe_integer)
InRange (Emission.confirmed roc seq candidate trials authenticated) =
    (roc ≤ uint32_max)
    × IfSome uint16_max seq
    × (candidate ≤ uint32_max)
    × (trials ≤ max_safe_integer)
    × (authenticated ≤ max_safe_integer)
InRange (Emission.rolled_over roc seq) = (roc ≤ uint32_max) × IfSome uint16_max seq
InRange (Emission.index i) = i ≤ srtp_index_max
InRange (Emission.failed candidate inputs drops search_from) =
    (candidate ≤ uint32_max)
    × (inputs ≤ max_safe_integer)
    × (drops ≤ max_safe_integer)
    × (search_from ≤ uint32_max)
InRange (Emission.stats inputs input_bytes authenticated aus roc drops) =
    (inputs ≤ max_safe_integer)
    × (input_bytes ≤ max_safe_integer)
    × (authenticated ≤ max_safe_integer)
    × (aus ≤ max_safe_integer)
    × IfSome uint32_max roc
    × (drops ≤ max_safe_integer)

int-num : (lo hi n : ℕ) → lo ≤ n → n ≤ hi → int lo hi (some (number (natural n))) ≡ some n
int-num lo hi n h k = ground arith

int-num_or_null : (hi : ℕ) (o : Option ℕ) → IfSome hi o → int 0 hi (some (num_or_null o)) ≡ o
int-num_or_null hi none h = refl
int-num_or_null hi (some n) h = int-num 0 hi n (omega arith) h

parse_value-frame :
    (e : Emission) → InRange e → parse_value (some (object (frame e))) ≡ some (message_of e)
unfolding parse_fields parse_ready parse_searching parse_auth parse_auth_ok parse_auth_fail
    parse_index parse_stats parse_warning parse_error parse_fatal ◌>>=◌ get frame InRange message_of
parse_value-frame (Emission.fatal reason message) h = refl
parse_value-frame (Emission.searching candidate trial) (h, k) =
    rw
      (
        int-num 0 uint32_max candidate (omega arith) h,
        int-num 0 max_safe_integer trial (omega arith) k,
      )
      refl
parse_value-frame (Emission.error element message) h = refl
parse_value-frame (Emission.warning element message) h = refl
parse_value-frame Emission.eos h = refl
parse_value-frame (Emission.stopped i) h = rw (int-num_or_null srtp_index_max i h) refl
parse_value-frame Emission.producing h = refl
parse_value-frame (Emission.ready port pid) (g, h, k) =
    rw (int-num 1 65535 port g h, int-num 0 max_safe_integer pid (omega arith) k) refl
parse_value-frame (Emission.lost since_ms drops) (h, k) =
    rw
      (
        int-num 0 max_safe_integer since_ms (omega arith) h,
        int-num 0 max_safe_integer drops (omega arith) k,
      )
      refl
parse_value-frame (Emission.confirmed roc seq candidate trials authenticated) (a, b, c, d, f) =
    rw
      (
        int-num 0 uint32_max roc (omega arith) a,
        int-num_or_null uint16_max seq b,
        int-num 0 uint32_max candidate (omega arith) c,
        int-num 0 max_safe_integer trials (omega arith) d,
        int-num 0 max_safe_integer authenticated (omega arith) f,
      )
      refl
parse_value-frame (Emission.rolled_over roc seq) (h, k) =
    rw (int-num 0 uint32_max roc (omega arith) h, int-num_or_null uint16_max seq k) refl
parse_value-frame (Emission.index i) h = rw (int-num 0 srtp_index_max i (omega arith) h) refl
parse_value-frame (Emission.failed candidate inputs drops search_from) (a, b, c, d) =
    rw
      (
        int-num 0 uint32_max candidate (omega arith) a,
        int-num 0 max_safe_integer inputs (omega arith) b,
        int-num 0 max_safe_integer drops (omega arith) c,
        int-num 0 uint32_max search_from (omega arith) d,
      )
      refl
parse_value-frame (Emission.stats inputs input_bytes authenticated aus roc drops)
      (a, b, c, d, f, g) =
    rw
      (
        int-num 0 max_safe_integer inputs (omega arith) a,
        int-num 0 max_safe_integer input_bytes (omega arith) b,
        int-num 0 max_safe_integer authenticated (omega arith) c,
        int-num 0 max_safe_integer aus (omega arith) d,
        int-num_or_null uint32_max roc f,
        int-num 0 max_safe_integer drops (omega arith) g,
      )
      refl

-- A line that `JSON.parse` reads as a frame of the helper is read as what the helper had to say.
pub parse_message-frame :
    (json_parse : List ℕ → Option Json) (line : List ℕ) (e : Emission)
    → InRange e
    → json_parse line ≡ some (object (frame e))
    → parse_message json_parse line ≡ message_of e
unfolding parse_message
parse_message-frame json_parse line e h parsed = rw (parsed, parse_value-frame e h) refl
