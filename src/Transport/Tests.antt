-- ===== src/Transport/Tests.antt =====
-- Concrete environments, helpers, providers and a signed request.
use video_thingy_rocks.Common.{
  ℕ, zero, suc, ◌+◌, ◌≡◌, ◌≢◌, refl, String, true, Option, none, some, List, [], ◌∷◌, All, arith,
}
use video_thingy_rocks.Dynamo.Memory.{Memory, memory, memory-Laws}
use video_thingy_rocks.StreamTable.{StreamMetadata, new_item}
use video_thingy_rocks.StreamMetadata.{reset_srtp_index_floor}
use video_thingy_rocks.Fleet.{release, read_epoch, run}
use video_thingy_rocks.HelperProtocol.Json.{Number, natural, number, object, field, end, get}
use video_thingy_rocks.Supervisor.{SrtpPortKey}
use video_thingy_rocks.FloorReset.{Request, handle}
use video_thingy_rocks.Transport.Config.{
  SrtpTransportEnv, configured, check_range, srtp_transport_config_from_env, IsUsable,
  config-IsUsable,
}
use video_thingy_rocks.Transport.Stats.{
  InputBytes, on_report, on_reports, of_helper, of_helpers, Rising, total, recorded-total,
}
use video_thingy_rocks.Transport.Credentials.{Credentials, attempt, Serves, get-Serves}
use video_thingy_rocks.Transport.Credentials
use video_thingy_rocks.Supervisor.{SrtpSupervisorState, starting, searching, disabled}
use video_thingy_rocks.Transport.Reset.{SrtpTransport, reset_floor, target, request_once}

abbrev env : SrtpTransportEnv
env = record {
  srtp_key_parameter_prefix = some "/stack/srtp/port";
  srtp_port_range_start = none;
  srtp_port_range_end = some "6001";
}

abbrev number_of : String → Number
number_of s = natural 6001

env_lem :
    srtp_transport_config_from_env (λ s. s) number_of env ≡ configured "/stack/srtp/port" 6000 6001
unfolding srtp_transport_config_from_env check_range
env_lem = refl

config-IsUsable_example :
    IsUsable (λ s. s) number_of (srtp_transport_config_from_env (λ s. s) number_of env)
config-IsUsable_example = config-IsUsable (λ s. s) number_of env

abbrev unseen : InputBytes
unseen = record { last = none; recorded = 0 }

abbrev helpers : List (List ℕ)
helpers = (100 ∷ 100 ∷ 250 ∷ []) ∷ [] ∷ (400 ∷ 900 ∷ []) ∷ []

helpers_lem : (on_reports (of_helpers helpers) unseen).recorded ≡ 1150
unfolding on_report on_reports of_helper of_helpers
helpers_lem = refl

helpers-Rising : All (Rising 0) helpers
helpers-Rising = omega arith

recorded-total_example : (on_reports (of_helpers helpers) unseen).recorded ≡ 0 + total helpers
recorded-total_example = recorded-total helpers unseen helpers-Rising

-- The provider fails until the world counts down to 0.
abbrev flaky : ℕ → Option (Credentials String) × ℕ
flaky n = elim n [
  | zero ↦ (some (record { value = "token"; expiration = some 900000 }), 0)
  | suc m ↦ (none, m)
]

get-Serves_example :
    Serves flaky 700000
      (some (record { value = "old"; expiration = some 800000 }))
      2
      (Credentials.get flaky 700000 (some (record { value = "old"; expiration = some 800000 })) 2)
get-Serves_example =
    get-Serves flaky 700000 (some (record { value = "old"; expiration = some 800000 })) 2

abbrev port_key : SrtpPortKey
port_key = record {
  key_hex = "k";
  cipher = "aes-128-icm";
  auth = "hmac-sha1-80";
  ssrc = 42;
  key_fingerprint = "f1";
  generation = 2000000002;
}

-- The supervisor of the port reads the epoch and gives up the lock.
abbrev transport : SrtpTransport (memory StreamMetadata)
transport = record {
  keys = λ port. some port_key;
  json_parse = λ raw. some (object (field "floor" (number (natural 5)) end));
  sign_floor_reset = λ key port timestamp floor. "s";
  check_floor_reset = λ port t. (true, read_epoch port ∷ release port "i-a" 1000 ∷ []);
}

abbrev request : Request
request = record {
  url = some "/srtp/6003/floor-reset";
  method = some "POST";
  body = (123 ∷ []) ∷ (125 ∷ []) ∷ [];
  x_timestamp = some (57 ∷ 57 ∷ 57 ∷ []);
  x_signature = some "s";
}

abbrev table : Memory StreamMetadata
table = record { items = λ port. some new_item; faults = [] }

accepted : (handle (target (memory StreamMetadata) transport) request (table, 1000)).0 ≡ 200
unfolding handle get reset_floor reset_srtp_index_floor
accepted = refl

request_once_example :
    (handle (target (memory StreamMetadata) transport) request (
      run
          (memory StreamMetadata)
          (release 6003 "i-b" 1500 ∷ [])
          (handle (target (memory StreamMetadata) transport) request (table, 1000)).1.0,
      2000,
    )).0
    ≢ 200
request_once_example =
    request_once (memory StreamMetadata) (memory-Laws StreamMetadata) transport transport request
      (release 6003 "i-b" 1500 ∷ []) table 1000 2000 accepted

abbrev transitions : List (ℕ × SrtpSupervisorState)
transitions = (6000, starting) ∷ (6001, starting) ∷ (6000, searching) ∷ (6000, disabled) ∷ []
