-- ===== src/KeyStore.antt =====
-- backend/src/SrtpKeyStore.ts: the SRTP keys of the ports, read from the parameter store.
pub mod Load
pub mod Provided
pub mod Requests
mod Tests
use video_thingy_rocks.Common.{
  ℕ, zero, suc, ◌+◌, String, Bool, true, false, not, ◌&&◌, ◌||◌, Option, none, some, List, [], ◌∷◌,
  map, length, take, leb, ◌==◌, str_eq, get_or_else, if◌then◌else◌, PortMap, map_set,
}
use video_thingy_rocks.HelperProtocol.Json.{Json, Fields, object, string, get, uint32, str}
use video_thingy_rocks.Supervisor.{SrtpPortKey}

abbrev pub srtp_generation_base : ℕ
srtp_generation_base = 2000000000

abbrev pub supported_srtp_cipher : String
supported_srtp_cipher = "aes-128-icm"

abbrev pub supported_srtp_auth : String
supported_srtp_auth = "hmac-sha1-80"

abbrev pub ssm_get_parameters_max_names : ℕ
ssm_get_parameters_max_names = 10

-- A parameter of the response; its version is a number from 1, where the store gives one.
pub record Parameter : Type 0 where
  pub name : Option String
  pub value : Option String
  pub kind : Option String
  pub version : Option ℕ

pub record StoredSrtpKey : Type 0 where
  pub key : String
  pub ssrc : ℕ
  pub cipher : Option String
  pub auth : Option String

pub record ParamValue : Type 0 where
  pub value : String
  pub version : ℕ

unfoldable pub is_hex : List ℕ → Bool
is_hex [] = true
is_hex (c ∷ cs) =
    ((leb 48 c && leb c 57) || ((leb 65 c && leb c 70) || (leb 97 c && leb c 102))) && is_hex cs

-- By the character codes of the text.
abbrev pub is_valid_srtp_key_hex : List ℕ → Bool
is_valid_srtp_key_hex codes = length codes == 60 && is_hex codes

-- Undefined, or exactly the supported text.
abbrev pub is_supported : String → Option Json → Bool
is_supported s none = true
is_supported s (some (string t)) = str_eq t s
is_supported s (some _) = false

abbrev pub stored : Fields → Option String → Option ℕ → Option StoredSrtpKey
stored v (some key) (some ssrc) =
    if is_supported supported_srtp_cipher (get "cipher" v)
      && is_supported supported_srtp_auth (get "auth" v)
    then some (record {
      key = key;
      ssrc = ssrc;
      cipher = str (get "cipher" v);
      auth = str (get "auth" v);
    })
    else none
stored v _ _ = none

-- `isStoredSrtpKey`, with the fields that it lets through.
unfoldable pub is_stored_srtp_key : Json → Option StoredSrtpKey
is_stored_srtp_key (object v) = stored v (str (get "key" v)) (uint32 (get "ssrc" v))
is_stored_srtp_key _ = none

-- `version >= 1`, else 1
abbrev pub version_of : Option ℕ → ℕ
version_of none = 1
version_of (some zero) = 1
version_of (some (suc n)) = suc n

abbrev pub ParamsByName : Type 0
ParamsByName = String → Option ParamValue

abbrev pub is_secure_string : Option String → Bool
is_secure_string none = false
is_secure_string (some t) = str_eq t "SecureString"

abbrev pub set_param : String → ParamValue → ParamsByName → ParamsByName
set_param name v m n = if str_eq n name then some v else m n

-- One round of the loop over the response.
unfoldable pub add_parameter :
    Parameter → Option String → Option String → ParamsByName → ParamsByName
add_parameter p (some name) (some value) m =
    if is_secure_string p.kind
    then set_param name (record { value = value; version = version_of p.version }) m
    else m
add_parameter p _ _ m = m

unfoldable pub params_by_name : List Parameter → ParamsByName → ParamsByName
unfolding add_parameter
params_by_name [] m = m
params_by_name (p ∷ ps) m = params_by_name ps (add_parameter p p.name p.value m)
