-- ===== src/KeyStore/Tests.antt =====
-- A store with a key for one port, one that is not encrypted and one of another suite.
use video_thingy_rocks.Common.{
  ℕ, zero, suc, ◌==◌, ◌≡◌, refl, ◌⊎◌, String, Option, none, some, List, [], ◌∷◌, str_eq,
  if◌then◌else◌, PortMap,
}
use video_thingy_rocks.HelperProtocol.Json.{
  Fields, string, number, natural, object, field, end, get,
}
use video_thingy_rocks.Supervisor.{SrtpPortKey}
use video_thingy_rocks.KeyStore.{
  Parameter, is_hex, is_stored_srtp_key, add_parameter, params_by_name,
}
use video_thingy_rocks.KeyStore.Load.{
  KeyStoreConfig, with_stored, with_json, load_key, load_keys, load_ports_chunk, load_ports_loop,
  load_ports,
}
use video_thingy_rocks.KeyStore.Requests.{Asked, load_ports-Asked}
use video_thingy_rocks.KeyStore.Provided.{Any, Provides, load_keys-Provided}
use video_thingy_rocks.KeyStore.Requests.{recorder}

abbrev sixty : ℕ → List ℕ
sixty zero = []
sixty (suc n) = 48 ∷ sixty n

abbrev plain_fields : Fields
plain_fields = field "key" (string "k") (field "ssrc" (number (natural 42)) end)

abbrev config : KeyStoreConfig
config = record {
  parameter_name_for_port = λ port.
      if port == 6000 then "/s/6000/key" else if port == 6001 then "/s/6001/key" else "/s/key";
  codes = λ s. sixty 60;
  json_parse = λ s. some (
      object (
        if str_eq s "long"
        then field "cipher" (string "aes-256-icm") plain_fields
        else plain_fields));
  key_fingerprint = λ s. "f1";
}

abbrev answer : List Parameter
answer =
    record {
      name = some "/s/6000/key";
      value = some "json";
      kind = some "SecureString";
      version = some 3;
    }
    ∷ record {
      name = some "/s/6001/key";
      value = some "json";
      kind = some "String";
      version = some 1;
    }
    ∷ record {
      name = some "/s/key";
      value = some "long";
      kind = some "SecureString";
      version = some 1;
    }
    ∷ []

abbrev key : SrtpPortKey
key = record {
  key_hex = "k";
  ssrc = 42;
  cipher = "aes-128-icm";
  auth = "hmac-sha1-80";
  key_fingerprint = "f1";
  generation = 2000000003;
}

abbrev loaded : PortMap SrtpPortKey
loaded =
    load_keys config (params_by_name answer (λ n. none)) (6000 ∷ 6001 ∷ 6002 ∷ []) (λ port. none)

loaded_lem : loaded 6000 ≡ some key
unfolding load_keys load_key with_json with_stored is_stored_srtp_key params_by_name add_parameter
    get is_hex
loaded_lem = refl

refused_lem : (loaded 6001 ≡ none) × (loaded 6002 ≡ none)
unfolding load_keys load_key with_json with_stored is_stored_srtp_key params_by_name add_parameter
    get is_hex
refused_lem = (refl, refl)

load_keys-Provided_example :
    Any (Provides config 6000 key) answer ⊎ (◌≡◌ {A = Option SrtpPortKey} none (some key))
load_keys-Provided_example =
    load_keys-Provided config answer (6000 ∷ 6001 ∷ 6002 ∷ []) (λ port. none) 6000 key loaded_lem

abbrev answers : List String → Option (List Parameter)
answers names = some answer

abbrev eleven : List ℕ
eleven = 6000 ∷ 6001 ∷ 6002 ∷ 6003 ∷ 6004 ∷ 6005 ∷ 6006 ∷ 6007 ∷ 6008 ∷ 6009 ∷ 6010 ∷ []

abbrev after_eleven : Option (PortMap SrtpPortKey) × List (List String)
after_eleven = load_ports config (recorder answers) eleven (λ port. none) []

eleven_keys :
    after_eleven.0
    ≡ some (
        load_keys config (params_by_name answer (λ n. none)) (6010 ∷ []) (
          load_keys config
            (params_by_name answer (λ n. none))
            (6000 ∷ 6001 ∷ 6002 ∷ 6003 ∷ 6004 ∷ 6005 ∷ 6006 ∷ 6007 ∷ 6008 ∷ 6009 ∷ [])
            (λ port. none)))
unfolding load_ports load_ports_loop load_ports_chunk
eleven_keys = refl

load_ports-Asked_example : Asked config answers eleven [] after_eleven.1
load_ports-Asked_example = load_ports-Asked config answers eleven (λ port. none) _ [] eleven_keys
