-- ===== src/KeyStore/Load.antt =====
-- `loadPorts` and `loadPortsChunk`.
use video_thingy_rocks.Common.{
  ℕ, zero, suc, ◌+◌, String, Option, none, some, List, [], ◌∷◌, map, length, take, get_or_else,
  if◌then◌else◌, PortMap, map_set,
}
use video_thingy_rocks.HelperProtocol.Json.{Json}
use video_thingy_rocks.Supervisor.{SrtpPortKey}
use video_thingy_rocks.KeyStore.{
  srtp_generation_base, supported_srtp_cipher, supported_srtp_auth, ssm_get_parameters_max_names,
  Parameter, StoredSrtpKey, ParamValue, is_valid_srtp_key_hex, is_stored_srtp_key, ParamsByName,
  params_by_name,
}

-- The parameter's name for a port, a text's character codes, `JSON.parse`, and the fingerprint of a key.
pub record KeyStoreConfig : Type 0 where
  pub parameter_name_for_port : ℕ → String
  pub codes : String → List ℕ
  pub json_parse : String → Option Json
  pub key_fingerprint : String → String

-- The requests to the store: the parameters that it answers with, or `none` where it rejects.
pub record SsmParameterFetcher : Type 1 where
  pub World : Type 0
  pub get_parameters : List String → World → Option (List Parameter) × World

abbrev pub drop : ℕ → List ℕ → List ℕ
drop zero xs = xs
drop (suc n) [] = []
drop (suc n) (x ∷ xs) = drop n xs

module _ (c : KeyStoreConfig) where
  abbrev pub key_of : ℕ → StoredSrtpKey → SrtpPortKey
  key_of version s = record {
    key_hex = s.key;
    ssrc = s.ssrc;
    cipher = get_or_else s.cipher supported_srtp_cipher;
    auth = get_or_else s.auth supported_srtp_auth;
    key_fingerprint = c.key_fingerprint s.key;
    generation = srtp_generation_base + version;
  }

  -- The rest of a round of the loop over the ports, stage by stage.
  unfoldable pub with_stored : ℕ → Option StoredSrtpKey → Option SrtpPortKey
  with_stored version none = none
  with_stored version (some s) =
      if is_valid_srtp_key_hex (c.codes s.key) then some (key_of version s) else none

  unfoldable pub with_json : ℕ → Option Json → Option SrtpPortKey
  unfolding with_stored is_stored_srtp_key
  with_json version none = none
  with_json version (some parsed) = with_stored version (is_stored_srtp_key parsed)

  unfoldable pub load_key : Option ParamValue → Option SrtpPortKey
  unfolding with_json
  load_key none = none
  load_key (some p) = with_json p.version (c.json_parse p.value)

  abbrev pub set_key : ℕ → Option SrtpPortKey → PortMap SrtpPortKey → PortMap SrtpPortKey
  set_key port none keys = keys
  set_key port (some k) keys = map_set keys port k

  unfoldable pub load_keys : ParamsByName → List ℕ → PortMap SrtpPortKey → PortMap SrtpPortKey
  unfolding load_key
  load_keys params [] keys = keys
  load_keys params (port ∷ ports) keys =
      load_keys params ports
        (set_key port (load_key (params (c.parameter_name_for_port port))) keys)

  module _ (client : SsmParameterFetcher) where
    -- What a chunk's answer makes of the keys; `none`, the call throws.
    abbrev pub answered_chunk :
        List ℕ → PortMap SrtpPortKey → Option (List Parameter) → Option (PortMap SrtpPortKey)
    answered_chunk ports keys none = none
    answered_chunk ports keys (some ps) =
        some (load_keys (params_by_name ps (λ n. none)) ports keys)

    unfoldable pub load_ports_chunk :
        List ℕ → PortMap SrtpPortKey → client.World → Option (PortMap SrtpPortKey) × client.World
    unfolding load_keys
    load_ports_chunk [] keys w = (some keys, w)
    load_ports_chunk (port ∷ ports) keys w =
        let (answer, w') = client.get_parameters (map c.parameter_name_for_port (port ∷ ports)) w in
        (answered_chunk (port ∷ ports) keys answer, w')

    -- `loadPorts`: a chunk, and then the ports after it.
    unfoldable pub load_ports_loop :
        ℕ
        → List ℕ
        → PortMap SrtpPortKey
        → client.World
        → Option (PortMap SrtpPortKey) × client.World
    unfolding load_ports_chunk
    load_ports_loop zero ports keys w = (some keys, w)
    load_ports_loop (suc fuel) [] keys w = (some keys, w)
    load_ports_loop (suc fuel) (port ∷ ports) keys w =
        let (loaded, w') =
          load_ports_chunk (take ssm_get_parameters_max_names (port ∷ ports)) keys w in
        elim loaded [
          | none ↦ (none, w')
          | some keys' ↦
              load_ports_loop fuel (drop ssm_get_parameters_max_names (port ∷ ports)) keys' w'
        ]

    -- A chunk has a port at least.
    unfoldable pub load_ports :
        List ℕ → PortMap SrtpPortKey → client.World → Option (PortMap SrtpPortKey) × client.World
    unfolding load_ports_loop
    load_ports ports keys w = load_ports_loop (length ports) ports keys w
