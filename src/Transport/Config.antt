-- ===== src/Transport/Config.antt =====
-- `srtpTransportConfigFromEnv`: what the environment makes of the transport's ports.
use video_thingy_rocks.Common.{
  ℕ, ◌≤◌, ◌≡◌, refl, inl, inr, String, ◌&&◌, ◌||◌, Option, none, some, leb, ltb, str_eq,
  if◌then◌else◌, arith, Bool-cases,
}
use video_thingy_rocks.HelperProtocol.Json.{Number, natural, negative, fractional}

-- A variable that is not set is `none`.
pub record SrtpTransportEnv : Type 0 where
  pub srtp_key_parameter_prefix : Option String
  pub srtp_port_range_start : Option String
  pub srtp_port_range_end : Option String

-- `invalid` is the thrown error.
pub data ConfigResult : Type 0 where
  off : ConfigResult
  invalid : ConfigResult
  configured : (key_parameter_prefix : String) (start end : ℕ) → ConfigResult

abbrev pub unencrypted_start : ℕ
unencrypted_start = 5000

abbrev pub unencrypted_end : ℕ
unencrypted_end = 5009

-- The tests of the range, for numbers that are integers. One below 0 is below 1.
unfoldable pub check_range : String → Number → Number → ConfigResult
check_range prefix (natural start) (natural end) =
    if ltb end start
    then invalid
    else if ltb start 1 || ltb 65535 end
    then invalid
    else if leb start unencrypted_end && leb unencrypted_start end
    then invalid
    else configured prefix start end
check_range prefix start end = invalid

-- `String.prototype.trim`, and `Number` of a text, where `NaN` is no integer.
module _ (trim : String → String) (number_of : String → Number) where
  abbrev number_or : ℕ → Option String → Number
  number_or n none = natural n
  number_or n (some s) = number_of s

  unfoldable pub srtp_transport_config_from_env : SrtpTransportEnv → ConfigResult
  unfolding check_range
  srtp_transport_config_from_env env = elim env.srtp_key_parameter_prefix [
    | none ↦ off
    | some p ↦
        if str_eq (trim p) ""
        then off
        else check_range (trim p) (number_or 6000 env.srtp_port_range_start)
            (number_or 6009 env.srtp_port_range_end)
  ]

  -- What a configuration promises: ports that a socket can have, none of them unencrypted.
  pub record Usable (start end : ℕ) : Type 0 where
    pub ordered : start ≤ end
    pub low : 1 ≤ start
    pub high : end ≤ 65535
    pub disjoint :
        (port : ℕ)
        → start ≤ port
        → port ≤ end
        → ¬ ((unencrypted_start ≤ port) × (port ≤ unencrypted_end))

  abbrev pub IsUsable : ConfigResult → Type 0
  IsUsable (configured prefix start end) = Usable start end
  IsUsable off = Unit
  IsUsable invalid = Unit

  check_range-IsUsable : (p : String) (a b : Number) → IsUsable (check_range p a b)
  unfolding check_range
  check_range-IsUsable p (natural a) (natural b) = elim (Bool-cases (ltb b a)) [
    | inl e ↦ simp e tt
    | inr e ↦ elim (Bool-cases (ltb a 1 || ltb 65535 b)) [
      | inl e' ↦ simp (e, e') tt
      | inr e' ↦ elim (Bool-cases (leb a unencrypted_end && leb unencrypted_start b)) [
        | inl e'' ↦ simp (e, e', e'') tt
        | inr e'' ↦
            simp (e, e', e'')
              (record {
                ordered = ground arith;
                low = ground arith;
                high = ground arith;
                disjoint = λ port lo hi h. ground arith;
              })
      ]
    ]
  ]
  check_range-IsUsable p (natural a) (negative b) = tt
  check_range-IsUsable p (natural a) fractional = tt
  check_range-IsUsable p (negative a) b = tt
  check_range-IsUsable p fractional b = tt

  -- A configuration that is taken from the environment has ports from 1 to 65535, in order, and none
  -- of them is a port of the unencrypted transport.
  pub config-IsUsable : (env : SrtpTransportEnv) → IsUsable (srtp_transport_config_from_env env)
  unfolding srtp_transport_config_from_env
  config-IsUsable env = by_prefix env.srtp_key_parameter_prefix refl
    where
      by_prefix :
          (o : Option String)
          → env.srtp_key_parameter_prefix ≡ o
          → IsUsable (srtp_transport_config_from_env env)
      by_prefix none e = rw (e, srtp_transport_config_from_env) tt
      by_prefix (some p) e = elim (Bool-cases (str_eq (trim p) "")) [
        | inl blank ↦ rw (e, blank, srtp_transport_config_from_env) tt
        | inr named ↦
            rw (e, named, srtp_transport_config_from_env)
              (check_range-IsUsable (trim p) (number_or 6000 env.srtp_port_range_start)
                (number_or 6009 env.srtp_port_range_end))
      ]
