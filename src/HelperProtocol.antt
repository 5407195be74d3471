-- ===== src/HelperProtocol.antt =====
-- backend/src/SrtpHelperProtocol.ts: the frames that an SRTP helper writes, and the commands that
-- it reads.
pub mod Json
pub mod Parse
pub mod Framing
pub mod Emit
use video_thingy_rocks.Common.{ℕ, String, Bool, true, false, not, ◌||◌, Option, List, str_eq}

abbrev pub srtp_helper_protocol_version : ℕ
srtp_helper_protocol_version = 3

pub record SrtpHelperInit : Type 0 where
  pub v : ℕ
  pub key : String
  pub cipher : Option String
  pub auth : Option String
  pub ssrc : ℕ
  pub floor : Option ℕ
  pub search_from : Option ℕ

pub data SrtpHelperCommand : Type 0 where
  init : SrtpHelperInit → SrtpHelperCommand
  start : ℕ → SrtpHelperCommand
  stop : ℕ → SrtpHelperCommand

-- The text of an unparsed line, or the report of a line that was discarded, which names its length.
pub data Raw : Type 0 where
  text : List ℕ → Raw
  overlong : ℕ → Raw

pub data SrtpHelperMessage : Type 0 where
  ready : (v port : ℕ) (pid : Option ℕ) → SrtpHelperMessage
  searching : (candidate trial : ℕ) → SrtpHelperMessage
  auth_ok :
      (first : Bool) (roc : ℕ) (seq candidate trials authenticated : Option ℕ) → SrtpHelperMessage
  auth_fail : (candidate : ℕ) (inputs drops search_from : Option ℕ) → SrtpHelperMessage
  auth_exhausted : (trials : ℕ) → SrtpHelperMessage
  auth_lost : (since_ms drops : Option ℕ) → SrtpHelperMessage
  index : ℕ → SrtpHelperMessage
  producing : SrtpHelperMessage
  stopped : (index : Option ℕ) → SrtpHelperMessage
  stats :
      (inputs input_bytes authenticated aus : ℕ) (roc : Option ℕ) (drops : ℕ) → SrtpHelperMessage
  warning : (element : Option String) (message : String) → SrtpHelperMessage
  error : (element : Option String) (message : String) → SrtpHelperMessage
  -- The reason is cast from whatever text the frame has.
  fatal : (reason message : String) → SrtpHelperMessage
  eos : SrtpHelperMessage
  unparsed : Raw → SrtpHelperMessage

unfoldable pub is_retryable_fatal : String → Bool
is_retryable_fatal reason = not (
    str_eq reason "bad-init"
    || (str_eq reason "key-in-argv"
        || (str_eq reason "unsafe-debug-env" || str_eq reason "missing-element")))
