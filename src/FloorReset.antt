-- ===== src/FloorReset.antt =====
-- backend/src/SrtpFloorResetServer.ts: the signed request that resets a port's replay floor.
pub mod Authorised
mod Tests
use video_thingy_rocks.Common.{
  ℕ, ◌+◌, ◌-◌, ◌*◌, String, Bool, true, false, not, ◌&&◌, ◌||◌, Option, none, some, List, [], ◌∷◌,
  ◌++◌, length, leb, ltb, if◌then◌else◌, str_eq, get_or_else, srtp_index_max,
}
use video_thingy_rocks.StreamMetadata.{ResetOutcome, reset, stale}
use video_thingy_rocks.HelperProtocol.Json.{Json, object, get, int}

abbrev pub max_clock_skew_ms : ℕ
max_clock_skew_ms = 60000

abbrev pub max_floor : ℕ
max_floor = srtp_index_max

abbrev pub max_body_bytes : ℕ
max_body_bytes = 1024

-- A header that is missing, or that is not one text, is `none`. The body comes in chunks of bytes.
pub record Request : Type 0 where
  pub url : Option String
  pub method : Option String
  pub body : List (List ℕ)
  pub x_timestamp : Option (List ℕ)
  pub x_signature : Option String

-- The URLs that `PATH` matches, with the port of each.
abbrev paths : List (String × ℕ)
paths =
    ("/srtp/6000/floor-reset", 6000)
    ∷ ("/srtp/6001/floor-reset", 6001)
    ∷ ("/srtp/6002/floor-reset", 6002)
    ∷ ("/srtp/6003/floor-reset", 6003)
    ∷ ("/srtp/6004/floor-reset", 6004)
    ∷ ("/srtp/6005/floor-reset", 6005)
    ∷ ("/srtp/6006/floor-reset", 6006)
    ∷ ("/srtp/6007/floor-reset", 6007)
    ∷ ("/srtp/6008/floor-reset", 6008)
    ∷ ("/srtp/6009/floor-reset", 6009)
    ∷ []

lookup_path : String → List (String × ℕ) → Option ℕ
lookup_path url [] = none
lookup_path url ((path, port) ∷ rest) = if str_eq url path then some port else lookup_path url rest

unfoldable pub match_path : Option String → Option ℕ
unfolding lookup_path
match_path url = lookup_path (get_or_else url "") paths

-- `readBody`, from `size` bytes that were read before.
unfoldable pub read_body : ℕ → List (List ℕ) → Option (List ℕ)
read_body size [] = some []
read_body size (chunk ∷ chunks) =
    let rest = read_body (size + length chunk) chunks in
    if ltb max_body_bytes (size + length chunk)
    then none
    else elim rest [ none ↦ none | some bytes ↦ some (chunk ++ bytes) ]

-- The `floor` of the parsed body, if it is an integer in range.
unfoldable pub floor_of_body : Json → Option ℕ
floor_of_body (object fields) = int 0 max_floor (get "floor" fields)
floor_of_body _ = none

-- The value of a run of decimal digits, `none` at any other character.
unfoldable pub digits : ℕ → List ℕ → Option ℕ
digits acc [] = some acc
digits acc (d ∷ ds) =
    let rest = digits (acc * 10 + (d - 48)) ds in if leb 48 d && leb d 57 then rest else none

-- `Number` of one to sixteen digits. Above 2 ^ 53, far from any clock's time, `Number` rounds.
unfoldable pub timestamp_of : Option (List ℕ) → Option ℕ
unfolding digits
timestamp_of none = none
timestamp_of (some text) =
    let value = digits 0 text in if leb 1 (length text) && leb (length text) 16 then value else none

-- `Math.abs(now - timestamp) > MAX_CLOCK_SKEW_MS`
abbrev pub skewed : ℕ → ℕ → Bool
skewed now timestamp =
    ltb (timestamp + max_clock_skew_ms) now || ltb (now + max_clock_skew_ms) timestamp

abbrev pub is_post : Option String → Bool
is_post method = str_eq (get_or_else method "") "POST"

-- What the server is given: the clock, `JSON.parse` of the decoded body, the HMAC of
-- `signFloorReset`, and the transport. `reset_floor` is `none` where it rejects.
pub record FloorResetTarget : Type 1 where
  pub World : Type 0
  pub now : World → ℕ
  pub json_parse : List ℕ → Option Json
  pub sign_floor_reset : String → ℕ → ℕ → ℕ → String
  pub key_for_port : ℕ → World → Option String
  pub reset_floor : ℕ → ℕ → ℕ → World → Option ResetOutcome × World

module _ (target : FloorResetTarget) where
  -- The status of the response to what the reset came to; a rejection is answered by `start`.
  abbrev pub status_of : Option ResetOutcome → ℕ
  status_of (some reset) = 200
  status_of (some stale) = 409
  status_of none = 503

  abbrev pub signed : String → ℕ → ℕ → ℕ → String → Bool
  signed key port timestamp floor signature =
      str_eq (target.sign_floor_reset key port timestamp floor) signature

  -- The check of the credentials, and the reset.
  unfoldable pub authorise :
      ℕ → ℕ → Option String → Option ℕ → Option String → target.World → ℕ × target.World
  authorise port floor (some key) (some timestamp) (some signature) w =
      if skewed (target.now w) timestamp || not (signed key port timestamp floor signature)
      then (401, w)
      else let (outcome, w') = target.reset_floor port timestamp floor w in (status_of outcome, w')
  authorise port floor _ _ _ w = (401, w)

  unfoldable pub with_floor : ℕ → Request → Option ℕ → target.World → ℕ × target.World
  unfolding authorise timestamp_of
  with_floor port r none w = (400, w)
  with_floor port r (some floor) w =
      authorise port floor (target.key_for_port port w) (timestamp_of r.x_timestamp) r.x_signature w

  unfoldable pub with_json : ℕ → Request → Option Json → target.World → ℕ × target.World
  unfolding with_floor floor_of_body
  with_json port r none w = (400, w)
  with_json port r (some body) w = with_floor port r (floor_of_body body) w

  unfoldable pub with_body : ℕ → Request → Option (List ℕ) → target.World → ℕ × target.World
  unfolding with_json
  with_body port r none w = (413, w)
  with_body port r (some raw) w = with_json port r (target.json_parse raw) w

  unfoldable pub with_path : Request → Option ℕ → target.World → ℕ × target.World
  unfolding with_body read_body
  with_path r none w = (404, w)
  with_path r (some port) w =
      if not (is_post r.method) then (405, w) else with_body port r (read_body 0 r.body) w

  -- The status of the response, and the world after it.
  unfoldable pub handle : Request → target.World → ℕ × target.World
  unfolding with_path match_path
  handle r w = with_path r (match_path r.url) w
