-- ===== src/FloorReset/Tests.antt =====
-- A signed request, against a target that keeps the timestamp of the last reset.
use video_thingy_rocks.Common.{ℕ, ◌≡◌, refl, some, [], ◌∷◌, ltb, if◌then◌else◌}
use video_thingy_rocks.StreamMetadata.{reset, stale}
use video_thingy_rocks.HelperProtocol.Json.{number, natural, object, field, end, get}
use video_thingy_rocks.FloorReset.{Request, FloorResetTarget, handle}
use video_thingy_rocks.FloorReset.Authorised.{Answers, handle-Answers}

-- The world is the time of the last reset; the clock stands still.
abbrev target : FloorResetTarget
target = record {
  World = ℕ;
  now = λ w. 1000;
  json_parse = λ raw. some (object (field "floor" (number (natural 5)) end));
  sign_floor_reset = λ key port timestamp floor. "s";
  key_for_port = λ port w. some "k";
  reset_floor = λ port timestamp floor w.
      if ltb w timestamp then (some reset, timestamp) else (some stale, w);
}

abbrev request : Request
request = record {
  url = some "/srtp/6003/floor-reset";
  method = some "POST";
  body = (123 ∷ []) ∷ (125 ∷ []) ∷ [];
  x_timestamp = some (57 ∷ 57 ∷ 57 ∷ []);
  x_signature = some "s";
}

accepted : handle target request 7 ≡ (200, 999)
unfolding handle get
accepted = refl

replayed : handle target request 999 ≡ (409, 999)
unfolding handle get
replayed = refl

handle-Answers_example : Answers target request 7 (handle target request 7)
handle-Answers_example = handle-Answers target request 7
