-- ===== src/FloorReset/Authorised.antt =====
-- Which requests reach the reset, and that all others change nothing.
use video_thingy_rocks.Common.{
  ℕ, ◌+◌, ◌≤◌, ◌≡◌, ◌⊎◌, inl, inr, refl, sym, ap, ◌∙◌, String, Bool, true, false, not, ◌||◌, Option,
  none, some, List, str_eq_iff, arith, Bool-cases,
}
use video_thingy_rocks.HelperProtocol.Json.{Json}
use video_thingy_rocks.FloorReset.{
  max_clock_skew_ms, Request, match_path, read_body, floor_of_body, timestamp_of, skewed,
  FloorResetTarget, status_of, signed, authorise, with_floor, with_json, with_body, is_post,
  with_path, handle,
}

is_post-eq : (method : Option String) → is_post method ≡ true → method ≡ some "POST"
is_post-eq none h = cc
is_post-eq (some m) h = ap some ((str_eq_iff m "POST").0 h)

or-not-false : (late wrong : Bool) → (late || not wrong) ≡ false → (late ≡ false) × (wrong ≡ true)
or-not-false late wrong h = ground arith

in_time :
    (now timestamp : ℕ)
    → skewed now timestamp ≡ false
    → (now ≤ timestamp + max_clock_skew_ms) × (timestamp ≤ now + max_clock_skew_ms)
in_time now timestamp h = ground arith

module _ (target : FloorResetTarget) where
  -- The request was made for the port by a holder of its key, for this floor, within the clock skew.
  pub record IsAuthorised (r : Request) (w : target.World) (port timestamp floor : ℕ) : Type 0 where
    pub path : match_path r.url ≡ some port
    pub post : r.method ≡ some "POST"
    pub raw : List ℕ
    pub body : Json
    pub read : read_body 0 r.body ≡ some raw
    pub parsed : target.json_parse raw ≡ some body
    pub wanted : floor_of_body body ≡ some floor
    pub stamped : timestamp_of r.x_timestamp ≡ some timestamp
    pub key : String
    pub keyed : target.key_for_port port w ≡ some key
    pub signature : r.x_signature ≡ some (target.sign_floor_reset key port timestamp floor)
    pub not_late : target.now w ≤ timestamp + max_clock_skew_ms
    pub not_early : timestamp ≤ target.now w + max_clock_skew_ms

  -- Refused with the world as it was, or authorised and answered by what the reset came to.
  abbrev pub Answers : Request → target.World → ℕ × target.World → Type 0
  Answers r w answer =
      ((answer.1 ≡ w) × (400 ≤ answer.0) × (answer.0 ≤ 413))
      ⊎ ((port : ℕ) × (timestamp : ℕ) × (floor : ℕ) × IsAuthorised r w port timestamp floor
          × (answer ≡ (
            status_of target (target.reset_floor port timestamp floor w).0,
            (target.reset_floor port timestamp floor w).1,
          )))

  refused :
      (r : Request) (w : target.World) (status : ℕ)
      → 400 ≤ status
      → status ≤ 413
      → Answers r w (status, w)
  refused r w status lo hi = inl (refl, lo, hi)

  authorise-Answers :
      (r : Request) (w : target.World) (port floor : ℕ) (raw : List ℕ) (body : Json)
      → match_path r.url ≡ some port
      → r.method ≡ some "POST"
      → read_body 0 r.body ≡ some raw
      → target.json_parse raw ≡ some body
      → floor_of_body body ≡ some floor
      → (key : Option String) (timestamp : Option ℕ) (signature : Option String)
      → target.key_for_port port w ≡ key
      → timestamp_of r.x_timestamp ≡ timestamp
      → r.x_signature ≡ signature
      → Answers r w (authorise target port floor key timestamp signature w)
  unfolding authorise
  authorise-Answers r w port floor raw body path post read parsed wanted (some key) (some timestamp)
        (some signature) keyed stamped given =
      elim (Bool-cases (
        skewed (target.now w) timestamp
        || not (signed target key port timestamp floor signature))) [
          | inl e ↦ simp e (refused r w 401 (omega arith) (omega arith))
          | inr e ↦
              let (fresh, matches) =
                or-not-false (skewed (target.now w) timestamp)
                  (signed target key port timestamp floor signature) e in
              let (not_late, not_early) = in_time (target.now w) timestamp fresh in
              simp e (
                inr (
                  port,
                  timestamp,
                  floor,
                  record {
                    path = path;
                    post = post;
                    raw = raw;
                    body = body;
                    read = read;
                    parsed = parsed;
                    wanted = wanted;
                    stamped = stamped;
                    key = key;
                    keyed = keyed;
                    signature =
                        given
                        ∙ ap some (
                            sym (
                              (str_eq_iff (target.sign_floor_reset key port timestamp floor)
                                  signature).0
                                matches));
                    not_late = not_late;
                    not_early = not_early;
                  },
                  refl,
                ))
        ]
  authorise-Answers r w port floor raw body path post read parsed wanted none t s k st g =
      refused r w 401 (omega arith) (omega arith)
  authorise-Answers r w port floor raw body path post read parsed wanted (some key) none s k st g =
      refused r w 401 (omega arith) (omega arith)
  authorise-Answers r w port floor raw body path post read parsed wanted (some key) (some t) none k
        st g =
      refused r w 401 (omega arith) (omega arith)

  with_floor-Answers :
      (r : Request) (w : target.World) (port : ℕ) (raw : List ℕ) (body : Json)
      → match_path r.url ≡ some port
      → r.method ≡ some "POST"
      → read_body 0 r.body ≡ some raw
      → target.json_parse raw ≡ some body
      → (floor : Option ℕ) → floor_of_body body ≡ floor
      → Answers r w (with_floor target port r floor w)
  unfolding with_floor
  with_floor-Answers r w port raw body path post read parsed none wanted =
      refused r w 400 (omega arith) (omega arith)
  with_floor-Answers r w port raw body path post read parsed (some floor) wanted =
      authorise-Answers r w port floor raw body path post read parsed wanted
        (target.key_for_port port w) (timestamp_of r.x_timestamp) r.x_signature refl refl refl

  with_json-Answers :
      (r : Request) (w : target.World) (port : ℕ) (raw : List ℕ)
      → match_path r.url ≡ some port
      → r.method ≡ some "POST"
      → read_body 0 r.body ≡ some raw
      → (body : Option Json) → target.json_parse raw ≡ body
      → Answers r w (with_json target port r body w)
  unfolding with_json
  with_json-Answers r w port raw path post read none parsed =
      refused r w 400 (omega arith) (omega arith)
  with_json-Answers r w port raw path post read (some body) parsed =
      with_floor-Answers r w port raw body path post read parsed (floor_of_body body) refl

  with_body-Answers :
      (r : Request) (w : target.World) (port : ℕ)
      → match_path r.url ≡ some port
      → r.method ≡ some "POST"
      → (raw : Option (List ℕ)) → read_body 0 r.body ≡ raw
      → Answers r w (with_body target port r raw w)
  unfolding with_body
  with_body-Answers r w port path post none read = refused r w 413 (omega arith) (omega arith)
  with_body-Answers r w port path post (some raw) read =
      with_json-Answers r w port raw path post read (target.json_parse raw) refl

  with_path-Answers :
      (r : Request) (w : target.World) (port : Option ℕ)
      → match_path r.url ≡ port
      → Answers r w (with_path target r port w)
  unfolding with_path
  with_path-Answers r w none path = refused r w 404 (omega arith) (omega arith)
  with_path-Answers r w (some port) path = elim (Bool-cases (is_post r.method)) [
    | inl e ↦
        simp e (with_body-Answers r w port path (is_post-eq r.method e) (read_body 0 r.body) refl)
    | inr e ↦ simp e (refused r w 405 (omega arith) (omega arith))
  ]

  -- Every request is either refused, with a status from 400 to 413 and the world as it was; or it is
  -- a POST for a port's path, with a body that asks for a floor in range, signed with the port's key
  -- over port, timestamp and floor, at most a minute from the clock, and then it is answered by what
  -- that very reset comes to.
  pub handle-Answers : (r : Request) (w : target.World) → Answers r w (handle target r w)
  unfolding handle
  handle-Answers r w = with_path-Answers r w (match_path r.url) refl
