-- ===== src/Transport/Reset.antt =====
-- `resetFloor` and `keyForPort`: the transport as the target of the floor-reset server, over the table
-- that the fleet shares.
use video_thingy_rocks.Common.{
  ℕ, ◌≡◌, ◌≢◌, refl, sym, ap, ◌∙◌, subst, inl, inr, String, Bool, Option, none, some, List, ◌++◌,
  arith, PortMap, if◌then◌else◌,
}
use mathlib.Core.Option.{some-injective}
use video_thingy_rocks.Dynamo.{DocumentClient, Laws}
use video_thingy_rocks.StreamTable.{StreamMetadata, FloorReset}
use video_thingy_rocks.StreamMetadata
use video_thingy_rocks.StreamMetadata.{ResetOutcome, stale, reset_srtp_index_floor}
use video_thingy_rocks.Fleet.{Call, run}
use video_thingy_rocks.Fleet.Replay.{run-append, reset_once}
use video_thingy_rocks.HelperProtocol.Json.{Json}
use video_thingy_rocks.Supervisor.{SrtpPortKey}
use video_thingy_rocks.FloorReset.{
  Request, FloorResetTarget, match_path, timestamp_of, status_of, handle,
}
use video_thingy_rocks.FloorReset.Authorised.{handle-Answers}

module _ (db : DocumentClient StreamMetadata) where
  -- An instance: its keys, what it is given to read and to sign requests with, and the calls that a
  -- port's supervisor makes when it checks for a reset. That check rejects where the first part is
  -- `false`.
  pub record SrtpTransport : Type 0 where
    pub keys : PortMap SrtpPortKey
    pub json_parse : List ℕ → Option Json
    pub sign_floor_reset : String → ℕ → ℕ → ℕ → String
    pub check_floor_reset : ℕ → db.Table → Bool × List Call

  abbrev reset_of : SrtpPortKey → ℕ → ℕ → FloorReset
  reset_of k requested_at_ms floor = record {
    requested_at_ms = requested_at_ms;
    floor = floor;
    ssrc = k.ssrc;
    key_fingerprint = k.key_fingerprint;
    generation = k.generation;
  }

  -- What follows the reset of the row; `none` where it rejects.
  unfoldable pub after_reset :
      SrtpTransport → ℕ → Option ResetOutcome → db.Table → Option ResetOutcome × db.Table
  after_reset s port none t = (none, t)
  after_reset s port (some StreamMetadata.stale) t = (some StreamMetadata.stale, t)
  after_reset s port (some StreamMetadata.reset) t =
      let (checked, calls) = s.check_floor_reset port t in
      (if checked then some StreamMetadata.reset else none, run db calls t)

  unfoldable pub reset_with :
      SrtpTransport → ℕ → Option SrtpPortKey → ℕ → ℕ → ℕ → db.Table → Option ResetOutcome × db.Table
  unfolding after_reset
  reset_with s port none requested_at_ms floor now t = (some StreamMetadata.stale, t)
  reset_with s port (some k) requested_at_ms floor now t =
      let (outcome, t') = reset_srtp_index_floor db port (reset_of k requested_at_ms floor) now t in
      after_reset s port outcome t'

  unfoldable pub reset_floor :
      SrtpTransport → ℕ → ℕ → ℕ → ℕ → db.Table → Option ResetOutcome × db.Table
  unfolding reset_with
  reset_floor s port requested_at_ms floor now t =
      reset_with s port (s.keys port) requested_at_ms floor now t

  abbrev pub key_hex_for_port : SrtpTransport → ℕ → Option String
  key_hex_for_port s port = elim (s.keys port) [ none ↦ none | some k ↦ some k.key_hex ]

  -- The transport as the server's target; the world is the table and the instance's clock.
  abbrev pub target : SrtpTransport → FloorResetTarget
  target s = record {
    World = db.Table × ℕ;
    now = λ w. w.1;
    json_parse = s.json_parse;
    sign_floor_reset = s.sign_floor_reset;
    key_for_port = λ port w. key_hex_for_port s port;
    reset_floor = λ port requested_at_ms floor w.
        (let (outcome, t) = reset_floor s port requested_at_ms floor w.1 w.0 in
          (outcome, (t, w.1)));
  }

module _ (db : DocumentClient StreamMetadata) (laws : Laws db) where
  -- The reset that was accepted: the row's, under the port's key, and the calls after it.
  record Accepted (port requested_at_ms floor now : ℕ) (t t' : db.Table) : Type 0 where
    key : SrtpPortKey
    calls : List Call
    accepted :
        (reset_srtp_index_floor db port (reset_of db key requested_at_ms floor) now t).0
        ≡ some StreamMetadata.reset
    table :
        t'
        ≡ run db calls
            (reset_srtp_index_floor db port (reset_of db key requested_at_ms floor) now t).1

  after_reset-accepted :
      (s : SrtpTransport db) (port : ℕ) (o : Option ResetOutcome) (t : db.Table)
      → (after_reset db s port o t).0 ≡ some StreamMetadata.reset
      → (o ≡ some StreamMetadata.reset)
        × ((calls : List Call) × ((after_reset db s port o t).1 ≡ run db calls t))
  unfolding after_reset
  after_reset-accepted s port none t e = absurd cc
  after_reset-accepted s port (some StreamMetadata.stale) t e = absurd cc
  after_reset-accepted s port (some StreamMetadata.reset) t e =
      (refl, ((s.check_floor_reset port t).1, refl))

  reset_with-Accepted :
      (s : SrtpTransport db) (port : ℕ) (k : Option SrtpPortKey) (requested_at_ms floor now : ℕ)
      (t : db.Table)
      → (reset_with db s port k requested_at_ms floor now t).0 ≡ some StreamMetadata.reset
      → Accepted port requested_at_ms floor now t
          (reset_with db s port k requested_at_ms floor now t).1
  unfolding reset_with
  reset_with-Accepted s port none requested_at_ms floor now t e = absurd cc
  reset_with-Accepted s port (some k) requested_at_ms floor now t e =
      let r = reset_srtp_index_floor db port (reset_of db k requested_at_ms floor) now t in
      let (accepted, (calls, table)) = after_reset-accepted s port r.0 r.1 e in
      record { key = k; calls = calls; accepted = accepted; table = table }

  status-200 :
      (s : SrtpTransport db) (o : Option ResetOutcome)
      → status_of (target db s) o ≡ 200
      → o ≡ some StreamMetadata.reset
  status-200 s none e = absurd (omega (arith, e))
  status-200 s (some StreamMetadata.stale) e = absurd (omega (arith, e))
  status-200 s (some StreamMetadata.reset) e = refl

  -- What an answer of 200 says of the request and of the table.
  record Ok (r : Request) (now : ℕ) (t t' : db.Table) : Type 0 where
    port : ℕ
    timestamp : ℕ
    floor : ℕ
    path : match_path r.url ≡ some port
    stamped : timestamp_of r.x_timestamp ≡ some timestamp
    accepted : Accepted port timestamp floor now t t'

  handle-Ok :
      (s : SrtpTransport db) (r : Request) (t : db.Table) (now : ℕ)
      → (handle (target db s) r (t, now)).0 ≡ 200
      → Ok r now t (handle (target db s) r (t, now)).1.0
  unfolding reset_floor
  handle-Ok s r t now e = elim (handle-Answers (target db s) r (t, now)) [
    | inl (same, low, high) ↦ absurd (omega (arith, e, low))
    | inr (port, timestamp, floor, authorised, answer) ↦
        let outcome = status-200 s _ (sym (ap (λ (a : ℕ × (db.Table × ℕ)). a.0) answer) ∙ e) in
        record {
          port = port;
          timestamp = timestamp;
          floor = floor;
          path = authorised.path;
          stamped = authorised.stamped;
          accepted =
              subst (Accepted port timestamp floor now t)
                (sym (ap (λ (a : ℕ × (db.Table × ℕ)). a.1.0) answer))
                (reset_with-Accepted s port (s.keys port) timestamp floor now t outcome);
        }
  ]

  -- A signed request resets a floor once: after an instance answered it by 200, no instance answers it
  -- by 200 again, whatever keys and clocks the two have and whatever calls the fleet makes of the table
  -- in between.
  pub request_once :
      (s s' : SrtpTransport db) (r : Request) (calls : List Call) (t : db.Table) (now now' : ℕ)
      → (handle (target db s) r (t, now)).0 ≡ 200
      → (handle (target db s') r (run db calls (handle (target db s) r (t, now)).1.0, now')).0 ≢ 200
  request_once s s' r calls t now now' first second =
      let a = handle-Ok s r t now first in
      let b = handle-Ok s' r (run db calls (handle (target db s) r (t, now)).1.0) now' second in
      let same_port : b.port ≡ a.port = some-injective _ _ (sym b.path ∙ a.path) in
      let same_time : b.timestamp ≡ a.timestamp = some-injective _ _ (sym b.stamped ∙ a.stamped) in
      let first_reset = reset_of db a.accepted.key a.timestamp a.floor in
      let second_reset = reset_of db b.accepted.key b.timestamp b.floor in
      let t₁ : db.Table = (reset_srtp_index_floor db a.port first_reset now t).1 in
      let between =
        ap (run db calls) a.accepted.table ∙ sym (run-append db laws a.accepted.calls calls t₁) in
      reset_once db laws a.port first_reset second_reset now now' (a.accepted.calls ++ calls) t
        a.accepted.accepted (omega (arith, same_time))
        (ap (λ (u : db.Table). (reset_srtp_index_floor db a.port second_reset now' u).0)
            (sym between)
          ∙ ap
              (λ (q : ℕ).
                (reset_srtp_index_floor db q second_reset now'
                  (run db calls (handle (target db s) r (t, now)).1.0)).0)
              (sym same_port)
          ∙ b.accepted.accepted)
