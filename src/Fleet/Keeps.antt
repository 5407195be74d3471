-- ===== src/Fleet/Keeps.antt =====
-- What holds across every write of the fleet holds across every call and every interleaving.
use video_thingy_rocks.Common.{
  ℕ, ◌-◌, ◌≡◌, inl, inr, Option, none, some, true, List, [], ◌∷◌, All, ltb, get_or_else, Bool-cases,
  ℕ_discrete,
}
use video_thingy_rocks.Dynamo.{DocumentClient, UpdateCommand, Laws}
use video_thingy_rocks.StreamTable.{StreamMetadata, update_throttle_ms}
use video_thingy_rocks.Fleet.{
  Call, acquire, release, refresh, read_floor, read_epoch, raise, reset, cleanup, command, perform,
  run,
}

abbrev pub WriteKeeps :
    (Option StreamMetadata → Option StreamMetadata → Type 0)
    → ℕ
    → Option (UpdateCommand StreamMetadata)
    → Type 0
WriteKeeps R port none = Unit
WriteKeeps R port (some u) =
    port ≡ u.key → (o : Option StreamMetadata) → u.condition o ≡ true → R o (some (u.update o))

module _ (db : DocumentClient StreamMetadata) (laws : Laws db)
    (R : Option StreamMetadata → Option StreamMetadata → Type 0)
    (R_refl : (o : Option StreamMetadata) → R o o) (port : ℕ) where
  pub send-Keeps :
      (u : UpdateCommand StreamMetadata)
      → WriteKeeps R port (some u)
      → (t : db.Table) → R (db.item t port) (db.item (db.send_update u t).1 port)
  send-Keeps u write t = elim (ℕ_discrete port u.key) [
    | no other ↦ rw (laws.update_others u t port other) (R_refl _)
    | yes same ↦ rw same (elim (laws.update_atomic u t) [
      | inl untouched ↦ rw untouched (R_refl _)
      | inr (held, wrote) ↦ rw wrote (write same _ held)
    ])
  ]

  pub perform-Keeps :
      (c : Call)
      → WriteKeeps R port (command c)
      → (t : db.Table) → R (db.item t port) (db.item (perform db c t) port)
  unfolding perform
  perform-Keeps (acquire p id now now') write t = send-Keeps _ write t
  perform-Keeps (release p id now) write t = send-Keeps _ write t
  perform-Keeps (refresh p id now times) write t =
      elim (Bool-cases (ltb (now - get_or_else (times p) 0) update_throttle_ms)) [
        | inl throttled ↦ rw (throttled, perform) (R_refl _)
        | inr due ↦ rw (due, perform) (send-Keeps _ write t)
      ]
  perform-Keeps (read_floor p ssrc fingerprint) write t = rw (laws.get_keeps p port t) (R_refl _)
  perform-Keeps (read_epoch p) write t = rw (laws.get_keeps p port t) (R_refl _)
  perform-Keeps (raise p index ssrc fingerprint generation epoch now) write t = send-Keeps _ write t
  perform-Keeps (reset p r now) write t = send-Keeps _ write t
  perform-Keeps (cleanup p now stale_threshold) write t = send-Keeps _ write t

  pub run-Keeps :
      ((o p q : Option StreamMetadata) → R o p → R p q → R o q)
      → (calls : List Call) → All (λ c. WriteKeeps R port (command c)) calls
      → (t : db.Table) → R (db.item t port) (db.item (run db calls t) port)
  unfolding run
  run-Keeps R_trans [] write t = R_refl _
  run-Keeps R_trans (c ∷ calls) write t =
      R_trans _ _ _ (perform-Keeps c write.0 t) (run-Keeps R_trans calls write.1 (perform db c t))
