-- ===== src/StreamMetadata/Floor.antt =====
-- Which raises of the replay floor the row refuses.
use video_thingy_rocks.Common.{
  ℕ, ◌≤◌, ◌<◌, ◌≡◌, ◌≢◌, ◌⊎◌, inl, inr, refl, String, Option, none, some, arith, true, str_eq_iff,
}
use video_thingy_rocks.Dynamo.{DocumentClient, Laws, Untouched}
use video_thingy_rocks.StreamTable.{StreamMetadata, existing, epoch_fence, raises}
use video_thingy_rocks.StreamMetadata.{raise_srtp_index_floor}

-- A raise that comes from a helper of another epoch, from an older key, or that would not raise
-- the index of its own key and SSRC.
abbrev pub IsFenced : ℕ → ℕ → String → ℕ → Option ℕ → StreamMetadata → Type 0
IsFenced index ssrc fingerprint generation epoch row =
    (row.srtp_floor_epoch ≢ epoch)
    ⊎ ((stored : ℕ) × (floor : ℕ) × (row.srtp_index ≡ some floor)
        × (row.srtp_key_generation ≡ some stored)
        × ((generation < stored)
            ⊎ ((generation ≡ stored)
                × ((row.srtp_index_ssrc ≢ some ssrc)
                    ⊎ ((row.srtp_index_key_fingerprint ≢ some fingerprint) ⊎ (index ≤ floor))))))

epoch_fence-eq : (epoch stored : Option ℕ) → epoch_fence epoch stored ≡ true → stored ≡ epoch
epoch_fence-eq none none h = refl
epoch_fence-eq none (some e) h = cc
epoch_fence-eq (some e) none h = cc
epoch_fence-eq (some e) (some e') h = ground arith

raises_fenced :
    (index ssrc : ℕ) (fingerprint : String) (generation : ℕ) (epoch : Option ℕ)
    (row : StreamMetadata)
    → IsFenced index ssrc fingerprint generation epoch row
    → epoch_fence epoch row.srtp_floor_epoch ≡ true
    → raises index ssrc fingerprint generation row ≢ true
raises_fenced index ssrc fingerprint generation epoch row (inl other) e h =
    other (epoch_fence-eq epoch row.srtp_floor_epoch e)
raises_fenced index ssrc fingerprint generation epoch row (inr f) e h = grind (arith, str_eq_iff)

-- A fenced raise leaves the row as it was: one from a helper that was started under another reset
-- epoch; one under an older key generation; and one of the same generation for another SSRC or
-- key, or for an index that is not above the floor.
pub raise_fenced :
    (db : DocumentClient StreamMetadata) (laws : Laws db) (port index ssrc : ℕ)
    (fingerprint : String) (generation : ℕ) (epoch : Option ℕ) (now : ℕ) (t : db.Table)
    → IsFenced index ssrc fingerprint generation epoch (existing (db.item t port))
    → Untouched db t
        (raise_srtp_index_floor db port index ssrc fingerprint generation epoch now t)
        port
unfolding raise_srtp_index_floor
raise_fenced db laws port index ssrc fingerprint generation epoch now t fenced =
    elim (laws.update_atomic _ t) [
      | inl untouched ↦ untouched
      | inr (passed, wrote) ↦ absurd (
          raises_fenced index ssrc fingerprint generation epoch (existing (db.item t port)) fenced
            (ground arith) (ground arith))
    ]
