-- ===== src/Fleet/Version.antt =====
-- The order of replay floors: by reset epoch, then by key generation, then, within one key and
-- SSRC, by packet index.
use video_thingy_rocks.Common.{
  ℕ, ◌≤◌, ◌<◌, ◌≡◌, ◌⊎◌, inl, inr, refl, ◌∙◌, String, Option, none, some, arith,
}
use video_thingy_rocks.StreamTable.{StreamMetadata, existing}

pub record Floor : Type 0 where
  pub generation : ℕ
  pub ssrc : Option ℕ
  pub key_fingerprint : Option String
  pub index : ℕ

abbrev floor_from : Option ℕ → Option ℕ → Option ℕ → Option String → Option Floor
floor_from none _ s f = none
floor_from (some i) none s f = none
floor_from (some i) (some g) s f =
    some (record { generation = g; ssrc = s; key_fingerprint = f; index = i })

-- The floor of a row that has both an index and a generation; a row without one is replaceable by
-- any write.
abbrev pub floor_view : Option StreamMetadata → Option Floor
floor_view o =
    let row = existing o in
    floor_from row.srtp_index row.srtp_key_generation row.srtp_index_ssrc
      row.srtp_index_key_fingerprint

abbrev pub SameSpace : Floor → Floor → Type 0
SameSpace a b =
    (a.generation ≡ b.generation)
    × (a.ssrc ≡ b.ssrc)
    × (a.key_fingerprint ≡ b.key_fingerprint)
    × (a.index ≤ b.index)

abbrev pub FloorLe : Option Floor → Option Floor → Type 0
FloorLe none _ = Unit
FloorLe (some a) none = ⊥
FloorLe (some a) (some b) = (a.generation < b.generation) ⊎ SameSpace a b

abbrev pub EpochLt : Option ℕ → Option ℕ → Type 0
EpochLt _ none = ⊥
EpochLt none (some b) = Unit
EpochLt (some a) (some b) = a < b

abbrev pub VersionLe : Option StreamMetadata → Option StreamMetadata → Type 0
VersionLe o p =
    EpochLt (existing o).srtp_floor_epoch (existing p).srtp_floor_epoch
    ⊎ ((existing o).srtp_floor_epoch ≡ (existing p).srtp_floor_epoch)
      × FloorLe (floor_view o) (floor_view p)

pub FloorLe-refl : (a : Option Floor) → FloorLe a a
FloorLe-refl none = tt
FloorLe-refl (some a) = ground arith

FloorLe-trans : (a b c : Option Floor) → FloorLe a b → FloorLe b c → FloorLe a c
FloorLe-trans none b c h k = tt
FloorLe-trans (some a) none c h k = absurd h
FloorLe-trans (some a) (some b) none h k = absurd k
FloorLe-trans (some a) (some b) (some c) h k = ground arith

EpochLt-trans : (a b c : Option ℕ) → EpochLt a b → EpochLt b c → EpochLt a c
EpochLt-trans a none c h k = absurd h
EpochLt-trans a (some b) none h k = absurd k
EpochLt-trans none (some b) (some c) h k = tt
EpochLt-trans (some a) (some b) (some c) h k = omega arith

pub EpochLt-irrefl : (a : Option ℕ) → ¬ EpochLt a a
EpochLt-irrefl none h = h
EpochLt-irrefl (some a) h = omega arith

pub VersionLe-refl : (o : Option StreamMetadata) → VersionLe o o
VersionLe-refl o = inr (refl, FloorLe-refl (floor_view o))

pub VersionLe-trans :
    (o p q : Option StreamMetadata) → VersionLe o p → VersionLe p q → VersionLe o q
VersionLe-trans o p q (inl a) (inl b) = inl (EpochLt-trans _ _ _ a b)
VersionLe-trans o p q (inl a) (inr (e, b)) = inl (rw e at a)
VersionLe-trans o p q (inr (e, a)) (inl b) = inl (rw (← e) at b)
VersionLe-trans o p q (inr (e, a)) (inr (f, b)) = inr (e ∙ f, FloorLe-trans _ _ _ a b)
