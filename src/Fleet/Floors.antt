-- ===== src/Fleet/Floors.antt =====
-- The replay floor under any interleaving of the fleet's calls.
use video_thingy_rocks.Common.{
  max_safe_integer, srtp_index_max, ℕ, ◌≤◌, ◌≡◌, inl, inr, refl, String, Option, none, some, arith,
  true, List, [], ◌∷◌, All, str_eq_iff, Option-cases,
}
use video_thingy_rocks.Dynamo.{DocumentClient, Laws}
use video_thingy_rocks.StreamTable.{
  StreamMetadata, existing, FloorReset, raise_command, reset_command,
}
use video_thingy_rocks.StreamMetadata.{floor_of}
use video_thingy_rocks.Fleet.{
  Call, acquire, release, refresh, read_floor, read_epoch, raise, reset, cleanup, command, run,
}
use video_thingy_rocks.Fleet.Keeps.{WriteKeeps, run-Keeps}
use video_thingy_rocks.Fleet.Version.{
  VersionLe, VersionLe-refl, VersionLe-trans, FloorLe, FloorLe-refl, floor_view, EpochLt-irrefl,
}

raise-VersionLe :
    (port index ssrc : ℕ) (fingerprint : String) (generation : ℕ) (epoch : Option ℕ) (now : ℕ)
    (o : Option StreamMetadata)
    → let u = raise_command port index ssrc fingerprint generation epoch now in
      u.condition o ≡ true → VersionLe o (some (u.update o))
raise-VersionLe port index ssrc fingerprint generation epoch now none h = inr (refl, tt)
raise-VersionLe port index ssrc fingerprint generation epoch now (some row) h =
    inr (refl, grind (arith, str_eq_iff))

reset-VersionLe :
    (port : ℕ) (r : FloorReset) (now : ℕ) (o : Option StreamMetadata)
    → (reset_command port r now).condition o ≡ true
    → VersionLe o (some ((reset_command port r now).update o))
reset-VersionLe port r now o h = ground arith

command-VersionLe : (port : ℕ) (c : Call) → WriteKeeps VersionLe port (command c)
command-VersionLe p (acquire port id now now') = λ same o h. inr (refl, FloorLe-refl (floor_view o))
command-VersionLe p (release port id now) = λ same o h. inr (refl, FloorLe-refl (floor_view o))
command-VersionLe p (refresh port id now times) =
    λ same o h. inr (refl, FloorLe-refl (floor_view o))
command-VersionLe p (read_floor port ssrc fingerprint) = tt
command-VersionLe p (read_epoch port) = tt
command-VersionLe p (raise port index ssrc fingerprint generation epoch now) =
    λ same. raise-VersionLe port index ssrc fingerprint generation epoch now
command-VersionLe p (reset port r now) = λ same. reset-VersionLe port r now
command-VersionLe p (cleanup port now stale_threshold) =
    λ same o h. inr (refl, FloorLe-refl (floor_view o))

pub All-of {ℓ κ} : {A : Type ℓ} (P : A → Type κ) → ((a : A) → P a) → (xs : List A) → All P xs
All-of P h [] = tt
All-of P h (x ∷ xs) = (h x, All-of P h xs)

pub All-mono {ℓ κ} :
    {A : Type ℓ} (P Q : A → Type κ) → ((a : A) → P a → Q a) → (xs : List A) → All P xs → All Q xs
All-mono P Q h [] a = tt
All-mono P Q h (x ∷ xs) a = (h x a.0, All-mono P Q h xs a.1)

-- Under any interleaving of the calls of any instances and of the cleanup, and whatever sends
-- fail or lose their response, the floor of a port never goes back: it keeps its reset epoch or
-- moves to a later one; within one epoch it keeps its key generation or moves to a later one;
-- and within one generation the key and SSRC stay and the index does not fall.
pub run-VersionLe :
    (db : DocumentClient StreamMetadata) (laws : Laws db) (port : ℕ) (calls : List Call)
    (t : db.Table)
    → VersionLe (db.item t port) (db.item (run db calls t) port)
run-VersionLe db laws port calls t =
    run-Keeps db laws VersionLe VersionLe-refl port VersionLe-trans calls
      (All-of (λ c. WriteKeeps VersionLe port (command c)) (command-VersionLe port) calls) t

-- The arguments that the callers give: an index comes from a helper's frame and a reset's floor
-- from a request, and both parsers bound it.
abbrev pub IsBounded : Call → Type 0
IsBounded (raise port index ssrc fingerprint generation epoch now) = index ≤ srtp_index_max
IsBounded (reset port r now) = r.floor ≤ srtp_index_max
IsBounded _ = Unit

abbrev pub IndexWithin : ℕ → Option ℕ → Type 0
IndexWithin bound none = Unit
IndexWithin bound (some i) = i ≤ bound

abbrev pub StaysWithin : ℕ → Option StreamMetadata → Option StreamMetadata → Type 0
StaysWithin bound o p =
    IndexWithin bound (existing o).srtp_index → IndexWithin bound (existing p).srtp_index

command-StaysWithin :
    (bound : ℕ)
    → srtp_index_max ≤ bound
    → (port : ℕ) (c : Call) → IsBounded c
    → WriteKeeps (StaysWithin bound) port (command c)
command-StaysWithin bound wide p (acquire port id now now') b = λ same o h w. w
command-StaysWithin bound wide p (release port id now) b = λ same o h w. w
command-StaysWithin bound wide p (refresh port id now times) b = λ same o h w. w
command-StaysWithin bound wide p (read_floor port ssrc fingerprint) b = tt
command-StaysWithin bound wide p (read_epoch port) b = tt
command-StaysWithin bound wide p (raise port index ssrc fingerprint generation epoch now) b =
    λ same o h w. omega arith
command-StaysWithin bound wide p (reset port r now) b = λ same o h w. omega arith
command-StaysWithin bound wide p (cleanup port now stale_threshold) b = λ same o h w. w

module _ (ssrc : ℕ) (fingerprint : String) (i g : ℕ) where
  later_index :
      (r r' : StreamMetadata)
      → floor_of ssrc fingerprint (some r) ≡ some i
      → r.srtp_key_generation ≡ some g
      → r'.srtp_key_generation ≡ some g
      → FloorLe (floor_view (some r)) (floor_view (some r'))
      → StaysWithin max_safe_integer (some r) (some r')
      → (j : ℕ) × (floor_of ssrc fingerprint (some r') ≡ some j) × (i ≤ j)
  later_index r r' e h l v w = elim (Option-cases r'.srtp_index) [
    | inl missing ↦ ground arith
    | inr (j, found) ↦ (j, ground arith, ground arith)
  ]

  -- Within one epoch and generation a later row of the port gives the same reader a floor that is
  -- no lower.
  pub later_floor :
      (o p : Option StreamMetadata)
      → floor_of ssrc fingerprint o ≡ some i
      → (existing o).srtp_key_generation ≡ some g
      → (existing p).srtp_floor_epoch ≡ (existing o).srtp_floor_epoch
      → (existing p).srtp_key_generation ≡ some g
      → VersionLe o p
      → StaysWithin max_safe_integer o p
      → (j : ℕ) × (floor_of ssrc fingerprint p ≡ some j) × (i ≤ j)
  later_floor none p e h k l v w = cc
  later_floor (some r) none e h k l v w = cc
  later_floor (some r) (some r') e h k l (inl moved) w =
      absurd (EpochLt-irrefl r.srtp_floor_epoch (rw k at moved))
  later_floor (some r) (some r') e h k l (inr (same, v)) w = later_index r r' e h l v w

pub run-StaysWithin :
    (db : DocumentClient StreamMetadata) (laws : Laws db) (bound : ℕ)
    → srtp_index_max ≤ bound
    → (port : ℕ) (calls : List Call) (t : db.Table) → All IsBounded calls
    → StaysWithin bound (db.item t port) (db.item (run db calls t) port)
run-StaysWithin db laws bound wide port calls t bounded =
    run-Keeps db laws (StaysWithin bound) (λ o w. w) port (λ o p q h k w. k (h w)) calls
      (All-mono IsBounded (λ c. WriteKeeps (StaysWithin bound) port (command c))
        (command-StaysWithin bound wide port) calls bounded)
      t
