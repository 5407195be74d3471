-- ===== src/HelperPort/Index.antt =====
-- The index tracker against the true indexes of the packets.
use video_thingy_rocks.Common.{
  ℕ, ◌+◌, ◌/◌, ◌%◌, ◌<◌, ◌≡◌, refl, ◌∙◌, ap, Bool, true, false, not, Option, none, some, List, [],
  ◌∷◌, ltb, if◌then◌else◌, arith, inl, inr, sym, subst, max, map, Bool-cases,
}
use video_thingy_rocks.HelperPort.{
  seq_midpoint, seq_space, index_space, estimated_index, Counters, advance, accept, index_of,
  record_seq, record_authenticated, record_all, not_above, raised, local_of,
}

pub estimated_index-true :
    (l t : ℕ)
    → t < l + seq_midpoint
    → l < t + seq_midpoint
    → t < index_space
    → estimated_index l (t % seq_space) ≡ t
unfolding estimated_index
estimated_index-true l t h k b = ground arith

-- What a packet's true index makes of it, and what is the highest accepted afterwards.
abbrev pub is_above : Option ℕ → ℕ → Bool
is_above none t = true
is_above (some floor) t = ltb floor t

abbrev pub highest_above : Option ℕ → Option ℕ → List (ℕ × ℕ) → Option ℕ
highest_above floor h [] = h
highest_above floor h ((now, t) ∷ packets) =
    highest_above floor (if is_above floor t then raised h t else h) packets

-- Every packet is less than half of the sequence numbers away from the highest before it.
abbrev pub InWindow : ℕ → List (ℕ × ℕ) → Type 0
InWindow m [] = Unit
InWindow m ((now, t) ∷ packets) =
    (t < m + seq_midpoint) × (m < t + seq_midpoint) × (t < index_space) × InWindow (max m t) packets

abbrev pub highest : ℕ → List (ℕ × ℕ) → ℕ
highest m [] = m
highest m ((now, t) ∷ packets) = highest (max m t) packets

-- What the helper sees of a packet.
abbrev pub seen : ℕ × ℕ → ℕ × Option ℕ
seen (now, t) = (now, some (t % seq_space))

pub record Tracks (c : Counters) (m : ℕ) : Type 0 where
  pub roc : c.roc ≡ m / seq_space
  pub highest_seq : c.highest_seq ≡ some (m % seq_space)

not_above-is_above : (floor : Option ℕ) (t : ℕ) → not (not_above floor t) ≡ is_above floor t
not_above-is_above none t = refl
not_above-is_above (some floor) t = ground arith

-- A packet that is estimated right.
module _ (floor : Option ℕ) (now t : ℕ) (c : Counters) where
  record Judged (m : ℕ) (r : Bool × Counters) : Type 0 where
    verdict : r.0 ≡ is_above floor t
    tracks : Tracks r.1 m
    highest_index :
        r.1.highest_index ≡ (if is_above floor t then raised c.highest_index t else c.highest_index)

  local_of-Tracks : (m : ℕ) → Tracks c m → local_of c.roc c.highest_seq (t % seq_space) ≡ m
  local_of-Tracks m k = rw (k.roc, k.highest_seq) (omega arith)

  advance-Tracks : (m : ℕ) → Tracks c m → Tracks (advance m t (t % seq_space) c) (max m t)
  unfolding advance
  advance-Tracks m k = elim (Bool-cases (ltb m t)) [
    | inl above ↦ rw above (record {
      roc = ap (λ x. x / seq_space) (ground arith);
      highest_seq = ap (λ x. some (x % seq_space)) (ground arith);
    })
    | inr below ↦
        rw (below, k.highest_seq)
          (record {
            roc = k.roc ∙ ap (λ x. x / seq_space) (ground arith);
            highest_seq = ap (λ x. some (x % seq_space)) (ground arith);
          })
  ]

  advance-highest_index : (m : ℕ) → (advance m t (t % seq_space) c).highest_index ≡ c.highest_index
  unfolding advance
  advance-highest_index m = ground arith

  index_of-Tracks :
      (m : ℕ)
      → Tracks c m
      → t < m + seq_midpoint
      → m < t + seq_midpoint
      → t < index_space
      → index_of c (t % seq_space) ≡ t
  unfolding index_of
  index_of-Tracks m k h g b = rw (local_of-Tracks m k) (estimated_index-true m t h g b)

  -- A packet whose index is estimated right is judged by that index.
  record_seq-Judged :
      (m : ℕ)
      → local_of c.roc c.highest_seq (t % seq_space) ≡ m
      → index_of c (t % seq_space) ≡ t
      → Tracks (advance m t (t % seq_space) c) (max m t)
      → Judged (max m t) (record_seq floor now (t % seq_space) c)
  unfolding record_seq accept
  record_seq-Judged m at_m index k = elim (Bool-cases (not_above floor t)) [
    | inl stale ↦
        rw (index, at_m, stale)
          (let refused = sym (not_above-is_above floor t) ∙ ap not stale in
            record {
              verdict = sym refused;
              tracks = record { roc = k.roc; highest_seq = k.highest_seq };
              highest_index = rw refused (advance-highest_index m);
            })
    | inr fresh ↦
        rw (index, at_m, fresh)
          (let admitted = sym (not_above-is_above floor t) ∙ ap not fresh in
            record {
              verdict = sym admitted;
              tracks = record { roc = k.roc; highest_seq = k.highest_seq };
              highest_index = rw admitted (ap (λ h. raised h t) (advance-highest_index m));
            })
  ]

  next_packet-Judged :
      (m : ℕ)
      → Tracks c m
      → t < m + seq_midpoint
      → m < t + seq_midpoint
      → t < index_space
      → Judged (max m t) (record_seq floor now (t % seq_space) c)
  next_packet-Judged m k h g b =
      record_seq-Judged m (local_of-Tracks m k) (index_of-Tracks m k h g b) (advance-Tracks m k)

  local_of-first :
      c.highest_seq ≡ none
      → c.roc ≡ t / seq_space
      → local_of c.roc c.highest_seq (t % seq_space) ≡ t
  local_of-first fresh at = rw (fresh, at) (omega arith)

  advance-first :
      c.highest_seq ≡ none
      → c.roc ≡ t / seq_space
      → Tracks (advance t t (t % seq_space) c) (max t t)
  unfolding advance
  advance-first fresh at =
      rw (lt_irrefl_test, fresh)
        (record {
          roc = at ∙ ap (λ x. x / seq_space) (ground arith);
          highest_seq = ap (λ x. some (x % seq_space)) (ground arith);
        })
    where
      lt_irrefl_test : ltb t t ≡ false
      lt_irrefl_test = ground arith

  first_packet-Judged :
      c.highest_seq ≡ none
      → c.roc ≡ t / seq_space
      → t < index_space
      → Judged (max t t) (record_seq floor now (t % seq_space) c)
  unfolding index_of
  first_packet-Judged fresh at b =
      record_seq-Judged t (local_of-first fresh at)
        (rw (local_of-first fresh at) (estimated_index-true t t (omega arith) (omega arith) b))
        (advance-first fresh at)

-- Every verdict is by the true index, and the counters end with the highest of the true indexes and
-- the highest that was accepted.
pub record JudgedAll (floor h : Option ℕ) (m : ℕ) (packets : List (ℕ × ℕ))
    (r : List Bool × Counters) : Type 0 where
  pub verdicts : r.0 ≡ map (λ p. is_above floor p.1) packets
  pub tracks : Tracks r.1 (highest m packets)
  pub highest_index : r.1.highest_index ≡ highest_above floor h packets

module _ (floor : Option ℕ) where
  record_all-next :
      (packets : List (ℕ × ℕ)) (m : ℕ) (c : Counters)
      → Tracks c m
      → InWindow m packets
      → JudgedAll floor c.highest_index m packets (record_all floor (map seen packets) c)
  unfolding record_all record_authenticated
  record_all-next [] m c k w = record { verdicts = refl; tracks = k; highest_index = refl }
  record_all-next ((now, t) ∷ packets) m c k (h, g, b, w) =
      let j = next_packet-Judged floor now t c m k h g b in
      let later =
        record_all-next packets (max m t) (record_seq floor now (t % seq_space) c).1 j.tracks w in
      record {
        verdicts = rw (j.verdict, later.verdicts) refl;
        tracks = later.tracks;
        highest_index =
            later.highest_index ∙ ap (λ x. highest_above floor x packets) j.highest_index;
      }

  -- If the key's candidate is the rollover counter of the first packet, and every later packet is
  -- less than half of the sequence numbers away from the highest one before it, then every packet is
  -- accepted exactly if its true index is above the floor, in whatever order they come, and the
  -- counters end with the highest index that came and the highest that was accepted.
  pub record_all-JudgedAll :
      (now t : ℕ) (packets : List (ℕ × ℕ)) (c : Counters)
      → c.highest_seq ≡ none
      → c.roc ≡ t / seq_space
      → t < index_space
      → InWindow t packets
      → JudgedAll floor c.highest_index t
          ((now, t) ∷ packets)
          (record_all floor (map seen ((now, t) ∷ packets)) c)
  unfolding record_all record_authenticated
  record_all-JudgedAll now t packets c fresh at b w =
      let j = first_packet-Judged floor now t c fresh at b in
      let later =
        record_all-next packets (max t t) (record_seq floor now (t % seq_space) c).1 j.tracks
          (subst (λ x. InWindow x packets) (self t) w) in
      record {
        verdicts = rw (j.verdict, later.verdicts) refl;
        tracks = later.tracks;
        highest_index =
            later.highest_index ∙ ap (λ x. highest_above floor x packets) j.highest_index;
      }
    where
      self : (x : ℕ) → x ≡ max x x
      self x = ground arith
