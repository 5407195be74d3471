-- ===== src/HelperPort.antt =====
-- backend/src/srtp_port.py: which packets of an SRTP port are accepted. A packet that libsrtp
-- authenticated shows its 16-bit sequence number; the rest of its index is an estimate.
pub mod Candidates
pub mod Index
pub mod Session
pub mod Handlers
pub mod Keeps
pub mod Climb
pub mod FloorAgain
pub mod Reached
pub mod Once
pub mod Recorded
mod Tests
use video_thingy_rocks.Common.{
  ℕ, ◌+◌, ◌-◌, ◌*◌, ◌/◌, ◌%◌, ◌^◌, Bool, true, false, not, ◌&&◌, ◌||◌, Option, none, some, ltb, leb,
  ◌==◌, if◌then◌else◌, List, [], ◌∷◌,
}
use video_thingy_rocks.HelperPort.Candidates.{Search, roc_modulo, new_search, next_candidate}

abbrev pub seq_midpoint : ℕ
seq_midpoint = 32768

abbrev pub seq_space : ℕ
seq_space = 65536

-- `INDEX_MAX + 1`
abbrev pub index_space : ℕ
index_space = 281474976710656

-- A rollover counter and a sequence number side by side.
abbrev pub join : ℕ → ℕ → ℕ
join roc seq = roc * seq_space + seq

unfoldable pub estimated_index : ℕ → ℕ → ℕ
estimated_index local_index s =
    let local_roc = local_index / seq_space in
    let local_seq = local_index % seq_space in
    if leb local_index seq_midpoint
    then s
    else if ltb local_seq seq_midpoint
    then if ltb (local_seq + seq_midpoint) s
      then join ((local_roc + roc_modulo - 1) % roc_modulo) s
      else join local_roc s
    else if ltb s (local_seq - seq_midpoint)
    then join ((local_roc + 1) % roc_modulo) s
    else join local_roc s

pub record Counters : Type 0 where
  pub inputs : ℕ
  pub input_bytes : ℕ
  pub authenticated : ℕ
  pub highest_seq : Option ℕ
  pub highest_index : Option ℕ
  pub stale : ℕ
  pub last_auth_ms : ℕ
  pub roc : ℕ
  pub roc_changed : Bool
  pub key_candidate : Option ℕ
  pub key_authenticated : ℕ
  pub foreign_ssrc : ℕ

abbrev pub new_counters : Counters
new_counters = record {
  inputs = 0;
  input_bytes = 0;
  authenticated = 0;
  highest_seq = none;
  highest_index = none;
  stale = 0;
  last_auth_ms = 0;
  roc = 0;
  roc_changed = false;
  key_candidate = none;
  key_authenticated = 0;
  foreign_ssrc = 0;
}

-- The tracker's place before the packet: the packet's own, if it is the first under its key.
abbrev pub local_of : ℕ → Option ℕ → ℕ → ℕ
local_of roc none seq = join roc seq
local_of roc (some highest_seq) seq = join roc highest_seq

abbrev first_seq : Option ℕ → ℕ → ℕ
first_seq none seq = seq
first_seq (some highest_seq) seq = highest_seq

-- `_record_authenticated`, as far as the tracker.
unfoldable pub advance : ℕ → ℕ → ℕ → Counters → Counters
advance local_index index seq c =
    if ltb local_index index
    then record c {
      roc = index / seq_space;
      highest_seq = some (index % seq_space);
      roc_changed = c.roc_changed || not (index / seq_space == local_index / seq_space);
    }
    else record c { highest_seq = some (first_seq c.highest_seq seq) }

abbrev pub not_above : Option ℕ → ℕ → Bool
not_above none index = false
not_above (some floor) index = leb index floor

abbrev pub raised : Option ℕ → ℕ → Option ℕ
raised none index = some index
raised (some highest) index = if ltb highest index then some index else some highest

unfoldable pub accept : ℕ → ℕ → Counters → Counters
accept now index c = record c {
  authenticated = c.authenticated + 1;
  key_authenticated = c.key_authenticated + 1;
  last_auth_ms = now;
  highest_index = raised c.highest_index index;
}

-- The index that the tracker estimates for a sequence number.
unfoldable pub index_of : Counters → ℕ → ℕ
unfolding estimated_index
index_of c seq = estimated_index (local_of c.roc c.highest_seq seq) seq

-- `_record_authenticated` for a packet that carries a sequence number.
unfoldable pub record_seq : Option ℕ → ℕ → ℕ → Counters → Bool × Counters
unfolding index_of accept
record_seq floor now seq c =
    let index = index_of c seq in
    let tracked = advance (local_of c.roc c.highest_seq seq) index seq c in
    if not_above floor index
    then (false, record tracked { stale = tracked.stale + 1 })
    else (true, accept now index tracked)

-- `_record_authenticated`
unfoldable pub record_authenticated : Option ℕ → ℕ → Option ℕ → Counters → Bool × Counters
unfolding record_seq
record_authenticated floor now none c = (false, c)
record_authenticated floor now (some seq) c = record_seq floor now seq c

-- The packets of one session, each with the time it came.
unfoldable pub record_all : Option ℕ → List (ℕ × Option ℕ) → Counters → List Bool × Counters
record_all floor [] c = ([], c)
record_all floor ((now, seq) ∷ packets) c =
    let (accepted, c₁) = record_authenticated floor now seq c in
    let (later, c₂) = record_all floor packets c₁ in (accepted ∷ later, c₂)
