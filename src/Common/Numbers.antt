-- ===== src/Common/Numbers.antt =====
-- The numeric limits that several components share.
use Prim.Native.Nat.{ℕ, ◌-◌, ◌^◌}

-- `Number.MAX_SAFE_INTEGER`
abbrev pub max_safe_integer : ℕ
max_safe_integer = 2 ^ 53 - 1

-- A packet index is a 32-bit rollover counter and a 16-bit sequence number.
abbrev pub srtp_index_max : ℕ
srtp_index_max = 2 ^ 48 - 1
