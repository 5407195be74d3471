-- ===== src/HelperProtocol/Json.antt =====
-- JSON values, as `JSON.parse` gives them.
use video_thingy_rocks.Common.{
  ℕ, max_safe_integer, String, Bool, false, ◌&&◌, Option, none, some, leb, str_eq, if◌then◌else◌,
}

-- A double: an integer by its sign, and all that `Number.isInteger` refuses.
pub data Number : Type 0 where
  natural : ℕ → Number
  -- `negative n` is -(n + 1).
  negative : ℕ → Number
  fractional : Number

mutual
  pub data Json : Type 0 where
    null : Json
    boolean : Bool → Json
    number : Number → Json
    string : String → Json
    array : Items → Json
    object : Fields → Json

  pub data Items : Type 0 where
    nil : Items
    cons : Json → Items → Items

  pub data Fields : Type 0 where
    end : Fields
    field : String → Json → Fields → Fields

-- `value.name`; `none` is undefined.
unfoldable pub get : String → Fields → Option Json
get name end = none
get name (field k v fs) = if str_eq k name then some v else get name fs

-- `int(value, min, max)` for the ranges that the parser uses, which start at 0 or above.
abbrev pub int : ℕ → ℕ → Option Json → Option ℕ
int lo hi (some (number (natural n))) = if leb lo n && leb n hi then some n else none
int lo hi _ = none

abbrev pub uint16_max : ℕ
uint16_max = 0xffff

abbrev pub uint32_max : ℕ
uint32_max = 0xffffffff

abbrev pub port_number : Option Json → Option ℕ
port_number = int 1 65535

abbrev pub uint16 : Option Json → Option ℕ
uint16 = int 0 uint16_max

abbrev pub uint32 : Option Json → Option ℕ
uint32 = int 0 uint32_max

abbrev pub count : Option Json → Option ℕ
count = int 0 max_safe_integer

abbrev pub str : Option Json → Option String
str (some (string s)) = some s
str _ = none

-- `value === true`
abbrev pub is_true : Option Json → Bool
is_true (some (boolean b)) = b
is_true _ = false
