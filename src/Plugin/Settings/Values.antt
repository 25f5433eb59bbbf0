-- ===== src/Plugin/Settings/Values.antt =====
-- lib/plugin/register.go: the values of the settings, which are Go values of any type, and their
-- reading as numbers. A finite float is `mantissa * 2 ^ up / 2 ^ down`; -0 is 0.
use polarix.Prelude.{
  ℕ, zero, suc, ◌-◌, ◌*◌, ◌/◌, ◌%◌, ◌^◌, Bool, ◌&&◌, ◌||◌, Option, none, some, ltb, ◌==◌,
  if◌then◌else◌, Text, ℤ, pos, negsuc, sub_ℕ, ltb_ℤ, leb_ℤ, int64_top, wrap64,
}

pub data Float : Type 0 where
  nan : Float
  infinite : Bool → Float
  finite : ℤ → ℕ → ℕ → Float

-- The sized integer types but int, which is a 64-bit number.
pub data IntKind : Type 0 where
  int8 int16 int32 int64 uint uint8 uint16 uint32 uint64 : IntKind

pub data Value : Type 0 where
  flag : Bool → Value
  text : Text → Value
  int : ℤ → Value
  sized : IntKind → ℤ → Value
  float64 : Float → Value
  float32 : Float → Value
  -- nil, and what is not of these types
  other : Value

-- The number is cut towards 0.
abbrev pub trunc : ℤ → ℕ → ℕ → ℤ
trunc (pos n) up down = pos (n * 2 ^ up / 2 ^ down)
trunc (negsuc n) up down = sub_ℕ 0 (suc n * 2 ^ up / 2 ^ down)

abbrev pub magnitude : ℤ → ℕ
magnitude (pos n) = n
magnitude (negsuc n) = suc n

abbrev pub is_whole : ℤ → ℕ → ℕ → Bool
is_whole z up down = (magnitude z * 2 ^ up % 2 ^ down) == 0

-- `int64(int(number)) == number`, with the 64-bit int
abbrev pub kept_as_int : ℤ → Bool
kept_as_int z = leb_ℤ z (wrap64 z) && leb_ℤ (wrap64 z) z

abbrev pub int_below_top : ℤ → Option ℤ
int_below_top z = if leb_ℤ z (pos (int64_top - 1)) then some z else none

-- configInt, with the 64-bit int
unfoldable pub config_int : Value → Option ℤ
config_int (int z) = some z
config_int (sized int64 z) = if kept_as_int z then some z else none
config_int (sized uint z) = int_below_top z
config_int (sized uint32 z) = int_below_top z
config_int (sized uint64 z) = int_below_top z
config_int (sized k z) = some z
config_int (float64 (finite m up down)) =
    let z = trunc m up down in
    if is_whole m up down
      && (leb_ℤ (negsuc (int64_top - 1)) z && ltb_ℤ z (pos int64_top) && kept_as_int z)
    then some z
    else none
config_int _ = none

-- The number of binary digits, with a round of fuel for each.
abbrev pub bit_length : ℕ → ℕ → ℕ
bit_length zero n = 0
bit_length (suc fuel) n = let rest = bit_length fuel (n / 2) in if n == 0 then 0 else suc rest

-- A quotient by 2 ^ e is rounded to the nearest, in the middle to the even one.
abbrev pub round_even : ℕ → ℕ → ℕ
round_even n e =
    let q = n / 2 ^ e in
    let twice = 2 * (n % 2 ^ e) in
    if ltb (2 ^ e) twice || ((twice == 2 ^ e) && (q % 2 == 1)) then suc q else q

-- The conversion of an integer to a float64: 53 binary digits are kept.
unfoldable pub to_float64 : ℤ → Float
to_float64 z =
    let e = bit_length 65 (magnitude z) - 53 in
    let n = round_even (magnitude z) e in
    elim z [ pos _ ↦ finite (pos n) e 0 | negsuc _ ↦ finite (sub_ℕ 0 n) e 0 ]

abbrev pub when_finite : Float → Option Float
when_finite (finite m up down) = some (finite m up down)
when_finite _ = none

-- configFloat
unfoldable pub config_float : Value → Option Float
unfolding to_float64
config_float (float64 x) = when_finite x
config_float (float32 x) = when_finite x
config_float (int z) = when_finite (to_float64 z)
config_float (sized k z) = when_finite (to_float64 z)
config_float _ = none
