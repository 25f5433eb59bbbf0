-- ===== src/Prelude/Int.antt =====
-- Signed integers over the native numbers, Go's 64-bit `int`, and `strconv`.
use Prim.Native.Nat.{ℕ, zero, suc, ◌+◌, ◌-◌, ◌*◌, ◌/◌, ◌%◌, ◌^◌}
use mathlib.Core.Bool.{Bool, ◌&&◌}
use mathlib.Core.Option.{Option, none, some}
use mathlib.Core.List.{[], ◌∷◌, ◌++◌}
use polarix.Prelude.Tests.{ltb, leb, ◌==◌, if◌then◌else◌}
use polarix.Prelude.Strings.{Text}

-- `negsuc n` is -(n + 1).
pub data ℤ : Type 0 where
  pos : ℕ → ℤ
  negsuc : ℕ → ℤ

abbrev pub pos_part : ℤ → ℕ
pos_part (pos n) = n
pos_part (negsuc n) = 0

abbrev pub neg_part : ℤ → ℕ
neg_part (pos n) = 0
neg_part (negsuc n) = suc n

-- a - b, as an integer.
abbrev pub sub_ℕ : ℕ → ℕ → ℤ
sub_ℕ a b = if leb b a then pos (a - b) else negsuc (b - a - 1)

abbrev pub ltb_ℤ : ℤ → ℤ → Bool
ltb_ℤ a b = ltb (pos_part a + neg_part b) (pos_part b + neg_part a)

abbrev pub leb_ℤ : ℤ → ℤ → Bool
leb_ℤ a b = leb (pos_part a + neg_part b) (pos_part b + neg_part a)

abbrev pub int64_top : ℕ
int64_top = 2 ^ 63

-- Two's complement: a sum of two ints is in this range of at most twice an int.
abbrev pub wrap64 : ℤ → ℤ
wrap64 (pos n) = if ltb n int64_top then pos n else sub_ℕ n (2 ^ 64)
wrap64 (negsuc n) = if ltb n int64_top then negsuc n else pos (2 ^ 64 - n - 1)

abbrev pub digits_value : ℕ → Text → Option ℕ
digits_value acc [] = some acc
digits_value acc (c ∷ s) =
    let rest = digits_value (acc * 10 + (c - 48)) s in if leb 48 c && leb c 57 then rest else none

-- The digits of a number, without a sign: at least one.
abbrev pub unsigned : Text → Option ℕ
unsigned [] = none
unsigned (c ∷ s) = digits_value 0 (c ∷ s)

-- The error that strconv.Atoi reports, with the value that it returns beside it.
pub data AtoiResult : Type 0 where
  parsed : ℤ → AtoiResult
  syntax_error : AtoiResult
  range_error : ℤ → AtoiResult

-- A number that is too large and has another character after its digits is a syntax error here, where
-- strconv may stop at the digits with a range error: an error in both.
abbrev pub atoi_pos : Option ℕ → AtoiResult
atoi_pos none = syntax_error
atoi_pos (some n) = if ltb n int64_top then parsed (pos n) else range_error (pos (int64_top - 1))

abbrev pub atoi_neg : Option ℕ → AtoiResult
atoi_neg none = syntax_error
atoi_neg (some zero) = parsed (pos 0)
atoi_neg (some (suc n)) =
    if ltb n int64_top then parsed (negsuc n) else range_error (negsuc (int64_top - 1))

-- strconv.Atoi
unfoldable pub atoi : Text → AtoiResult
atoi [] = syntax_error
atoi (c ∷ s) =
    if c == b'+'
    then atoi_pos (unsigned s)
    else if c == b'-'
    then atoi_neg (unsigned s)
    else atoi_pos (unsigned (c ∷ s))

-- The decimal digits of a number, with a round of fuel for each digit.
unfoldable pub itoa_from : ℕ → ℕ → Text
itoa_from zero n = []
itoa_from (suc f) n =
    let front = itoa_from f (n / 10) in
    if ltb n 10 then (48 + n) ∷ [] else front ++ (48 + n % 10) ∷ []

-- strconv.Itoa of a number that is not negative: twenty digits hold every 64-bit number.
unfoldable pub itoa : ℕ → Text
unfolding itoa_from
itoa n = itoa_from 20 n
