-- ===== src/Plugin/Settings/Numbers.antt =====
-- Which values are taken for an int.
use polarix.Prelude.{
  ℕ, zero, suc, ◌-◌, ◌*◌, ◌/◌, ◌%◌, ◌^◌, ◌≤◌, ◌<◌, ◌≡◌, refl, sym, ap, subst, ◌∙◌, ◌≢◌, ◌↔◌, Bool,
  true, false, ◌&&◌, none, some, arith, ◌==◌, if◌then◌else◌, ℤ, pos, negsuc, pos_part, neg_part,
  sub_ℕ, ltb_ℤ, leb_ℤ, int64_top,
}
use polarix.Plugin.Settings.Values.{
  IntKind, Value, config_int, finite, flag, float32, float64, infinite, int, int16, int32, int64,
  int8, int_below_top, kept_as_int, nan, other, sized, text, uint, uint16, uint32, uint64, uint8,
}
use native.Mathlib.Nat.{
  zero-mul, mod-add-div, mul-div_cancel, mul-mod_left, mul_comm, pow-le-pow_right,
}

abbrev pub IsInt64 : ℤ → Type 0
IsInt64 z = (pos_part z < int64_top) × (neg_part z ≤ int64_top)

-- The least and the greatest value of a type: minus the one and just above the other.
abbrev pub kind_bounds : IntKind → ℕ × ℕ
kind_bounds int8 = (2 ^ 7, 2 ^ 7)
kind_bounds int16 = (2 ^ 15, 2 ^ 15)
kind_bounds int32 = (2 ^ 31, 2 ^ 31)
kind_bounds int64 = (2 ^ 63, 2 ^ 63)
kind_bounds uint = (0, 2 ^ 64)
kind_bounds uint8 = (0, 2 ^ 8)
kind_bounds uint16 = (0, 2 ^ 16)
kind_bounds uint32 = (0, 2 ^ 32)
kind_bounds uint64 = (0, 2 ^ 64)

-- A value that Go's type can hold.
abbrev pub IsHeld : Value → Type 0
IsHeld (int z) = IsInt64 z
IsHeld (sized k z) = (neg_part z ≤ (kind_bounds k).0) × (pos_part z < (kind_bounds k).1)
IsHeld _ = Unit

-- The value is the number: for a float, exactly.
abbrev pub IsNumber : Value → ℤ → Type 0
IsNumber (int y) z = y ≡ z
IsNumber (sized k y) z = y ≡ z
IsNumber (float64 (finite m up down)) z =
    (pos_part z * 2 ^ down ≡ pos_part m * 2 ^ up) × (neg_part z * 2 ^ down ≡ neg_part m * 2 ^ up)
IsNumber _ z = ⊥

power_pos : (n : ℕ) → 0 < 2 ^ n
power_pos n = pow-le-pow_right (ground arith) {i = 0} {j = n} (ground arith)

whole_out : (x d q : ℕ) → 0 < d → x % d ≡ 0 → x / d ≡ q → q * d ≡ x
whole_out x d q p e f = ground (arith, mod-add-div x d, mul_comm d q, e, f)

whole_in : (x d q : ℕ) → 0 < d → q * d ≡ x → (x % d ≡ 0) × (x / d ≡ q)
whole_in x d q p e = (
  ap (λ (y : ℕ). y % d) (sym e) ∙ mul-mod_left q d,
  ap (λ (y : ℕ). y / d) (sym e) ∙ mul-div_cancel q p,
)

guarded :
    (t : Bool) (y z : ℤ)
    → (t ≡ true → IsInt64 y)
    → (IsInt64 y → t ≡ true)
    → ((if t then some y else none) ≡ some z) ↔ ((y ≡ z) × IsInt64 z)
guarded true y z f g = (
  λ e. let is_z : y ≡ z = cc in (is_z, subst IsInt64 is_z (f refl)),
  λ (e, _). ap (λ (x : ℤ). some x) e,
)
guarded false y z f g = (
  λ e. let clash : none ≡ some z = e in cc,
  λ (e, h). let clash : false ≡ true = g (subst IsInt64 (sym e) h) in cc,
)

below_top : (y z : ℤ) → neg_part y ≤ 0 → (int_below_top y ≡ some z) ↔ ((y ≡ z) × IsInt64 z)
below_top y z h = guarded _ y z (λ e. ground (arith, e, h)) (λ e. ground (arith, e))

kept_iff : (y : ℤ) → IsInt64 y → kept_as_int y ≡ true
kept_iff (pos n) h = ground (arith, h)
kept_iff (negsuc n) h = ground (arith, h)

in_range : ℤ → Bool
in_range y = leb_ℤ (negsuc (int64_top - 1)) y && ltb_ℤ y (pos int64_top) && kept_as_int y

in_range_iff : (y : ℤ) → (in_range y ≡ true) ↔ IsInt64 y
unfolding in_range
in_range_iff (pos n) = (λ e. ground (arith, e), λ h. ground (arith, h))
in_range_iff (negsuc n) = (λ e. ground (arith, e), λ h. ground (arith, h))

float_guarded :
    (whole : Bool) (y z : ℤ)
    → ((if whole && in_range y then some y else none) ≡ some z)
      ↔ ((whole ≡ true) × (y ≡ z) × IsInt64 z)
float_guarded true y z =
    let (there, back) = guarded (in_range y) y z (in_range_iff y).0 (in_range_iff y).1 in
    (λ e. let (is_z, h) = there e in (refl, is_z, h), λ (t, is_z, h). back (is_z, h))
float_guarded false y z =
    (λ e. let clash : none ≡ some z = e in cc, λ h. let clash : false ≡ true = h.0 in cc)

-- A float is x / d or its negation.
module _ (x d : ℕ) (p : 0 < d) where
  quotient : (q : ℕ) → (((x % d == 0) ≡ true) × (x / d ≡ q)) ↔ (q * d ≡ x)
  quotient q = (
    λ (e, f). whole_out x d q p (ground (arith, e)) f,
    λ e. let (f, g) = whole_in x d q p e in (ground (arith, f), g),
  )

  no_product : (n : ℕ) → suc n * d ≢ 0
  no_product n e = ground (arith, p, e)

  quotient_pos :
      (z : ℤ)
      → (((x % d == 0) ≡ true) × (pos (x / d) ≡ z)) ↔ ((pos_part z * d ≡ x) × (neg_part z * d ≡ 0))
  quotient_pos (pos n) = (
    λ (e, f). ((quotient n).0 (e, cc), ground arith),
    λ h. let (e, f) = (quotient n).1 h.0 in (e, ap (λ (k : ℕ). pos k) f),
  )
  quotient_pos (negsuc n) =
      (λ (e, f). let clash : pos (x / d) ≡ negsuc n = f in cc, λ h. absurd (no_product n h.1))

  quotient_neg :
      (z : ℤ)
      → (((x % d == 0) ≡ true) × (sub_ℕ 0 (x / d) ≡ z))
        ↔ ((pos_part z * d ≡ 0) × (neg_part z * d ≡ x))
  quotient_neg (pos zero) = (
    λ (e, f). (ground arith, (quotient 0).0 (e, ground (arith, f))),
    λ h. let (e, f) = (quotient 0).1 h.1 in (e, ground (arith, f)),
  )
  quotient_neg (pos (suc n)) =
      (λ (e, f). absurd (ground (arith, f)), λ h. absurd (no_product n h.0))
  quotient_neg (negsuc n) = (
    λ (e, f). (ground arith, (quotient (suc n)).0 (e, ground (arith, f))),
    λ h. let (e, f) = (quotient (suc n)).1 h.1 in (e, ground (arith, f)),
  )

regroup : {P Q R S T U : Type 0} → (P ↔ (Q × R × S)) → ((Q × R) ↔ (T × U)) → P ↔ ((T × U) × S)
regroup f g =
    (λ a. let (q, r, h) = f.0 a in (g.0 (q, r), h), λ (tu, h). let (q, r) = g.1 tu in f.1 (q, r, h))

-- For a value that its Go type can hold, configInt gives an int just when the value is exactly that
-- number, be it of an integer type or a float64, and the number is in the range of a 64-bit int; and
-- it gives that number.
pub config_int-IsNumber :
    (v : Value) (z : ℤ) → IsHeld v → (config_int v ≡ some z) ↔ (IsNumber v z × IsInt64 z)
unfolding config_int in_range
config_int-IsNumber (int y) z h = guarded true y z (λ e. h) (λ e. refl)
config_int-IsNumber (sized int64 y) z h =
    guarded (kept_as_int y) y z (λ e. (h.1, h.0)) (λ e. kept_iff y e)
config_int-IsNumber (sized uint y) z h = below_top y z h.0
config_int-IsNumber (sized uint32 y) z h = below_top y z h.0
config_int-IsNumber (sized uint64 y) z h = below_top y z h.0
config_int-IsNumber (sized int8 y) z h = guarded true y z (λ e. ground (arith, h)) (λ e. refl)
config_int-IsNumber (sized int16 y) z h = guarded true y z (λ e. ground (arith, h)) (λ e. refl)
config_int-IsNumber (sized int32 y) z h = guarded true y z (λ e. ground (arith, h)) (λ e. refl)
config_int-IsNumber (sized uint8 y) z h = guarded true y z (λ e. ground (arith, h)) (λ e. refl)
config_int-IsNumber (sized uint16 y) z h = guarded true y z (λ e. ground (arith, h)) (λ e. refl)
config_int-IsNumber (float64 (finite (pos n) up down)) z h =
    let d = 2 ^ down in
    let x = n * 2 ^ up in
    rw (zero-mul (2 ^ up))
      (regroup (float_guarded (x % d == 0) (pos (x / d)) z) (quotient_pos x d (power_pos down) z))
config_int-IsNumber (float64 (finite (negsuc n) up down)) z h =
    let d = 2 ^ down in
    let x = suc n * 2 ^ up in
    rw (zero-mul (2 ^ up)) (
      regroup (float_guarded (x % d == 0) (sub_ℕ 0 (x / d)) z)
        (quotient_neg x d (power_pos down) z))
config_int-IsNumber (float64 nan) z h =
    ((λ e. let clash : none ≡ some z = e in cc), λ e. absurd e.0)
config_int-IsNumber (float64 (infinite b)) z h =
    ((λ e. let clash : none ≡ some z = e in cc), λ e. absurd e.0)
config_int-IsNumber (float32 x) z h = ((λ e. let clash : none ≡ some z = e in cc), λ e. absurd e.0)
config_int-IsNumber (flag b) z h = ((λ e. let clash : none ≡ some z = e in cc), λ e. absurd e.0)
config_int-IsNumber (text t) z h = ((λ e. let clash : none ≡ some z = e in cc), λ e. absurd e.0)
config_int-IsNumber other z h = ((λ e. let clash : none ≡ some z = e in cc), λ e. absurd e.0)
