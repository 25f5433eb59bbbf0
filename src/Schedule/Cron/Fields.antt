-- ===== src/Schedule/Cron/Fields.antt =====
-- What a field of a cron expression denotes.
use polarix.Prelude.{
  ℕ, zero, suc, ◌≤◌, ◌<◌, ◌≡◌, refl, ◌≢◌, ◌⊎◌, inl, inr, Option, none, some, [], ◌∷◌, arith, ◌==◌,
  Bool-cases, Text, str, same, is_empty, trim_space, split2, contains_byte, ℤ, pos, negsuc,
  int64_top, unsigned, AtoiResult, parsed, syntax_error, range_error, atoi_pos, atoi_neg, atoi,
}
use polarix.Schedule.Cron.{
  PartError, Range, Result, bad_range, bad_value, check_ends, err, ok, or_else, out_of_fuel,
  parse_ends, parse_part, positive_step, split_step, ◌>>=◌,
}

-- The steps of a chain that came to a value.
pub bind_inversion :
    {E X Y : Type 0} (m : Result E X) (next : X → Result E Y) {y : Y}
    → (m >>= next) ≡ ok y
    → (x : X) × (m ≡ ok x) × (next x ≡ ok y)
bind_inversion (err _) next got = cc
bind_inversion (ok x) next got = (x, refl, got)

atoi_pos-lt : (o : Option ℕ) (n : ℕ) → atoi_pos o ≡ parsed (pos n) → n < int64_top
atoi_pos-lt none n h = cc
atoi_pos-lt (some m) n h = ground arith

atoi_neg-lt : (o : Option ℕ) (n : ℕ) → atoi_neg o ≡ parsed (pos n) → n < int64_top
atoi_neg-lt none n h = cc
atoi_neg-lt (some zero) n h = ground arith
atoi_neg-lt (some (suc m)) n h = ground arith

atoi-lt : (s : Text) (n : ℕ) → atoi s ≡ parsed (pos n) → n < int64_top
unfolding atoi
atoi-lt [] n h = cc
atoi-lt (c ∷ s) n h = elim (Bool-cases (c == b'+')) [
  | inl plus ↦ atoi_pos-lt (unsigned s) n (ground (arith, plus))
  | inr other ↦ elim (Bool-cases (c == b'-')) [
    | inl minus ↦ atoi_neg-lt (unsigned s) n (ground (arith, other, minus))
    | inr digit ↦ atoi_pos-lt (unsigned (c ∷ s)) n (ground (arith, other, digit))
  ]
]

positive_step-bounds :
    (s : Text) (step : ℕ) → positive_step (atoi s) ≡ ok step → (0 < step) × (step < int64_top)
positive_step-bounds s step h = go (atoi s) refl h
  where
    go : (r : AtoiResult) → atoi s ≡ r → positive_step r ≡ ok step → (0 < step) × (step < int64_top)
    go (parsed (pos zero)) e p = cc
    go (parsed (pos (suc n))) e p =
        let same_step : suc n ≡ step = ground arith in
        (omega arith, omega (arith, atoi-lt s (suc n) e))
    go (parsed (negsuc n)) e p = cc
    go syntax_error e p = cc
    go (range_error z) e p = cc

split_step-bounds :
    (part : Text) (r : Text × ℕ) → split_step part ≡ ok r → (0 < r.1) × (r.1 < int64_top)
unfolding split_step
split_step-bounds part r h = elim (Bool-cases (contains_byte b'/' part)) [
  | inl stepped ↦
      let (step, got, e) =
        bind_inversion (positive_step (atoi (split2 b'/' part).1)) _ (rw stepped at h) in
      let same_step : step ≡ r.1 = ground arith in
      let bounds = positive_step-bounds (split2 b'/' part).1 step got in
      (omega (arith, bounds.0), omega (arith, bounds.1))
  | inr plain ↦ ground (arith, plain)
]

-- A range as the source's test on its ends leaves it.
pub record IsRange (min max : ℕ) (r : Range) : Type 0 where
  pub first : ℕ
  pub end : ℕ
  pub start_eq : r.start ≡ pos first
  pub last_eq : r.last ≡ pos end
  pub above : min ≤ first
  pub ordered : first ≤ end
  pub below : end ≤ max
  pub positive : 0 < r.step
  pub fits : r.step < int64_top

check_ends-IsRange :
    (start last : ℤ) (step min max : ℕ) (r : Range)
    → 0 < step
    → step < int64_top
    → check_ends start last step min max ≡ ok r
    → IsRange min max r
unfolding check_ends
check_ends-IsRange (pos n) (pos m) step min max r positive fits h = record {
  first = n;
  end = m;
  start_eq = ground arith;
  last_eq = ground arith;
  above = ground arith;
  ordered = ground arith;
  below = ground arith;
  positive = ground arith;
  fits = ground arith;
}
check_ends-IsRange (pos n) (negsuc m) step min max r positive fits h = ground arith
check_ends-IsRange (negsuc n) last step min max r positive fits h = ground arith

pub parse_part-IsRange :
    (part : Text) (min max : ℕ) (r : Range) → parse_part part min max ≡ ok r → IsRange min max r
unfolding parse_part
parse_part-IsRange part min max r h = elim (Bool-cases (is_empty (trim_space part))) [
  | inl none_left ↦ ground (arith, none_left)
  | inr some_left ↦
      let (stepped, got, more) =
        bind_inversion (split_step (trim_space part)) _ (rw some_left at h) in
      let (ends, at_ends, e) = bind_inversion (parse_ends stepped.0 min max) _ more in
      check_ends-IsRange ends.0 ends.1 stepped.1 min max r
        (split_step-bounds (trim_space part) stepped got).0
        (split_step-bounds (trim_space part) stepped got).1 e
]

pub Result-cases :
    {E A : Type 0} (r : Result E A) → ((a : A) × (r ≡ ok a)) ⊎ ((e : E) × (r ≡ err e))
Result-cases (ok a) = inl (a, refl)
Result-cases (err e) = inr (e, refl)

or_else-fuel : (r : AtoiResult) (e : PartError) → e ≢ out_of_fuel → or_else r e ≢ err out_of_fuel
or_else-fuel (parsed z) e ne h = cc
or_else-fuel syntax_error e ne h = ground arith
or_else-fuel (range_error z) e ne h = ground arith

positive_step-fuel : (r : AtoiResult) → positive_step r ≢ err out_of_fuel
positive_step-fuel (parsed (pos zero)) h = cc
positive_step-fuel (parsed (pos (suc n))) h = cc
positive_step-fuel (parsed (negsuc n)) h = cc
positive_step-fuel syntax_error h = cc
positive_step-fuel (range_error z) h = cc

>>=-fuel :
    {A B : Type 0} (m : Result PartError A) (f : A → Result PartError B)
    → m ≢ err out_of_fuel
    → ((a : A) → f a ≢ err out_of_fuel)
    → (m >>= f) ≢ err out_of_fuel
>>=-fuel (ok a) f hm hf = hf a
>>=-fuel (err e) f hm hf = λ h. hm (ground arith)

parse_ends-fuel : (s : Text) (min max : ℕ) → parse_ends s min max ≢ err out_of_fuel
unfolding parse_ends
parse_ends-fuel s min max = elim (Bool-cases (same s (str "*"))) [
  | inl star ↦ rw star (λ h. cc)
  | inr other ↦ rw other (elim (Bool-cases (contains_byte b'-' s)) [
    | inl range ↦ rw range (
        >>=-fuel (or_else (atoi (split2 b'-' s).0) bad_range) _ (or_else-fuel _ bad_range (λ e. cc))
          (λ n.
            >>=-fuel (or_else (atoi (split2 b'-' s).1) bad_range) _
              (or_else-fuel _ bad_range (λ e. cc)) (λ m h. cc)))
    | inr number ↦
        rw number
          (>>=-fuel (or_else (atoi s) bad_value) _ (or_else-fuel _ bad_value (λ e. cc)) (λ n h. cc))
  ])
]

split_step-fuel : (s : Text) → split_step s ≢ err out_of_fuel
unfolding split_step
split_step-fuel s = elim (Bool-cases (contains_byte b'/' s)) [
  | inl stepped ↦
      rw stepped
        (>>=-fuel (positive_step (atoi (split2 b'/' s).1)) _ (positive_step-fuel _) (λ n h. cc))
  | inr plain ↦ rw plain (λ h. cc)
]

check_ends-fuel :
    (start last : ℤ) (step min max : ℕ) → check_ends start last step min max ≢ err out_of_fuel
unfolding check_ends
check_ends-fuel start last step min max h = ground arith

-- Only the loop can run out of fuel.
pub parse_part-fuel : (part : Text) (min max : ℕ) → parse_part part min max ≢ err out_of_fuel
unfolding parse_part
parse_part-fuel part min max = elim (Bool-cases (is_empty (trim_space part))) [
  | inl none_left ↦ rw none_left (λ h. cc)
  | inr some_left ↦ rw some_left (
      >>=-fuel (split_step (trim_space part)) _ (split_step-fuel (trim_space part)) (λ stepped.
        >>=-fuel (parse_ends stepped.0 min max) _ (parse_ends-fuel stepped.0 min max)
          (λ ends. check_ends-fuel ends.0 ends.1 stepped.1 min max)))
]
