-- ===== src/Schedule/Cron/Tests.antt =====
-- The theorems on cron fields at concrete fields, and runs that follow the source.
use polarix.Schedule.Cron.Match.{FieldDenotes, match-parse_cron}
use polarix.Prelude.{
  ℕ, zero, suc, ◌≤◌, ◌≡◌, refl, ◌≢◌, ◌↔◌, inl, inr, true, List, [], ◌∷◌, arith, All, Any, In, Text,
  str, same, trim_space, fields, split, split2, contains_byte, ℤ, pos, negsuc, atoi,
}
use polarix.Schedule.Cron.{
  Clock, CronExpr, Range, err, expand, field_count, match, ok, out_of_fuel, parse_cron, parse_field,
  parse_part,
}
use polarix.Schedule.Cron.Values.{
  Denotes, InRange, IsSmallStep, expand-below, parse_field-bounds, parse_field-eq, parse_field-fuel,
}

quarters : parse_field (str "0-59/15,7") 0 59 ≡ ok (pos 0 ∷ pos 15 ∷ pos 30 ∷ pos 45 ∷ pos 7 ∷ [])
unfolding parse_field split trim_space atoi contains_byte split2 same
quarters = refl

quarters-IsSmallStep : All (IsSmallStep 0 59) (split b',' (str "0-59/15,7"))
unfolding parse_part split trim_space atoi contains_byte split2 same
quarters-IsSmallStep = (λ r h. ground arith, (λ r h. ground arith, tt))

parse_field-eq_example :
    In (pos 45) (pos 0 ∷ pos 15 ∷ pos 30 ∷ pos 45 ∷ pos 7 ∷ [])
    ↔ Any (Denotes 0 59 (pos 45)) (split b',' (str "0-59/15,7"))
parse_field-eq_example =
    parse_field-eq (str "0-59/15,7") 0 59 (pos 0 ∷ pos 15 ∷ pos 30 ∷ pos 45 ∷ pos 7 ∷ []) quarters
      quarters-IsSmallStep (pos 45)

parse_field-bounds_example : (n : ℕ) × (pos 45 ≡ pos n) × (0 ≤ n) × (n ≤ 59)
parse_field-bounds_example =
    parse_field-bounds (str "0-59/15,7") 0 59 (pos 0 ∷ pos 15 ∷ pos 30 ∷ pos 45 ∷ pos 7 ∷ [])
      quarters quarters-IsSmallStep (pos 45) (inr (inr (inr (inl refl))))

parse_field-fuel_example : parse_field (str "5-59/9223372036854775807") 0 59 ≢ err out_of_fuel
parse_field-fuel_example = parse_field-fuel (str "5-59/9223372036854775807") 0 59 (omega arith)

abbrev huge : Range
huge = record { start = pos 5; last = pos 59; step = 9223372036854775807 }

huge_part : parse_part (str "5-59/9223372036854775807") 0 59 ≡ ok huge
unfolding parse_part trim_space atoi contains_byte split2 same
huge_part = refl

expand-huge :
    expand huge
    ≡ ok (
        pos 5
        ∷ negsuc 9223372036854775803
        ∷ pos 3
        ∷ negsuc 9223372036854775805
        ∷ pos 1
        ∷ negsuc 9223372036854775807
        ∷ negsuc 0
        ∷ [])
unfolding expand
expand-huge = refl

expand-below_example :
    In (pos 3) (
      pos 5
      ∷ negsuc 9223372036854775803
      ∷ pos 3
      ∷ negsuc 9223372036854775805
      ∷ pos 1
      ∷ negsuc 9223372036854775807
      ∷ negsuc 0
      ∷ [])
    × ¬ InRange huge (pos 3)
expand-below_example =
    expand-below (str "5-59/9223372036854775807") 0 59 5 huge _ (omega arith) huge_part refl refl
      (omega arith) expand-huge

abbrev nine : Clock
nine = record { minute = 0; hour = 9; day = 3; month = 2; weekday = 1 }

-- "0 9 * * *" fires at nine o'clock.
match-nine : (c : CronExpr) → parse_cron (str "0 9 * * *") ≡ ok c → match c nine ≡ true
unfolding parse_cron match fields split trim_space atoi contains_byte split2 same
match-nine c h = ground arith

four_fields : parse_cron (str "0 9 * *") ≡ err (field_count 4)
unfolding parse_cron fields
four_fields = refl

-- `count` integers from `n`.
abbrev run_of : ℕ → ℕ → List ℤ
run_of n zero = []
run_of n (suc count) = pos n ∷ run_of (suc n) count

abbrev daily : CronExpr
daily = record {
  minute = pos 0 ∷ [];
  hour = pos 9 ∷ [];
  day = run_of 1 31;
  month = run_of 1 12;
  weekday = run_of 0 7;
}

abbrev star : Text
star = str "*"

parse_daily : parse_cron (str "0 9 * * *") ≡ ok daily
unfolding parse_cron fields split trim_space atoi contains_byte split2 same
parse_daily = refl

match-parse_cron_example : (match daily nine ≡ true) ↔ (
    FieldDenotes 0 59 (str "0") 0
    × FieldDenotes 0 23 (str "9") 9
    × FieldDenotes 1 31 star 3
    × FieldDenotes 1 12 star 2
    × FieldDenotes 0 6 star 1)
unfolding fields split parse_part trim_space atoi contains_byte split2 same
match-parse_cron_example =
    match-parse_cron (str "0 9 * * *") (str "0") (str "9") star star star daily nine refl
      parse_daily (λ r h. ground arith, tt) (λ r h. ground arith, tt) (λ r h. ground arith, tt)
      (λ r h. ground arith, tt) (λ r h. ground arith, tt)
