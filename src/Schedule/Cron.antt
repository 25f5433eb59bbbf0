-- ===== src/Schedule/Cron.antt =====
-- lib/schedule/cron.go: five-field cron expressions. A set of ints is the list of its members, in
-- the order in which they are put in. `int` is Go's 64-bit int: the loop over a range wraps.
pub mod Rounds
pub mod Fields
pub mod Values
pub mod Match
pub mod Tests
use polarix.Prelude.{
  ℕ, zero, suc, ◌+◌, ◌-◌, ◌*◌, ◌/◌, ◌<◌, ap, Bool, true, false, not, ◌||◌, Option, none, some, List,
  [], ◌∷◌, ◌++◌, ltb, leb, ◌==◌, if◌then◌else◌, length, set, Text, str, same, is_empty, trim_space,
  fields, split, split2, contains_byte, ℤ, pos, negsuc, pos_part, neg_part, sub_ℕ, ltb_ℤ, leb_ℤ,
  wrap64, AtoiResult, parsed, syntax_error, range_error, atoi,
}

pub data PartError : Type 0 where
  empty_part bad_step bad_range bad_value out_of_range : PartError
  -- not an error of the source: the fuel of the loop ran out
  out_of_fuel : PartError

pub data Result (E A : Type 0) : Type 0 where
  ok : A → Result E A
  err : E → Result E A

infixl 5 ◌>>=◌
abbrev pub ◌>>=◌ : {E A B : Type 0} → Result E A → (A → Result E B) → Result E B
◌>>=◌ m next = elim m [ ok a ↦ next a | err e ↦ err e ]

pub record Range : Type 0 where
  pub start : ℤ
  pub last : ℤ
  pub step : ℕ

abbrev pub or_else : AtoiResult → PartError → Result PartError ℤ
or_else (parsed z) e = ok z
or_else syntax_error e = err e
or_else (range_error z) e = err e

-- `s <= 0` is refused too.
abbrev pub positive_step : AtoiResult → Result PartError ℕ
positive_step (parsed (pos (suc n))) = ok (suc n)
positive_step _ = err bad_step

-- What stands before a `/`, and the step behind it.
unfoldable pub split_step : Text → Result PartError (Text × ℕ)
split_step part =
    let stepped : Result PartError (Text × ℕ) = do
      step ← positive_step (atoi (split2 b'/' part).1)
      ok ((split2 b'/' part).0, step)
    in if contains_byte b'/' part then stepped else ok (part, 1)

-- `*`, a range or a number
unfoldable pub parse_ends : Text → ℕ → ℕ → Result PartError (ℤ × ℤ)
parse_ends range_part min max =
    let range : Result PartError (ℤ × ℤ) = do
      start ← or_else (atoi (split2 b'-' range_part).0) bad_range
      last ← or_else (atoi (split2 b'-' range_part).1) bad_range
      ok (start, last)
    in let number : Result PartError (ℤ × ℤ) = do n ← or_else (atoi range_part) bad_value; ok (n, n)
      in if same range_part (str "*")
        then ok (pos min, pos max)
        else if contains_byte b'-' range_part
        then range
        else number

-- The test on the ends of a range
unfoldable pub check_ends : ℤ → ℤ → ℕ → ℕ → ℕ → Result PartError Range
check_ends start last step min max =
    if ltb_ℤ start (pos min) || ltb_ℤ (pos max) last || ltb_ℤ last start
    then err out_of_range
    else ok (record { start = start; last = last; step = step })

-- The body of the loop of parseField, up to the loop over the range.
unfoldable pub parse_part : Text → ℕ → ℕ → Result PartError Range
unfolding split_step parse_ends check_ends
parse_part raw min max =
    let part = trim_space raw in
    let checked : Result PartError Range = do
      stepped ← split_step part
      ends ← parse_ends stepped.0 min max
      check_ends ends.0 ends.1 stepped.1 min max
    in if is_empty part then err empty_part else checked

-- `v += step`
abbrev pub advance : ℤ → ℕ → ℤ
advance v step = wrap64 (sub_ℕ (pos_part v + step) (neg_part v))

abbrev pub cons_some : ℤ → Option (List ℤ) → Option (List ℤ)
cons_some v none = none
cons_some v (some vs) = some (v ∷ vs)

-- `for v := start; v <= end; v += step`; `none` means that the fuel ran out.
unfoldable pub rounds : ℕ → ℤ → ℤ → ℕ → Option (List ℤ)
rounds zero v last step = none
rounds (suc fuel) v last step =
    let rest = cons_some v (rounds fuel (advance v step) last step) in
    if leb_ℤ v last then rest else some []

abbrev pub fuelled : Option (List ℤ) → Result PartError (List ℤ)
fuelled none = err out_of_fuel
fuelled (some vs) = ok vs

-- A round for each value of the range and five more are enough, as Rounds shows.
unfoldable pub expand : Range → Result PartError (List ℤ)
unfolding rounds
expand r = fuelled (rounds (pos_part r.last + 5) r.start r.last r.step)

unfoldable pub parse_parts : List Text → ℕ → ℕ → Result PartError (List ℤ)
unfolding parse_part expand
parse_parts [] min max = ok []
parse_parts (part ∷ parts) min max =
    let rest = parse_parts parts min max in
    do r ← parse_part part min max; vs ← expand r; more ← rest; ok (vs ++ more)

-- parseField
unfoldable pub parse_field : Text → ℕ → ℕ → Result PartError (List ℤ)
unfolding parse_parts
parse_field field min max = parse_parts (split b',' field) min max

pub record CronExpr : Type 0 where
  pub minute : List ℤ
  pub hour : List ℤ
  pub day : List ℤ
  pub month : List ℤ
  pub weekday : List ℤ

pub data CronError : Type 0 where
  field_count : ℕ → CronError
  in_field : ℕ → PartError → CronError

abbrev pub named : {A : Type 0} → ℕ → Result PartError A → Result CronError A
named i (ok a) = ok a
named i (err e) = err (in_field i e)

unfoldable pub parse_five : Text → Text → Text → Text → Text → Result CronError CronExpr
unfolding parse_field
parse_five f0 f1 f2 f3 f4 = do
  minute ← named 0 (parse_field f0 0 59)
  hour ← named 1 (parse_field f1 0 23)
  day ← named 2 (parse_field f2 1 31)
  month ← named 3 (parse_field f3 1 12)
  weekday ← named 4 (parse_field f4 0 6)
  ok (record { minute = minute; hour = hour; day = day; month = month; weekday = weekday })

unfoldable pub parse_fields : List Text → Result CronError CronExpr
unfolding parse_five
parse_fields (f0 ∷ f1 ∷ f2 ∷ f3 ∷ f4 ∷ []) = parse_five f0 f1 f2 f3 f4
parse_fields fs = err (field_count (length fs))

-- parseCron
unfoldable pub parse_cron : Text → Result CronError CronExpr
unfolding parse_fields
parse_cron expr = parse_fields (fields expr)

-- What the source reads of a time.Time, in local time.
pub record Clock : Type 0 where
  pub minute : ℕ
  pub hour : ℕ
  pub day : ℕ
  pub month : ℕ
  pub weekday : ℕ

-- A read of the set, whose keys are ints.
unfoldable pub has : List ℤ → ℕ → Bool
has [] n = false
has (pos m ∷ vs) n = (m == n) || has vs n
has (negsuc m ∷ vs) n = has vs n

-- cronExpr.match
unfoldable pub match : CronExpr → Clock → Bool
unfolding has
match c t =
    if not (has c.minute t.minute)
    then false
    else if not (has c.hour t.hour)
    then false
    else if not (has c.day t.day)
    then false
    else if not (has c.month t.month)
    then false
    else if not (has c.weekday t.weekday)
    then false
    else true
