-- ===== src/Schedule/Cron/Match.antt =====
-- When a parsed expression matches a time.
use polarix.Prelude.{
  ℕ, ◌≡◌, ap, ◌∙◌, ◌↔◌, inl, inr, true, List, [], ◌∷◌, arith, ◌==◌, Bool-cases, All, Any, In, Text,
  fields, split, ℤ, pos, negsuc, pos_part,
}
use polarix.Schedule.Cron.{
  Clock, CronExpr, PartError, Result, err, has, match, named, ok, parse_cron, parse_field,
  parse_five,
}
use polarix.Schedule.Cron.Fields.{bind_inversion}
use polarix.Schedule.Cron.Values.{Denotes, IsSmallStep, parse_field-eq}

has-In : (vs : List ℤ) (n : ℕ) → (has vs n ≡ true) ↔ In (pos n) vs
unfolding has
has-In [] n = (λ h. cc, λ i. absurd i)
has-In (pos m ∷ vs) n = (
  λ h. elim (Bool-cases (m == n)) [
    | inl e ↦ inl (ap pos (ground arith))
    | inr e ↦ inr ((has-In vs n).0 (ground (arith, e)))
  ],
  elim [ inl e ↦ ground (arith, ap pos_part e) | inr i ↦ ground (arith, (has-In vs n).1 i) ],
)
has-In (negsuc m ∷ vs) n =
    (λ h. inr ((has-In vs n).0 h), elim [ inl e ↦ cc | inr i ↦ (has-In vs n).1 i ])

match_iff :
    (c : CronExpr) (t : Clock)
    → (match c t ≡ true) ↔ (
        (has c.minute t.minute ≡ true)
        × (has c.hour t.hour ≡ true)
        × (has c.day t.day ≡ true)
        × (has c.month t.month ≡ true)
        × (has c.weekday t.weekday ≡ true))
unfolding match
match_iff c t =
    (λ h. (ground arith, ground arith, ground arith, ground arith, ground arith), λ h. ground arith)

-- A field denotes a number, where its bounds are given.
abbrev pub FieldDenotes : ℕ → ℕ → Text → ℕ → Type 0
FieldDenotes min max field n = Any (Denotes min max (pos n)) (split b',' field)

abbrev pub HasSmallSteps : ℕ → ℕ → Text → Type 0
HasSmallSteps min max field = All (IsSmallStep min max) (split b',' field)

named-ok : {A : Type 0} (i : ℕ) (r : Result PartError A) (a : A) → named i r ≡ ok a → r ≡ ok a
named-ok i (ok b) a h = ground arith
named-ok i (err e) a h = cc

parse_five-ok :
    (f0 f1 f2 f3 f4 : Text) (c : CronExpr)
    → parse_five f0 f1 f2 f3 f4 ≡ ok c
    → (parse_field f0 0 59 ≡ ok c.minute)
      × (parse_field f1 0 23 ≡ ok c.hour)
      × (parse_field f2 1 31 ≡ ok c.day)
      × (parse_field f3 1 12 ≡ ok c.month)
      × (parse_field f4 0 6 ≡ ok c.weekday)
unfolding parse_five
parse_five-ok f0 f1 f2 f3 f4 c h =
    let (m0, e0, h0) = bind_inversion (named 0 (parse_field f0 0 59)) _ h in
    let (m1, e1, h1) = bind_inversion (named 1 (parse_field f1 0 23)) _ h0 in
    let (m2, e2, h2) = bind_inversion (named 2 (parse_field f2 1 31)) _ h1 in
    let (m3, e3, h3) = bind_inversion (named 3 (parse_field f3 1 12)) _ h2 in
    let (m4, e4, h4) = bind_inversion (named 4 (parse_field f4 0 6)) _ h3 in
    (
      named-ok 0 (parse_field f0 0 59) c.minute (e0 ∙ ground arith),
      named-ok 1 (parse_field f1 0 23) c.hour (e1 ∙ ground arith),
      named-ok 2 (parse_field f2 1 31) c.day (e2 ∙ ground arith),
      named-ok 3 (parse_field f3 1 12) c.month (e3 ∙ ground arith),
      named-ok 4 (parse_field f4 0 6) c.weekday (e4 ∙ ground arith),
    )

-- An expression of five fields, accepted and with no step that wraps, matches a time exactly when
-- each field denotes the number of the time that it stands for: the minute, the hour, the day of the
-- month, the month and the day of the week.
pub match-parse_cron :
    (expr f0 f1 f2 f3 f4 : Text) (c : CronExpr) (t : Clock)
    → fields expr ≡ f0 ∷ f1 ∷ f2 ∷ f3 ∷ f4 ∷ []
    → parse_cron expr ≡ ok c
    → HasSmallSteps 0 59 f0
    → HasSmallSteps 0 23 f1
    → HasSmallSteps 1 31 f2
    → HasSmallSteps 1 12 f3
    → HasSmallSteps 0 6 f4
    → (match c t ≡ true) ↔ (
        FieldDenotes 0 59 f0 t.minute
        × FieldDenotes 0 23 f1 t.hour
        × FieldDenotes 1 31 f2 t.day
        × FieldDenotes 1 12 f3 t.month
        × FieldDenotes 0 6 f4 t.weekday)
unfolding parse_cron
match-parse_cron expr f0 f1 f2 f3 f4 c t five h s0 s1 s2 s3 s4 = (
  λ m.
      let (h0, h1, h2, h3, h4) = (match_iff c t).0 m in
      (
        v0.0 ((has-In c.minute t.minute).0 h0),
        v1.0 ((has-In c.hour t.hour).0 h1),
        v2.0 ((has-In c.day t.day).0 h2),
        v3.0 ((has-In c.month t.month).0 h3),
        v4.0 ((has-In c.weekday t.weekday).0 h4),
      ),
  λ (d0, d1, d2, d3, d4). (match_iff c t).1 (
    (has-In c.minute t.minute).1 (v0.1 d0),
    (has-In c.hour t.hour).1 (v1.1 d1),
    (has-In c.day t.day).1 (v2.1 d2),
    (has-In c.month t.month).1 (v3.1 d3),
    (has-In c.weekday t.weekday).1 (v4.1 d4),
  ),
)
  where
    parts :
        (parse_field f0 0 59 ≡ ok c.minute)
        × (parse_field f1 0 23 ≡ ok c.hour)
        × (parse_field f2 1 31 ≡ ok c.day)
        × (parse_field f3 1 12 ≡ ok c.month)
        × (parse_field f4 0 6 ≡ ok c.weekday)
    parts = parse_five-ok f0 f1 f2 f3 f4 c (rw five at h)

    v0 : In (pos t.minute) c.minute ↔ FieldDenotes 0 59 f0 t.minute
    v0 = parse_field-eq f0 0 59 c.minute parts.0 s0 (pos t.minute)

    v1 : In (pos t.hour) c.hour ↔ FieldDenotes 0 23 f1 t.hour
    v1 = parse_field-eq f1 0 23 c.hour parts.1 s1 (pos t.hour)

    v2 : In (pos t.day) c.day ↔ FieldDenotes 1 31 f2 t.day
    v2 = parse_field-eq f2 1 31 c.day parts.2 s2 (pos t.day)

    v3 : In (pos t.month) c.month ↔ FieldDenotes 1 12 f3 t.month
    v3 = parse_field-eq f3 1 12 c.month parts.3 s3 (pos t.month)

    v4 : In (pos t.weekday) c.weekday ↔ FieldDenotes 0 6 f4 t.weekday
    v4 = parse_field-eq f4 0 6 c.weekday parts.4 s4 (pos t.weekday)
