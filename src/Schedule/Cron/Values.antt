-- ===== src/Schedule/Cron/Values.antt =====
-- The values that parseField collects, and that it always returns.
use polarix.Prelude.{
  ℕ, ◌+◌, ◌-◌, ◌*◌, ◌^◌, ◌≤◌, ◌<◌, ◌≡◌, sym, ap, subst, ◌∙◌, ◌≢◌, ◌↔◌, inl, inr, Option, none, some,
  List, [], ◌∷◌, ◌++◌, arith, All, Any, In, In-append_left, In-append_right, In-append_cases, Text,
  split, ℤ, pos, pos_part, int64_top,
}
use polarix.Schedule.Cron.{
  PartError, Range, err, expand, fuelled, ok, out_of_fuel, parse_field, parse_part, parse_parts,
  rounds,
}
use polarix.Schedule.Cron.Rounds.{
  Collects, Ends, InSteps, rounds-Collects, rounds-Ends, rounds-below,
}
use polarix.Schedule.Cron.Fields.{
  bind_inversion, IsRange, Result-cases, parse_part-IsRange, parse_part-fuel,
}

-- The value is one of the range's steps.
abbrev pub InRange : Range → ℤ → Type 0
InRange r v = InSteps (pos_part r.start) (pos_part r.last) r.step v

-- The part of a field denotes the value.
abbrev pub Denotes : ℕ → ℕ → ℤ → Text → Type 0
Denotes min max v part = (r : Range) × (parse_part part min max ≡ ok r) × InRange r v

-- Adding the step of the part to a value in bounds stays below 2 ^ 63.
abbrev pub IsSmallStep : ℕ → ℕ → Text → Type 0
IsSmallStep min max part = (r : Range) → parse_part part min max ≡ ok r → r.step + max < int64_top

fuelled-ok : (o : Option (List ℤ)) (vs : List ℤ) → fuelled o ≡ ok vs → o ≡ some vs
fuelled-ok none vs h = cc
fuelled-ok (some ws) vs h = ground arith

expand-Collects :
    (min max : ℕ) (r : Range) (vs : List ℤ)
    → IsRange min max r
    → r.step + max < int64_top
    → expand r ≡ ok vs
    → (v : ℤ) → In v vs ↔ InRange r v
unfolding expand
expand-Collects min max r vs ranged small h =
    subst (λ (o : Option (List ℤ)). Collects o (InRange r))
      (fuelled-ok (rounds (pos_part r.last + 5) r.start r.last r.step) vs h)
      (rw (ranged.start_eq, ranged.last_eq)
        (rounds-Collects (ranged.end + 5) ranged.first ranged.end r.step ranged.positive
          (omega (arith, ranged.below)) (omega (arith, ranged.ordered)) (omega arith)
          (omega arith)))

expand-fuel :
    (min max : ℕ) (r : Range) (e : PartError)
    → max < 2 ^ 60
    → IsRange min max r
    → expand r ≡ err e
    → ⊥
unfolding expand
expand-fuel min max r e small ranged h =
    contradiction (rounds (pos_part r.last + 5) r.start r.last r.step)
      (rw (ranged.start_eq, ranged.last_eq)
        (rounds-Ends ranged.first ranged.end r.step ranged.positive ranged.fits ranged.ordered
          (omega (arith, ranged.below))))
      h
  where
    contradiction : (o : Option (List ℤ)) → Ends o → fuelled o ≡ err e → ⊥
    contradiction none ends p = ends
    contradiction (some vs) ends p = cc

module _ (min max : ℕ) where
  parse_parts-eq :
      (parts : List Text) (vs : List ℤ)
      → parse_parts parts min max ≡ ok vs
      → All (IsSmallStep min max) parts
      → (v : ℤ) → In v vs ↔ Any (Denotes min max v) parts
  unfolding parse_parts
  parse_parts-eq [] vs h small v =
      let nothing : vs ≡ [] = ground arith in (λ i. subst (In v) nothing i, λ d. absurd d)
  parse_parts-eq (part ∷ parts) vs h small v =
      let (r, parsed_part, h') = bind_inversion (parse_part part min max) _ h in
      let (here, expanded, h'') = bind_inversion (expand r) _ h' in
      let (more, rest, e) = bind_inversion (parse_parts parts min max) _ h'' in
      let both : here ++ more ≡ vs = ground arith in
      let later = parse_parts-eq parts more rest small.1 v in
      let now =
        expand-Collects min max r here (parse_part-IsRange part min max r parsed_part)
          (small.0 r parsed_part) expanded v in
      (
        λ i. elim (In-append_cases v here more (subst (In v) (sym both) i)) [
          | inl j ↦ inl (r, parsed_part, now.0 j)
          | inr j ↦ inr (later.0 j)
        ],
        elim [
          | inl (r', again, d) ↦
              let same_range : r' ≡ r = ground arith in
              subst (In v) both (
                In-append_left v here more
                  (now.1 (subst (λ (x : Range). InRange x v) same_range d)))
          | inr d ↦ subst (In v) both (In-append_right v here more (later.1 d))
        ],
      )

  parse_parts-fuel :
      (parts : List Text) → max < 2 ^ 60 → parse_parts parts min max ≡ err out_of_fuel → ⊥
  unfolding parse_parts
  parse_parts-fuel [] small h = cc
  parse_parts-fuel (part ∷ parts) small h = elim (Result-cases (parse_part part min max)) [
    | inr (e, bad) ↦ parse_part-fuel part min max (ground (arith, bad))
    | inl (r, got) ↦ elim (Result-cases (expand r)) [
      | inr (e, out) ↦ expand-fuel min max r e small (parse_part-IsRange part min max r got) out
      | inl (vs, expanded) ↦ elim (Result-cases (parse_parts parts min max)) [
        | inl (more, rest) ↦ ground (arith, got, expanded, rest)
        | inr (e, bad) ↦ parse_parts-fuel parts small (ground (arith, got, expanded, bad))
      ]
    ]
  ]

-- If a field is accepted, and no part's step plus the upper bound reaches 2 ^ 63, then the values of
-- the field are those that one of its comma-separated parts denotes: the start of the part's range
-- plus a multiple of its step, up to the end of the range.
pub parse_field-eq :
    (field : Text) (min max : ℕ) (vs : List ℤ)
    → parse_field field min max ≡ ok vs
    → All (IsSmallStep min max) (split b',' field)
    → (v : ℤ) → In v vs ↔ Any (Denotes min max v) (split b',' field)
unfolding parse_field
parse_field-eq field min max vs h small v = parse_parts-eq min max (split b',' field) vs h small v

Any-Denotes-bounds :
    (min max : ℕ) (parts : List Text) (v : ℤ)
    → Any (Denotes min max v) parts
    → (n : ℕ) × (v ≡ pos n) × (min ≤ n) × (n ≤ max)
Any-Denotes-bounds min max [] v d = absurd d
Any-Denotes-bounds min max (part ∷ parts) v (inl (r, got, (i, e, le))) =
    let ranged = parse_part-IsRange part min max r got in
    (
      pos_part r.start + i * r.step,
      e,
      omega (arith, ranged.above, ap pos_part ranged.start_eq),
      omega (arith, ranged.below, le, ap pos_part ranged.last_eq),
    )
Any-Denotes-bounds min max (part ∷ parts) v (inr d) = Any-Denotes-bounds min max parts v d

-- Under the same condition on the steps every value of an accepted field lies between the field's
-- bounds.
pub parse_field-bounds :
    (field : Text) (min max : ℕ) (vs : List ℤ)
    → parse_field field min max ≡ ok vs
    → All (IsSmallStep min max) (split b',' field)
    → (v : ℤ) → In v vs
    → (n : ℕ) × (v ≡ pos n) × (min ≤ n) × (n ≤ max)
parse_field-bounds field min max vs h small v i =
    Any-Denotes-bounds min max (split b',' field) v
      ((parse_field-eq field min max vs h small v).0 i)

-- The loop over a range always ends: parsing a field whose upper bound is below 2 ^ 60 returns the
-- values or one of the source's errors, whatever the text, the largest steps included.
pub parse_field-fuel :
    (field : Text) (min max : ℕ) → max < 2 ^ 60 → parse_field field min max ≢ err out_of_fuel
unfolding parse_field
parse_field-fuel field min max small h = parse_parts-fuel min max (split b',' field) small h

-- If a part is accepted with the step 2 ^ 63 - 1 and a start of at least 2, the sum in the loop
-- wraps, and the values collected include the start less 2, which the range does not contain.
pub expand-below :
    (part : Text) (min max n : ℕ) (r : Range) (vs : List ℤ)
    → max < 2 ^ 60
    → parse_part part min max ≡ ok r
    → r.start ≡ pos n
    → r.step ≡ 2 ^ 63 - 1
    → 2 ≤ n
    → expand r ≡ ok vs
    → In (pos (n - 2)) vs × ¬ InRange r (pos (n - 2))
unfolding expand
expand-below part min max n r vs small got start step two h = (
  subst (λ (m : ℕ). In (pos (m - 2)) vs) same_start
      (rounds-below ranged.first ranged.end (omega (arith, same_start)) ranged.ordered
        (omega (arith, ranged.below)) vs collected),
  λ (i, e, le). omega (arith, ap pos_part start, ap pos_part e),
)
  where
    ranged : IsRange min max r
    ranged = parse_part-IsRange part min max r got

    same_start : ranged.first ≡ n
    same_start = ap pos_part (sym ranged.start_eq ∙ start)

    collected : rounds (ranged.end + 5) (pos ranged.first) (pos ranged.end) (2 ^ 63 - 1) ≡ some vs
    collected =
        subst (λ (x : ℤ). rounds (ranged.end + 5) x (pos ranged.end) (2 ^ 63 - 1) ≡ some vs)
          ranged.start_eq
          (subst (λ (x : ℤ). rounds (pos_part x + 5) r.start x (2 ^ 63 - 1) ≡ some vs)
            ranged.last_eq
            (subst (λ (x : ℕ). rounds (pos_part r.last + 5) r.start r.last x ≡ some vs) step
              (fuelled-ok (rounds (pos_part r.last + 5) r.start r.last r.step) vs h)))
