-- ===== src/Schedule/Cron/Rounds.antt =====
-- The loop over a range ends, and what it collects.
use native.Mathlib.Decide.{dec_lt, dec_le}
use polarix.Prelude.{
  refl, ℕ, zero, suc, ◌+◌, ◌-◌, ◌*◌, ◌≤◌, ◌<◌, ◌≡◌, ap, ◌∙◌, ◌↔◌, inl, inr, Option, none, some,
  List, [], ◌∷◌, arith, Bool-cases, In, ℤ, pos, leb_ℤ, int64_top, true, ◌^◌, negsuc, sub_ℕ,
  Option-cases, subst,
}
use polarix.Schedule.Cron.{rounds, cons_some, advance}

-- The members of a range that starts at `n`, as long as the sum does not wrap.
abbrev pub InSteps : ℕ → ℕ → ℕ → ℤ → Type 0
InSteps n last step v = (i : ℕ) × (v ≡ pos (n + i * step)) × (n + i * step ≤ last)

abbrev pub Collects : Option (List ℤ) → (ℤ → Type 0) → Type 0
Collects none P = ⊥
Collects (some vs) P = (v : ℤ) → In v vs ↔ P v

Collects-stop : (n last step : ℕ) → 0 < step → last < n → Collects (some []) (InSteps n last step)
Collects-stop n last step h lt v = (λ i. absurd i, λ (i, e, le). omega arith)

InSteps-cons :
    (n last step : ℕ) (vs : List ℤ)
    → n ≤ last
    → ((v : ℤ) → In v vs ↔ InSteps (n + step) last step v)
    → (v : ℤ) → In v (pos n ∷ vs) ↔ InSteps n last step v
InSteps-cons n last step vs le rest v = (to, from)
  where
    to : In v (pos n ∷ vs) → InSteps n last step v
    to (inl e) = (0, e ∙ ap pos (omega arith), omega arith)
    to (inr i) = let (k, e, h) = (rest v).0 i in (suc k, e ∙ ap pos (grind arith), grind arith)

    from : InSteps n last step v → In v (pos n ∷ vs)
    from (zero, e, h) = inl (e ∙ ap pos (omega arith))
    from (suc k, e, h) = inr ((rest v).1 (k, e ∙ ap pos (grind arith), grind arith))

Collects-cons :
    (n last step : ℕ) (o : Option (List ℤ))
    → n ≤ last
    → Collects o (InSteps (n + step) last step)
    → Collects (cons_some (pos n) o) (InSteps n last step)
Collects-cons n last step none le h = absurd h
Collects-cons n last step (some vs) le h = InSteps-cons n last step vs le h

advance-pos : (n step : ℕ) → n + step < int64_top → advance (pos n) step ≡ pos (n + step)
advance-pos n step h = ground arith

pub rounds-Collects :
    (fuel n last step : ℕ)
    → 0 < step
    → step + last < int64_top
    → n ≤ step + last
    → suc last < n + fuel
    → 0 < fuel
    → Collects (rounds fuel (pos n) (pos last) step) (InSteps n last step)
unfolding rounds
rounds-Collects zero n last step h small start enough some_fuel = absurd (omega arith)
rounds-Collects (suc fuel) n last step h small start enough some_fuel =
    elim (Bool-cases (leb_ℤ (pos n) (pos last))) [
      | inl within ↦
          let le : n ≤ last = ground arith in
          rw (within, advance-pos n step (omega arith))
            (Collects-cons n last step (rounds fuel (pos (n + step)) (pos last) step) le (
              rounds-Collects fuel (n + step) last step h small (omega arith) (omega arith)
                (omega arith)))
      | inr past ↦ rw past (Collects-stop n last step h (ground arith))
    ]

-- The loop ended within the fuel.
abbrev pub Ends : Option (List ℤ) → Type 0
Ends none = ⊥
Ends (some vs) = Unit

Ends-cons : (v : ℤ) (o : Option (List ℤ)) → Ends o → Ends (cons_some v o)
Ends-cons v none h = h
Ends-cons v (some vs) h = h

Collects-Ends : (o : Option (List ℤ)) (P : ℤ → Type 0) → Collects o P → Ends o
Collects-Ends none P h = h
Collects-Ends (some vs) P h = tt

rounds-suc :
    (fuel : ℕ) (v last : ℤ) (step : ℕ)
    → (leb_ℤ v last ≡ true → Ends (rounds fuel (advance v step) last step))
    → Ends (rounds (suc fuel) v last step)
unfolding rounds
rounds-suc fuel v last step h = elim (Bool-cases (leb_ℤ v last)) [
  | inl within ↦ rw within (Ends-cons v (rounds fuel (advance v step) last step) (h within))
  | inr past ↦ rw past tt
]

-- Where the sum wraps, two rounds take the variable at least two down.
advance-up :
    (n step : ℕ)
    → n < 2 ^ 62
    → step < int64_top
    → int64_top ≤ n + step
    → advance (pos n) step ≡ negsuc (2 ^ 64 - n - step - 1)
advance-up n step small lt h = ground arith

advance-negsuc :
    (m step : ℕ) → m < int64_top → step < int64_top → advance (negsuc m) step ≡ sub_ℕ step (suc m)
advance-negsuc m step lt small = ground arith

sub_ℕ-pos : (a b : ℕ) → b ≤ a → sub_ℕ a b ≡ pos (a - b)
sub_ℕ-pos a b h = ground arith

sub_ℕ-negsuc : (a b : ℕ) → a < b → sub_ℕ a b ≡ negsuc (b - a - 1)
sub_ℕ-negsuc a b h = ground arith

-- From below zero one round takes the variable past the end.
rounds-negsuc :
    (fuel q last step : ℕ)
    → q < int64_top
    → step < int64_top
    → q + 1 + last < step
    → Ends (rounds (suc (suc fuel)) (negsuc q) (pos last) step)
rounds-negsuc fuel q last step lt small far =
    rounds-suc (suc fuel) (negsuc q) (pos last) step (λ more.
      rw (advance-negsuc q step lt small, sub_ℕ-pos step (suc q) (omega arith))
        (rounds-suc fuel (pos (step - suc q)) (pos last) step (λ over. absurd (ground arith))))

rounds-wrapping :
    (k fuel n last step : ℕ)
    → n < k
    → n + 4 ≤ fuel
    → n ≤ last
    → last < 2 ^ 60
    → step < int64_top
    → int64_top ≤ step + last
    → Ends (rounds fuel (pos n) (pos last) step)
rounds-wrapping zero fuel n last step below enough le small lt big = absurd (omega arith)
rounds-wrapping (suc k) zero n last step below enough le small lt big = absurd (omega arith)
rounds-wrapping (suc k) (suc zero) n last step below enough le small lt big = absurd (omega arith)
rounds-wrapping (suc k) (suc (suc zero)) n last step below enough le small lt big =
    absurd (omega arith)
rounds-wrapping (suc k) (suc (suc (suc zero))) n last step below enough le small lt big =
    absurd (omega arith)
rounds-wrapping (suc k) (suc (suc (suc (suc fuel)))) n last step below enough le small lt big =
    rounds-suc _ (pos n) (pos last) step (λ in_range. elim (dec_lt (n + step) int64_top) [
      | yes up ↦
          rw (advance-pos n step up)
            (rounds-suc _ (pos (n + step)) (pos last) step (λ more. absurd (ground arith)))
      | no wraps ↦ rw (advance-up n step (omega arith) lt (omega arith)) (
          rounds-suc _ (negsuc (2 ^ 64 - n - step - 1)) (pos last) step (λ more.
            rw (advance-negsuc (2 ^ 64 - n - step - 1) step (omega arith) lt)
              (elim (dec_le (suc (2 ^ 64 - n - step - 1)) step) [
                | yes down ↦ rw (sub_ℕ-pos step (suc (2 ^ 64 - n - step - 1)) down) (
                    rounds-wrapping k (suc (suc fuel)) _ last step (omega arith) (omega arith)
                      (omega arith) small lt big)
                | no below_zero ↦
                    rw (sub_ℕ-negsuc step (suc (2 ^ 64 - n - step - 1)) (omega arith))
                      (rounds-negsuc fuel _ last step (omega arith) lt (omega arith))
              ])))
    ])

-- For every positive step and every range of the source's kind the loop ends.
pub rounds-Ends :
    (n last step : ℕ)
    → 0 < step
    → step < int64_top
    → n ≤ last
    → last < 2 ^ 60
    → Ends (rounds (last + 5) (pos n) (pos last) step)
rounds-Ends n last step h lt le small = elim (dec_lt (step + last) int64_top) [
  | yes fits ↦
      Collects-Ends (rounds (last + 5) (pos n) (pos last) step) (InSteps n last step)
        (rounds-Collects (last + 5) n last step h fits (omega arith) (omega arith) (omega arith))
  | no wraps ↦
      rounds-wrapping (suc n) (last + 5) n last step (omega arith) (omega arith) le small lt
        (omega arith)
]

-- What the loop collects, if it ends, has the value.
abbrev pub Meets : ℤ → Option (List ℤ) → Type 0
Meets w o = (vs : List ℤ) → o ≡ some vs → In w vs

Meets-here :
    (fuel : ℕ) (v last : ℤ) (step : ℕ)
    → leb_ℤ v last ≡ true
    → Meets v (rounds (suc fuel) v last step)
unfolding rounds
Meets-here fuel v last step within vs h =
    elim (Option-cases (rounds fuel (advance v step) last step)) [
      | inl out ↦ ground (arith, within, out)
      | inr (more, got) ↦
          let e : v ∷ more ≡ vs = ground (arith, within, got) in subst (In v) e (inl refl)
    ]

Meets-next :
    (fuel : ℕ) (w v last : ℤ) (step : ℕ)
    → leb_ℤ v last ≡ true
    → Meets w (rounds fuel (advance v step) last step)
    → Meets w (rounds (suc fuel) v last step)
unfolding rounds
Meets-next fuel w v last step within later vs h =
    elim (Option-cases (rounds fuel (advance v step) last step)) [
      | inl out ↦ ground (arith, within, out)
      | inr (more, got) ↦
          let e : v ∷ more ≡ vs = ground (arith, within, got) in
          subst (In w) e (inr (later more got))
    ]

-- With the largest step that an int holds, the loop goes through a number below the start.
pub rounds-below :
    (n last : ℕ)
    → 2 ≤ n
    → n ≤ last
    → last < 2 ^ 60
    → Meets (pos (n - 2)) (rounds (last + 5) (pos n) (pos last) (2 ^ 63 - 1))
rounds-below n last two le small =
    subst (λ (f : ℕ). Meets (pos (n - 2)) (rounds f (pos n) (pos last) (2 ^ 63 - 1))) fuel
      (Meets-next (suc (suc (last + 2))) (pos (n - 2)) (pos n) (pos last) (2 ^ 63 - 1)
        (ground arith)
        (rw (advance-up n (2 ^ 63 - 1) (omega arith) (omega arith) (omega arith)) (
          Meets-next (suc (last + 2)) (pos (n - 2)) (negsuc q) (pos last) (2 ^ 63 - 1)
            (ground arith)
            (rw (advance-negsuc q (2 ^ 63 - 1) (omega arith) (omega arith)) (
              rw (sub_ℕ-pos (2 ^ 63 - 1) (suc q) (omega arith)) (
                subst
                  (λ (m : ℕ).
                    Meets (pos (n - 2)) (rounds (suc (last + 2)) (pos m) (pos last) (2 ^ 63 - 1)))
                  value
                  (Meets-here (last + 2) (pos (n - 2)) (pos last) (2 ^ 63 - 1) (ground arith))))))))
  where
    q : ℕ
    q = 2 ^ 64 - n - (2 ^ 63 - 1) - 1

    fuel : suc (suc (suc (last + 2))) ≡ last + 5
    fuel = omega arith

    value : n - 2 ≡ 2 ^ 63 - 1 - suc q
    value = omega arith
