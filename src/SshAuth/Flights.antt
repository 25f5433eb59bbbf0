-- ===== src/SshAuth/Flights.antt =====
-- The goroutines of the requests: how many hold a reservation, and the counter's arithmetic.
use polarix.Prelude.{
  ℕ, zero, suc, ◌+◌, ◌≤◌, ◌≡◌, ap, ◌∙◌, inl, inr, false, some, List, [], ◌∷◌, arith, leb,
  Bool-cases, get_elem?, set, ℤ, pos, sub_ℕ, ltb_ℤ,
}
use polarix.SshAuth.{
  Flight, Stage, admitted, linked, passed, pred_ℤ, refused, reserved, stored, succ_ℤ,
}

-- A reservation that pendingCounter has and pendingMap does not show.
abbrev pub holds : Stage → ℕ
holds reserved = 1
holds refused = 1
holds _ = 0

-- A reservation within the limit.
abbrev pub within : Stage → ℕ
within reserved = 1
within _ = 0

abbrev pub total : (Stage → ℕ) → List Flight → ℕ
total p [] = 0
total p (f ∷ fs) = p f.stage + total p fs

pub total-set :
    (p : Stage → ℕ) (fs : List Flight) (n : ℕ) (f : Flight) (s : Stage)
    → get_elem? fs n ≡ some f
    → total p (set fs n (record f { stage = s })) + p f.stage ≡ total p fs + p s
total-set p [] n f s at = cc
total-set p (g ∷ fs) zero f s at =
    let is_f : p g.stage ≡ p f.stage = ground (arith, at) in omega (arith, is_f)
total-set p (g ∷ fs) (suc n) f s at = omega (arith, total-set p fs n f s at)

pub within-holds : (fs : List Flight) → total within fs ≤ total holds fs
within-holds [] = omega arith
within-holds (f ∷ fs) = omega (arith, within-holds fs, below f.stage)
  where
    below : (s : Stage) → within s ≤ holds s
    below admitted = omega arith
    below reserved = omega arith
    below refused = omega arith
    below (stored i) = omega arith
    below (linked i) = omega arith
    below passed = omega arith

pred-sub : (a b : ℕ) → pred_ℤ (sub_ℕ (suc a) b) ≡ sub_ℕ a b
pred-sub a b = elim (Bool-cases (leb b (suc a))) [
  | inl e ↦ ground (arith, e)
  | inr e ↦ ground (arith, e)
]

-- A counter that is a difference, less one.
pub pred-counted : {c : ℤ} (a a' b : ℕ) → c ≡ sub_ℕ a b → a ≡ suc a' → pred_ℤ c ≡ sub_ℕ a' b
pred-counted a a' b h e = ap pred_ℤ (h ∙ ap (λ (n : ℕ). sub_ℕ n b) e) ∙ pred-sub a' b

pub succ-sub : (a b : ℕ) → succ_ℤ (sub_ℕ a b) ≡ sub_ℕ (suc a) b
succ-sub a b = elim (Bool-cases (leb b a)) [ inl e ↦ ground (arith, e) | inr e ↦ ground (arith, e) ]

pub below_limit : (a b : ℕ) → ltb_ℤ (pos 100) (sub_ℕ a b) ≡ false → a ≤ 100 + b
below_limit a b h = elim (Bool-cases (leb b a)) [
  | inl e ↦ ground (arith, e, h)
  | inr e ↦ ground (arith, e)
]

pub sub_self : (a : ℕ) → pos 0 ≡ sub_ℕ a a
sub_self a = ground arith
