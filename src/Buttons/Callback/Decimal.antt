-- ===== src/Buttons/Callback/Decimal.antt =====
-- The identifier that RegisterCallbackFunc prints is read back by InvokeCallback.
use native.Mathlib.Nat.{pow-suc}
use polarix.Prelude.{
  ℕ, zero, suc, ◌+◌, ◌-◌, ◌*◌, ◌/◌, ◌%◌, ◌^◌, ◌≤◌, ◌<◌, ◌≡◌, ◌∙◌, ap, inl, inr, Bool-cases, some,
  [], ◌∷◌, ◌++◌, Text, ltb, lt→ltb, arith, pos, parsed, atoi, itoa, itoa_from, atoi_pos,
  digits_value, int64_top,
}

-- A text that begins with a digit.
abbrev Leads : Text → Type 0
Leads [] = ⊥
Leads (c ∷ s) = (48 ≤ c) × (c ≤ 57)

Leads-append : (s : Text) (c : ℕ) → Leads s → Leads (s ++ c ∷ [])
Leads-append [] c h = absurd h
Leads-append (d ∷ s) c h = h

itoa_from-Leads : (f n : ℕ) → Leads (itoa_from (suc f) n)
unfolding itoa_from
itoa_from-Leads zero n = ground arith
itoa_from-Leads (suc f) n = elim (Bool-cases (ltb n 10)) [
  | inl small ↦ rw small (ground arith)
  | inr large ↦ rw large (Leads-append (itoa_from (suc f) (n / 10)) _ (itoa_from-Leads f (n / 10)))
]

digits_value-append :
    (s : Text) (c acc v : ℕ)
    → digits_value acc s ≡ some v
    → 48 ≤ c
    → c ≤ 57
    → digits_value acc (s ++ c ∷ []) ≡ some (v * 10 + (c - 48))
digits_value-append [] c acc v h lo hi = ground arith
digits_value-append (d ∷ s) c acc v h lo hi =
    ground (arith, digits_value-append s c (acc * 10 + (d - 48)) v)

digits_value-itoa_from : (f n : ℕ) → n < 10 ^ f → digits_value 0 (itoa_from f n) ≡ some n
unfolding itoa_from
digits_value-itoa_from zero n h = ground arith
digits_value-itoa_from (suc f) n h = elim (Bool-cases (ltb n 10)) [
  | inl small ↦ rw small (ground arith)
  | inr large ↦ rw large (
      digits_value-append (itoa_from f (n / 10)) (48 + n % 10) 0 (n / 10)
        (digits_value-itoa_from f (n / 10) (omega (arith, pow-suc 10 f))) (omega arith)
        (omega arith)
      ∙ ground arith)
]

atoi-Leads : (s : Text) → Leads s → atoi s ≡ atoi_pos (digits_value 0 s)
unfolding atoi
atoi-Leads [] h = absurd h
atoi-Leads (c ∷ s) h = ground arith

-- Reading a printed number gives the number, below the top of the signed range.
pub atoi-itoa : (n : ℕ) → n < int64_top → atoi (itoa n) ≡ parsed (pos n)
unfolding itoa
atoi-itoa n h =
    atoi-Leads (itoa_from 20 n) (itoa_from-Leads 19 n)
    ∙ ap atoi_pos (digits_value-itoa_from 20 n (omega arith))
    ∙ rw (lt→ltb n int64_top h)
