-- ===== src/Buttons/Keyboard/Limits.antt =====
-- AppendButton keeps a keyboard within the platform's five rows of five buttons.
use polarix.Prelude.{
  ℕ, zero, suc, ◌≤◌, ◌<◌, ◌≡◌, refl, ap, ◌∙◌, ◌≢◌, ◌⊎◌, inl, inr, List, [], ◌∷◌, ◌++◌, arith, ltb,
  ◌==◌, Bool-cases, length, set, length-append, length-set, All, Text, ℤ, pos, negsuc,
}
use polarix.Buttons.Keyboard.{
  Appended, Button, Keyboard, append_at, append_button, at, bad_row, pad, refused, row_full, row_of,
  new_button,
}

-- At most five rows, and at most five buttons in each.
abbrev pub Fits : Keyboard → Type 0
Fits k = (length k ≤ 5) × All (λ r. length r ≤ 5) k

pad-lt : (row : ℕ) (k : Keyboard) → row < length (pad row k)
unfolding pad
pad-lt zero [] = omega arith
pad-lt zero (r ∷ rows) = omega arith
pad-lt (suc row) [] = omega (arith, pad-lt row [])
pad-lt (suc row) (r ∷ rows) = omega (arith, pad-lt row rows)

length-pad-le : (row n : ℕ) (k : Keyboard) → row < n → length k ≤ n → length (pad row k) ≤ n
unfolding pad
length-pad-le zero n [] h fits = omega arith
length-pad-le zero n (r ∷ rows) h fits = fits
length-pad-le (suc row) zero k h fits = absurd (omega arith)
length-pad-le (suc row) (suc n) [] h fits =
    omega (arith, length-pad-le row n [] (omega arith) (omega arith))
length-pad-le (suc row) (suc n) (r ∷ rows) h fits =
    omega (arith, length-pad-le row n rows (omega arith) (omega arith))

All-pad : (row : ℕ) (k : Keyboard) → All (λ r. length r ≤ 5) k → All (λ r. length r ≤ 5) (pad row k)
unfolding pad
All-pad zero [] h = (omega arith, tt)
All-pad zero (r ∷ rows) h = h
All-pad (suc row) [] h = (omega arith, All-pad row [] tt)
All-pad (suc row) (r ∷ rows) h = (h.0, All-pad row rows h.1)

row_of-pad : (row : ℕ) (k : Keyboard) (j : ℕ) → row_of (pad row k) j ≡ row_of k j
unfolding pad
row_of-pad zero [] zero = refl
row_of-pad zero [] (suc j) = refl
row_of-pad zero (r ∷ rows) j = refl
row_of-pad (suc row) [] zero = refl
row_of-pad (suc row) [] (suc j) = row_of-pad row [] j ∙ row_of_nil j
  where
    row_of_nil : (j : ℕ) → row_of [] j ≡ row_of [] (suc j)
    row_of_nil j = refl
row_of-pad (suc row) (r ∷ rows) zero = refl
row_of-pad (suc row) (r ∷ rows) (suc j) = row_of-pad row rows j

All-set :
    (k : Keyboard) (row : ℕ) (r : List Button)
    → All (λ r. length r ≤ 5) k
    → length r ≤ 5
    → All (λ r. length r ≤ 5) (set k row r)
All-set [] row r h fits = tt
All-set (x ∷ k) zero r h fits = (fits, h.1)
All-set (x ∷ k) (suc row) r h fits = (h.0, All-set k row r h.1 fits)

All-row_of : (k : Keyboard) (row : ℕ) → All (λ r. length r ≤ 5) k → length (row_of k row) ≤ 5
All-row_of [] row h = omega arith
All-row_of (r ∷ k) zero h = h.0
All-row_of (r ∷ k) (suc row) h = All-row_of k row h.1

row_of-set_self :
    (k : Keyboard) (row : ℕ) (r : List Button) → row < length k → row_of (set k row r) row ≡ r
row_of-set_self [] row r h = absurd (omega arith)
row_of-set_self (x ∷ k) zero r h = refl
row_of-set_self (x ∷ k) (suc row) r h = row_of-set_self k row r (omega arith)

row_of-set_ne :
    (k : Keyboard) (row j : ℕ) (r : List Button) → j ≢ row → row_of (set k row r) j ≡ row_of k j
row_of-set_ne [] row j r ne = refl
row_of-set_ne (x ∷ k) zero zero r ne = absurd (ne refl)
row_of-set_ne (x ∷ k) zero (suc j) r ne = refl
row_of-set_ne (x ∷ k) (suc row) zero r ne = refl
row_of-set_ne (x ∷ k) (suc row) (suc j) r ne = row_of-set_ne k row j r (λ e. ne (ap suc e))

append_at-Fits :
    (k : Keyboard) (b : Button) (row : ℕ) → row ≤ 4 → Fits k → Fits (append_at k b row).0
unfolding append_at
append_at-Fits k b row h fits = elim (Bool-cases (length (row_of (pad row k) row) == 5)) [
  | inl full ↦ rw full (rows, short)
  | inr room ↦ rw room (
    rw (length-set (pad row k) row (row_of (pad row k) row ++ b ∷ [])) rows,
    All-set (pad row k) row (row_of (pad row k) row ++ b ∷ []) short (
        ground (
          arith,
          All-row_of (pad row k) row short,
          length-append (row_of (pad row k) row) (b ∷ []),
        )),
  )
]
  where
    rows : length (pad row k) ≤ 5
    rows = length-pad-le row 5 k (omega arith) fits.0

    short : All (λ r. length r ≤ 5) (pad row k)
    short = All-pad row k fits.1

-- Appending a button, to any row and whether it is refused or not, keeps a keyboard within five
-- rows of five buttons.
pub append_button-Fits :
    (k : Keyboard) (id label visited : Text) (style row : ℤ)
    → Fits k
    → Fits (append_button k id label visited style row).0
unfolding append_button
append_button-Fits k id label visited style (negsuc n) fits = fits
append_button-Fits k id label visited style (pos row) fits = elim (Bool-cases (ltb 4 row)) [
  | inl out ↦ rw out fits
  | inr within ↦ rw within (append_at-Fits k _ row (ground arith) fits)
]

-- The three ways in which appending a button ends.
abbrev pub Outcomes : Keyboard → Button → ℕ → (Keyboard × Appended) → Type 0
Outcomes k b row r =
    ((4 < row) × (r ≡ (k, refused bad_row)))
    ⊎ (((row ≤ 4)
          × (length (row_of k row) ≡ 5)
          × (r.1 ≡ refused row_full)
          × ((j : ℕ) → row_of r.0 j ≡ row_of k j))
        ⊎ ((row ≤ 4)
            × (length (row_of k row) ≢ 5)
            × (r.1 ≡ at row (length (row_of k row)))
            × (row_of r.0 row ≡ row_of k row ++ b ∷ [])
            × ((j : ℕ) → j ≢ row → row_of r.0 j ≡ row_of k j)))

append_at-Outcomes :
    (k : Keyboard) (b : Button) (row : ℕ) → row ≤ 4 → Outcomes k b row (append_at k b row)
unfolding append_at
append_at-Outcomes k b row h = elim (Bool-cases (length (row_of (pad row k) row) == 5)) [
  | inl full ↦
      rw full (inr (inl (h, ground (arith, row_of-pad row k row), refl, λ j. row_of-pad row k j)))
  | inr room ↦ rw room (
      inr (
        inr (
          h,
          ground (arith, row_of-pad row k row),
          ap (λ (l : List Button). at row (length l)) (row_of-pad row k row),
          row_of-set_self (pad row k) row _ (pad-lt row k)
              ∙ ap (λ (l : List Button). l ++ b ∷ []) (row_of-pad row k row),
          λ j ne. row_of-set_ne (pad row k) row j _ ne ∙ row_of-pad row k j,
        )))
]

-- Appending refuses a row past the fifth and leaves the keyboard; refuses a row that has five
-- buttons and leaves every row; and otherwise puts the new button at the end of the row, returns its
-- place there, and leaves the other rows.
pub append_button-Outcomes :
    (k : Keyboard) (id label visited : Text) (style : ℤ) (row : ℕ)
    → Outcomes k
        (new_button id label visited style)
        row
        (append_button k id label visited style (pos row))
unfolding append_button
append_button-Outcomes k id label visited style row = elim (Bool-cases (ltb 4 row)) [
  | inl out ↦ rw out (inl (ground arith, refl))
  | inr within ↦ rw within (append_at-Outcomes k _ row (ground arith))
]
