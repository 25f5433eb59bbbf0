-- ===== src/Buttons/Keyboard/Payload.antt =====
-- What GenerateJson sends, and what it refuses.
use polarix.Prelude.{
  ℕ, ◌+◌, ◌≤◌, ◌≡◌, refl, subst, ◌≢◌, inl, inr, true, Option, none, some, List, [], ◌∷◌, arith,
  Option-cases, length, All, Text, negsuc,
}
use polarix.Buttons.Keyboard.{Button, Keyboard, callback, command, is_vaild_action_type, link}
use polarix.Buttons.Keyboard.Marshal.{
  GenerateError, bytes, check_button, datum, failed, fill_button, fill_row, fill_rows,
  generate_json, marshal_error, row_too_long, too_many_buttons, too_many_rows,
}
use polarix.Buttons.Keyboard.Limits.{Fits}

-- Two lists of the same length whose elements are related place by place.
abbrev pub Each : {A B : Type 0} → (A → B → Type 0) → List A → List B → Type 0
Each R [] [] = Unit
Each R (x ∷ xs) (y ∷ ys) = R x y × Each R xs ys
Each R _ _ = ⊥

-- What the button `f` is to carry that is sent for the button `b`: all that `b` has, the sent form of
-- its action, and for each of the three types the text that belongs to it, which is not empty.
abbrev pub IsFilled : Button → Button → Type 0
IsFilled b f =
    (f.id ≡ b.id)
    × (f.render_data ≡ b.render_data)
    × (f.action ≡ b.action)
    × (f.json_data.type ≡ b.action.type)
    × (f.json_data.reply ≡ b.action.reply)
    × (f.json_data.anchor ≡ b.action.anchor)
    × (f.json_data.unsupport_tips ≡ b.action.unsupport_tips)
    × (f.json_data.permission ≡ b.action.permission)
    × (b.action.type ≡ link → (f.json_data.content ≡ b.action.url) × (b.action.url ≢ []))
    × (b.action.type ≡ callback
        → (f.json_data.content ≡ b.action.callback_data) × (b.action.callback_data ≢ []))
    × (b.action.type ≡ command → (f.json_data.content ≡ b.action.msg) × (b.action.msg ≢ []))

fill_button-IsFilled : (b : Button) → check_button b ≡ none → IsFilled b (fill_button b)
unfolding fill_button check_button datum is_vaild_action_type
fill_button-IsFilled b h = (
  refl,
  refl,
  refl,
  refl,
  refl,
  refl,
  refl,
  refl,
  λ e. (ground (arith, e), λ p. ground (arith, h, e, p)),
  λ e. (ground (arith, e), λ p. ground (arith, h, e, p)),
  λ e. (ground (arith, e), λ p. ground (arith, h, e, p)),
)

fill_row-IsFilled : (r : List Button) → (fill_row r).1 ≡ none → Each IsFilled r (fill_row r).0
unfolding fill_row
fill_row-IsFilled [] h = tt
fill_row-IsFilled (b ∷ r) h = elim (Option-cases (check_button b)) [
  | inl ready ↦
      rw (ready, fill_row)
        (fill_button-IsFilled b ready, fill_row-IsFilled r (ground (arith, ready)))
  | inr (e, bad) ↦ ground (arith, bad)
]

fill_rows-IsFilled :
    (k : Keyboard) → (fill_rows k).1 ≡ none → Each (Each IsFilled) k (fill_rows k).0
unfolding fill_rows
fill_rows-IsFilled [] h = tt
fill_rows-IsFilled (r ∷ k) h = elim (Option-cases (fill_row r).1) [
  | inl ready ↦
      rw (ready, fill_rows)
        (fill_row-IsFilled r ready, fill_rows-IsFilled k (ground (arith, ready)))
  | inr (e, bad) ↦ ground (arith, bad)
]

row_too_long-none : (n : ℕ) (k : Keyboard) → row_too_long n k ≡ none → All (λ r. length r ≤ 5) k
unfolding row_too_long
row_too_long-none n [] h = tt
row_too_long-none n (r ∷ k) h = (ground (arith, h), row_too_long-none (n + 1) k (ground (arith, h)))

-- If GenerateJson returns the encoder's text for a keyboard that is not empty, then the keyboard has
-- at most five rows of at most five buttons, and the text is the encoder's for a keyboard with the
-- same rows of as many buttons, in order, each of which has its own id, look and action, and as its
-- sent form the action's type, flags and permission; for a link the url is sent, for a callback the
-- callback data and for a command the message, and none of them is empty.
pub generate_json-bytes :
    (marshal : Keyboard → Option Text) (k : Keyboard) (text : Text)
    → k ≢ []
    → (generate_json marshal k).1 ≡ bytes text
    → (length k ≤ 5)
      × All (λ r. length r ≤ 5) k
      × (marshal (generate_json marshal k).0 ≡ some text)
      × Each (Each IsFilled) k (generate_json marshal k).0
unfolding generate_json
generate_json-bytes marshal [] text ne h = absurd (ne refl)
generate_json-bytes marshal (r ∷ k) text ne h = elim (Option-cases (fill_rows (r ∷ k)).1) [
  | inr (e, bad) ↦ ground (arith, bad)
  | inl ready ↦ elim (Option-cases (row_too_long 0 (r ∷ k))) [
    | inr (e, long) ↦ ground (arith, long)
    | inl short ↦ (
      ground arith,
      row_too_long-none 0 (r ∷ k) short,
      ground (arith, ready),
      subst (Each (Each IsFilled) (r ∷ k)) (ground (arith, ready))
          (fill_rows-IsFilled (r ∷ k) ready),
    )
  ]
]

row_too_long-Fits : (n : ℕ) (k : Keyboard) → All (λ r. length r ≤ 5) k → row_too_long n k ≡ none
unfolding row_too_long
row_too_long-Fits n [] h = refl
row_too_long-Fits n (r ∷ k) h = ground (arith, row_too_long-Fits (n + 1) k h.1)

-- The refusals that speak of a keyboard's size.
abbrev pub IsSizeError : GenerateError → Type 0
IsSizeError (too_many_rows n) = Unit
IsSizeError (too_many_buttons n m) = Unit
IsSizeError e = ⊥

check_button-size : (b : Button) (e : GenerateError) → check_button b ≡ some e → ¬ IsSizeError e
unfolding check_button
check_button-size b (too_many_rows n) h = λ s. ground arith
check_button-size b (too_many_buttons n m) h = λ s. ground arith
check_button-size b _ h = λ s. s

fill_row-size : (r : List Button) (e : GenerateError) → (fill_row r).1 ≡ some e → ¬ IsSizeError e
unfolding fill_row
fill_row-size [] e h = cc
fill_row-size (b ∷ r) e h = elim (Option-cases (check_button b)) [
  | inl ready ↦ fill_row-size r e (ground (arith, ready))
  | inr (x, bad) ↦ check_button-size b e (ground (arith, bad))
]

fill_rows-size : (k : Keyboard) (e : GenerateError) → (fill_rows k).1 ≡ some e → ¬ IsSizeError e
unfolding fill_rows
fill_rows-size [] e h = cc
fill_rows-size (r ∷ k) e h = elim (Option-cases (fill_row r).1) [
  | inl ready ↦ fill_rows-size k e (ground (arith, ready))
  | inr (x, bad) ↦ fill_row-size r e (ground (arith, bad))
]

-- A keyboard within the limits, as AppendButton leaves it, is never refused for its size: an error
-- of GenerateJson on it is about one button or comes from the encoder.
pub generate_json-Fits :
    (marshal : Keyboard → Option Text) (k : Keyboard) (e : GenerateError)
    → Fits k
    → (generate_json marshal k).1 ≡ failed e
    → ¬ IsSizeError e
unfolding generate_json
generate_json-Fits marshal k e fits h = elim (Option-cases (fill_rows k).1) [
  | inl ready ↦
      let coded : marshal_error ≡ e = ground (arith, ready, row_too_long-Fits 0 k fits.1) in
      subst (λ (x : GenerateError). ¬ IsSizeError x) coded (λ s. s)
  | inr (x, bad) ↦ fill_rows-size k e (ground (arith, bad, row_too_long-Fits 0 k fits.1))
]

-- A button whose type is a negative number passes every check of GenerateJson and is sent with an
-- empty datum: the test of IsVaildActionType looks at the constant Link where it means the type.
pub check_button-negsuc :
    (b : Button) (n : ℕ)
    → b.action.type ≡ negsuc n
    → (is_vaild_action_type b.action.type ≡ true)
      × (check_button b ≡ none)
      × ((fill_button b).json_data.content ≡ [])
unfolding check_button is_vaild_action_type fill_button datum
check_button-negsuc b n h = ground arith
