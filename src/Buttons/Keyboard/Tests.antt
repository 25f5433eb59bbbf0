-- ===== src/Buttons/Keyboard/Tests.antt =====
-- The theorems on keyboards at concrete keyboards, and runs that follow the source.
use polarix.Prelude.{
  ◌≤◌, ◌≡◌, refl, true, Option, none, some, [], ◌∷◌, arith, length, All, Text, str, pos, negsuc,
  itoa,
}
use polarix.Buttons.Keyboard.{
  Button, Keyboard, append_button, is_vaild_action_type, new_button, set_href, zero_action,
}
use polarix.Buttons.Keyboard.Marshal.{
  bytes, check_button, failed, fill_button, fill_row, fill_rows, generate_json, need_url,
  row_too_long,
}
use polarix.Buttons.Keyboard.Limits.{Fits, Outcomes, append_button-Fits, append_button-Outcomes}
use polarix.Buttons.Keyboard.Payload.{
  Each, IsFilled, IsSizeError, check_button-negsuc, generate_json-Fits, generate_json-bytes,
}

abbrev link_button : Button
link_button = set_href (new_button (str "showGroupRule") (str "rule") [] (pos 1)) (str "https://a")

abbrev one_row : Keyboard
one_row = (link_button ∷ []) ∷ []

-- An encoder that prints the number of rows.
abbrev count_rows : Keyboard → Option Text
count_rows k = some (itoa (length k))

append_button-Fits_example : Fits (append_button one_row (str "a") (str "b") [] (pos 0) (pos 3)).0
append_button-Fits_example =
    append_button-Fits one_row (str "a") (str "b") [] (pos 0) (pos 3) (omega arith)

append_button-Outcomes_example :
    Outcomes one_row
      (new_button (str "a") (str "b") [] (pos 0))
      3
      (append_button one_row (str "a") (str "b") [] (pos 0) (pos 3))
append_button-Outcomes_example = append_button-Outcomes one_row (str "a") (str "b") [] (pos 0) 3

generate_one_row : (generate_json count_rows one_row).1 ≡ bytes (str "1")
unfolding generate_json fill_rows fill_row check_button is_vaild_action_type set_href row_too_long
    itoa fill_button
generate_one_row = refl

generate_json-bytes_example :
    (length one_row ≤ 5)
    × All (λ r. length r ≤ 5) one_row
    × (count_rows (generate_json count_rows one_row).0 ≡ some (str "1"))
    × Each (Each IsFilled) one_row (generate_json count_rows one_row).0
generate_json-bytes_example =
    generate_json-bytes count_rows one_row (str "1") (λ e. cc) generate_one_row

abbrev empty_link : Keyboard
empty_link = (new_button (str "x") [] [] (pos 0) ∷ []) ∷ []

generate_empty_link : (generate_json count_rows empty_link).1 ≡ failed (need_url (str "x"))
unfolding generate_json fill_rows fill_row check_button is_vaild_action_type row_too_long
generate_empty_link = refl

generate_json-Fits_example : ¬ IsSizeError (need_url (str "x"))
generate_json-Fits_example =
    generate_json-Fits count_rows empty_link (need_url (str "x")) (omega arith) generate_empty_link

abbrev negative : Button
negative = record link_button {
  action = record zero_action { type = negsuc 0; url = str "https://a" };
}

check_button-negsuc_example :
    (is_vaild_action_type negative.action.type ≡ true)
    × (check_button negative ≡ none)
    × ((fill_button negative).json_data.content ≡ [])
check_button-negsuc_example = check_button-negsuc negative 0 refl
