-- ===== src/Buttons/Keyboard/Marshal.antt =====
-- lib/buttons/marshal.go: GenerateJson, over the JSON encoder of the standard library.
use polarix.Prelude.{
  ℕ, ◌+◌, not, ◌&&◌, Option, none, some, List, [], ◌∷◌, ltb, ◌==◌, if◌then◌else◌, length, Text,
  is_empty, ℤ,
}
use polarix.Buttons.Keyboard.{
  Action, Button, Keyboard, callback, command, eq_ℤ, is_vaild_action_type, link,
}

pub data GenerateError : Type 0 where
  too_many_rows : ℕ → GenerateError
  too_many_buttons : ℕ → ℕ → GenerateError
  need_callback_data need_msg need_url : Text → GenerateError
  invalid_type : Text → ℤ → GenerateError
  marshal_error : GenerateError

-- The loop over the rows that measures them.
unfoldable pub row_too_long : ℕ → Keyboard → Option GenerateError
row_too_long k [] = none
row_too_long k (r ∷ rows) =
    let rest = row_too_long (k + 1) rows in
    if ltb 5 (length r) then some (too_many_buttons k (length r)) else rest

-- The `if` ladder over one button.
unfoldable pub check_button : Button → Option GenerateError
check_button b =
    let a = b.action in
    if eq_ℤ a.type callback && is_empty a.callback_data
    then some (need_callback_data b.id)
    else if eq_ℤ a.type command && is_empty a.msg
    then some (need_msg b.id)
    else if eq_ℤ a.type link && is_empty a.url
    then some (need_url b.id)
    else if not (is_vaild_action_type a.type)
    then some (invalid_type b.id a.type)
    else none

-- The `switch` that picks the datum to send.
unfoldable pub datum : Action → Text
datum a =
    if eq_ℤ a.type callback
    then a.callback_data
    else if eq_ℤ a.type command
    then a.msg
    else if eq_ℤ a.type link
    then a.url
    else []

unfoldable pub fill_button : Button → Button
fill_button b =
    let a = b.action in
    record b {
      json_data = record {
        type = a.type;
        content = datum a;
        reply = a.reply;
        anchor = a.anchor;
        unsupport_tips = a.unsupport_tips;
        permission = a.permission;
      };
    }

-- The inner loop: it stops at the first button that is refused.
unfoldable pub fill_row : List Button → List Button × Option GenerateError
fill_row [] = ([], none)
fill_row (b ∷ r) =
    let rest = fill_row r in
    elim (check_button b) [ some e ↦ (b ∷ r, some e) | none ↦ (fill_button b ∷ rest.0, rest.1) ]

-- The outer loop.
unfoldable pub fill_rows : Keyboard → Keyboard × Option GenerateError
fill_rows [] = ([], none)
fill_rows (r ∷ rows) =
    let here = fill_row r in
    let rest = fill_rows rows in
    elim here.1 [ some e ↦ (here.0 ∷ rows, some e) | none ↦ (here.0 ∷ rest.0, rest.1) ]

pub data Generated : Type 0 where
  bytes : Text → Generated
  failed : GenerateError → Generated

-- GenerateJson, over json.Marshal. The keyboard returned is the caller's, whose buttons it fills in.
unfoldable pub generate_json : (Keyboard → Option Text) → Keyboard → Keyboard × Generated
generate_json marshal k =
    let filled = fill_rows k in
    let sent : Generated = elim (marshal filled.0) [
      | some text ↦ bytes text
      | none ↦ failed marshal_error
    ] in
    let checked : Keyboard × Generated = elim filled.1 [
      | some e ↦ (filled.0, failed e)
      | none ↦ (filled.0, sent)
    ] in
    let measured : Keyboard × Generated = elim (row_too_long 0 k) [
      | some e ↦ (k, failed e)
      | none ↦ checked
    ] in
    if length k == 0
    then (k, bytes [])
    else if ltb 5 (length k)
    then (k, failed (too_many_rows (length k)))
    else measured
