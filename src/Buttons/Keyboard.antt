-- ===== src/Buttons/Keyboard.antt =====
-- lib/buttons/buttons.go and lib/buttons/enum.go: keyboards and their
-- buttons. A pointer to a button of a keyboard is its row and its place in the row, as long as a later
-- append does not move the row's array; what is written through a pointer after that is not modelled.
pub mod Marshal
pub mod Limits
pub mod Payload
pub mod Tests
use polarix.Prelude.{
  ℕ, zero, suc, ◌+◌, ◌-◌, ◌/◌, ap, Bool, false, not, ◌&&◌, List, [], ◌∷◌, ◌++◌, ltb, leb, ◌==◌,
  if◌then◌else◌, length, set, Text, ℤ, pos, negsuc, leb_ℤ,
}

-- ButtonAction is an int: Link, Callback, Command, or any other value.
abbrev pub link : ℤ
link = pos 0

abbrev pub callback : ℤ
callback = pos 1

abbrev pub command : ℤ
command = pos 2

abbrev pub eq_ℤ : ℤ → ℤ → Bool
eq_ℤ (pos a) (pos b) = a == b
eq_ℤ (negsuc a) (negsuc b) = a == b
eq_ℤ _ _ = false

-- IsVaildActionType
unfoldable pub is_vaild_action_type : ℤ → Bool
is_vaild_action_type action_type = leb_ℤ (pos 0) link && leb_ℤ action_type command

pub record RenderData : Type 0 where
  pub label : Text
  pub visited : Text
  pub style : ℤ

pub record Permission : Type 0 where
  pub type : ℤ
  pub specify_user_ids : List Text

pub record Action : Type 0 where
  pub type : ℤ
  pub url : Text
  pub callback_data : Text
  pub msg : Text
  pub reply : Bool
  pub auto_send : Bool
  pub anchor : Bool
  pub permission : Permission
  pub unsupport_tips : Text

pub record ActionJson : Type 0 where
  pub type : ℤ
  pub content : Text  -- Data
  pub reply : Bool
  pub anchor : Bool
  pub unsupport_tips : Text
  pub permission : Permission

pub record Button : Type 0 where
  pub id : Text
  pub render_data : RenderData
  pub action : Action
  pub json_data : ActionJson

-- A Buttons value is its list; a Keyboard is its rows.
abbrev pub Keyboard : Type 0
Keyboard = List (List Button)

abbrev pub zero_permission : Permission
zero_permission = record { type = pos 0; specify_user_ids = [] }

abbrev pub zero_action : Action
zero_action = record {
  type = link;
  url = [];
  callback_data = [];
  msg = [];
  reply = false;
  auto_send = false;
  anchor = false;
  permission = zero_permission;
  unsupport_tips = [];
}

abbrev pub zero_json : ActionJson
zero_json = record {
  type = pos 0;
  content = [];
  reply = false;
  anchor = false;
  unsupport_tips = [];
  permission = zero_permission;
}

pub data AppendError : Type 0 where
  bad_row row_full : AppendError

pub data Appended : Type 0 where
  at : ℕ → ℕ → Appended
  refused : AppendError → Appended

-- Rows are added up to the one that is asked for.
unfoldable pub pad : ℕ → Keyboard → Keyboard
pad zero [] = [] ∷ []
pad zero (r ∷ rows) = r ∷ rows
pad (suc row) [] = [] ∷ pad row []
pad (suc row) (r ∷ rows) = r ∷ pad row rows

abbrev pub row_of : Keyboard → ℕ → List Button
row_of [] row = []
row_of (r ∷ rows) zero = r
row_of (r ∷ rows) (suc row) = row_of rows row

-- Keyboard.AppendButton at a row that is not negative
unfoldable pub append_at : Keyboard → Button → ℕ → Keyboard × Appended
append_at k button row =
    let rows = pad row k in
    let list = row_of rows row in
    if length list == 5
    then (rows, refused row_full)
    else (set rows row (list ++ button ∷ []), at row (length list))

-- The literal in Keyboard.AppendButton
abbrev pub new_button : Text → Text → Text → ℤ → Button
new_button id label visited style = record {
  id = id;
  render_data = record { label = label; visited = visited; style = style };
  action = zero_action;
  json_data = zero_json;
}

-- Keyboard.AppendButton
unfoldable pub append_button : Keyboard → Text → Text → Text → ℤ → ℤ → Keyboard × Appended
unfolding append_at
append_button k id label visited style (negsuc n) = (k, refused bad_row)
append_button k id label visited style (pos row) =
    if ltb 4 row then (k, refused bad_row) else append_at k (new_button id label visited style) row

-- Button.SetAutoCommand
unfoldable pub set_auto_command : Button → Text → Bool → Bool → Button
set_auto_command b content auto_send anchor =
    let a = b.action in
    record b {
      action = record a { anchor = anchor; msg = content; type = command; auto_send = auto_send };
    }

-- Button.SetHref
unfoldable pub set_href : Button → Text → Button
set_href b url = let a = b.action in record b { action = record a { type = link; url = url } }

-- Button.SetCallback, given the id that the table of callbacks returned for the button's own
unfoldable pub set_callback : Button → Text → Text → Button
set_callback b content real_id =
    let a = b.action in
    record b { id = real_id; action = record a { callback_data = content; type = callback } }

-- Button.SetPermission
unfoldable pub set_permission : Button → ℤ → Button
set_permission b required =
    let a = b.action in
    let p = a.permission in
    record b { action = record a { permission = record p { type = required } } }

-- Button.SetUserWhiteList; SomeUser is 0
unfoldable pub set_user_white_list : Button → List Text → Button
set_user_white_list b users =
    let a = b.action in
    let p = a.permission in
    record b {
      action = record a { permission = record p { type = pos 0; specify_user_ids = users } };
    }
