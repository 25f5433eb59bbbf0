-- ===== src/Push/Tests.antt =====
-- Runs of the push plugin over a database in memory, and the theorems at concrete inputs.
use polarix.Storage.{ensure_db, has_value}
use polarix.Prelude.{◌≡◌, refl, ◌≢◌, ◌⊎◌, inr, true, none, some, [], ◌∷◌, if◌then◌else◌, Text, str}
use polarix.Storage.Database.{StoredValue, a_flag, a_text, same_key}
use polarix.Storage.Memory.{Memory, memory, stored_json, written, written-IsRow}
use polarix.Storage.Map.{IsView, KeyMap}
use polarix.Push.{
  Push, PushContext, PushRequest, Sent, disable_push, disabled, enable_push, group_message,
  http_handle, markdown_payload, push_allowed, resolve_target, set_push_key,
}
use polarix.Push.Allowed.{IsAllowed, global_key, http_handle-IsAllowed}
use polarix.Push.Disabled.{disable_push-http_handle}

abbrev initial : Push Memory
initial = record {
  storage = record { db = none; db_path = []; files = λ p k. none };
  has_client = true;
  sent = [];
}

abbrev in_group : Text → PushContext
in_group content = record {
  target = group_message;
  group_id = str "G";
  user_id = str "U";
  content = content;
}

abbrev request : PushRequest
request = record { key = str "sesame"; type = str "MD"; content = str " hi " }

-- What is stored after /pushkey and /enablepush in the group.
abbrev ready_map : KeyMap StoredValue
ready_map k =
    if same_key (global_key (str "enabled:group:G")) k
    then some (a_flag true)
    else if same_key (global_key (str "Gpush_key")) k
    then some (a_text (str "sesame"))
    else none

abbrev ready : Push Memory
ready = record initial {
  storage = record {
    db = some (str "bot.db");
    db_path = str "bot.db";
    files = λ p k. written (ready_map k);
  };
}

ready-IsView : IsView memory stored_json ready.storage ready_map
ready-IsView k = written-IsRow (ready_map k)

-- The commands, then the request.
commands_then_push :
    let keyed = (set_push_key memory stored_json initial (in_group (str "/pushkey sesame"))).0 in
    let enabled = (enable_push memory stored_json keyed (in_group (str "/enablepush"))).0 in
    let (q, code) =
      http_handle memory stored_json enabled (str "group") (str "G") (some request) [] none in
    (code ≡ 200)
    × (q.sent
        ≡ record { scope = str "group"; openid = str "G"; payload = markdown_payload (str "hi") }
          ∷ [])
unfolding set_push_key enable_push http_handle ensure_db same_key has_value push_allowed
commands_then_push = (refl, refl)

http_handle-IsAllowed_example :
    let (q, code) =
      http_handle memory stored_json ready (str "group") (str "G") (some request) [] none in
    ((q.sent ≡ []) × (code ≢ 200))
    ⊎ ((item : Sent) × (q.sent ≡ item ∷ [])
        × IsAllowed ready_map (str "group") (str "G") (some request) [] item)
http_handle-IsAllowed_example =
    http_handle-IsAllowed memory stored_json ready ready_map (str "group") (str "G") (some request)
      [] none ready-IsView

target_at : resolve_target (in_group (str "/disablepush")) ≡ inr (str "group", str "G")
unfolding resolve_target
target_at = refl

disabled_at :
    (disable_push memory stored_json ready (in_group (str "/disablepush"))).1
    ≡ disabled (str "group")
unfolding disable_push ensure_db
disabled_at = refl

disable_push-http_handle_example :
    let (q, code) =
      http_handle memory stored_json
        (disable_push memory stored_json ready (in_group (str "/disablepush"))).0
        (str "group")
        (str "G")
        (some request)
        []
        none in
    ((q.sent ≡ []) × (code ≢ 200))
disable_push-http_handle_example =
    disable_push-http_handle memory stored_json ready ready_map (in_group (str "/disablepush"))
      (str "group") (str "G") (some request) [] none ready-IsView target_at disabled_at
