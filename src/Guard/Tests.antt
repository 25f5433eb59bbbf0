-- ===== src/Guard/Tests.antt =====
-- Runs of the guard over a database in memory, and its theorem at a concrete input.
use polarix.Prelude.{
  ◌*◌, ◌^◌, ◌≡◌, refl, ◌⊎◌, true, false, none, some, [], ◌∷◌, map, if◌then◌else◌, str, pos,
}
use polarix.Storage.{ensure_db, group_store}
use polarix.Storage.Database.{StoredValue, a_flag, same_key}
use polarix.Storage.Memory.{Memory, memory, stored_json, written, written-IsRow}
use polarix.Storage.Map.{IsView, KeyMap}
use polarix.Routes.{is_plugin_id}
use polarix.Guard.{
  Guard, JoinContext, Outcomes, accepts, bans, denies, get_guard_status, handle_join, has_host,
  is_mail, mails, sends_invalid_mail, set_guard_status, welcomes, set_group_rule, index_panic,
}
use polarix.Guard.Joining.{IsAccepted, guard_key, handle_join-IsAccepted}

addresses :
    map is_mail
      (str "a@b.c" ∷ str "a@b" ∷ str "a@.c" ∷ str "a@b." ∷ str "a b@c.d" ∷ str "a@b@c.d" ∷ [])
    ≡ true ∷ false ∷ false ∷ false ∷ false ∷ false ∷ []
unfolding is_mail
addresses = refl

abbrev guarded_map : KeyMap StoredValue
guarded_map k = if same_key (guard_key (str "G")) k then some (a_flag true) else none

abbrev guarded : Guard Memory
guarded = record {
  storage = record {
    db = some (str "bot.db");
    db_path = str "bot.db";
    files = λ p k. written (guarded_map k);
  };
  smtp = some (str "mail.example");
  items = [];
  calls = [];
}

guarded-IsView : IsView memory stored_json guarded.storage guarded_map
guarded-IsView k = written-IsRow (guarded_map k)

abbrev joins : JoinContext
joins = record { plugin_id = str "GroupGuard"; group_id = str "G"; answer = str "a@b.c" }

abbrev all_well : Outcomes
all_well = record {
  message_error = none;
  deny_error = none;
  accept_error = none;
  token = some (str "t0");
  now = pos 0;
  welcome_error = none;
  mail_error = none;
}

joined_calls :
    (handle_join memory stored_json (λ c. c) guarded joins all_well).0.calls
    ≡ mails (str "/_plugin/GroupGuard/t0") (str "a@b.c")
      ∷ welcomes none
      ∷ bans (43200 * 60 * 10 ^ 9)
      ∷ accepts
      ∷ []
unfolding handle_join ensure_db same_key is_plugin_id group_store
joined_calls = refl

toggled :
    let (s, on) = set_guard_status memory stored_json (λ c. c) guarded.storage (str "G") in
    let (t, off) = get_guard_status memory stored_json (λ c. c) s (str "G") in
    (on ≡ false) × (off ≡ false)
unfolding set_guard_status get_guard_status ensure_db same_key group_store
toggled = (refl, refl)

handle_join-IsAccepted_example :
    let q = (handle_join memory stored_json (λ c. c) guarded joins all_well).0 in
    ((q.calls ≡ []) × (q.items ≡ []))
    ⊎ ((guarded_map (guard_key (str "G")) ≡ some (a_flag true))
        × (has_host guarded.smtp ≡ true)
        × (((is_mail (str "a@b.c") ≡ false)
              × (q.items ≡ [])
              × ((q.calls ≡ sends_invalid_mail ∷ [])
                  ⊎ (q.calls ≡ denies ∷ sends_invalid_mail ∷ [])))
            ⊎ ((is_mail (str "a@b.c") ≡ true)
                × IsAccepted memory stored_json (λ c. c) guarded joins all_well q)))
handle_join-IsAccepted_example =
    handle_join-IsAccepted memory stored_json (λ c. c) guarded guarded_map joins all_well
      guarded-IsView

no_rule_given :
    (set_group_rule memory stored_json (λ c. c) guarded.storage (str "G") (str "/grouprule")).1
    ≡ index_panic
unfolding set_group_rule
no_rule_given = refl
