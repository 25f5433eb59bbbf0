-- ===== src/SshAuth/Tests.antt =====
-- Runs of the approval plugin, and the theorems at concrete inputs.
use polarix.Prelude.{
  ◌≡◌, refl, ◌≢◌, inl, true, false, none, some, List, [], ◌∷◌, ◌++◌, In, str, same, trim_space,
  split, lookup, pos, negsuc, ascii_lower,
}
use polarix.Plugin.Settings.{Values}
use polarix.Plugin.Settings.Values.{int, text}
use polarix.SshAuth.Requests.{accept_request, advance_request, finish_send}
use polarix.SshAuth.Connections.{connected}
use polarix.SshAuth.{
  BotIpcRequest, Click, PendingAuth, handle_approval_callback, timed_out, waiting,
}
use polarix.SshAuth.Settings.{next_config, parse_allowed_users, timeout_error, validate_config}
use polarix.SshAuth.Steps.{
  Op, advances, clicks, configures, connects, expires, gets_client, init, requests, sends, ssh_run,
  step,
}
use polarix.SshAuth.Answers.{answers_at}
use polarix.SshAuth.Authority.{IsApprover, answers-IsApprover, on_timeout-ends}

abbrev test_values : Values
test_values =
    (str "group_id", text (str " G "))
    ∷ (str "allowed_users", text (str "u1, u2"))
    ∷ (str "timeout_seconds", int (pos 5))
    ∷ []

next_config-values : next_config test_values ≡ record {
  enabled = true;
  group_id = str "G";
  socket_path = str "/tmp/botipc-dev.sock";
  allowed_users = str "u1" ∷ str "u2" ∷ [];
  timeout_seconds = pos 5;
}
unfolding next_config parse_allowed_users trim_space lookup same split
next_config-values = refl

validate_config-network : validate_config ((str "network", text (str " UNIX ")) ∷ []) ≡ none
unfolding validate_config trim_space ascii_lower lookup same
validate_config-network = refl

validate_config-timeout :
    validate_config ((str "timeout_seconds", int (negsuc 0)) ∷ []) ≡ some timeout_error
unfolding validate_config trim_space ascii_lower lookup same
validate_config-timeout = refl

abbrev login : BotIpcRequest
login = record {
  version = str "1";
  user = str "root";
  service = str "sshd";
  remote_host = str "10.0.0.1";
  id = str "r1";
}

abbrev approver : Click
approver = record { group_id = str "G"; user_id = str "u2"; role = str "member" }

abbrev asked : List Op
asked =
    configures test_values
    ∷ gets_client
    ∷ connects 1
    ∷ requests login 1
    ∷ advances 0
    ∷ advances 0
    ∷ advances 0
    ∷ advances 0
    ∷ sends 0 (some (str "m1"))
    ∷ []

abbrev approved : List Op
approved = asked ++ clicks 0 true approver true ∷ []

approved_once : answers_at (ssh_run init approved) 0 ≡ true ∷ []
unfolding ssh_run init handle_approval_callback same finish_send accept_request advance_request
    connected
approved_once = refl

refused_user :
    answers_at
      (ssh_run init (asked ++ clicks 0 true (record approver { user_id = str "u3" }) true ∷ []))
      0
    ≡ []
unfolding ssh_run init handle_approval_callback same finish_send accept_request advance_request
    connected
refused_user = refl

approved_there : In true (answers_at (ssh_run init approved) 0)
unfolding ssh_run init handle_approval_callback same finish_send accept_request advance_request
    connected
approved_there = inl refl

answers-IsApprover_example :
    (before : List Op) × (k : Click) × (after : List Op) × (approved
      ≡ before ++ clicks 0 true k true ∷ after)
    × IsApprover (ssh_run init before).config k
    × ((a : PendingAuth) × ((ssh_run init before).auths 0 ≡ some a)
        × (a.resolved ≡ false)
        × (((ssh_run init before).conns a.conn).active ≡ true))
answers-IsApprover_example = answers-IsApprover approved 0 true approved_there

-- A restart between the reservation and the entry of a request: when the request ends, the counter is
-- below 0.
restart_race :
    (ssh_run init (
      configures test_values
      ∷ gets_client
      ∷ connects 1
      ∷ requests login 1
      ∷ advances 0
      ∷ gets_client
      ∷ advances 0
      ∷ sends 0 none
      ∷ [])).pending_counter
    ≡ negsuc 0
unfolding ssh_run init handle_approval_callback same finish_send accept_request advance_request
    connected
restart_race = refl

abbrev waiting_login : PendingAuth
waiting_login = record {
  req = login;
  conn = 1;
  msg = some (str "m1");
  timer = true;
  resolved = false;
  status = waiting;
  responses = [];
  recalls = 0;
}

asked_waits : (ssh_run init asked).auths 0 ≡ some waiting_login
unfolding ssh_run init handle_approval_callback same finish_send accept_request advance_request
    connected
asked_waits = refl

on_timeout-ends_example :
    let v = step (ssh_run init asked) (expires 0) in
    ((b : PendingAuth) × (v.auths 0 ≡ some b)
      × (b.resolved ≡ true)
      × (b.status ≡ timed_out)
      × (b.responses ≡ [])
      × (str "m1" ≢ [] → b.recalls ≡ 1))
    × (lookup (str "r1") v.pending_map ≡ none)
on_timeout-ends_example = on_timeout-ends asked 0 waiting_login (str "m1") asked_waits refl refl
