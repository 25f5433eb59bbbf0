-- ===== src/SshAuth/Steps.antt =====
-- Histories of the plugin: what the IPC connection, the goroutines of the requests, the timers, the
-- buttons and the panel do. A sending, a click or a timeout may come here at any time, also before
-- the program could come to it. A restart is one step.
use polarix.Prelude.{ℕ, Bool, true, false, Option, none, List, [], ◌∷◌, Text, str, pos}
use polarix.Plugin.Settings.{Values}
use polarix.SshAuth.Settings.{apply_config}
use polarix.SshAuth.Requests.{accept_request, advance_request, finish_send}
use polarix.SshAuth.Connections.{connected, disconnected, restart_worker}
use polarix.SshAuth.{BotIpcRequest, Click, World, handle_approval_callback, on_timeout}

pub data Op : Type 0 where
  requests : BotIpcRequest → ℕ → Op
  advances : ℕ → Op
  sends : ℕ → Option Text → Op
  clicks : ℕ → Bool → Click → Bool → Op
  expires : ℕ → Op
  connects : ℕ → Op
  disconnects : ℕ → Op
  configures : Values → Op
  gets_client : Op

-- `gets_client` is SetClient.
unfoldable pub step : World → Op → World
unfolding restart_worker apply_config
step w (requests r k) = accept_request w r k
step w (advances n) = advance_request w n
step w (sends i id) = finish_send w i id
step w (clicks i approved k written) = handle_approval_callback w i approved k written
step w (expires i) = on_timeout w i
step w (connects k) = connected w k
step w (disconnects k) = disconnected w k
step w (configures values) = apply_config w values
step w gets_client = restart_worker (record w { has_client = true })

unfoldable pub ssh_run : World → List Op → World
unfolding step
ssh_run w [] = w
ssh_run w (o ∷ os) = ssh_run (step w o) os

unfoldable pub init : World
init = record {
  config = record {
    enabled = true;
    group_id = [];
    socket_path = str "/tmp/botipc-dev.sock";
    allowed_users = [];
    timeout_seconds = pos 60;
  };
  has_client = false;
  auths = λ i. none;
  next = 0;
  pending_map = [];
  pending_counter = pos 0;
  conns = λ k. record { active = false; pending = [] };
  current_conn = none;
  flights = [];
}
