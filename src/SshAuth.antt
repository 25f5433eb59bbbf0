-- ===== src/SshAuth.antt =====
-- plugins/sshauth/sshauth.go: the approval of SSH logins. The pending requests are objects that the
-- timer, the buttons' callbacks and the connection share: `auths` is their store. `responses` and
-- `recalls` of a request record what was written to its connection and how often the deletion of its
-- message was asked for, whether or not the API granted it. An operation is one step, but for
-- processApprovalRequest, between whose steps others may run: `accept_request` starts its goroutine,
-- which `flights` records with the stage that it has reached, `advance_request` takes it through one
-- access to the shared state after the other, and `finish_send` is what follows the sending of the
-- message; these are in Requests, and the connections and restarts in Connections. Texts that only
-- go into the message or the log are left out.
pub mod Requests
pub mod Connections
pub mod Settings
pub mod Steps
pub mod Sound
pub mod Keep
pub mod Flights
pub mod Entering
pub mod Histories
pub mod Answers
pub mod Authority
pub mod Tests
use polarix.Prelude.{
  ℕ, suc, ◌+◌, ◌-◌, ◌/◌, ap, Bool, true, false, not, ◌&&◌, ◌||◌, Option, none, some, List, [], ◌∷◌,
  map, ◌==◌, if◌then◌else◌, Text, str, same, is_empty, delete, ℤ, pos, pos_part, neg_part, sub_ℕ,
}
use polarix.Middleware.{role_can_use}
use polarix.Plugin.Access.{has_text}

pub record Config : Type 0 where
  pub enabled : Bool
  pub group_id : Text
  pub socket_path : Text
  pub allowed_users : List Text
  pub timeout_seconds : ℤ

pub record BotIpcRequest : Type 0 where
  pub version : Text
  pub user : Text
  pub service : Text
  pub remote_host : Text
  pub id : Text

pub data Status : Type 0 where
  waiting : Status
  delivered : Status
  delivery_failed : Status
  timed_out : Status
  invalidated : Status

pub record PendingAuth : Type 0 where
  pub req : BotIpcRequest
  pub conn : ℕ
  pub msg : Option Text  -- the id of the message in the group, once it is known
  pub timer : Bool
  pub resolved : Bool
  pub status : Status
  pub responses : List Bool
  pub recalls : ℕ

pub record IpcConnection : Type 0 where
  pub active : Bool
  pub pending : List (Text × ℕ)

-- How far processApprovalRequest has come: past its guards; with a reservation; with one that it is
-- to give back; with its request in pendingMap; with it in the connection's map as well; at its
-- return or at the sending of the message.
pub data Stage : Type 0 where
  admitted : Stage
  reserved : Stage
  refused : Stage
  stored : ℕ → Stage
  linked : ℕ → Stage
  passed : Stage

pub record Flight : Type 0 where
  pub req : BotIpcRequest
  pub conn : ℕ
  pub stage : Stage

pub record World : Type 0 where
  pub config : Config
  pub has_client : Bool
  pub auths : ℕ → Option PendingAuth
  pub next : ℕ
  pub pending_map : List (Text × ℕ)
  pub pending_counter : ℤ
  pub conns : ℕ → IpcConnection
  pub current_conn : Option ℕ
  pub flights : List Flight

abbrev pub put_at : {A : Type 0} → (ℕ → A) → ℕ → A → ℕ → A
put_at f i a j = if i == j then a else f j

abbrev pub succ_ℤ : ℤ → ℤ
succ_ℤ z = sub_ℕ (pos_part z + 1) (neg_part z)

abbrev pub pred_ℤ : ℤ → ℤ
pred_ℤ z = sub_ℕ (pos_part z) (neg_part z + 1)

-- cleanup
unfoldable pub cleanup : World → ℕ → PendingAuth → World
cleanup w i a = record w {
  auths = put_at w.auths i (some (record a { timer = false }));
  pending_map = delete a.req.id w.pending_map;
  pending_counter = pred_ℤ w.pending_counter;
  conns = put_at w.conns a.conn (record {
    active = (w.conns a.conn).active;
    pending = delete a.req.id (w.conns a.conn).pending;
  });
}

-- `msg != nil && msg.MsgId != ""`
abbrev pub has_message : Option Text → Bool
has_message none = false
has_message (some id) = not (is_empty id)

abbrev pub recalled : PendingAuth → ℕ
recalled a = if has_message a.msg then suc a.recalls else a.recalls

-- The request is taken by whoever calls this, is cleaned up, and its message is recalled.
abbrev pub give_up : World → ℕ → PendingAuth → Status → World
give_up w i a status =
    cleanup w i (record a { resolved = true; status = status; recalls = recalled a })

abbrev pub invalidate_auth : World → ℕ → Option PendingAuth → World
invalidate_auth w i none = w
invalidate_auth w i (some a) = if a.resolved then w else give_up w i a invalidated

-- invalidate
unfoldable pub invalidate : World → ℕ → World
unfolding cleanup
invalidate w i = invalidate_auth w i (w.auths i)

-- onTimeout; the timer is armed
abbrev pub time_out_auth : World → ℕ → Option PendingAuth → World
time_out_auth w i none = w
time_out_auth w i (some a) = if a.resolved || not a.timer then w else give_up w i a timed_out

unfoldable pub on_timeout : World → ℕ → World
unfolding cleanup
on_timeout w i = time_out_auth w i (w.auths i)

-- resolve, given whether the connection takes the response
abbrev pub resolve_auth : World → ℕ → Option PendingAuth → Bool → Bool → World
resolve_auth w i none approved written = w
resolve_auth w i (some a) approved written =
    if a.resolved
    then w
    else if (w.conns a.conn).active && written
    then cleanup w i
        (record a { resolved = true; status = delivered; responses = approved ∷ a.responses })
    else give_up w i a delivery_failed

unfoldable pub resolve : World → ℕ → Bool → Bool → World
unfolding cleanup
resolve w i approved written = resolve_auth w i (w.auths i) approved written

-- What a callback's context tells of the click.
pub record Click : Type 0 where
  pub group_id : Text
  pub user_id : Text
  pub role : Text

abbrev pub no_users : List Text → Bool
no_users [] = true
no_users (u ∷ us) = false

-- The guards of handleApprovalCallback.
unfoldable pub may_approve : Config → Click → Bool
unfolding has_text role_can_use
may_approve cfg k =
    if is_empty k.group_id || not (same k.group_id cfg.group_id)
    then false
    else if not (no_users cfg.allowed_users)
    then has_text k.user_id cfg.allowed_users
    else if not (is_empty k.role) && not (role_can_use (str "admin") k.role)
    then false
    else true

-- handleApprovalCallback
unfoldable pub handle_approval_callback : World → ℕ → Bool → Click → Bool → World
unfolding may_approve resolve
handle_approval_callback w i approved k written =
    if may_approve w.config k then resolve w i approved written else w
