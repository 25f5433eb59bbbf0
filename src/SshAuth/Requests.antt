-- ===== src/SshAuth/Requests.antt =====
-- plugins/sshauth/sshauth.go: handleConnection's checks of a request, and processApprovalRequest.
use polarix.Prelude.{
  ℕ, suc, ◌+◌, Bool, true, false, not, ◌&&◌, ◌||◌, Option, none, some, [], ◌∷◌, ltb, if◌then◌else◌,
  get_elem?, set, Text, str, same, is_empty, lookup, insert, pos, ltb_ℤ,
}
use polarix.SshAuth.{
  BotIpcRequest, Flight, PendingAuth, Stage, World, admitted, invalidate, linked, passed, pred_ℤ,
  put_at, recalled, refused, reserved, stored, succ_ℤ, waiting,
}

-- The number of bytes of a text in UTF-8.
abbrev pub byte_length : Text → ℕ
byte_length [] = 0
byte_length (c ∷ s) =
    (if ltb c 0x80 then 1 else if ltb c 0x800 then 2 else if ltb c 0x10000 then 3 else 4)
    + byte_length s

-- The checks of handleConnection on a request that it has read.
unfoldable pub is_well_formed : BotIpcRequest → Bool
is_well_formed r =
    same r.version (str "1") && not (is_empty r.id) && not (ltb 128 (byte_length r.id))

-- The guards at the head of processApprovalRequest.
unfoldable pub is_ready : World → Bool
is_ready w = w.config.enabled && w.has_client && not (is_empty w.config.group_id)

abbrev pub new_auth : BotIpcRequest → ℕ → PendingAuth
new_auth r k = record {
  req = r;
  conn = k;
  msg = none;
  timer = false;
  resolved = false;
  status = waiting;
  responses = [];
  recalls = 0;
}

-- handleConnection's checks of a request, the start of its goroutine, and the guards at the head of
-- processApprovalRequest.
unfoldable pub accept_request : World → BotIpcRequest → ℕ → World
unfolding is_well_formed is_ready
accept_request w r k =
    if not (is_well_formed r) || not (is_ready w)
    then w
    else record w { flights = record { req = r; conn = k; stage = admitted } ∷ w.flights }

-- The goroutine at the place `n` has come to a stage.
abbrev pub reach : World → ℕ → Flight → Stage → World
reach w n f stage = record w { flights = set w.flights n (record f { stage = stage }) }

-- pendingCounter.Add(1), and what it is compared with
abbrev pub reserve : World → ℕ → Flight → World
reserve w n f =
    let counted = record w { pending_counter = succ_ℤ w.pending_counter } in
    if ltb_ℤ (pos 100) counted.pending_counter
    then reach counted n f refused
    else reach counted n f reserved

-- pendingCounter.Add(-1) of a request that is dropped
abbrev pub unreserve : World → ℕ → Flight → World
unreserve w n f = reach (record w { pending_counter = pred_ℤ w.pending_counter }) n f passed

-- The new request is in pendingMap.
abbrev pub enter : World → BotIpcRequest → ℕ → World
enter w r k = record w {
  auths = put_at w.auths w.next (some (new_auth r k));
  next = suc w.next;
  pending_map = insert r.id w.next w.pending_map;
}

-- pendingMap.LoadOrStore
abbrev pub load_or_store : World → ℕ → Flight → World
load_or_store w n f = elim (lookup f.req.id w.pending_map) [
  | some i ↦ reach w n f refused
  | none ↦ reach (enter w f.req f.conn) n f (stored w.next)
]

-- ipc.pending.Store
abbrev pub join_connection : World → Flight → ℕ → World
join_connection w f i = record w {
  conns = put_at w.conns f.conn (record {
    active = (w.conns f.conn).active;
    pending = insert f.req.id i (w.conns f.conn).pending;
  });
}

-- The next access of a goroutine to the shared state. The last is the test whether the connection is
-- still active, without which the request is invalidated.
abbrev pub advance_flight : World → ℕ → Flight → Stage → World
advance_flight w n f admitted = reserve w n f
advance_flight w n f reserved = load_or_store w n f
advance_flight w n f refused = unreserve w n f
advance_flight w n f (stored i) = reach (join_connection w f i) n f (linked i)
advance_flight w n f (linked i) =
    if (w.conns f.conn).active then reach w n f passed else invalidate (reach w n f passed) i
advance_flight w n f passed = w

-- processApprovalRequest up to the sending of the message, one step of the goroutine at the place `n`.
unfoldable pub advance_request : World → ℕ → World
unfolding invalidate
advance_request w n = elim (get_elem? w.flights n) [
  | none ↦ w
  | some f ↦ advance_flight w n f f.stage
]

-- A request whose message has been sent: the message is recalled where the request has been taken in
-- the meantime, or else the timer is started.
abbrev pub sent_by : Bool → PendingAuth → Text → PendingAuth
sent_by true a id = record a { msg = some id; recalls = recalled (record a { msg = some id }) }
sent_by false a id = record a { msg = some id; timer = true }

abbrev pub finish_auth : World → ℕ → Option PendingAuth → Text → World
finish_auth w i none id = w
finish_auth w i (some a) id = record w { auths = put_at w.auths i (some (sent_by a.resolved a id)) }

-- processApprovalRequest from the sending on, given the id of the message, or none for an error
unfoldable pub finish_send : World → ℕ → Option Text → World
unfolding invalidate
finish_send w i none = invalidate w i
finish_send w i (some id) = finish_auth w i (w.auths i) id
