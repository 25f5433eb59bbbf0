-- ===== src/SshAuth/Connections.antt =====
-- plugins/sshauth/sshauth.go: connections that come and go, and the restart of the connector.
use polarix.Prelude.{
  ℕ, true, false, Option, none, some, List, [], ◌∷◌, ◌==◌, if◌then◌else◌, Text, delete, pos,
}
use polarix.SshAuth.{World, invalidate, put_at}

-- cleanupAllPending over a connection's requests.
unfoldable pub cleanup_all_pending : World → List (Text × ℕ) → World
unfolding invalidate
cleanup_all_pending w [] = w
cleanup_all_pending w ((id, i) ∷ rest) = cleanup_all_pending (invalidate w i) rest

-- Close and cleanupAllPending: a connection is closed and its requests are given up.
unfoldable pub close_connection : World → ℕ → World
unfolding cleanup_all_pending
close_connection w k =
    let closed = record w {
      conns = put_at w.conns k (record { active = false; pending = (w.conns k).pending });
    } in
    let cleaned = cleanup_all_pending closed (w.conns k).pending in
    record cleaned { conns = put_at cleaned.conns k (record { active = false; pending = [] }) }

-- The loop of restartWorker over the requests that are left.
unfoldable pub drop_pending : World → List (Text × ℕ) → World
unfolding invalidate
drop_pending w [] = w
drop_pending w ((id, i) ∷ rest) =
    let v = invalidate w i in drop_pending (record v { pending_map = delete id v.pending_map }) rest

abbrev pub close_current : World → Option ℕ → World
close_current w none = w
close_current w (some k) = record (close_connection w k) { current_conn = none }

-- restartWorker up to the start of the new connector.
unfoldable pub restart_worker : World → World
unfolding close_connection drop_pending
restart_worker w =
    let v = close_current w w.current_conn in
    record (drop_pending v v.pending_map) { pending_counter = pos 0 }

abbrev pub forget_conn : ℕ → Option ℕ → Option ℕ
forget_conn k none = none
forget_conn k (some c) = if c == k then none else some c

-- The end of a round of runConnector.
unfoldable pub disconnected : World → ℕ → World
unfolding close_connection
disconnected w k = record (close_connection w k) { current_conn = forget_conn k w.current_conn }

-- A round of runConnector has connected.
unfoldable pub connected : World → ℕ → World
connected w k = record w {
  conns = put_at w.conns k (record { active = true; pending = [] });
  current_conn = some k;
}
