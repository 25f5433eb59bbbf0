-- ===== src/SshAuth/Answers.antt =====
-- Who answers a request.
use polarix.Prelude.{
  ℕ, ◌≡◌, refl, sym, ap, ◌∙◌, ◌⊎◌, inl, inr, Bool, true, false, not, ◌&&◌, ◌||◌, Option, none, some,
  List, [], ◌∷◌, arith, ◌==◌, if◌then◌else◌, Bool-cases, Option-cases, get_elem?, Text, lookup,
  delete, pos, ltb_ℤ,
}
use polarix.SshAuth.Requests.{
  accept_request, advance_flight, advance_request, enter, finish_send, is_ready, is_well_formed,
  load_or_store, reach, sent_by,
}
use polarix.SshAuth.Connections.{
  cleanup_all_pending, close_connection, close_current, drop_pending, restart_worker,
}
use polarix.SshAuth.{
  BotIpcRequest, Click, Flight, PendingAuth, Stage, Status, World, admitted, cleanup,
  delivery_failed, give_up, invalidate, invalidated, linked, may_approve, on_timeout, passed,
  put_at, refused, reserved, resolve, stored, succ_ℤ, timed_out,
}
use polarix.SshAuth.Steps.{Op, clicks}

-- What was written to the connection for the request of index `i`.
abbrev pub answers : Option PendingAuth → List Bool
answers none = []
answers (some a) = a.responses

abbrev pub answers_at : World → ℕ → List Bool
answers_at w i = answers (w.auths i)

-- The step is a click on the request's button that the configuration lets through, while the request
-- is open and its connection is up.
abbrev pub IsAnswer : World → Op → ℕ → Bool → Type 0
IsAnswer w o i approved =
    (k : Click) × (a : PendingAuth) × (o ≡ clicks i approved k true)
    × (may_approve w.config k ≡ true)
    × (w.auths i ≡ some a)
    × (a.resolved ≡ false)
    × ((w.conns a.conn).active ≡ true)

give_up-answers :
    (w : World) (i j : ℕ) (a : PendingAuth) (status : Status)
    → w.auths i ≡ some a
    → answers_at (give_up w i a status) j ≡ answers_at w j
unfolding cleanup
give_up-answers w i j a status at = elim (Bool-cases (i == j)) [
  | inl e ↦
      let is_j : i ≡ j = ground (arith, e) in
      rw e (ap answers (sym at ∙ ap (λ (k : ℕ). w.auths k) is_j))
  | inr e ↦ rw e refl
]

invalidate-answers : (w : World) (i j : ℕ) → answers_at (invalidate w i) j ≡ answers_at w j
unfolding invalidate
invalidate-answers w i j = elim (Option-cases (w.auths i)) [
  | inl e ↦ rw e refl
  | inr (a, e) ↦ elim (Bool-cases a.resolved) [
    | inl r ↦ rw (e, r) refl
    | inr r ↦ rw (e, r) (give_up-answers w i j a invalidated e)
  ]
]

pub on_timeout-answers : (w : World) (i j : ℕ) → answers_at (on_timeout w i) j ≡ answers_at w j
unfolding on_timeout
on_timeout-answers w i j = elim (Option-cases (w.auths i)) [
  | inl e ↦ rw e refl
  | inr (a, e) ↦ elim (Bool-cases a.resolved) [
    | inl r ↦ rw (e, r) refl
    | inr r ↦ elim (Bool-cases a.timer) [
      | inl t ↦ rw (e, r, t) (give_up-answers w i j a timed_out e)
      | inr t ↦ rw (e, r, t) refl
    ]
  ]
]

sent_by-answers :
    (r : Bool) (a : PendingAuth) (id : Text) → (sent_by r a id).responses ≡ a.responses
sent_by-answers true a id = refl
sent_by-answers false a id = refl

put-answers :
    (w : World) (i j : ℕ) (a b : PendingAuth)
    → w.auths i ≡ some a
    → b.responses ≡ a.responses
    → answers (put_at w.auths i (some b) j) ≡ answers_at w j
put-answers w i j a b at kept = elim (Bool-cases (i == j)) [
  | inl e ↦
      let is_j : i ≡ j = ground (arith, e) in
      rw e (kept ∙ ap answers (sym at ∙ ap (λ (k : ℕ). w.auths k) is_j))
  | inr e ↦ rw e refl
]

pub finish_send-answers :
    (w : World) (i j : ℕ) (id : Option Text) → answers_at (finish_send w i id) j ≡ answers_at w j
unfolding finish_send
finish_send-answers w i j none = invalidate-answers w i j
finish_send-answers w i j (some id) = elim (Option-cases (w.auths i)) [
  | inl e ↦ rw e refl
  | inr (a, e) ↦
      rw e (put-answers w i j a (sent_by a.resolved a id) e (sent_by-answers a.resolved a id))
]

cleanup_all-answers :
    (rs : List (Text × ℕ)) (w : World) (j : ℕ)
    → answers_at (cleanup_all_pending w rs) j ≡ answers_at w j
unfolding cleanup_all_pending
cleanup_all-answers [] w j = refl
cleanup_all-answers ((id, i) ∷ rs) w j =
    cleanup_all-answers rs (invalidate w i) j ∙ invalidate-answers w i j

pub close_connection-answers :
    (w : World) (k j : ℕ) → answers_at (close_connection w k) j ≡ answers_at w j
unfolding close_connection
close_connection-answers w k j = cleanup_all-answers (w.conns k).pending _ j

drop_pending-answers :
    (rs : List (Text × ℕ)) (w : World) (j : ℕ) → answers_at (drop_pending w rs) j ≡ answers_at w j
unfolding drop_pending
drop_pending-answers [] w j = refl
drop_pending-answers ((id, i) ∷ rs) w j =
    drop_pending-answers rs
      (record (invalidate w i) { pending_map = delete id (invalidate w i).pending_map }) j
    ∙ invalidate-answers w i j

pub restart_worker-answers : (w : World) (j : ℕ) → answers_at (restart_worker w) j ≡ answers_at w j
unfolding restart_worker
restart_worker-answers w j =
    drop_pending-answers (close_current w w.current_conn).pending_map _ j ∙ closed w.current_conn
  where
    closed : (c : Option ℕ) → answers_at (close_current w c) j ≡ answers_at w j
    closed none = refl
    closed (some k) = close_connection-answers w k j

enter-answers :
    (w : World) (r : BotIpcRequest) (k j : ℕ)
    → w.auths w.next ≡ none
    → answers_at (enter w r k) j ≡ answers_at w j
enter-answers w r k j free = elim (Bool-cases (w.next == j)) [
  | inl e ↦
      let is_j : w.next ≡ j = ground (arith, e) in
      rw e (ap answers (sym free ∙ ap (λ (i : ℕ). w.auths i) is_j))
  | inr e ↦ rw e refl
]

if-answers :
    (b : Bool) (w v u : World) (j : ℕ)
    → answers_at w j ≡ answers_at u j
    → answers_at v j ≡ answers_at u j
    → answers_at (if b then w else v) j ≡ answers_at u j
if-answers true w v u j h k = h
if-answers false w v u j h k = k

pub accept_request-answers :
    (w : World) (r : BotIpcRequest) (k j : ℕ) → answers_at (accept_request w r k) j ≡ answers_at w j
unfolding accept_request
accept_request-answers w r k j =
    if-answers (not (is_well_formed r) || not (is_ready w)) w _ w j refl refl

advance_flight-answers :
    (w : World) (n : ℕ) (f : Flight) (s : Stage) (j : ℕ)
    → w.auths w.next ≡ none
    → answers_at (advance_flight w n f s) j ≡ answers_at w j
advance_flight-answers w n f admitted j free =
    if-answers (ltb_ℤ (pos 100) (succ_ℤ w.pending_counter)) _ _ w j refl refl
advance_flight-answers w n f reserved j free = elim (Option-cases (lookup f.req.id w.pending_map)) [
  | inr (i, e) ↦ rw (e, load_or_store) refl
  | inl e ↦ rw (e, load_or_store) (enter-answers w f.req f.conn j free)
]
advance_flight-answers w n f refused j free = refl
advance_flight-answers w n f (stored i) j free = refl
advance_flight-answers w n f (linked i) j free =
    if-answers (w.conns f.conn).active _ _ w j refl (invalidate-answers (reach w n f passed) i j)
advance_flight-answers w n f passed j free = refl

pub advance_request-answers :
    (w : World) (n j : ℕ)
    → w.auths w.next ≡ none
    → answers_at (advance_request w n) j ≡ answers_at w j
unfolding advance_request
advance_request-answers w n j free = elim (Option-cases (get_elem? w.flights n)) [
  | inl e ↦ rw (e, advance_request) refl
  | inr (f, e) ↦ rw (e, advance_request) (advance_flight-answers w n f f.stage j free)
]

-- What a click that the configuration lets through does to the answers.
pub resolve-answers :
    (w : World) (i j : ℕ) (approved written : Bool)
    → (answers_at (resolve w i approved written) j ≡ answers_at w j)
      ⊎ ((a : PendingAuth) × (i ≡ j)
          × (written ≡ true)
          × (w.auths i ≡ some a)
          × (a.resolved ≡ false)
          × ((w.conns a.conn).active ≡ true)
          × (answers_at (resolve w i approved written) j ≡ approved ∷ answers_at w j))
unfolding resolve cleanup
resolve-answers w i j approved written = elim (Option-cases (w.auths i)) [
  | inl e ↦ inl (rw e refl)
  | inr (a, e) ↦ elim (Bool-cases a.resolved) [
    | inl r ↦ inl (rw (e, r) refl)
    | inr r ↦ elim (Bool-cases ((w.conns a.conn).active && written)) [
      | inr d ↦ inl (rw (e, r, d) (give_up-answers w i j a delivery_failed e))
      | inl d ↦ elim (Bool-cases (i == j)) [
        | inr f ↦ inl (rw (e, r, d) (rw f refl))
        | inl f ↦
            let is_j : i ≡ j = ground (arith, f) in
            inr (
              a,
              is_j,
              ground (arith, d),
              e,
              r,
              ground (arith, d),
              rw (e, r, d)
                  (rw f (
                    ap (λ (o : Option PendingAuth). approved ∷ answers o)
                      (sym e ∙ ap (λ (k : ℕ). w.auths k) is_j))),
            )
      ]
    ]
  ]
]
