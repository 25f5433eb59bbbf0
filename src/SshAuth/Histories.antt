-- ===== src/SshAuth/Histories.antt =====
-- Restarts and whole histories keep the requests sound.
use polarix.Prelude.{
  ℕ, ◌≡◌, refl, sym, ap, subst, ◌∙◌, ◌⊎◌, inl, inr, Bool, true, false, Option, none, some, List, [],
  ◌∷◌, arith, if◌then◌else◌, Bool-cases, Option-cases, length, Text, same, same_refl,
  delete-missing, empty-lookup, lookup, delete, lookup-delete, sub_ℕ,
}
use polarix.SshAuth.Connections.{
  cleanup_all_pending, close_connection, close_current, connected, disconnected, drop_pending,
  restart_worker,
}
use polarix.SshAuth.{
  PendingAuth, World, give_up, handle_approval_callback, invalidate, invalidated, may_approve,
  put_at,
}
use polarix.SshAuth.Settings.{apply_config, next_config}
use polarix.SshAuth.Steps.{
  Op, advances, clicks, configures, connects, disconnects, expires, gets_client, init, requests,
  sends, ssh_run, step,
}
use polarix.SshAuth.Flights.{holds, sub_self, total, within-holds}
use polarix.SshAuth.Sound.{IsSound, rest-IsSound}
use polarix.SshAuth.Keep.{
  finish_send-IsSound, give_up-lookup, give_up-shut, invalidate-IsSound, on_timeout-IsSound,
  resolve-IsSound,
}
use polarix.SshAuth.Entering.{accept_request-IsSound, advance_request-IsSound}

cleanup_all-IsSound :
    {lost : ℕ} (rs : List (Text × ℕ)) (w : World)
    → IsSound lost w
    → IsSound lost (cleanup_all_pending w rs)
unfolding cleanup_all_pending
cleanup_all-IsSound [] w h = h
cleanup_all-IsSound ((id, i) ∷ rs) w h =
    cleanup_all-IsSound rs (invalidate w i) (invalidate-IsSound w i h)

close_connection-IsSound :
    {lost : ℕ} (w : World) (k : ℕ) → IsSound lost w → IsSound lost (close_connection w k)
unfolding close_connection
close_connection-IsSound {lost} w k h =
    let closed : IsSound lost (record w {
      conns = put_at w.conns k (record { active = false; pending = (w.conns k).pending });
    }) =
      rest-IsSound w w.config w.has_client _ w.current_conn h in
    let cleaned = cleanup_all-IsSound (w.conns k).pending _ closed in rest-IsSound _ _ _ _ _ cleaned

-- What invalidate does: nothing, or it gives the request up.
invalidate_cases :
    (w : World) (i : ℕ)
    → ((invalidate w i ≡ w) × ((a : PendingAuth) → w.auths i ≡ some a → a.resolved ≡ true))
      ⊎ ((a : PendingAuth) × (invalidate w i ≡ give_up w i a invalidated))
unfolding invalidate
invalidate_cases w i = elim (Option-cases (w.auths i)) [
  | inl d ↦ inl (rw d refl, λ a e. let clash : none ≡ some a = sym d ∙ e in cc)
  | inr (b, d) ↦ elim (Bool-cases b.resolved) [
    | inl r ↦
        inl
          (rw (d, r) refl, λ a e. let is_b : some b ≡ some a = sym d ∙ e in ground (arith, is_b, r))
    | inr r ↦ inr (b, rw (d, r) refl)
  ]
]

-- A request that was invalidated is not open.
invalidate-shut :
    (w : World) (i : ℕ) (a : PendingAuth) → (invalidate w i).auths i ≡ some a → a.resolved ≡ true
invalidate-shut w i a e = elim (invalidate_cases w i) [
  | inl (idle, shut) ↦ shut a (sym (ap (λ (v : World). v.auths i) idle) ∙ e)
  | inr (b, gone) ↦
      let at : (give_up w i b invalidated).auths i ≡ some a =
        sym (ap (λ (v : World). v.auths i) gone) ∙ e in
      give_up-shut w i a b invalidated at
]

invalidate-lookup :
    (w : World) (i : ℕ) (k : Text) (j : ℕ)
    → lookup k (invalidate w i).pending_map ≡ some j
    → lookup k w.pending_map ≡ some j
invalidate-lookup w i k j e = elim (invalidate_cases w i) [
  | inl (idle, shut) ↦ sym (ap (λ (v : World). lookup k v.pending_map) idle) ∙ e
  | inr (b, gone) ↦
      give_up-lookup w i k j b invalidated
        (sym (ap (λ (v : World). lookup k v.pending_map) gone) ∙ e)
]

-- The entries of the map that are left have their places in the rest of the loop.
abbrev Agrees : List (Text × ℕ) → World → Type 0
Agrees rs w = (k : Text) (j : ℕ) → lookup k w.pending_map ≡ some j → lookup k rs ≡ some j

abbrev dropped : World → Text → ℕ → World
dropped w id i = record (invalidate w i) { pending_map = delete id (invalidate w i).pending_map }

invalidate-gone :
    {lost : ℕ} (w : World) (id : Text) (i : ℕ) (rs : List (Text × ℕ))
    → IsSound lost w
    → Agrees ((id, i) ∷ rs) w
    → lookup id (invalidate w i).pending_map ≡ none
unfolding lookup
invalidate-gone w id i rs h agrees = elim (Option-cases (lookup id (invalidate w i).pending_map)) [
  | inl e ↦ e
  | inr (j, e) ↦
      let (a, at, a_open, a_id) = (invalidate-IsSound w i h).entries id j e in
      let place : lookup id ((id, i) ∷ rs) ≡ some j = agrees id j (invalidate-lookup w i id j e) in
      let is_i : some i ≡ some j = ground (arith, place, same_refl id) in
      let here : (invalidate w i).auths i ≡ some a = ground (arith, is_i, at) in
      let clash : true ≡ false = sym (invalidate-shut w i a here) ∙ a_open in cc
]

drop_pending-IsSound :
    {lost : ℕ} (rs : List (Text × ℕ)) (w : World)
    → IsSound lost w
    → Agrees rs w
    → IsSound lost (drop_pending w rs) × ((drop_pending w rs).pending_map ≡ [])
unfolding drop_pending lookup
drop_pending-IsSound [] w h agrees = (
  h,
  empty-lookup w.pending_map (λ k. elim (Option-cases (lookup k w.pending_map)) [
    | inl e ↦ e
    | inr (j, e) ↦ let clash : none ≡ some j = agrees k j e in cc
  ]),
)
drop_pending-IsSound {lost} ((id, i) ∷ rs) w h agrees =
    let gone = invalidate-gone w id i rs h agrees in
    let unchanged = delete-missing id (invalidate w i).pending_map gone in
    drop_pending-IsSound rs (dropped w id i)
      (subst (λ (m : List (Text × ℕ)). IsSound lost (record (invalidate w i) { pending_map = m }))
        (sym unchanged) (invalidate-IsSound w i h))
      (λ k j e. elim (Bool-cases (same id k)) [
        | inl d ↦
            let clash : none ≡ some j =
              ground (arith, lookup-delete id k (invalidate w i).pending_map, d, e) in
            cc
        | inr d ↦
            let kept : lookup k (invalidate w i).pending_map ≡ some j =
              ground (arith, lookup-delete id k (invalidate w i).pending_map, d, e) in
            let place : lookup k ((id, i) ∷ rs) ≡ some j =
              agrees k j (invalidate-lookup w i k j kept) in
            ground (arith, place, d)
      ])

-- A restart loses count of the reservations that are held.
restart_worker-IsSound :
    {lost : ℕ} (w : World)
    → IsSound lost w
    → IsSound (total holds (restart_worker w).flights) (restart_worker w)
      × ((restart_worker w).pending_map ≡ [])
unfolding restart_worker
restart_worker-IsSound {lost} w h =
    let v = close_current w w.current_conn in
    let (d, emptied) = drop_pending-IsSound v.pending_map v (closed w.current_conn) (λ k j e. e) in
    let left = (drop_pending v v.pending_map).flights in
    let none_left : length (drop_pending v v.pending_map).pending_map ≡ 0 =
      ap (λ (m : List (Text × ℕ)). length m) emptied in
    (
      record {
        good = d.good;
        fresh = d.fresh;
        entries = d.entries;
        distinct = d.distinct;
        counted =
            sub_self (total holds left)
            ∙ ap (λ (n : ℕ). sub_ℕ n (total holds left)) (omega (arith, none_left));
        bounded = omega (arith, none_left, within-holds left);
      },
      emptied,
    )
  where
    closed : (c : Option ℕ) → IsSound lost (close_current w c)
    closed none = h
    closed (some k) = rest-IsSound _ _ _ _ _ (close_connection-IsSound w k h)

abbrev pub restarts : Op → Bool
restarts (configures values) = true
restarts gets_client = true
restarts _ = false

-- The number of reservations that a restart has lost count of, which starts at `lost`: those that
-- were held at the last restart.
abbrev pub lost_after : ℕ → World → List Op → ℕ
lost_after lost w [] = lost
lost_after lost w (o ∷ os) =
    let v = step w o in lost_after (if restarts o then total holds v.flights else lost) v os

pub step-IsSound :
    {lost : ℕ} (w : World) (o : Op)
    → IsSound lost w
    → IsSound (if restarts o then total holds (step w o).flights else lost) (step w o)
unfolding step apply_config handle_approval_callback connected disconnected
step-IsSound w (requests r k) h = accept_request-IsSound w r k h
step-IsSound w (advances n) h = advance_request-IsSound w n h
step-IsSound w (sends i id) h = finish_send-IsSound w i id h
step-IsSound w (clicks i approved k written) h = elim (Bool-cases (may_approve w.config k)) [
  | inl e ↦ rw e (resolve-IsSound w i approved written h)
  | inr e ↦ rw e h
]
step-IsSound w (expires i) h = on_timeout-IsSound w i h
step-IsSound w (connects k) h = rest-IsSound w _ _ _ _ h
step-IsSound w (disconnects k) h = rest-IsSound _ _ _ _ _ (close_connection-IsSound w k h)
step-IsSound w (configures values) h =
    (restart_worker-IsSound (record w { config = next_config values })
      (rest-IsSound w (next_config values) _ _ _ h)).0
step-IsSound w gets_client h =
    (restart_worker-IsSound (record w { has_client = true }) (rest-IsSound w _ true _ _ h)).0

run_lem :
    (os : List Op) (lost : ℕ) (w : World)
    → IsSound lost w
    → IsSound (lost_after lost w os) (ssh_run w os)
unfolding ssh_run
run_lem [] lost w h = h
run_lem (o ∷ os) lost w h = run_lem os _ (step w o) (step-IsSound w o h)

pub ssh_run-IsSound : (os : List Op) → IsSound (lost_after 0 init os) (ssh_run init os)
unfolding init lookup
ssh_run-IsSound os = run_lem os 0 init (record {
  good = λ i a e. cc;
  fresh = λ i above. refl;
  entries = λ id i e. cc;
  distinct = tt;
  counted = refl;
  bounded = ground arith;
})
