-- ===== src/SshAuth/Authority.antt =====
-- Only a click that the configuration lets through answers a request, and a request whose message was
-- sent can always be ended by its timer.
use polarix.Prelude.{
  ℕ, suc, ◌≡◌, refl, sym, ap, subst, ◌∙◌, ◌≢◌, ◌⊎◌, inl, inr, Bool, true, false, not, none, some,
  List, [], ◌∷◌, ◌++◌, arith, if◌then◌else◌, Bool-cases, In, Text, str, same, same_iff, same_refl,
  is_empty, lookup, lookup-delete,
}
use polarix.Middleware.{clicks, role_can_use}
use polarix.Plugin.Access.{has_text}
use polarix.SshAuth.Connections.{connected, disconnected}
use polarix.SshAuth.{
  Click, Config, PendingAuth, World, cleanup, handle_approval_callback, may_approve, no_users,
  on_timeout, recalled, timed_out,
}
use polarix.SshAuth.Settings.{apply_config, next_config}
use polarix.SshAuth.Steps.{
  Op, advances, clicks, configures, connects, disconnects, expires, gets_client, init, requests,
  sends, ssh_run, step,
}
use polarix.SshAuth.Sound.{IsSound}
use polarix.SshAuth.Histories.{ssh_run-IsSound, step-IsSound}
use polarix.SshAuth.Answers.{
  IsAnswer, accept_request-answers, advance_request-answers, answers_at, close_connection-answers,
  finish_send-answers, on_timeout-answers, resolve-answers, restart_worker-answers,
}

-- Who may approve: someone in the configured group, who is in the list, or where there is no list has
-- no role given or is an administrator or the owner.
abbrev pub IsApprover : Config → Click → Type 0
IsApprover cfg k =
    (k.group_id ≢ [])
    × (k.group_id ≡ cfg.group_id)
    × (((cfg.allowed_users ≢ []) × In k.user_id cfg.allowed_users)
        ⊎ ((cfg.allowed_users ≡ [])
            × ((k.role ≡ []) ⊎ (k.role ≡ str "admin") ⊎ (k.role ≡ str "owner"))))

has_text-In : (t : Text) (ts : List Text) → has_text t ts ≡ true → In t ts
unfolding has_text
has_text-In t [] h = cc
has_text-In t (s ∷ ss) h = elim (Bool-cases (same t s)) [
  | inl e ↦ inl ((same_iff t s).0 e)
  | inr e ↦ inr (has_text-In t ss (ground (arith, e, h)))
]

no_users-nil : (us : List Text) → no_users us ≡ true → us ≡ []
no_users-nil [] e = refl
no_users-nil (u ∷ us) e = cc

empty_role : (t : Text) → is_empty t ≡ true → t ≡ []
empty_role [] e = refl
empty_role (c ∷ t) e = cc

admin_roles :
    (t : Text) → role_can_use (str "admin") t ≡ true → (t ≡ str "admin") ⊎ (t ≡ str "owner")
unfolding role_can_use same
admin_roles t h = elim (Bool-cases (same t (str "admin"))) [
  | inl e ↦ inl ((same_iff t (str "admin")).0 e)
  | inr e ↦ elim (Bool-cases (same t (str "owner"))) [
    | inl f ↦ inr ((same_iff t (str "owner")).0 f)
    | inr f ↦ let clash : false ≡ true = sym (rw (e, f) refl) ∙ h in cc
  ]
]

may_approve-IsApprover : (cfg : Config) (k : Click) → may_approve cfg k ≡ true → IsApprover cfg k
unfolding may_approve
may_approve-IsApprover cfg k h = (
  λ e. ground (arith, h, e),
  ground (arith, h, same_iff k.group_id cfg.group_id),
  elim (Bool-cases (no_users cfg.allowed_users)) [
    | inr e ↦ inl (
      λ none_given. ground (arith, none_given, e),
      has_text-In k.user_id cfg.allowed_users (ground (arith, h, e)),
    )
    | inl e ↦ inr (
      no_users-nil cfg.allowed_users e,
      elim (Bool-cases (is_empty k.role)) [
        | inl r ↦ inl (empty_role k.role r)
        | inr r ↦ inr (admin_roles k.role (ground (arith, h, e, r)))
      ],
    )
  ],
)

step_answers :
    {lost : ℕ} (w : World) (o : Op) (j : ℕ)
    → IsSound lost w
    → (answers_at (step w o) j ≡ answers_at w j)
      ⊎ ((b : Bool) × IsAnswer w o j b × (answers_at (step w o) j ≡ b ∷ answers_at w j))
unfolding step apply_config handle_approval_callback connected disconnected
step_answers w (requests r k) j h = inl (accept_request-answers w r k j)
step_answers w (advances n) j h = inl (advance_request-answers w n j (h.fresh w.next (omega arith)))
step_answers w (sends i id) j h = inl (finish_send-answers w i j id)
step_answers w (clicks i approved k written) j h = elim (Bool-cases (may_approve w.config k)) [
  | inr e ↦ inl (rw e refl)
  | inl e ↦ elim (resolve-answers w i j approved written) [
    | inl kept ↦ inl (rw e kept)
    | inr (a, is_j, took, at, a_open, up, new) ↦ inr (
      approved,
      (k, a, ground (arith, is_j, took), e, sym (ap (λ (n : ℕ). w.auths n) is_j) ∙ at, a_open, up),
      rw e new,
    )
  ]
]
step_answers w (expires i) j h = inl (on_timeout-answers w i j)
step_answers w (connects k) j h = inl refl
step_answers w (disconnects k) j h = inl (close_connection-answers w k j)
step_answers w (configures values) j h =
    inl (restart_worker-answers (record w { config = next_config values }) j)
step_answers w gets_client j h = inl (restart_worker-answers (record w { has_client = true }) j)

-- How an answer came about: a step of the history, and the state in which it was taken.
abbrev pub IsAnswered : World → List Op → ℕ → Bool → Type 0
IsAnswered w os j b =
    (before : List Op) × (o : Op) × (after : List Op) × (os ≡ before ++ o ∷ after)
    × IsAnswer (ssh_run w before) o j b

answers_traced :
    (os : List Op) (lost : ℕ) (w : World) (j : ℕ) (b : Bool)
    → IsSound lost w
    → In b (answers_at (ssh_run w os) j)
    → In b (answers_at w j) ⊎ IsAnswered w os j b
unfolding ssh_run
answers_traced [] lost w j b h there = inl there
answers_traced (o ∷ os) lost w j b h there =
    elim (answers_traced os _ (step w o) j b (step-IsSound w o h) there) [
      | inr (before, o', after, at, answer) ↦
          inr (o ∷ before, o', after, ap (λ (l : List Op). o ∷ l) at, answer)
      | inl earlier ↦ elim (step_answers w o j h) [
        | inl kept ↦ inl (subst (λ (l : List Bool). In b l) kept earlier)
        | inr (c, answer, new) ↦
            let split_at : In b (c ∷ answers_at w j) =
              subst (λ (l : List Bool). In b l) new earlier in
            elim split_at [
              | inl is_c ↦
                  inr ([], o, os, refl, subst (λ (d : Bool). IsAnswer w o j d) (sym is_c) answer)
              | inr older ↦ inl older
            ]
      ]
    ]

-- In any history from the start, an answer that was written for a request stands for a step of the
-- history: a click on that request's button with that answer, by someone who may approve under the
-- configuration of that moment, while the request was open and its connection was up.
pub answers-IsApprover :
    (os : List Op) (j : ℕ) (b : Bool)
    → In b (answers_at (ssh_run init os) j)
    → (before : List Op) × (k : Click) × (after : List Op) × (os
        ≡ before ++ clicks j b k true ∷ after)
      × IsApprover (ssh_run init before).config k
      × ((a : PendingAuth) × ((ssh_run init before).auths j ≡ some a)
          × (a.resolved ≡ false)
          × (((ssh_run init before).conns a.conn).active ≡ true))
unfolding init ssh_run
answers-IsApprover os j b there = elim (answers_traced os _ init j b (ssh_run-IsSound []) there) [
  | inl none_yet ↦ absurd none_yet
  | inr (before, o, after, at, (k, a, is_click, allowed, found, a_open, up)) ↦ (
    before,
    k,
    after,
    subst (λ (x : Op). os ≡ before ++ x ∷ after) is_click at,
    may_approve-IsApprover (ssh_run init before).config k allowed,
    (a, found, a_open, up),
  )
]

open_auth :
    {lost : ℕ} (w : World) (i : ℕ) (a : PendingAuth)
    → IsSound lost w
    → w.auths i ≡ some a
    → a.resolved ≡ false
    → (id : Text) → a.msg ≡ some id
    → (a.responses ≡ []) × (a.timer ≡ true)
open_auth w i a h at a_open id sent_at = elim (h.good i a at) [
  | inl o ↦ (o.silent, o.armed id sent_at)
  | inr s ↦ let clash : true ≡ false = sym s.resolved_at ∙ a_open in cc
]

-- In any history from the start: a request whose message was sent and that is still open can be ended
-- by its timer, which takes it out of the map, answers nothing and asks for the deletion of the
-- message.
pub on_timeout-ends :
    (os : List Op) (i : ℕ) (a : PendingAuth) (id : Text)
    → (ssh_run init os).auths i ≡ some a
    → a.resolved ≡ false
    → a.msg ≡ some id
    → let v = step (ssh_run init os) (expires i) in
      ((b : PendingAuth) × (v.auths i ≡ some b)
        × (b.resolved ≡ true)
        × (b.status ≡ timed_out)
        × (b.responses ≡ [])
        × (id ≢ [] → b.recalls ≡ suc a.recalls))
      × (lookup a.req.id v.pending_map ≡ none)
unfolding step on_timeout cleanup
on_timeout-ends os i a id at a_open sent_at =
    let h = ssh_run-IsSound os in
    let (silent, armed) = open_auth (ssh_run init os) i a h at a_open id sent_at in
    rw (at, a_open, armed)
      (
        (
          record (given_up a) { timer = false },
          ground arith,
          refl,
          refl,
          silent,
          λ named. rw sent_at (recall id named),
        ),
        lookup-delete a.req.id a.req.id (ssh_run init os).pending_map
            ∙ (rw (same_refl a.req.id) refl),
      )
  where
    given_up : PendingAuth → PendingAuth
    given_up c = record c { resolved = true; status = timed_out; recalls = recalled c }

    recall :
        (t : Text)
        → t ≢ []
        → (if not (is_empty t) then suc a.recalls else a.recalls) ≡ suc a.recalls
    recall [] named = absurd (named refl)
    recall (c ∷ t) named = refl
