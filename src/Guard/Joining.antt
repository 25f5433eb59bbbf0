-- ===== src/Guard/Joining.antt =====
-- What a request to join a group leads to, and that the link of the mail works.
use polarix.Prelude.{
  ℕ, ◌*◌, ◌^◌, ◌≡◌, refl, sym, ap, subst, ◌∙◌, ◌⊎◌, inl, inr, Bool, true, false, Option, some, List,
  [], ◌∷◌, ◌++◌, Bool-cases, Option-cases, Text, str, same_refl, trim_space, lookup, insert, delete,
  lookup-insert, ℤ, pos, ltb_ℤ,
}
use polarix.Storage.{Answer, Storage, done, failed, found, get_value, holds, key_of, missing}
use polarix.Storage.Database.{Json, Key, Sql, StoredValue, a_flag, a_text}
use polarix.Storage.Map.{IsView, KeyMap}
use polarix.Storage.Answers.{get_value-found}
use polarix.Routes.{
  TemporaryRoute, handled, is_plugin_id, plus_ℤ, register_temporary_route, serve_found,
  serve_temporary_route,
}
use polarix.Guard.{
  Call, Guard, JoinContext, Outcomes, accept_join, accepts, bans, denies, enable_guard, finish_join,
  flag_of, group_storage, guard_enabled, handle_join, has_host, is_mail, mails, path_of_route,
  refuse_mail, sends_invalid_mail, text_of, verify_options, welcomes,
}

abbrev pub guard_key : Text → Key
guard_key group_id = key_of (group_storage group_id) enable_guard

-- Under the token there is a route that answers one GET within ten minutes, by the guard's handler.
abbrev pub IsVerifiable : List (Text × TemporaryRoute) → Text → Text → ℤ → Type 0
IsVerifiable items plugin_id token from =
    (now : ℤ)
    → ltb_ℤ now (plus_ℤ from (pos (10 * 60 * 10 ^ 9))) ≡ true
    → (route : TemporaryRoute) × (serve_temporary_route items
          (record { method = str "GET"; plugin_id = plugin_id; token = token; now = now })
        ≡ (delete token items, handled route))
      × (route.handler ≡ 0)

abbrev verify_route : Text → ℤ → TemporaryRoute
verify_route plugin_id from = record {
  plugin_id = plugin_id;
  expires_at = plus_ℤ from verify_options.ttl;
  method = str "GET";
  one_time = true;
  content_type = verify_options.content_type;
  handler = 0;
}

serve-verify_route :
    (items : List (Text × TemporaryRoute)) (plugin_id token : Text) (from now : ℤ)
    → ltb_ℤ now (plus_ℤ from verify_options.ttl) ≡ true
    → serve_found items
        (record { method = str "GET"; plugin_id = plugin_id; token = token; now = now })
        (verify_route plugin_id from)
      ≡ (delete token items, handled (verify_route plugin_id from))
unfolding serve_found
serve-verify_route items plugin_id token from now early =
    rw (same_refl plugin_id, early, same_refl (str "GET")) refl

register-IsVerifiable :
    (upper : ℕ → ℕ) (items : List (Text × TemporaryRoute)) (plugin_id token : Text) (from : ℤ)
    → is_plugin_id plugin_id ≡ true
    → IsVerifiable
        (register_temporary_route upper items plugin_id verify_options (some 0) (some token) from).0
        plugin_id
        token
        from
unfolding register_temporary_route serve_temporary_route serve_found trim_space
register-IsVerifiable upper items plugin_id token from plain now early =
    let route = verify_route plugin_id from in
    let found_at : lookup token (insert token route items) ≡ some route =
      lookup-insert token token route items ∙ rw (same_refl token) refl in
    let inserted : (register_temporary_route upper items plugin_id verify_options (some 0)
          (some token) from).0
        ≡ insert token route items =
      rw (plain, register_temporary_route) refl in
    (
      route,
      rw inserted (
          rw (found_at, serve_temporary_route)
            (serve-verify_route (insert token route items) plugin_id token from now early)),
      refl,
    )

flag_of-found : (a : Answer StoredValue) (b : Bool) → flag_of a ≡ some b → a ≡ found (a_flag b)
flag_of-found (found (a_flag c)) b e =
    let is_b : c ≡ b = cc in ap (λ (d : Bool). found (a_flag d)) is_b
flag_of-found (found (a_text t)) b e = cc
flag_of-found done b e = cc
flag_of-found missing b e = cc
flag_of-found (holds c) b e = cc
flag_of-found (failed x) b e = cc

module _ {D : Type 0} (sql : Sql D) (json : Json StoredValue) (upper : ℕ → ℕ) where
  guard_enabled-stored :
      (s : Storage D) (m : KeyMap StoredValue) (group_id : Text)
      → IsView sql json s m
      → (guard_enabled sql json upper s group_id).1 ≡ true
      → m (guard_key group_id) ≡ some (a_flag true)
  unfolding guard_enabled
  guard_enabled-stored s m group_id h e =
      let store = group_storage group_id in
      let r = get_value sql json s store enable_guard in
      elim (Option-cases (flag_of r.1)) [
        | inl n ↦ let clash : false ≡ true = sym (rw (n, guard_enabled) refl) ∙ e in cc
        | inr (b, f) ↦
            let is_on : b ≡ true = sym (rw (f, guard_enabled) refl) ∙ e in
            (get_value-found sql json s m store enable_guard h).1 (a_flag true)
              (flag_of-found r.1 true (f ∙ ap (λ (c : Bool). some c) is_on))
      ]

  finish_join-calls :
      (g : Guard D) (ctx : JoinContext) (path : Text) (o : Outcomes)
      → let q = (finish_join sql json upper g ctx path o).0 in
        (rest : List Call) × (q.calls ≡ rest ++ g.calls) × (q.items ≡ g.items)
  unfolding finish_join
  finish_join-calls g ctx path o =
      let a = (get_value sql json g.storage (group_storage ctx.group_id) (str "group_rule")).1 in
      elim (Option-cases o.welcome_error) [
        | inl e ↦
            rw (e, finish_join) (mails path ctx.answer ∷ welcomes (text_of a) ∷ [], refl, refl)
        | inr (x, e) ↦ rw (e, finish_join) (welcomes (text_of a) ∷ [], refl, refl)
      ]

  -- What is asked for behind the checks: a request that is accepted and then banned has a link that works.
  abbrev pub IsAccepted : Guard D → JoinContext → Outcomes → Guard D → Type 0
  IsAccepted g ctx o q =
      (q.calls ≡ accepts ∷ g.calls)
      ⊎ ((rest : List Call) × (q.calls ≡ rest ++ bans (43200 * 60 * 10 ^ 9) ∷ accepts ∷ g.calls)
          × ((token : Text)
              → o.token ≡ some token
              → is_plugin_id ctx.plugin_id ≡ true
              → IsVerifiable q.items ctx.plugin_id token o.now))

  accept_join-IsAccepted :
      (g : Guard D) (ctx : JoinContext) (o : Outcomes)
      → IsAccepted g ctx o (accept_join sql json upper g ctx o).0
  unfolding accept_join
  accept_join-IsAccepted g ctx o = elim (Option-cases o.accept_error) [
    | inr (x, e) ↦ rw (e, accept_join) (inl refl)
    | inl e ↦
        let r =
          register_temporary_route upper g.items ctx.plugin_id verify_options (some 0) o.token
            o.now in
        let banned : Guard D = record g {
          items = r.0;
          calls = bans (43200 * 60 * 10 ^ 9) ∷ accepts ∷ g.calls;
        } in
        let (rest, added, kept) = finish_join-calls banned ctx (path_of_route r.1) o in
        rw (e, accept_join)
          (inr (
            rest,
            added,
            λ token at plain.
                subst
                  (λ (is : List (Text × TemporaryRoute)). IsVerifiable is ctx.plugin_id token o.now)
                  (ap
                      (λ (t : Option Text).
                        (register_temporary_route upper g.items ctx.plugin_id verify_options
                          (some 0) t o.now).0)
                      (sym at)
                    ∙ sym kept)
                  (register-IsVerifiable upper g.items ctx.plugin_id token o.now plain),
          ))
  ]

-- Where the rows of the database stand for a map: a request to join either leads to no calls and no
-- route, or verification is switched on for the group in the map and there is a mail client, and then
-- an answer that is no mail address is only sent a message and denied; for a mail address the request
-- is accepted, and a ban comes only after that. With a ban, if there was a random token and the
-- plugin's id is a valid one, a GET of the route under that token, until ten minutes later, is answered
-- by the guard's handler, and takes the route out.
pub handle_join-IsAccepted :
    {D : Type 0} (sql : Sql D) (json : Json StoredValue) (upper : ℕ → ℕ) (g : Guard D)
    (m : KeyMap StoredValue) (ctx : JoinContext) (o : Outcomes)
    → IsView sql json g.storage m
    → let q = (handle_join sql json upper g ctx o).0 in
      ((q.calls ≡ g.calls) × (q.items ≡ g.items))
      ⊎ ((m (guard_key ctx.group_id) ≡ some (a_flag true))
          × (has_host g.smtp ≡ true)
          × (((is_mail ctx.answer ≡ false)
                × (q.items ≡ g.items)
                × ((q.calls ≡ sends_invalid_mail ∷ g.calls)
                    ⊎ (q.calls ≡ denies ∷ sends_invalid_mail ∷ g.calls)))
              ⊎ ((is_mail ctx.answer ≡ true) × IsAccepted sql json upper g ctx o q)))
unfolding handle_join refuse_mail
handle_join-IsAccepted {D} sql json upper g m ctx o h =
    elim (Bool-cases (guard_enabled sql json upper g.storage ctx.group_id).1) [
      | inr off ↦ rw (off, handle_join) (inl (refl, refl))
      | inl on ↦ elim (Bool-cases (has_host g.smtp)) [
        | inr bare ↦ rw (on, bare, handle_join) (inl (refl, refl))
        | inl host ↦
            let stored = guard_enabled-stored sql json upper g.storage m ctx.group_id h on in
            let next : Guard D = record g {
              storage = (guard_enabled sql json upper g.storage ctx.group_id).0;
            } in
            elim (Bool-cases (is_mail ctx.answer)) [
              | inl mail ↦
                  rw (on, host, mail, handle_join)
                    (inr
                      (stored, refl, inr (refl, accept_join-IsAccepted sql json upper next ctx o)))
              | inr none_given ↦
                  rw (on, host, none_given, handle_join)
                    (inr (stored, refl, inl (refl, (no_mail next).0, (no_mail next).1)))
            ]
      ]
    ]
  where
    no_mail :
        (next : Guard D)
        → let q = (refuse_mail sql json upper next o).0 in
          ((q.items ≡ next.items)
            × ((q.calls ≡ sends_invalid_mail ∷ next.calls)
                ⊎ (q.calls ≡ denies ∷ sends_invalid_mail ∷ next.calls)))
    no_mail next = elim (Option-cases o.message_error) [
      | inl e ↦ rw (e, refuse_mail) (refl, inr refl)
      | inr (x, e) ↦ rw (e, refuse_mail) (refl, inl refl)
    ]
