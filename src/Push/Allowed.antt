-- ===== src/Push/Allowed.antt =====
-- When a request makes the plugin push a message.
use polarix.Prelude.{
  ◌≡◌, refl, ap, ◌≢◌, ◌⊎◌, inl, inr, Bool, true, false, not, ◌&&◌, Option, none, some, [], ◌∷◌,
  arith, Bool-cases, Option-cases, Text, str, same, same_iff, is_empty, trim_space, ascii_lower,
}
use polarix.Storage.{
  Answer, Storage, done, failed, found, get_value, global, has_value, holds, key_of, missing,
}
use polarix.Storage.Database.{Json, Key, Sql, StoredValue, a_flag, a_text}
use polarix.Storage.Map.{IsView, KeyMap, is_bound}
use polarix.Storage.Answers.{get_value-found, has_value-holds}
use polarix.Push.{
  Push, PushPayload, PushRequest, Sent, build_payload, check_enabled, enabled_key, http_handle,
  is_stored, provided_key, push_allowed, push_enabled, push_key, verify_push_key,
}

abbrev pub global_key : Text → Key
global_key key = key_of (some global) key

-- The message of a request: the conversation is named, the key is the stored one, and pushing to the
-- conversation is enabled.
abbrev pub IsAllowed : KeyMap StoredValue → Text → Text → Option PushRequest → Text → Sent → Type 0
IsAllowed m scope openid body header item =
    (req : PushRequest) × (body ≡ some req)
    × (item.scope ≡ scope)
    × (item.openid ≡ openid)
    × ((scope ≡ str "group") ⊎ (scope ≡ str "private"))
    × (provided_key header req ≢ [])
    × (m (global_key (push_key openid)) ≡ some (a_text (provided_key header req)))
    × (is_bound (m (global_key (enabled_key scope openid))) ≡ true)
    × (build_payload (ascii_lower req.type) (trim_space req.content) ≡ some item.payload)

is_stored-found : (k : Text) (a : Answer StoredValue) → is_stored k a ≡ true → a ≡ found (a_text k)
is_stored-found k done e = cc
is_stored-found k missing e = cc
is_stored-found k (holds b) e = cc
is_stored-found k (failed x) e = cc
is_stored-found k (found (a_flag b)) e = cc
is_stored-found k (found (a_text t)) e = ap (λ (u : Text). found (a_text u)) ((same_iff t k).0 e)

module _ {D : Type 0} (sql : Sql D) (json : Json StoredValue) where
  pub verify_push_key-stored :
      (s : Storage D) (m : KeyMap StoredValue) (openid provided : Text)
      → IsView sql json s m
      → IsView sql json (verify_push_key sql json s openid provided).0 m
        × ((verify_push_key sql json s openid provided).1 ≡ true
            → (provided ≢ []) × (m (global_key (push_key openid)) ≡ some (a_text provided)))
  unfolding verify_push_key
  verify_push_key-stored s m openid [] h = (h, λ e. let clash : false ≡ true = e in cc)
  verify_push_key-stored s m openid (c ∷ k) h =
      let (view, value) = get_value-found sql json s m (some global) (push_key openid) h in
      (
        view,
        λ e. (
          (λ n. cc),
          value (a_text (c ∷ k))
              (is_stored-found (c ∷ k) (get_value sql json s (some global) (push_key openid)).1 e),
        ),
      )

  -- Behind the guards: a message is sent only with a payload for it.
  push_allowed-sends :
      (p : Push D) (scope openid : Text) (req : PushRequest) (failure : Option Text)
      → let (q, code) = push_allowed sql json p scope openid req failure in
        ((q.sent ≡ p.sent) × (code ≢ 200))
        ⊎ ((payload : PushPayload) × (q.sent
              ≡ record { scope = scope; openid = openid; payload = payload } ∷ p.sent)
            × (build_payload (ascii_lower req.type) (trim_space req.content) ≡ some payload))
  unfolding push_allowed
  push_allowed-sends p scope openid req failure = elim (Bool-cases p.has_client) [
    | inr c ↦ rw (c, push_allowed) (inl (refl, λ e. absurd (ground (arith, e))))
    | inl c ↦ elim (Bool-cases (is_empty (trim_space req.content))) [
      | inl n ↦ rw (c, n, push_allowed) (inl (refl, λ e. absurd (ground (arith, e))))
      | inr n ↦
          elim (Option-cases (build_payload (ascii_lower req.type) (trim_space req.content))) [
            | inl b ↦ rw (c, n, b, push_allowed) (inl (refl, λ e. absurd (ground (arith, e))))
            | inr (payload, b) ↦ rw (c, n, b, push_allowed) (inr (payload, refl, refl))
          ]
    ]
  ]

  check_enabled-sends :
      (p : Push D) (m : KeyMap StoredValue) (scope openid : Text) (req : PushRequest)
      (failure : Option Text)
      → IsView sql json p.storage m
      → let (q, code) = check_enabled sql json p scope openid req failure in
        ((q.sent ≡ p.sent) × (code ≢ 200))
        ⊎ ((payload : PushPayload) × (q.sent
              ≡ record { scope = scope; openid = openid; payload = payload } ∷ p.sent)
            × (build_payload (ascii_lower req.type) (trim_space req.content) ≡ some payload)
            × (is_bound (m (global_key (enabled_key scope openid))) ≡ true))
  check_enabled-sends p m scope openid req failure h =
      let (view, value) =
        has_value-holds sql json p.storage m (some global) (enabled_key scope openid) h in
      let r = has_value sql json p.storage (some global) (enabled_key scope openid) in
      by_answer r.0 r.1 value
    where
      by_answer :
          (s : Storage D) (a : Answer StoredValue)
          → ((b : Bool) → a ≡ holds b → is_bound (m (global_key (enabled_key scope openid))) ≡ b)
          → let (q, code) =
              push_enabled sql json (record p { storage = s }) scope openid req failure a in
            ((q.sent ≡ p.sent) × (code ≢ 200))
            ⊎ ((payload : PushPayload) × (q.sent
                  ≡ record { scope = scope; openid = openid; payload = payload } ∷ p.sent)
                × (build_payload (ascii_lower req.type) (trim_space req.content) ≡ some payload)
                × (is_bound (m (global_key (enabled_key scope openid))) ≡ true))
      by_answer s (holds true) value =
          elim (push_allowed-sends (record p { storage = s }) scope openid req failure) [
            | inl kept ↦ inl kept
            | inr (payload, new, built) ↦ inr (payload, new, built, value true refl)
          ]
      by_answer s (holds false) value = inl (refl, λ e. absurd (ground (arith, e)))
      by_answer s done value = inl (refl, λ e. absurd (ground (arith, e)))
      by_answer s missing value = inl (refl, λ e. absurd (ground (arith, e)))
      by_answer s (found v) value = inl (refl, λ e. absurd (ground (arith, e)))
      by_answer s (failed x) value = inl (refl, λ e. absurd (ground (arith, e)))

-- Where the rows of the database stand for a map: an HTTP request either sends nothing and is not
-- answered with 200, or it sends just one message, to the conversation that it names, and then its key
-- is not empty and is the text that is stored as that conversation's key, pushing to the conversation
-- is enabled in the map, and the message is the payload for its type and its trimmed content.
pub http_handle-IsAllowed :
    {D : Type 0} (sql : Sql D) (json : Json StoredValue) (p : Push D) (m : KeyMap StoredValue)
    (scope openid : Text) (body : Option PushRequest) (header : Text) (failure : Option Text)
    → IsView sql json p.storage m
    → let (q, code) = http_handle sql json p scope openid body header failure in
      ((q.sent ≡ p.sent) × (code ≢ 200))
      ⊎ ((item : Sent) × (q.sent ≡ item ∷ p.sent) × IsAllowed m scope openid body header item)
unfolding http_handle
http_handle-IsAllowed sql json p m scope openid none header failure h =
    elim (Bool-cases (not (same scope (str "group")) && not (same scope (str "private")))) [
      | inl e ↦ rw (e, http_handle) (inl (refl, λ c. absurd (ground (arith, c))))
      | inr e ↦ elim (Bool-cases (is_empty openid)) [
        | inl n ↦ rw (e, n, http_handle) (inl (refl, λ c. absurd (ground (arith, c))))
        | inr n ↦ rw (e, n, http_handle) (inl (refl, λ c. absurd (ground (arith, c))))
      ]
    ]
http_handle-IsAllowed sql json p m scope openid (some req) header failure h =
    elim (Bool-cases (not (same scope (str "group")) && not (same scope (str "private")))) [
      | inl e ↦ rw (e, http_handle) (inl (refl, λ c. absurd (ground (arith, c))))
      | inr e ↦ elim (Bool-cases (is_empty openid)) [
        | inl n ↦ rw (e, n, http_handle) (inl (refl, λ c. absurd (ground (arith, c))))
        | inr n ↦
            let key = provided_key header req in
            let (view, stored) = verify_push_key-stored sql json p.storage m openid key h in
            elim (Bool-cases (verify_push_key sql json p.storage openid key).1) [
              | inr v ↦ rw (e, n, v, http_handle) (inl (refl, λ c. absurd (ground (arith, c))))
              | inl v ↦
                  let s = (verify_push_key sql json p.storage openid key).0 in
                  rw (e, n, v, http_handle)
                    (elim (check_enabled-sends sql json (record p { storage = s }) m scope openid
                      req failure view) [
                        | inl kept ↦ inl kept
                        | inr (payload, new, built, bound) ↦ inr (
                          record { scope = scope; openid = openid; payload = payload },
                          new,
                          (
                            req,
                            refl,
                            refl,
                            refl,
                            scopes e,
                            (stored v).0,
                            (stored v).1,
                            bound,
                            built,
                          ),
                        )
                      ])
            ]
      ]
    ]
  where
    scopes :
        not (same scope (str "group")) && not (same scope (str "private")) ≡ false
        → (scope ≡ str "group") ⊎ (scope ≡ str "private")
    scopes e = elim (Bool-cases (same scope (str "group"))) [
      | inl g ↦ inl ((same_iff scope (str "group")).0 g)
      | inr g ↦ inr ((same_iff scope (str "private")).0 (ground (arith, g, e)))
    ]
