-- ===== src/SshAuth/Keep.antt =====
-- Every operation keeps the requests sound.
use polarix.Prelude.{
  ℕ, suc, ◌≤◌, ◌≡◌, refl, sym, ap, subst, ◌∙◌, inl, inr, Bool, true, false, ◌&&◌, Option, none,
  some, List, [], ◌∷◌, arith, ◌==◌, Bool-cases, Option-cases, length, Text, lookup, lookup-delete,
}
use polarix.SshAuth.Requests.{finish_send, sent_by}
use polarix.SshAuth.{
  BotIpcRequest, PendingAuth, Status, World, cleanup, delivered, delivery_failed, give_up,
  has_message, invalidate, invalidated, on_timeout, put_at, recalled, resolve, timed_out,
}
use polarix.SshAuth.Sound.{IsGood, IsSound, cleanup-IsSound}

recalled_once : (a : PendingAuth) → has_message a.msg ≡ true → 1 ≤ recalled a
recalled_once a e = rw e (ground arith)

silent_at :
    {lost : ℕ} {w : World} {i : ℕ} {a : PendingAuth}
    → IsSound lost w
    → w.auths i ≡ some a
    → a.resolved ≡ false
    → a.responses ≡ []
silent_at {i} {a} h at open_at = elim (h.good i a at) [
  | inl o ↦ o.silent
  | inr s ↦ let clash : true ≡ false = sym s.resolved_at ∙ open_at in cc
]

give_up-IsSound :
    {lost : ℕ} (w : World) (i : ℕ) (a : PendingAuth) (status : Status)
    → IsSound lost w
    → w.auths i ≡ some a
    → a.resolved ≡ false
    → IsSound lost (give_up w i a status)
give_up-IsSound w i a status h at open_at =
    cleanup-IsSound w i a (record a { resolved = true; status = status; recalls = recalled a }) h at
      open_at refl
      (record {
        resolved_at = refl;
        quiet = refl;
        ended = inr (silent_at h at open_at, recalled_once a);
      })

pub invalidate-IsSound :
    {lost : ℕ} (w : World) (i : ℕ) → IsSound lost w → IsSound lost (invalidate w i)
unfolding invalidate
invalidate-IsSound w i h = elim (Option-cases (w.auths i)) [
  | inl e ↦ rw e h
  | inr (a, e) ↦ elim (Bool-cases a.resolved) [
    | inl r ↦ rw (e, r) h
    | inr r ↦ rw (e, r) (give_up-IsSound w i a invalidated h e r)
  ]
]

pub on_timeout-IsSound :
    {lost : ℕ} (w : World) (i : ℕ) → IsSound lost w → IsSound lost (on_timeout w i)
unfolding on_timeout
on_timeout-IsSound w i h = elim (Option-cases (w.auths i)) [
  | inl e ↦ rw e h
  | inr (a, e) ↦ elim (Bool-cases a.resolved) [
    | inl r ↦ rw (e, r) h
    | inr r ↦ elim (Bool-cases a.timer) [
      | inl t ↦ rw (e, r, t) (give_up-IsSound w i a timed_out h e r)
      | inr t ↦ rw (e, r, t) h
    ]
  ]
]

pub resolve-IsSound :
    {lost : ℕ} (w : World) (i : ℕ) (approved written : Bool)
    → IsSound lost w
    → IsSound lost (resolve w i approved written)
unfolding resolve
resolve-IsSound w i approved written h = elim (Option-cases (w.auths i)) [
  | inl e ↦ rw e h
  | inr (a, e) ↦ elim (Bool-cases a.resolved) [
    | inl r ↦ rw (e, r) h
    | inr r ↦ elim (Bool-cases ((w.conns a.conn).active && written)) [
      | inr d ↦ rw (e, r, d) (give_up-IsSound w i a delivery_failed h e r)
      | inl d ↦
          rw (e, r, d)
            (cleanup-IsSound w i a
              (record a { resolved = true; status = delivered; responses = approved ∷ a.responses })
              h e r refl
              (record {
                resolved_at = refl;
                quiet = refl;
                ended = inl (refl, ap (λ (l : List Bool). suc (length l)) (silent_at h e r));
              }))
    ]
  ]
]

-- A request is put back with the same id, as open or as taken as it was.
put-IsSound :
    {lost : ℕ} (w : World) (i : ℕ) (a b : PendingAuth)
    → IsSound lost w
    → w.auths i ≡ some a
    → b.req ≡ a.req
    → b.resolved ≡ a.resolved
    → IsGood w.pending_map i b
    → IsSound lost (record w { auths = put_at w.auths i (some b) })
put-IsSound w i a b h at same_req same_res good = record {
  good = λ j c c_at. elim (Bool-cases (i == j)) [
    | inl e ↦
        let is_b : b ≡ c = ground (arith, c_at, e) in
        let is_j : i ≡ j = ground (arith, e) in
        subst (λ (k : ℕ). IsGood w.pending_map k c) is_j
          (subst (λ (x : PendingAuth). IsGood w.pending_map i x) is_b good)
    | inr e ↦ let old : w.auths j ≡ some c = ground (arith, c_at, e) in h.good j c old
  ];
  fresh = λ j above. elim (Bool-cases (i == j)) [
    | inl e ↦
        let is_j : i ≡ j = ground (arith, e) in
        let clash : some a ≡ none = sym at ∙ ap (λ (k : ℕ). w.auths k) is_j ∙ h.fresh j above in cc
    | inr e ↦ rw e (h.fresh j above)
  ];
  entries = λ id j found.
      let (c, c_at, c_open, c_id) = h.entries id j found in
      elim (Bool-cases (i == j)) [
        | inl e ↦
            let is_j : i ≡ j = ground (arith, e) in
            let is_a : some a ≡ some c = sym at ∙ ap (λ (k : ℕ). w.auths k) is_j ∙ c_at in
            let a_open : a.resolved ≡ false = ground (arith, is_a, c_open) in
            let a_id : a.req.id ≡ id = ground (arith, is_a, c_id) in
            (b, rw e refl, same_res ∙ a_open, ap (λ (r : BotIpcRequest). r.id) same_req ∙ a_id)
        | inr e ↦ (c, rw e c_at, c_open, c_id)
      ];
  distinct = h.distinct;
  counted = h.counted;
  bounded = h.bounded;
}

sent_by-IsGood :
    (r : Bool) (m : List (Text × ℕ)) (i : ℕ) (a : PendingAuth) (id : Text)
    → a.resolved ≡ r
    → IsGood m i a
    → IsGood m i (sent_by r a id)
sent_by-IsGood true m i a id r (inl o) = let clash : true ≡ false = sym r ∙ o.open_at in cc
sent_by-IsGood true m i a id r (inr s) = inr (record {
  resolved_at = r;
  quiet = s.quiet;
  ended = elim s.ended [
    | inl answered ↦ inl answered
    | inr (silent, old) ↦ inr (silent, recalled_once (record a { msg = some id }))
  ];
})
sent_by-IsGood false m i a id r (inr s) = let clash : true ≡ false = sym s.resolved_at ∙ r in cc
sent_by-IsGood false m i a id r (inl o) =
    inl (record { open_at = o.open_at; found = o.found; silent = o.silent; armed = λ k e. refl })

sent_by-keeps :
    (r : Bool) (a : PendingAuth) (id : Text)
    → ((sent_by r a id).req ≡ a.req) × ((sent_by r a id).resolved ≡ a.resolved)
sent_by-keeps true a id = (refl, refl)
sent_by-keeps false a id = (refl, refl)

pub finish_send-IsSound :
    {lost : ℕ} (w : World) (i : ℕ) (id : Option Text)
    → IsSound lost w
    → IsSound lost (finish_send w i id)
unfolding finish_send
finish_send-IsSound w i none h = invalidate-IsSound w i h
finish_send-IsSound w i (some id) h = elim (Option-cases (w.auths i)) [
  | inl e ↦ rw e h
  | inr (a, e) ↦
      let (same_req, same_res) = sent_by-keeps a.resolved a id in
      rw e (
        put-IsSound w i a (sent_by a.resolved a id) h e same_req same_res
          (sent_by-IsGood a.resolved w.pending_map i a id refl (h.good i a e)))
]

-- Giving a request up takes its id out of the map, and nothing else.
pub give_up-lookup :
    (w : World) (i : ℕ) (k : Text) (j : ℕ) (a : PendingAuth) (status : Status)
    → lookup k (give_up w i a status).pending_map ≡ some j
    → lookup k w.pending_map ≡ some j
unfolding cleanup
give_up-lookup w i k j a status e = ground (arith, lookup-delete a.req.id k w.pending_map, e)

pub give_up-shut :
    (w : World) (i : ℕ) (a b : PendingAuth) (status : Status)
    → (give_up w i b status).auths i ≡ some a
    → a.resolved ≡ true
unfolding cleanup
give_up-shut w i a b status e = ground (arith, e)
