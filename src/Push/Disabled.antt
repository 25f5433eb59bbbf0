-- ===== src/Push/Disabled.antt =====
-- A conversation that was closed to pushing.
use polarix.Prelude.{
  ◌≡◌, refl, sym, ap, ◌∙◌, ◌≢◌, inl, inr, true, false, Option, none, some, if◌then◌else◌, Text,
  same_refl,
}
use polarix.Storage.{Answer, delete_value, done, failed, found, global, holds, missing}
use polarix.Storage.Database.{Json, Key, Sql, StoredValue, same_key}
use polarix.Storage.Map.{IsView, KeyMap}
use polarix.Storage.Answers.{delete_value-done}
use polarix.Push.{
  Push, PushContext, PushRequest, Reply, disable_push, disabled, enabled_key, http_handle, reply_to,
  resolve_target,
}
use polarix.Push.Allowed.{global_key, http_handle-IsAllowed}

reply_to-done :
    (scope : Text) (a : Answer StoredValue)
    → reply_to (disabled scope) a ≡ disabled scope
    → a ≡ done
reply_to-done scope done e = refl
reply_to-done scope (failed x) e = cc
reply_to-done scope (found v) e = cc
reply_to-done scope missing e = cc
reply_to-done scope (holds b) e = cc

same_key_refl : (k : Key) → same_key k k ≡ true
unfolding same_key
same_key_refl (a, b, c) = rw (same_refl a, same_refl b, same_refl c) refl

-- Where the rows of the database stand for a map: after a /disablepush that reports that pushing to its
-- conversation is disabled, an HTTP request for that conversation sends nothing and is not answered with
-- 200, whatever its key and body are.
pub disable_push-http_handle :
    {D : Type 0} (sql : Sql D) (json : Json StoredValue) (p : Push D) (m : KeyMap StoredValue)
    (ctx : PushContext) (scope openid : Text) (body : Option PushRequest) (header : Text)
    (failure : Option Text)
    → IsView sql json p.storage m
    → resolve_target ctx ≡ inr (scope, openid)
    → (disable_push sql json p ctx).1 ≡ disabled scope
    → let (q, code) =
        http_handle sql json (disable_push sql json p ctx).0 scope openid body header failure in
      ((q.sent ≡ p.sent) × (code ≢ 200))
unfolding disable_push
disable_push-http_handle {D} sql json p m ctx scope openid body header failure h target fine =
    let k = enabled_key scope openid in
    let r = delete_value sql json p.storage (some global) k in
    let next : Push D = record p { storage = r.0 } in
    let is_next : disable_push sql json p ctx ≡ (next, reply_to (disabled scope) r.1) =
      rw (target, disable_push) refl in
    let deleted : r.1 ≡ done =
      reply_to-done scope r.1 (ap (λ (c : Push D × Reply). c.1) (sym is_next) ∙ fine) in
    let view = delete_value-done sql json p.storage m (some global) k h deleted in
    let n : KeyMap StoredValue = λ j. if same_key (global_key k) j then none else m j in
    rw is_next (elim (http_handle-IsAllowed sql json next n scope openid body header failure view) [
      | inl kept ↦ kept
      | inr (item, new, allowed) ↦
          let (req, is_req, to, into, named, keyed, stored, bound, built) = allowed in
          let clash : false ≡ true = sym (rw (same_key_refl (global_key k)) refl) ∙ bound in cc
    ])
