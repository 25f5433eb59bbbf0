-- ===== src/QqApi/Kept.antt =====
-- Where a token that is handed out comes from.
use polarix.Prelude.{
  ◌≡◌, refl, sym, ap, subst, ◌∙◌, ◌≢◌, inl, inr, true, false, Option, none, some, List, [], ◌∷◌,
  arith, Bool-cases, Option-cases, In, Text, is_empty, ℤ, ltb_ℤ, AtoiResult, parsed, syntax_error,
  range_error, atoi,
}
use polarix.QqApi.{
  TokenClient, TokenData, TokenOp, TokenReply, expiry, is_fresh, looks, parsed_int, refresh,
  refreshes, store_token, token, token_run, token_step,
}

-- The response of one of the operations carried the token and its lifetime.
abbrev pub IsIssued : List TokenOp → Text → ℤ → Type 0
IsIssued os t until =
    (now : ℤ) × (d : TokenData) × (stored_at : ℤ) × (n : ℤ) × In (refreshes now (some d) stored_at)
      os
    × (d.access_token ≡ t)
    × (atoi d.expire_time ≡ parsed n)
    × (until ≡ expiry stored_at n)

-- A token that is held was issued, with the expiry that is held.
abbrev IsHolding : List TokenOp → TokenClient → Type 0
IsHolding os c = c.access_token ≢ [] → IsIssued os c.access_token c.expire_at

more :
    (os : List TokenOp) (o : TokenOp) (t : Text) (until : ℤ)
    → IsIssued os t until
    → IsIssued (o ∷ os) t until
more os o t until (now, d, stored_at, n, there, a, b, e) =
    (now, d, stored_at, n, inr there, a, b, e)

parsed_int-parsed : (r : AtoiResult) (n : ℤ) → parsed_int r ≡ some n → r ≡ parsed n
parsed_int-parsed (parsed m) n e = let is_n : m ≡ n = cc in ap (λ (k : ℤ). parsed k) is_n
parsed_int-parsed syntax_error n e = cc
parsed_int-parsed (range_error m) n e = cc

-- What a step leaves and hands out, where the operations so far are `os` and the step is `o`.
abbrev IsHanded : List TokenOp → TokenOp → TokenClient × Option TokenReply → Type 0
IsHanded os o (c, reply) =
    IsHolding (o ∷ os) c
    × ((t : Text) → reply ≡ some (token t) → (t ≢ []) × IsIssued (o ∷ os) t c.expire_at)

token-injective : (s t : Text) → some (token s) ≡ some (token t) → s ≡ t
token-injective s t e = cc

fresh-IsHanded :
    (os : List TokenOp) (o : TokenOp) (c : TokenClient) (now : ℤ)
    → IsHolding os c
    → is_fresh c now ≡ true
    → IsHanded os o (c, some (token c.access_token))
unfolding is_fresh
fresh-IsHanded os o c now h fresh =
    let held : c.access_token ≢ [] = not_empty c.access_token (ground (arith, fresh)) in
    (
      λ n. more os o c.access_token c.expire_at (h n),
      λ t e.
          subst (λ (s : Text). (s ≢ []) × IsIssued (o ∷ os) s c.expire_at)
            (token-injective c.access_token t e)
            (held, more os o c.access_token c.expire_at (h held)),
    )
  where
    not_empty : (t : Text) → is_empty t ≡ false → t ≢ []
    not_empty [] e = let clash : true ≡ false = e in cc
    not_empty (a ∷ t) e = λ n. cc

kept-IsHanded :
    (os : List TokenOp) (o : TokenOp) (c : TokenClient) (reply : Option TokenReply)
    → IsHolding os c
    → ((t : Text) → reply ≢ some (token t))
    → IsHanded os o (c, reply)
kept-IsHanded os o c reply h none_handed =
    (λ n. more os o c.access_token c.expire_at (h n), λ t e. absurd (none_handed t e))

store_token-IsHanded :
    (os : List TokenOp) (c : TokenClient) (now : ℤ) (response : Option TokenData) (stored_at : ℤ)
    → IsHolding os c
    → let (d, reply) = store_token c response stored_at in
      IsHanded os (refreshes now response stored_at) (d, some reply)
unfolding store_token
store_token-IsHanded os c now none stored_at h = kept-IsHanded os _ c _ h (λ t e. cc)
store_token-IsHanded os c now (some d) stored_at h = elim (Bool-cases (is_empty d.access_token)) [
  | inl e ↦ rw (e, store_token) (kept-IsHanded os _ c _ h (λ t f. cc))
  | inr e ↦ elim (Option-cases (parsed_int (atoi d.expire_time))) [
    | inl p ↦ rw (e, p, store_token) (kept-IsHanded os _ c _ h (λ t f. cc))
    | inr (n, p) ↦
        let issued : IsIssued (refreshes now (some d) stored_at ∷ os) d.access_token
            (expiry stored_at n) =
          (
            now,
            d,
            stored_at,
            n,
            inl refl,
            refl,
            parsed_int-parsed (atoi d.expire_time) n p,
            refl,
          ) in
        rw (e, p, store_token)
          (
            λ held. issued,
            λ t f.
                subst
                  (λ (s : Text).
                    (s ≢ [])
                    × IsIssued (refreshes now (some d) stored_at ∷ os) s (expiry stored_at n))
                  (token-injective d.access_token t f)
                  (
                    λ none_left.
                        let clash : false ≡ true =
                          sym e ∙ ap (λ (u : Text). is_empty u) none_left in
                        cc,
                    issued,
                  ),
          )
  ]
]

token_step-IsHanded :
    (os : List TokenOp) (c : TokenClient) (o : TokenOp)
    → IsHolding os c
    → IsHanded os o (token_step c o)
unfolding token_step refresh
token_step-IsHanded os c (looks now) h = elim (Bool-cases (is_fresh c now)) [
  | inl e ↦ rw (e, token_step) (fresh-IsHanded os (looks now) c now h e)
  | inr e ↦ rw (e, token_step) (kept-IsHanded os (looks now) c none h (λ t f. cc))
]
token_step-IsHanded os c (refreshes now response stored_at) h = elim (Bool-cases (is_fresh c now)) [
  | inl e ↦
      rw (e, token_step, refresh) (fresh-IsHanded os (refreshes now response stored_at) c now h e)
  | inr e ↦ rw (e, token_step, refresh) (store_token-IsHanded os c now response stored_at h)
]

token_run-IsHolding : (os : List TokenOp) → IsHolding os (token_run os)
unfolding token_run
token_run-IsHolding [] = λ held. absurd (held refl)
token_run-IsHolding (o ∷ os) = (token_step-IsHanded os (token_run os) o (token_run-IsHolding os)).0

-- After any calls, those that got an error or a wrong response included: a token that a call hands out
-- is not empty, and was the token of a response that one of the calls, or this one, received, whose
-- lifetime is a number; the client then holds the expiry that follows from that response. A call that
-- takes the token at its first look does so before that expiry.
pub token_step-IsIssued :
    (os : List TokenOp) (o : TokenOp) (t : Text)
    → (token_step (token_run os) o).1 ≡ some (token t)
    → (t ≢ [])
      × IsIssued (o ∷ os) t (token_step (token_run os) o).0.expire_at
      × ((now : ℤ) → o ≡ looks now → ltb_ℤ now (token_step (token_run os) o).0.expire_at ≡ true)
unfolding token_step is_fresh
token_step-IsIssued os o t e =
    let (held, issued) = (token_step-IsHanded os (token_run os) o (token_run-IsHolding os)).1 t e in
    (held, issued, λ now is_look. early now is_look)
  where
    early : (now : ℤ) → o ≡ looks now → ltb_ℤ now (token_step (token_run os) o).0.expire_at ≡ true
    early now is_look =
        let handed : (token_step (token_run os) (looks now)).1 ≡ some (token t) =
          ap (λ (p : TokenOp). (token_step (token_run os) p).1) (sym is_look) ∙ e in
        subst (λ (p : TokenOp). ltb_ℤ now (token_step (token_run os) p).0.expire_at ≡ true)
          (sym is_look)
          (elim (Bool-cases (is_fresh (token_run os) now)) [
            | inl f ↦ rw (f, token_step) (ground (arith, f))
            | inr f ↦
                let clash : none ≡ some (token t) = sym (rw (f, token_step) refl) ∙ handed in cc
          ])
