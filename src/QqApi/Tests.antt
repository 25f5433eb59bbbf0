-- ===== src/QqApi/Tests.antt =====
-- Calls for the token, and the theorem at a concrete input.
use polarix.Prelude.{◌*◌, ◌^◌, ◌≡◌, refl, ◌≢◌, true, none, some, List, [], ◌∷◌, str, ℤ, pos, ltb_ℤ}
use polarix.QqApi.{
  TokenData, TokenOp, bad_expiry, looks, new_token_client, no_token, refreshes, store_token, token,
  token_run, token_step,
}
use polarix.QqApi.Kept.{IsIssued, token_step-IsIssued}

abbrev two_minutes : TokenData
two_minutes = record { access_token = str "t0"; expire_time = str "120" }

abbrev first_refresh : List TokenOp
first_refresh = refreshes (pos 0) (some two_minutes) (pos 0) ∷ []

kept_for_70_seconds :
    (token_run first_refresh ≡ record { access_token = str "t0"; expire_at = pos (70 * 10 ^ 9) })
    × ((token_step (token_run first_refresh) (looks (pos (69 * 10 ^ 9)))).1
        ≡ some (token (str "t0")))
    × ((token_step (token_run first_refresh) (looks (pos (70 * 10 ^ 9)))).1 ≡ none)
unfolding token_run
kept_for_70_seconds = (refl, refl, refl)

refused_expiry :
    (store_token new_token_client (some (record two_minutes { expire_time = str "2h" })) (pos 0)).1
    ≡ no_token bad_expiry
unfolding store_token
refused_expiry = refl

handed_out : (token_step (token_run first_refresh) (looks (pos 1))).1 ≡ some (token (str "t0"))
unfolding token_run
handed_out = refl

token_step-IsIssued_example :
    (str "t0" ≢ [])
    × IsIssued
        (looks (pos 1) ∷ first_refresh)
        (str "t0")
        (token_step (token_run first_refresh) (looks (pos 1))).0.expire_at
    × ((now : ℤ)
        → looks (pos 1) ≡ looks now
        → ltb_ℤ now (token_step (token_run first_refresh) (looks (pos 1))).0.expire_at ≡ true)
token_step-IsIssued_example =
    token_step-IsIssued first_refresh (looks (pos 1)) (str "t0") handed_out
