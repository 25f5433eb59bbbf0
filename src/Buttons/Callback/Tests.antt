-- ===== src/Buttons/Callback/Tests.antt =====
-- The theorems on clicks at a ring of three slots, and runs that follow the source.
use polarix.Prelude.{◌≡◌, refl, ap, some, [], ◌∷◌, arith, str, atoi, itoa}
use polarix.Buttons.Callback.{
  CallbackInfo, Invoked, Outcome, Table, blocked, called, invoke_callback, new_table, panicked,
  register_callback_func, returned,
}
use polarix.Buttons.Callback.Ring.{IsRing, new_table-IsRing, register-IsRing}
use polarix.Buttons.Callback.Lookup.{register_all}
use polarix.Buttons.Callback.Clicks.{invoke-full, invoke-register, invoke_bad_number-blocks}

abbrev approve : CallbackInfo
approve = record { handle = some 1; id = str "approve" }

abbrev deny : CallbackInfo
deny = record { handle = some 2; id = str "deny" }

abbrev other : CallbackInfo
other = record { handle = some 3; id = str "other" }

register-IsRing_example : IsRing (register_callback_func (new_table 3) (str "approve") (some 1)).0
unfolding new_table
register-IsRing_example =
    register-IsRing (new_table 3) (str "approve") (some 1)
      (new_table-IsRing 3 (omega arith) (omega arith)) refl

invoke-register_example :
    (register_callback_func (register_all (new_table 3) (approve ∷ [])) (str "deny") (some 2)).1
    ≡ returned (itoa 1)
unfolding atoi
invoke-register_example =
    (invoke-register 3 (approve ∷ []) deny [] (omega arith) (omega arith) (refl, (refl, tt))).0

invoke-full_example :
    (invoke_callback (register_all (new_table 3) (approve ∷ deny ∷ other ∷ [])) (itoa 0)).1
    ≡ returned (called 2 (str "deny"))
unfolding atoi
invoke-full_example =
    ap (λ (r : Table × Outcome Invoked). r.1)
      (invoke-full 3 (approve ∷ deny ∷ []) other 0 deny (omega arith) refl (omega arith)
        (refl, (refl, (refl, tt))) (omega arith) refl).0

invoke_bad_number-blocks_example :
    (invoke_callback (invoke_callback (new_table 3) (str "not_a_number")).0 (str "0")).1 ≡ blocked
unfolding new_table atoi
invoke_bad_number-blocks_example =
    ap (λ (r : Table × Outcome Invoked). r.1)
      ((invoke_bad_number-blocks (new_table 3) (str "not_a_number") refl refl).2 (str "0"))

fresh_click_panics : (invoke_callback (new_table 3) (str "0")).1 ≡ panicked
unfolding new_table invoke_callback atoi
fresh_click_panics = refl

printed : itoa 9999 ≡ str "9999"
unfolding itoa
printed = refl
