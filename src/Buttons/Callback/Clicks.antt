-- ===== src/Buttons/Callback/Clicks.antt =====
-- What a click comes to: before the ring has come round, after it, and with an id that is no number.
use native.Mathlib.Decide.{dec_lt}
use native.Mathlib.Nat.{mod-eq_of_lt, mod_self, add-zero}
use polarix.Prelude.{
  ℕ, suc, ◌+◌, ◌%◌, ◌<◌, ◌≡◌, refl, ap, ◌∙◌, ◌≢◌, false, Option, some, List, [], ◌∷◌, ◌++◌, arith,
  length, get_elem?, length-append, All, Text, int64_top, syntax_error, atoi, itoa,
}
use polarix.Buttons.Callback.{
  CallbackInfo, Table, bad_number, blocked, call, invoke_callback, new_table, next_index,
  register_callback_func, returned,
}
use polarix.Buttons.Callback.Ring.{
  register_returns, size-register, start-register, unlocked-register,
}
use polarix.Buttons.Callback.Lookup.{
  Holds, IsNamed, Loading, get_elem?-middle, get_elem?-IsNamed, held-register, invoke-Holds,
  register_all, register_all-new_table,
}

register_all-append :
    (t : Table) (es more : List CallbackInfo)
    → register_all t (es ++ more) ≡ register_all (register_all t es) more
register_all-append t [] more = refl
register_all-append t (e ∷ es) more =
    register_all-append (register_callback_func t e.id e.handle).0 es more

Loading-Holds : (t : Table) (es : List CallbackInfo) → Loading t es → Holds t es
Loading-Holds t es h = record {
  fits = h.ring.fits;
  start_in = rw h.start h.ring.positive;
  free = h.free;
  held = h.held;
}

-- While fewer callbacks have been registered than the ring has slots, and their own ids are no
-- numbers, a registration returns its position, and that id calls the handler registered with it,
-- with the id that the button was given, whatever was registered before and after.
pub invoke-register :
    (max : ℕ) (before : List CallbackInfo) (e : CallbackInfo) (after : List CallbackInfo)
    → max + max < int64_top
    → length (before ++ e ∷ after) < max
    → All IsNamed (before ++ e ∷ after)
    → ((register_callback_func (register_all (new_table max) before) e.id e.handle).1
        ≡ returned (itoa (length before)))
      × (invoke_callback (register_all (new_table max) (before ++ e ∷ after)) (itoa (length before))
          ≡ (register_all (new_table max) (before ++ e ∷ after), returned (call e)))
invoke-register max before e after top room named = (
  register_returns (register_all (new_table max) before) e.id e.handle first.ring first.free
      ∙ ap (λ (n : ℕ). returned (itoa n)) first.now,
  invoke-Holds _ es (length before) head.0 e (Loading-Holds _ es last) (omega (arith, short, size))
      (rw last.start head.1) head.2
      (rw (last.start, size) (rw at_position (get_elem?-middle before e after))),
)
  where
    es : List CallbackInfo
    es = before ++ e ∷ after

    short : length es ≡ length before + suc (length after)
    short = length-append before (e ∷ after)

    first : Loading (register_all (new_table max) before) before
    first = (register_all-new_table max before (omega arith) top (omega (arith, short))).0

    last : Loading (register_all (new_table max) es) es
    last = (register_all-new_table max es (omega arith) top room).0

    size : (register_all (new_table max) es).max_callback_storage ≡ max
    size = (register_all-new_table max es (omega arith) top room).1

    head : (x : CallbackInfo) × (get_elem? es 0 ≡ some x) × IsNamed x
    head = get_elem?-IsNamed es 0 named (omega (arith, short))

    at_position : (length before + 0) % max ≡ length before
    at_position = rw add-zero (mod-eq_of_lt (omega (arith, short)))

next_slot-ne : (max k : ℕ) → 1 < max → k < max → (k + 1) % max ≢ k
next_slot-ne max k h lt e = elim (dec_lt (k + 1) max) [
  | yes more ↦ omega (arith, mod-eq_of_lt more)
  | no done ↦ let wraps : k + 1 ≡ max = omega arith in omega (arith, rw wraps at e, mod_self max)
]

-- Let a table of capacity max, where max + max fits an int, start empty and have exactly max
-- handlers registered, at least two, whose own ids are all no numbers. Then every id k below max calls the handler of the slot (k + 1) % max, which is not the slot k: the
-- lookup adds the start of the ring to an id that already counts from the beginning of the map.
pub invoke-full :
    (max : ℕ) (before : List CallbackInfo) (newest : CallbackInfo) (k : ℕ) (e : CallbackInfo)
    → max + max < int64_top
    → suc (length before) ≡ max
    → 0 < length before
    → All IsNamed (before ++ newest ∷ [])
    → k < max
    → get_elem? (before ++ newest ∷ []) ((k + 1) % max) ≡ some e
    → (invoke_callback (register_all (new_table max) (before ++ newest ∷ [])) (itoa k)
        ≡ (register_all (new_table max) (before ++ newest ∷ []), returned (call e)))
      × ((k + 1) % max ≢ k)
invoke-full max before newest k e top full some_before named lt at_next = (
  rw (register_all-append (new_table max) before (newest ∷ [])) (
      invoke-Holds u es k second.0 e holds (rw size lt) (rw start second.1) second.2
        (rw (start, size) at_next)),
  next_slot-ne max k (omega arith) lt,
)
  where
    es : List CallbackInfo
    es = before ++ newest ∷ []

    t : Table
    t = register_all (new_table max) before

    u : Table
    u = (register_callback_func t newest.id newest.handle).0

    first : Loading t before
    first = (register_all-new_table max before (omega arith) top (omega arith)).0

    old_size : t.max_callback_storage ≡ max
    old_size = (register_all-new_table max before (omega arith) top (omega arith)).1

    size : u.max_callback_storage ≡ max
    size = size-register t newest.id newest.handle first.ring first.free ∙ old_size

    second : (x : CallbackInfo) × (get_elem? es 1 ≡ some x) × IsNamed x
    second = get_elem?-IsNamed es 1 named (omega (arith, length-append before (newest ∷ [])))

    wraps : next_index t.max_callback_storage t.now_index ≡ 0
    wraps = rw (first.now, old_size) (ground arith)

    start : u.start_index ≡ 1
    start =
        start-register t newest.id newest.handle first.ring first.free
        ∙ rw (wraps, first.start, old_size) (ground arith)

    holds : Holds u es
    holds = record {
      fits = rw size top;
      start_in = rw (start, size) (omega arith);
      free = unlocked-register t newest.id newest.handle first.ring first.free;
      held = held-register t before newest first;
    }

-- An id that is no number is refused with an error and leaves the lock taken: from then on every
-- registration and every click waits for ever.
pub invoke_bad_number-blocks :
    (t : Table) (id : Text)
    → t.locked ≡ false
    → atoi id ≡ syntax_error
    → let u = (invoke_callback t id).0 in
      ((invoke_callback t id).1 ≡ returned bad_number)
      × ((name : Text) (handle : Option ℕ) → register_callback_func u name handle ≡ (u, blocked))
      × ((other : Text) → invoke_callback u other ≡ (u, blocked))
unfolding invoke_callback register_callback_func
invoke_bad_number-blocks t id free bad = simp (free, bad) (refl, λ name handle. refl, λ other. refl)
