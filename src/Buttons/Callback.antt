-- ===== src/Buttons/Callback.antt =====
-- lib/buttons/callback.go: the ring of registered callbacks. A handler is named by a number.
-- The package's lock is a field: an operation that finds it taken waits for ever, as no other
-- operation is running that could release it.
pub mod Decimal
pub mod Ring
pub mod Lookup
pub mod Clicks
pub mod Tests
use polarix.Prelude.{
  ℕ, zero, suc, ◌+◌, ◌-◌, ◌*◌, ◌%◌, ◌^◌, ◌<◌, ◌≡◌, Bool, true, false, Option, none, some, List, [],
  ◌∷◌, Text, ltb, ◌==◌, if◌then◌else◌, length, get_elem?, set, replicate, ℤ, pos, negsuc, pos_part,
  neg_part, sub_ℕ, wrap64, AtoiResult, parsed, syntax_error, range_error, atoi, itoa,
}

pub record CallbackInfo : Type 0 where
  pub handle : Option ℕ  -- none is a nil function
  pub id : Text

pub record Table : Type 0 where
  pub callback_map : List (Option CallbackInfo)
  pub max_callback_storage : ℕ
  pub start_index : ℕ
  pub now_index : ℕ
  pub locked : Bool

-- The package's variables at start-up; the source's capacity is 10000.
unfoldable pub new_table : ℕ → Table
new_table max = record {
  callback_map = replicate max none;
  max_callback_storage = max;
  start_index = 0;
  now_index = 0;
  locked = false;
}

abbrev pub u64 : ℕ → ℕ
u64 n = n % 2 ^ 64

pub data Outcome (A : Type 0) : Type 0 where
  returned : A → Outcome A
  panicked : Outcome A
  blocked : Outcome A

-- `nowIndex++`, or back to the first slot.
abbrev pub next_index : ℕ → ℕ → ℕ
next_index max i = if ltb (u64 (max + 2 ^ 64 - 1)) (u64 (i + 1)) then 0 else u64 (i + 1)

-- RegisterCallbackFunc
unfoldable pub register_callback_func : Table → Text → Option ℕ → Table × Outcome Text
register_callback_func t id handle =
    let info : CallbackInfo = record { handle = handle; id = id } in
    let now' = next_index t.max_callback_storage t.now_index in
    let start' =
      if now' == t.start_index
      then next_index t.max_callback_storage t.start_index
      else t.start_index in
    let t' = record t {
      callback_map = set t.callback_map t.now_index (some info);
      now_index = now';
      start_index = start';
    } in
    if t.locked
    then (t, blocked)
    else if ltb t.now_index (length t.callback_map)
    then (t', returned (itoa t.now_index))
    else (t, panicked)

-- What InvokeCallback comes to: the handler that it calls with the button's id, or an error.
pub data Invoked : Type 0 where
  bad_number : Invoked
  not_registered : Invoked
  called : ℕ → Text → Invoked

-- The value that `startId, _ := strconv.Atoi(…)` takes, the error being dropped.
abbrev pub atoi_value : AtoiResult → ℤ
atoi_value (parsed z) = z
atoi_value syntax_error = pos 0
atoi_value (range_error z) = z

abbrev pub add64 : ℤ → ℤ → ℤ
add64 a b = wrap64 (sub_ℕ (pos_part a + pos_part b) (neg_part a + neg_part b))

abbrev pub sub64 : ℤ → ℤ → ℤ
sub64 a b = wrap64 (sub_ℕ (pos_part a + neg_part b) (neg_part a + pos_part b))

-- An index into the map, after Go's `%`, which keeps the sign of its left side.
abbrev pub slot : ℤ → ℕ → Option ℕ
slot (pos n) max = some (n % max)
slot (negsuc n) max = if (suc n % max) == 0 then some 0 else none

abbrev pub real_index : Table → CallbackInfo → ℤ → Option ℕ
real_index t first target =
    slot (add64 (sub64 target (atoi_value (atoi first.id))) (pos t.start_index))
      t.max_callback_storage

-- A read of the map: nil where the slot is empty, and no value where the index is out of range.
abbrev pub entry_at : Table → Option ℕ → Option CallbackInfo
entry_at t none = none
entry_at t (some i) = elim (get_elem? t.callback_map i) [ none ↦ none | some o ↦ o ]

abbrev pub call : CallbackInfo → Invoked
call info = elim info.handle [ none ↦ not_registered | some h ↦ called h info.id ]

-- The lock is released before the handler runs, and is not released on the ways out above that.
abbrev pub finish_invoke : Table → Option CallbackInfo → Table × Outcome Invoked
finish_invoke t none = (record t { locked = true }, panicked)
finish_invoke t (some info) = (t, returned (call info))

abbrev pub invoke_from : Table → Option CallbackInfo → ℤ → Table × Outcome Invoked
invoke_from t none target = (record t { locked = true }, panicked)
invoke_from t (some first) target = finish_invoke t (entry_at t (real_index t first target))

abbrev pub invoke_number : Table → AtoiResult → Table × Outcome Invoked
invoke_number t (parsed target) = invoke_from t (entry_at t (some t.start_index)) target
invoke_number t syntax_error = (record t { locked = true }, returned bad_number)
invoke_number t (range_error z) = (record t { locked = true }, returned bad_number)

-- InvokeCallback
unfoldable pub invoke_callback : Table → Text → Table × Outcome Invoked
invoke_callback t id = if t.locked then (t, blocked) else invoke_number t (atoi id)
