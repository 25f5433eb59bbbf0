-- ===== src/Buttons/Callback/Ring.antt =====
-- The state of the ring between two calls of RegisterCallbackFunc and InvokeCallback.
use polarix.Prelude.{
  ℕ, suc, ◌+◌, ◌≤◌, ◌<◌, ◌≡◌, refl, sym, ◌∙◌, ◌≢◌, ◌⊎◌, inl, inr, false, Option, none, some, List,
  arith, ◌==◌, if◌then◌else◌, length, get_elem?, set, length-set, length-replicate,
  get_elem?-set_self, get_elem?-set_ne, Text, int64_top, itoa,
}
use native.Mathlib.Decide.{ℕ_discrete}
use polarix.Buttons.Callback.{
  CallbackInfo, Table, new_table, next_index, register_callback_func, returned,
}

-- A slot below `n` that is empty does not exist.
abbrev pub FilledBelow : ℕ → List (Option CallbackInfo) → Type 0
FilledBelow n m = (i : ℕ) → i < n → (info : CallbackInfo) × (get_elem? m i ≡ some (some info))

-- Either the ring has not come round yet: its start is slot 0 and the slots below `now_index` are
-- in use; or all of it is in use and its start follows the slot that is written next.
pub record IsRing (t : Table) : Type 0 where
  pub sized : length t.callback_map ≡ t.max_callback_storage
  pub positive : 0 < t.max_callback_storage
  pub fits : t.max_callback_storage + t.max_callback_storage < int64_top
  pub now_in : t.now_index < t.max_callback_storage
  pub shape :
      ((t.start_index ≡ 0) × FilledBelow t.now_index t.callback_map)
      ⊎ ((t.start_index ≡ next_index t.max_callback_storage t.now_index)
          × FilledBelow t.max_callback_storage t.callback_map)

pub new_table-IsRing : (max : ℕ) → 0 < max → max + max < int64_top → IsRing (new_table max)
unfolding new_table
new_table-IsRing max h top = record {
  sized = length-replicate max none;
  positive = h;
  fits = top;
  now_in = h;
  shape = inl (refl, λ i lt. absurd (omega arith));
}

next_index-lt : (max i : ℕ) → max < int64_top → i < max → next_index max i < max
next_index-lt max i top h = ground arith

-- In range the words do not wrap.
pub next_index_cases :
    (max i : ℕ)
    → max < int64_top
    → i < max
    → ((suc i ≡ max) × (next_index max i ≡ 0)) ⊎ ((suc i < max) × (next_index max i ≡ suc i))
next_index_cases max i top h = ground arith

FilledBelow-set :
    (n : ℕ) (m : List (Option CallbackInfo)) (k : ℕ) (info : CallbackInfo)
    → n ≤ length m
    → ((i : ℕ) → i < n → (i ≢ k) → (x : CallbackInfo) × (get_elem? m i ≡ some (some x)))
    → FilledBelow n (set m k (some info))
FilledBelow-set n m k info le old i h = elim (ℕ_discrete i k) [
  | yes e ↦ rw e (info, get_elem?-set_self m k (some info) (omega arith))
  | no e ↦ let p = old i h e in (p.0, get_elem?-set_ne m k i (some info) (λ q. e (sym q)) ∙ p.1)
]

module _ (t : Table) (id : Text) (handle : Option ℕ) (r : IsRing t) (free : t.locked ≡ false) where
  -- A registration is given the slot that is written next, and the ring keeps its shape.
  pub register_returns : (register_callback_func t id handle).1 ≡ returned (itoa t.now_index)
  unfolding register_callback_func
  register_returns = rw free (ground (arith, r.sized, r.now_in))

  pub map-register :
      (register_callback_func t id handle).0.callback_map
      ≡ set t.callback_map t.now_index (some (record { handle = handle; id = id }))
  unfolding register_callback_func
  map-register = rw free (ground (arith, r.sized, r.now_in))

  pub now-register :
      (register_callback_func t id handle).0.now_index
      ≡ next_index t.max_callback_storage t.now_index
  unfolding register_callback_func
  now-register = rw free (ground (arith, r.sized, r.now_in))

  pub start-register : (register_callback_func t id handle).0.start_index ≡ (
      if next_index t.max_callback_storage t.now_index == t.start_index
      then next_index t.max_callback_storage t.start_index
      else t.start_index)
  unfolding register_callback_func
  start-register = rw free (ground (arith, r.sized, r.now_in))

  pub size-register :
      (register_callback_func t id handle).0.max_callback_storage ≡ t.max_callback_storage
  unfolding register_callback_func
  size-register = rw free (ground (arith, r.sized, r.now_in))

  pub unlocked-register : (register_callback_func t id handle).0.locked ≡ false
  unfolding register_callback_func
  unlocked-register = rw free (ground (arith, r.sized, r.now_in))

  -- The slots that are in use stay in use, and the slot written joins them.
  filled-register :
      (n : ℕ)
      → n ≤ t.max_callback_storage
      → ((i : ℕ)
          → i < n
          → (i ≢ t.now_index)
          → (x : CallbackInfo) × (get_elem? t.callback_map i ≡ some (some x)))
      → FilledBelow n (register_callback_func t id handle).0.callback_map
  filled-register n le old =
      rw map-register (FilledBelow-set n t.callback_map t.now_index _ (omega (arith, r.sized)) old)

  -- The ring keeps its shape, whether or not the registration overwrites an older one.
  pub register-IsRing : IsRing (register_callback_func t id handle).0
  register-IsRing = record {
    sized = rw (map-register, size-register) (length-set t.callback_map t.now_index _ ∙ r.sized);
    positive = rw size-register r.positive;
    fits = rw size-register r.fits;
    now_in =
        rw (now-register, size-register)
          (next_index-lt t.max_callback_storage t.now_index (omega (arith, r.fits)) r.now_in);
    shape = elim r.shape [
      | inl (zero_start, filled) ↦
          elim (next_index_cases t.max_callback_storage t.now_index (omega (arith, r.fits))
            r.now_in) [
              | inl (full, back) ↦ inr (
                rw (start-register, now-register, size-register) (ground arith),
                rw size-register (
                    filled-register t.max_callback_storage (omega arith)
                      (λ i lt ne. filled i (omega arith))),
              )
              | inr (room, up) ↦ inl (
                rw start-register (ground arith),
                rw now-register (
                    rw up (
                      filled-register (suc t.now_index) (omega arith)
                        (λ i lt ne. filled i (omega arith)))),
              )
            ]
      | inr (follows, filled) ↦ inr (
        rw (start-register, now-register, size-register) (ground arith),
        rw size-register
            (filled-register t.max_callback_storage (omega arith) (λ i lt ne. filled i lt)),
      )
    ];
  }
