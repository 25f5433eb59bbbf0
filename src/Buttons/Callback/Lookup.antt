-- ===== src/Buttons/Callback/Lookup.antt =====
-- Which handler a click reaches.
use mathlib.Core.List.{append-nil, append_assoc}
use polarix.Buttons.Callback.Ring.{
  IsRing, map-register, new_table-IsRing, next_index_cases, now-register, register-IsRing,
  size-register, start-register, unlocked-register,
}
use polarix.Prelude.{
  ℕ, zero, suc, ◌+◌, ◌%◌, ◌<◌, ◌≡◌, refl, sym, ap, subst, ◌∙◌, ◌⊎◌, inl, inr, Bool, false, Option,
  some, List, [], ◌∷◌, ◌++◌, arith, if◌then◌else◌, length, get_elem?, length-append,
  get_elem?-set_self, get_elem?-set_ne, All, pos, int64_top, syntax_error, atoi, itoa,
}
use polarix.Buttons.Callback.{
  CallbackInfo, Table, blocked, call, entry_at, finish_invoke, invoke_callback, invoke_from,
  invoke_number, new_table, real_index, register_callback_func, returned,
}
use polarix.Buttons.Callback.Decimal.{atoi-itoa}

-- The registrations of a list, one after the other.
abbrev pub register_all : Table → List CallbackInfo → Table
register_all t [] = t
register_all t (e ∷ es) = register_all (register_callback_func t e.id e.handle).0 es

-- The ids that the plugins choose are names, such as "sshauth_approve_1".
abbrev pub IsNamed : CallbackInfo → Type 0
IsNamed e = atoi e.id ≡ syntax_error

-- The slots hold the given registrations in order, and the lock is free.
pub record Holds (t : Table) (es : List CallbackInfo) : Type 0 where
  pub fits : t.max_callback_storage + t.max_callback_storage < int64_top
  pub start_in : t.start_index < t.max_callback_storage
  pub free : t.locked ≡ false
  pub held :
      (i : ℕ) (e : CallbackInfo)
      → get_elem? es i ≡ some e
      → get_elem? t.callback_map i ≡ some (some e)

entry_at-held :
    (t : Table) (i : ℕ) (e : CallbackInfo)
    → get_elem? t.callback_map i ≡ some (some e)
    → entry_at t (some i) ≡ some e
entry_at-held t i e h = ground arith

-- With a first id that is no number, an id is looked up at itself plus the start, round the ring.
real_index-IsNamed :
    (t : Table) (first : CallbackInfo) (k : ℕ)
    → IsNamed first
    → k + t.start_index < int64_top
    → real_index t first (pos k) ≡ some ((k + t.start_index) % t.max_callback_storage)
real_index-IsNamed t first k named h = rw named (ground arith)

pub invoke-Holds :
    (t : Table) (es : List CallbackInfo) (k : ℕ) (first e : CallbackInfo)
    → Holds t es
    → k < t.max_callback_storage
    → get_elem? es t.start_index ≡ some first
    → IsNamed first
    → get_elem? es ((k + t.start_index) % t.max_callback_storage) ≡ some e
    → invoke_callback t (itoa k) ≡ (t, returned (call e))
unfolding invoke_callback
invoke-Holds t es k first e h lt at_start named at_slot =
    ap (λ (b : Bool). if b then (t, blocked) else invoke_number t (atoi (itoa k))) h.free
    ∙ ap (invoke_number t) (atoi-itoa k (omega (arith, h.fits)))
    ∙ ap (λ (o : Option CallbackInfo). invoke_from t o (pos k))
        (entry_at-held t t.start_index first (h.held _ first at_start))
    ∙ ap (λ (i : Option ℕ). finish_invoke t (entry_at t i))
        (real_index-IsNamed t first k named (omega (arith, h.fits, h.start_in)))
    ∙ ap (finish_invoke t) (entry_at-held t _ e (h.held _ e at_slot))

get_elem?-snoc :
    (es : List CallbackInfo) (e : CallbackInfo) (i : ℕ) (x : CallbackInfo)
    → get_elem? (es ++ e ∷ []) i ≡ some x
    → ((i ≡ length es) × (x ≡ e)) ⊎ ((i < length es) × (get_elem? es i ≡ some x))
get_elem?-snoc [] e zero x h = inl (refl, ground arith)
get_elem?-snoc [] e (suc i) x h = cc
get_elem?-snoc (d ∷ es) e zero x h = inr (omega arith, h)
get_elem?-snoc (d ∷ es) e (suc i) x h = elim (get_elem?-snoc es e i x h) [
  | inl (at, same_entry) ↦ inl (ap suc at, same_entry)
  | inr (lt, old) ↦ inr (omega arith, old)
]

pub get_elem?-middle :
    (before : List CallbackInfo) (e : CallbackInfo) (after : List CallbackInfo)
    → get_elem? (before ++ e ∷ after) (length before) ≡ some e
get_elem?-middle [] e after = refl
get_elem?-middle (d ∷ before) e after = get_elem?-middle before e after

pub get_elem?-IsNamed :
    (es : List CallbackInfo) (i : ℕ)
    → All IsNamed es
    → i < length es
    → (e : CallbackInfo) × (get_elem? es i ≡ some e) × IsNamed e
get_elem?-IsNamed [] i all h = absurd (omega arith)
get_elem?-IsNamed (e ∷ es) zero all h = (e, refl, all.0)
get_elem?-IsNamed (e ∷ es) (suc i) all h = get_elem?-IsNamed es i all.1 (omega arith)

-- The registrations so far, before the ring comes round.
pub record Loading (t : Table) (es : List CallbackInfo) : Type 0 where
  pub ring : IsRing t
  pub free : t.locked ≡ false
  pub now : t.now_index ≡ length es
  pub start : t.start_index ≡ 0
  pub held :
      (i : ℕ) (e : CallbackInfo)
      → get_elem? es i ≡ some e
      → get_elem? t.callback_map i ≡ some (some e)

pub new_table-Loading : (max : ℕ) → 0 < max → max + max < int64_top → Loading (new_table max) []
unfolding new_table
new_table-Loading max h top = record {
  ring = new_table-IsRing max h top;
  free = refl;
  now = refl;
  start = refl;
  held = λ i e p. cc;
}

module _ (t : Table) (es : List CallbackInfo) (e : CallbackInfo) (h : Loading t es) where
  pub held-register :
      (i : ℕ) (x : CallbackInfo)
      → get_elem? (es ++ e ∷ []) i ≡ some x
      → get_elem? (register_callback_func t e.id e.handle).0.callback_map i ≡ some (some x)
  held-register i x p =
      rw (map-register t e.id e.handle h.ring h.free) (elim (get_elem?-snoc es e i x p) [
        | inl (at, same_entry) ↦ rw (at ∙ sym h.now) (
            get_elem?-set_self t.callback_map t.now_index _ in_range
            ∙ ap (λ (y : CallbackInfo). some (some y)) (sym same_entry))
        | inr (lt, old) ↦
            get_elem?-set_ne t.callback_map t.now_index i _ (omega (arith, h.now)) ∙ h.held i x old
      ])
    where
      in_range : t.now_index < length t.callback_map
      in_range = omega (arith, h.ring.sized, h.ring.now_in)

  pub register-Loading :
      suc (length es) < t.max_callback_storage
      → Loading (register_callback_func t e.id e.handle).0 (es ++ e ∷ [])
  register-Loading room = record {
    ring = register-IsRing t e.id e.handle h.ring h.free;
    free = unlocked-register t e.id e.handle h.ring h.free;
    now =
        rw (now-register t e.id e.handle h.ring h.free)
          (elim (next_index_cases t.max_callback_storage t.now_index (omega (arith, h.ring.fits))
            h.ring.now_in) [
              | inl (full, back) ↦ absurd (omega (arith, h.now))
              | inr (more, up) ↦ up ∙ omega (arith, h.now, length-append es (e ∷ []))
            ]);
    start =
        rw (start-register t e.id e.handle h.ring h.free)
          (elim (next_index_cases t.max_callback_storage t.now_index (omega (arith, h.ring.fits))
            h.ring.now_in) [
              | inl (full, back) ↦ absurd (omega (arith, h.now))
              | inr (more, up) ↦ rw up (ground (arith, h.start))
            ]);
    held = held-register;
  }

pub register_all-Loading :
    (t : Table) (es more : List CallbackInfo)
    → Loading t es
    → length es + length more < t.max_callback_storage
    → Loading (register_all t more) (es ++ more)
register_all-Loading t es [] h room = rw append-nil h
register_all-Loading t es (e ∷ more) h room =
    subst (Loading (register_all (register_callback_func t e.id e.handle).0 more))
      (append_assoc es (e ∷ []) more)
      (register_all-Loading (register_callback_func t e.id e.handle).0 (es ++ e ∷ []) more
        (register-Loading t es e h (omega arith))
        (rw (size-register t e.id e.handle h.ring h.free)
          (omega (arith, length-append es (e ∷ [])))))

pub max-register_all :
    (t : Table) (es more : List CallbackInfo)
    → Loading t es
    → length es + length more < t.max_callback_storage
    → (register_all t more).max_callback_storage ≡ t.max_callback_storage
max-register_all t es [] h room = refl
max-register_all t es (e ∷ more) h room =
    max-register_all (register_callback_func t e.id e.handle).0 (es ++ e ∷ []) more
      (register-Loading t es e h (omega arith))
      (rw (size-register t e.id e.handle h.ring h.free) (omega (arith, length-append es (e ∷ []))))
    ∙ size-register t e.id e.handle h.ring h.free

-- What a fresh table comes to while it has room.
pub register_all-new_table :
    (max : ℕ) (es : List CallbackInfo)
    → 0 < max
    → max + max < int64_top
    → length es < max
    → Loading (register_all (new_table max) es) es
      × ((register_all (new_table max) es).max_callback_storage ≡ max)
unfolding new_table
register_all-new_table max es h top room = (
  register_all-Loading (new_table max) [] es (new_table-Loading max h top) (omega arith),
  max-register_all (new_table max) [] es (new_table-Loading max h top) (omega arith),
)
