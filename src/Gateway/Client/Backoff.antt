-- ===== src/Gateway/Client/Backoff.antt =====
-- The waits between attempts to connect, and the interval of the heartbeat.
use polarix.Prelude.{
  ℕ, zero, suc, ◌+◌, ◌-◌, ◌*◌, ◌%◌, ◌^◌, ◌≤◌, ◌<◌, ◌≡◌, refl, ap, ◌∙◌, inl, inr, false, some, List,
  [], ◌∷◌, arith, ltb, if◌then◌else◌, Bool-cases, length, get_elem?, All, ℤ, pos, negsuc, pos_part,
  neg_part, sub_ℕ, leb_ℤ,
}
use native.Mathlib.Nat.{zero-add}
use polarix.Gateway.Client.Connecting.{hello_interval, next_backoff, start_waits, waits}
use polarix.Gateway.Client.{int64, to_int64}

-- Every wait is between 1 and 30 seconds.
abbrev pub IsWait : ℕ → Type 0
IsWait b = (1 ≤ b) × (b ≤ 30)

next-IsWait : (b : ℕ) → IsWait b → IsWait (next_backoff b)
unfolding next_backoff
next-IsWait b h = ground (arith, h)

waits-IsWait : (ts : List ℕ) (b : ℕ) → IsWait b → All IsWait (waits b ts)
unfolding waits
waits-IsWait [] b h = tt
waits-IsWait (t ∷ ts) b h =
    let now : IsWait (if ltb 60 t then 1 else b) = ground (arith, h) in
    (
      now,
      waits-IsWait ts (next_backoff (if ltb 60 t then 1 else b))
          (next-IsWait (if ltb 60 t then 1 else b) now),
    )

-- The wait after k short attempts in a row, starting at 1.
doubled : ℕ → ℕ
doubled zero = 1
doubled (suc k) = next_backoff (doubled k)

doubled_lem : (k : ℕ) → doubled k ≡ (if ltb 30 (2 ^ k) then 30 else 2 ^ k)
unfolding doubled next_backoff
doubled_lem zero = refl
doubled_lem (suc k) = ground (arith, doubled_lem k)

-- No attempt lasted longer than a minute.
abbrev pub IsShort : ℕ → Type 0
IsShort t = t ≤ 60

waits-get :
    (j k : ℕ) (ts : List ℕ)
    → All IsShort ts
    → k < length ts
    → get_elem? (waits (doubled j) ts) k ≡ some (doubled (j + k))
unfolding waits doubled
waits-get j k [] h bound = ground (arith, bound)
waits-get j zero (t ∷ ts) h bound = ground (arith, h)
waits-get j (suc k) (t ∷ ts) h bound =
    let short : ltb 60 t ≡ false = ground (arith, h) in
    rw short (waits-get (suc j) k ts h.1 (ground (arith, bound)) ∙ ground arith)

-- Start always waits between 1 and 30 seconds before it connects again; the wait after an attempt that
-- lasted longer than a minute is 1 second; and the wait after k short attempts and one more is the
-- smaller of 2 ^ k and 30 seconds.
pub start_waits-IsWait :
    (ts : List ℕ)
    → All IsWait (start_waits ts)
      × ((b t : ℕ) (rest : List ℕ) → 60 < t → get_elem? (waits b (t ∷ rest)) 0 ≡ some 1)
      × (All IsShort ts
          → (k : ℕ) → k < length ts
          → get_elem? (start_waits ts) k ≡ some (if ltb 30 (2 ^ k) then 30 else 2 ^ k))
unfolding start_waits waits doubled
start_waits-IsWait ts = (
  waits-IsWait ts 1 (ground arith),
  λ b t rest long. ground (arith, long),
  λ short k bound.
      waits-get 0 k ts short bound
      ∙ ap (λ i. some (doubled i)) (zero-add k)
      ∙ ap some (doubled_lem k),
)

abbrev nanoseconds : ℤ → ℤ
nanoseconds ms = int64 (sub_ℕ (1000000 * pos_part ms) (1000000 * neg_part ms))

positive : (z : ℤ) → leb_ℤ z (pos 0) ≡ false → (n : ℕ) × (z ≡ pos n) × (1 ≤ n)
positive (pos n) h = (n, refl, ground (arith, h))
positive (negsuc n) h = ground (arith, h)

to_int64-bound : (m n : ℕ) → to_int64 m ≡ pos n → n < 2 ^ 63
to_int64-bound m n h = elim (Bool-cases (ltb m (2 ^ 63))) [
  | inl e ↦ ground (arith, h, e)
  | inr e ↦ ground (arith, h, e)
]

int64-bound : (z : ℤ) (n : ℕ) → int64 z ≡ pos n → n < 2 ^ 63
int64-bound (pos m) n h = to_int64-bound (m % 2 ^ 64) n h
int64-bound (negsuc m) n h = to_int64-bound (2 ^ 64 - 1 - m % 2 ^ 64) n h

-- The interval that Hello asks for becomes a positive number of nanoseconds that an int64 holds,
-- whatever integer it is, as the ticker needs.
pub hello_interval-bounds :
    (ms : ℤ) → (n : ℕ) × (hello_interval ms ≡ pos n) × (1 ≤ n) × (n < 2 ^ 63)
unfolding hello_interval
hello_interval-bounds ms = elim (Bool-cases (leb_ℤ (nanoseconds ms) (pos 0))) [
  | inl e ↦ (45000000000, rw e refl, ground arith, ground arith)
  | inr e ↦
      let (n, at, above) = positive (nanoseconds ms) e in
      (n, rw e at, above, int64-bound (sub_ℕ (1000000 * pos_part ms) (1000000 * neg_part ms)) n at)
]
