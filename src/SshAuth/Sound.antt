-- ===== src/SshAuth/Sound.antt =====
-- What holds of the requests at all times, and that taking a request out keeps it.
use polarix.Prelude.{
  ℕ, suc, ◌+◌, ◌≤◌, ◌≡◌, sym, ap, subst, ◌∙◌, ◌⊎◌, inl, inr, Bool, true, false, Option, none, some,
  List, [], arith, ◌==◌, if◌then◌else◌, Bool-cases, length, Text, same, same_iff, HasDistinctKeys,
  delete-HasDistinctKeys, length-delete, lookup, delete, lookup-delete, ℤ, sub_ℕ,
}
use polarix.SshAuth.Flights.{holds, pred-counted, total, within}
use polarix.SshAuth.{
  BotIpcRequest, Config, Flight, IpcConnection, PendingAuth, World, cleanup, delivered, has_message,
  put_at,
}

-- A request that has been taken: its timer is off; it was answered at most once, and only if the
-- answer was delivered; or else the deletion of its message, if there is one, has been asked for.
pub record IsShut (a : PendingAuth) : Type 0 where
  pub resolved_at : a.resolved ≡ true
  pub quiet : a.timer ≡ false
  pub ended :
      ((a.status ≡ delivered) × (length a.responses ≡ 1))
      ⊎ ((a.responses ≡ []) × (has_message a.msg ≡ true → 1 ≤ a.recalls))

-- A request that is open: it is found under its id, nothing was answered, and once its message has
-- been sent its timer runs.
pub record IsOpen (m : List (Text × ℕ)) (i : ℕ) (a : PendingAuth) : Type 0 where
  pub open_at : a.resolved ≡ false
  pub found : lookup a.req.id m ≡ some i
  pub silent : a.responses ≡ []
  pub armed : (id : Text) → a.msg ≡ some id → a.timer ≡ true

abbrev pub IsGood : List (Text × ℕ) → ℕ → PendingAuth → Type 0
IsGood m i a = IsOpen m i a ⊎ IsShut a

-- `lost` is the number of reservations that were held when the counter was last set to 0.
pub record IsSound (lost : ℕ) (w : World) : Type 0 where
  pub good : (i : ℕ) (a : PendingAuth) → w.auths i ≡ some a → IsGood w.pending_map i a
  pub fresh : (i : ℕ) → w.next ≤ i → w.auths i ≡ none
  pub entries :
      (id : Text) (i : ℕ)
      → lookup id w.pending_map ≡ some i
      → (a : PendingAuth) × (w.auths i ≡ some a) × (a.resolved ≡ false) × (a.req.id ≡ id)
  pub distinct : HasDistinctKeys w.pending_map
  pub counted : w.pending_counter ≡ sub_ℕ (length w.pending_map + total holds w.flights) lost
  pub bounded : length w.pending_map + total within w.flights ≤ 100 + lost

-- The request `a` of index `i` is open, and `b` is what it becomes when it is taken.
module _ {lost : ℕ} (w : World) (i : ℕ) (a b : PendingAuth) (h : IsSound lost w)
    (at : w.auths i ≡ some a) (open_at : a.resolved ≡ false) (same_req : b.req ≡ a.req)
    (shut : IsShut (record b { timer = false })) where
  found_at : lookup b.req.id w.pending_map ≡ some i
  found_at = elim (h.good i a at) [
    | inl o ↦ ap (λ (r : BotIpcRequest). lookup r.id w.pending_map) same_req ∙ o.found
    | inr s ↦ let clash : true ≡ false = sym s.resolved_at ∙ open_at in cc
  ]

  cleanup-IsGood :
      (j : ℕ) (c : PendingAuth)
      → (cleanup w i b).auths j ≡ some c
      → IsGood (cleanup w i b).pending_map j c
  unfolding cleanup
  cleanup-IsGood j c c_at = elim (Bool-cases (i == j)) [
    | inl e ↦
        let is_b : record b { timer = false } ≡ c = ground (arith, c_at, e) in
        inr (subst IsShut is_b shut)
    | inr e ↦
        let old : w.auths j ≡ some c = ground (arith, c_at, e) in
        elim (h.good j c old) [
          | inr s ↦ inr s
          | inl o ↦ inl (record {
            open_at = o.open_at;
            silent = o.silent;
            armed = o.armed;
            found = lookup-delete b.req.id c.req.id w.pending_map ∙ other_key j c e o.found;
          })
        ]
  ]
    where
      other_key :
          (j : ℕ) (c : PendingAuth)
          → (i == j) ≡ false
          → lookup c.req.id w.pending_map ≡ some j
          → (if same b.req.id c.req.id then none else lookup c.req.id w.pending_map) ≡ some j
      other_key j c e found = elim (Bool-cases (same b.req.id c.req.id)) [
        | inl d ↦
            let is_key : b.req.id ≡ c.req.id = (same_iff b.req.id c.req.id).0 d in
            let twice : some i ≡ some j =
              sym found_at ∙ ap (λ (t : Text). lookup t w.pending_map) is_key ∙ found in
            ground (arith, twice, e)
        | inr d ↦ rw d found
      ]

  cleanup-entries :
      (id : Text) (j : ℕ)
      → lookup id (cleanup w i b).pending_map ≡ some j
      → (c : PendingAuth) × ((cleanup w i b).auths j ≡ some c)
        × (c.resolved ≡ false)
        × (c.req.id ≡ id)
  unfolding cleanup
  cleanup-entries id j e = elim (Bool-cases (same b.req.id id)) [
    | inl d ↦
        let gone : none ≡ some j = ground (arith, lookup-delete b.req.id id w.pending_map, d, e) in
        cc
    | inr d ↦
        let kept : lookup id w.pending_map ≡ some j =
          ground (arith, lookup-delete b.req.id id w.pending_map, d, e) in
        let (c, c_at, c_open, c_id) = h.entries id j kept in
        (c, elsewhere c c_at c_id d, c_open, c_id)
  ]
    where
      elsewhere :
          (c : PendingAuth)
          → w.auths j ≡ some c
          → c.req.id ≡ id
          → same b.req.id id ≡ false
          → put_at w.auths i (some (record b { timer = false })) j ≡ some c
      elsewhere c c_at c_id d = elim (Bool-cases (i == j)) [
        | inl f ↦
            let is_j : i ≡ j = ground (arith, f) in
            let is_a : some a ≡ some c = sym at ∙ ap (λ (k : ℕ). w.auths k) is_j ∙ c_at in
            let ids : b.req.id ≡ id =
              ap (λ (r : BotIpcRequest). r.id) same_req ∙ ground (arith, is_a, c_id) in
            ground (arith, (same_iff b.req.id id).1 ids, d)
        | inr f ↦ rw f c_at
      ]

  cleanup-fresh : (j : ℕ) → w.next ≤ j → (cleanup w i b).auths j ≡ none
  unfolding cleanup
  cleanup-fresh j above = elim (Bool-cases (i == j)) [
    | inl e ↦
        let is_j : i ≡ j = ground (arith, e) in
        let clash : some a ≡ none = sym at ∙ ap (λ (k : ℕ). w.auths k) is_j ∙ h.fresh j above in cc
    | inr e ↦ rw e (h.fresh j above)
  ]

  pub cleanup-IsSound : IsSound lost (cleanup w i b)
  unfolding cleanup
  cleanup-IsSound =
      let shorter : suc (length (delete b.req.id w.pending_map)) ≡ length w.pending_map =
        length-delete b.req.id i w.pending_map h.distinct found_at in
      record {
        good = cleanup-IsGood;
        fresh = cleanup-fresh;
        entries = cleanup-entries;
        distinct = delete-HasDistinctKeys b.req.id w.pending_map h.distinct;
        counted = pred-counted _ _ lost h.counted (omega (arith, shorter));
        bounded = let le = h.bounded in omega (arith, le, shorter);
      }

-- The counter and the goroutines may change together.
pub flights-IsSound :
    {lost : ℕ} (w : World) (c : ℤ) (fs : List Flight)
    → IsSound lost w
    → c ≡ sub_ℕ (length w.pending_map + total holds fs) lost
    → length w.pending_map + total within fs ≤ 100 + lost
    → IsSound lost (record w { pending_counter = c; flights = fs })
flights-IsSound w c fs h is_c room = record {
  good = h.good;
  fresh = h.fresh;
  entries = h.entries;
  distinct = h.distinct;
  counted = is_c;
  bounded = room;
}

-- The rest of the state is free.
pub rest-IsSound :
    {lost : ℕ} (w : World) (c : Config) (has : Bool) (f : ℕ → IpcConnection) (k : Option ℕ)
    → IsSound lost w
    → IsSound lost (record w { config = c; has_client = has; conns = f; current_conn = k })
rest-IsSound w c has f k h = record {
  good = h.good;
  fresh = h.fresh;
  entries = h.entries;
  distinct = h.distinct;
  counted = h.counted;
  bounded = h.bounded;
}
