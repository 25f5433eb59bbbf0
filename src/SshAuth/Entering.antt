-- ===== src/SshAuth/Entering.antt =====
-- New requests keep the requests sound.
use polarix.Prelude.{
  ℕ, suc, ◌+◌, ◌≤◌, ◌≡◌, refl, sym, ap, subst, ◌∙◌, inl, inr, Bool, true, false, not, ◌||◌, none,
  some, List, ◌∷◌, arith, ◌==◌, if◌then◌else◌, Bool-cases, Option-cases, length, get_elem?, set,
  Text, same, same_iff, same_refl, insert-HasDistinctKeys, length-insert, lookup, insert,
  lookup-insert, pos, sub_ℕ, ltb_ℤ,
}
use polarix.SshAuth.Flights.{
  below_limit, holds, pred-counted, succ-sub, total, total-set, within, within-holds,
}
use polarix.SshAuth.Requests.{
  accept_request, advance_flight, advance_request, enter, is_ready, is_well_formed, load_or_store,
  new_auth, reach, reserve, unreserve,
}
use polarix.SshAuth.{
  BotIpcRequest, Flight, PendingAuth, Stage, World, admitted, linked, passed, refused, reserved,
  stored, succ_ℤ,
}
use polarix.SshAuth.Sound.{IsGood, IsOpen, IsSound, flights-IsSound, rest-IsSound}
use polarix.SshAuth.Keep.{invalidate-IsSound}

module _ {lost : ℕ} (w : World) (r : BotIpcRequest) (k : ℕ) (h : IsSound lost w)
    (missing : lookup r.id w.pending_map ≡ none) where
  enter-IsGood :
      (i : ℕ) (a : PendingAuth)
      → (enter w r k).auths i ≡ some a
      → IsGood (enter w r k).pending_map i a
  enter-IsGood i a at = elim (Bool-cases (w.next == i)) [
    | inl e ↦
        let is_new : new_auth r k ≡ a = ground (arith, at, e) in
        let is_next : w.next ≡ i = ground (arith, e) in
        let entered : lookup r.id (enter w r k).pending_map ≡ some w.next =
          lookup-insert r.id r.id w.next w.pending_map ∙ rw (same_refl r.id) refl in
        let new_open : IsOpen (enter w r k).pending_map w.next (new_auth r k) = record {
          open_at = refl;
          found = entered;
          silent = refl;
          armed = λ k e. cc;
        } in
        inl (
          subst (λ (j : ℕ). IsOpen (enter w r k).pending_map j a) is_next
            (subst (λ (b : PendingAuth). IsOpen (enter w r k).pending_map w.next b) is_new
              new_open))
    | inr e ↦
        let old : w.auths i ≡ some a = ground (arith, at, e) in
        elim (h.good i a old) [
          | inr s ↦ inr s
          | inl o ↦ inl (record {
            open_at = o.open_at;
            silent = o.silent;
            armed = o.armed;
            found = lookup-insert r.id a.req.id w.next w.pending_map ∙ other_key i a o.found;
          })
        ]
  ]
    where
      other_key :
          (i : ℕ) (a : PendingAuth)
          → lookup a.req.id w.pending_map ≡ some i
          → (if same r.id a.req.id then some w.next else lookup a.req.id w.pending_map) ≡ some i
      other_key i a found = elim (Bool-cases (same r.id a.req.id)) [
        | inl d ↦
            let is_key : r.id ≡ a.req.id = (same_iff r.id a.req.id).0 d in
            let clash : none ≡ some i =
              sym missing ∙ ap (λ (t : Text). lookup t w.pending_map) is_key ∙ found in
            cc
        | inr d ↦ rw d found
      ]

  enter-fresh : (j : ℕ) → suc w.next ≤ j → (enter w r k).auths j ≡ none
  enter-fresh j above = elim (Bool-cases (w.next == j)) [
    | inl e ↦ ground (arith, e, above)
    | inr e ↦ rw e (h.fresh j (omega arith))
  ]

  enter-entries :
      (id : Text) (j : ℕ)
      → lookup id (enter w r k).pending_map ≡ some j
      → (a : PendingAuth) × ((enter w r k).auths j ≡ some a)
        × (a.resolved ≡ false)
        × (a.req.id ≡ id)
  enter-entries id j found = elim (Bool-cases (same r.id id)) [
    | inl d ↦
        let is_next : some w.next ≡ some j =
          ground (arith, lookup-insert r.id id w.next w.pending_map, d, found) in
        (new_auth r k, ground (arith, is_next), refl, (same_iff r.id id).0 d)
    | inr d ↦
        let kept : lookup id w.pending_map ≡ some j =
          ground (arith, lookup-insert r.id id w.next w.pending_map, d, found) in
        let (a, at, a_open, a_id) = h.entries id j kept in
        elim (Bool-cases (w.next == j)) [
          | inl e ↦
              let is_next : w.next ≡ j = ground (arith, e) in
              let clash : none ≡ some a =
                sym (h.fresh w.next (omega arith)) ∙ ap (λ (i : ℕ). w.auths i) is_next ∙ at in
              cc
          | inr e ↦ (a, rw e at, a_open, a_id)
        ]
  ]

  enter-IsSound :
      (fs : List Flight)
      → suc (total holds fs) ≡ total holds w.flights
      → suc (total within fs) ≡ total within w.flights
      → IsSound lost (record (enter w r k) { flights = fs })
  enter-IsSound fs held room =
      let longer : length (insert r.id w.next w.pending_map) ≡ suc (length w.pending_map) =
        length-insert r.id w.next w.pending_map missing in
      record {
        good = enter-IsGood;
        fresh = enter-fresh;
        entries = enter-entries;
        distinct = insert-HasDistinctKeys r.id w.next w.pending_map h.distinct;
        counted = h.counted ∙ ap (λ (n : ℕ). sub_ℕ n lost) (omega (arith, longer, held));
        bounded = let le = h.bounded in omega (arith, le, longer, room);
      }

-- The choice of an operation between two states.
pub if-IsSound :
    {lost : ℕ} (b : Bool) (w v : World)
    → IsSound lost w
    → (b ≡ false → IsSound lost v)
    → IsSound lost (if b then w else v)
if-IsSound true w v h k = h
if-IsSound false w v h k = k refl

pub accept_request-IsSound :
    {lost : ℕ} (w : World) (r : BotIpcRequest) (k : ℕ)
    → IsSound lost w
    → IsSound lost (accept_request w r k)
unfolding accept_request
accept_request-IsSound {lost} w r k h =
    let le = h.bounded in
    let one_more = record { req = r; conn = k; stage = admitted } ∷ w.flights in
    let same_count : total holds w.flights ≡ total holds one_more = omega arith in
    if-IsSound (not (is_well_formed r) || not (is_ready w)) _ _ h (λ ok.
      flights-IsSound w w.pending_counter one_more h
        (h.counted ∙ ap (λ (n : ℕ). sub_ℕ (length w.pending_map + n) lost) same_count)
        (omega (arith, le)))

module _ {lost : ℕ} (w : World) (n : ℕ) (f : Flight) (h : IsSound lost w)
    (at : get_elem? w.flights n ≡ some f) where
  -- The goroutine comes to a stage that counts as much as its own.
  reach-IsSound :
      (s : Stage)
      → holds s ≡ holds f.stage
      → within s ≤ within f.stage
      → IsSound lost (reach w n f s)
  reach-IsSound s held room =
      let le = h.bounded in
      flights-IsSound w w.pending_counter _ h
        (h.counted
          ∙ ap (λ (n : ℕ). sub_ℕ (length w.pending_map + n) lost)
              (omega (arith, total-set holds w.flights n f s at, held)))
        (omega (arith, le, total-set within w.flights n f s at, room))

  reserve-IsSound : f.stage ≡ admitted → IsSound lost (reserve w n f)
  reserve-IsSound e =
      if-IsSound (ltb_ℤ (pos 100) (succ_ℤ w.pending_counter)) _ _
        (flights-IsSound w _ _ h (one_more refused refl)
          (omega (arith, le, total-set within w.flights n f refused at, ap within e)))
        (λ room. flights-IsSound w _ _ h (one_more reserved refl) (
          omega (
            arith,
            within-holds w.flights,
            below_limit _ lost (sym (ap (ltb_ℤ (pos 100)) grown) ∙ room),
            total-set within w.flights n f reserved at,
            ap within e,
          )))
    where
      le : length w.pending_map + total within w.flights ≤ 100 + lost
      le = h.bounded

      grown :
          succ_ℤ w.pending_counter ≡ sub_ℕ (suc (length w.pending_map + total holds w.flights)) lost
      grown = ap succ_ℤ h.counted ∙ succ-sub (length w.pending_map + total holds w.flights) lost

      one_more :
          (s : Stage)
          → holds s ≡ 1
          → succ_ℤ w.pending_counter
            ≡ sub_ℕ
                (length w.pending_map + total holds (set w.flights n (record f { stage = s })))
                lost
      one_more s one =
          grown
          ∙ ap (λ (n : ℕ). sub_ℕ n lost)
              (omega (arith, total-set holds w.flights n f s at, ap holds e, one))

  unreserve-IsSound : f.stage ≡ refused → IsSound lost (unreserve w n f)
  unreserve-IsSound e =
      let le = h.bounded in
      let rest = set w.flights n (record f { stage = passed }) in
      let fewer : total holds w.flights ≡ suc (total holds rest) =
        omega (arith, total-set holds w.flights n f passed at, ap holds e) in
      flights-IsSound w _ _ h (pred-counted _ _ lost h.counted (omega (arith, fewer)))
        (omega (arith, le, total-set within w.flights n f passed at, ap within e))

  load_or_store-IsSound : f.stage ≡ reserved → IsSound lost (load_or_store w n f)
  load_or_store-IsSound e = elim (Option-cases (lookup f.req.id w.pending_map)) [
    | inr (i, there) ↦
        rw (there, load_or_store)
          (reach-IsSound refused (sym (ap holds e)) (omega (arith, ap within e)))
    | inl missing ↦
        rw (missing, load_or_store)
          (enter-IsSound w f.req f.conn h missing _
            (omega (arith, total-set holds w.flights n f (stored w.next) at, ap holds e))
            (omega (arith, total-set within w.flights n f (stored w.next) at, ap within e)))
  ]

  advance_flight-IsSound : (s : Stage) → f.stage ≡ s → IsSound lost (advance_flight w n f s)
  advance_flight-IsSound admitted e = reserve-IsSound e
  advance_flight-IsSound reserved e = load_or_store-IsSound e
  advance_flight-IsSound refused e = unreserve-IsSound e
  advance_flight-IsSound (stored i) e =
      rest-IsSound _ _ _ _ _
        (reach-IsSound (linked i) (sym (ap holds e)) (omega (arith, ap within e)))
  advance_flight-IsSound (linked i) e =
      let on = reach-IsSound passed (sym (ap holds e)) (omega (arith, ap within e)) in
      if-IsSound (w.conns f.conn).active _ _ on
        (λ dead. invalidate-IsSound (reach w n f passed) i on)
  advance_flight-IsSound passed e = h

pub advance_request-IsSound :
    {lost : ℕ} (w : World) (n : ℕ) → IsSound lost w → IsSound lost (advance_request w n)
unfolding advance_request
advance_request-IsSound w n h = elim (Option-cases (get_elem? w.flights n)) [
  | inl e ↦ rw (e, advance_request) h
  | inr (f, e) ↦ rw (e, advance_request) (advance_flight-IsSound w n f h e f.stage refl)
]
