-- ===== src/Storage/Promise.antt =====
-- Each operation, and every run of operations, keeps the promise of the map.
use polarix.Prelude.{
  ◌≡◌, refl, sym, ap, subst, ◌⊎◌, inl, inr, Bool, true, false, ◌&&◌, Option, none, some, List, [],
  ◌∷◌, if◌then◌else◌, Option-cases, Text, same,
}
use polarix.Storage.Database.{
  Bytes, IsSelected, Json, Selected, Sql, no_rows, row, same_key, select_error,
}
use polarix.Storage.{
  Answer, Storage, Store, check_namespace, clear_values, delete_value, do_clear, do_delete,
  do_exists, do_select, do_upsert, done, get_value, has_value, holds, key_of, or_global,
  read_exists, read_row, set_value, validate,
}
use polarix.Storage.Map.{
  IsDatabaseError, IsRow, IsView, KeyMap, StoreOp, asks, clears, deletes, found_or, gets, is_bound,
  map_set, map_step, sets, store_run, store_step,
}
use polarix.Storage.Refines.{IsGood, IsViewAt, changed-IsGood, with_db-IsGood}

module _ {D V : Type 0} (sql : Sql D) (json : Json V) where
  -- The rows change under the keys of a test, and so does the map.
  rows-changed :
      (test : Bool) (after before : Option Bytes) (bytes : Option Bytes) (new old : Option V)
      → after ≡ (if test then bytes else before)
      → IsRow sql json bytes new
      → IsRow sql json before old
      → IsRow sql json after (if test then new else old)
  rows-changed true after before bytes new old e h k =
      subst (λ (o : Option Bytes). IsRow sql json o new) (sym e) h
  rows-changed false after before bytes new old e h k =
      subst (λ (o : Option Bytes). IsRow sql json o old) (sym e) k

  set_value-IsGood :
      (s : Storage D) (m : KeyMap V) (store : Option Store) (key : Text) (v : V)
      → IsView sql json s m
      → IsGood sql json m (map_step json m (sets store key v)) (set_value sql json s store key v)
  unfolding set_value map_step IsViewAt
  set_value-IsGood s m store key v h = elim (Option-cases (validate store key)) [
    | inr (x, e) ↦ rw (e, set_value, map_step) (inr (refl, h))
    | inl e ↦ elim (Option-cases (json.marshal v)) [
      | inl f ↦ rw (e, f, set_value, map_step, map_set) (inr (refl, h))
      | inr (b, f) ↦
          let k = key_of store key in
          rw (e, f, set_value, map_step, map_set)
            (with_db-IsGood sql json s m ((λ j. if same_key k j then some v else m j), done)
              (do_upsert sql json k b) h
              (λ t path view at.
                changed-IsGood sql json t path m (λ j. if same_key k j then some v else m j)
                  (sql.upsert t.files path k b) view at
                  (λ fine j.
                    rows-changed (same_key k j) _ _ (some b) (some v) (m j)
                      (sql.upsert_rows t.files path k b j fine) (v, refl, json.read_back v b f)
                      (view j))
                  (λ x j fails. sql.upsert_fails t.files path k b j x fails)))
    ]
  ]

  delete_value-IsGood :
      (s : Storage D) (m : KeyMap V) (store : Option Store) (key : Text)
      → IsView sql json s m
      → IsGood sql json m (map_step json m (deletes store key)) (delete_value sql json s store key)
  unfolding delete_value map_step IsViewAt
  delete_value-IsGood s m store key h = elim (Option-cases (validate store key)) [
    | inr (x, e) ↦ rw (e, delete_value, map_step) (inr (refl, h))
    | inl e ↦
        let k = key_of store key in
        rw (e, delete_value, map_step)
          (with_db-IsGood sql json s m ((λ j. if same_key k j then none else m j), done)
            (do_delete sql json k) h
            (λ t path view at.
              changed-IsGood sql json t path m (λ j. if same_key k j then none else m j)
                (sql.delete_key t.files path k) view at
                (λ fine j.
                  rows-changed (same_key k j) _ _ none none (m j)
                    (sql.delete_rows t.files path k j fine) refl (view j))
                (λ x j fails. sql.delete_fails t.files path k j x fails)))
  ]

  clear_values-IsGood :
      (s : Storage D) (m : KeyMap V) (store : Option Store)
      → IsView sql json s m
      → IsGood sql json m (map_step json m (clears store)) (clear_values sql json s store)
  unfolding clear_values map_step IsViewAt
  clear_values-IsGood s m store h = elim (Option-cases (check_namespace store)) [
    | inr (x, e) ↦ rw (e, clear_values, map_step) (inr (refl, h))
    | inl e ↦
        let scope = (or_global store).scope in
        let space = (or_global store).namespace in
        rw (e, clear_values, map_step)
          (with_db-IsGood sql json s m
            ((λ j. if same scope j.0 && same space j.1 then none else m j), done)
            (do_clear sql json scope space) h
            (λ t path view at.
              changed-IsGood sql json t path m
                (λ j. if same scope j.0 && same space j.1 then none else m j)
                (sql.delete_namespace t.files path scope space) view at
                (λ fine j.
                  rows-changed (same scope j.0 && same space j.1) _ _ none none (m j)
                    (sql.clear_rows t.files path scope space j fine) refl (view j))
                (λ x j fails. sql.clear_fails t.files path scope space j x fails)))
  ]

  -- A row that was selected is read as the map's value.
  read_row-found :
      (r : Selected) (o : Option Bytes) (w : Option V)
      → IsSelected r o
      → IsRow sql json o w
      → IsDatabaseError (read_row sql json r) ⊎ (read_row sql json r ≡ found_or w)
  read_row-found (select_error x) o w e h = inl tt
  read_row-found no_rows o w e h =
      let missing_at : w ≡ none = subst (λ (p : Option Bytes). IsRow sql json p w) e h in
      inr (ap found_or (sym missing_at))
  read_row-found (row b) o w e h =
      let (v, at, back) = subst (λ (p : Option Bytes). IsRow sql json p w) e h in
      inr (rw (back, read_row) (ap found_or (sym at)))

  read_exists-holds :
      (r : Selected) (o : Option Bytes) (w : Option V)
      → IsSelected r o
      → IsRow sql json o w
      → IsDatabaseError (read_exists sql json r) ⊎ (read_exists sql json r ≡ holds (is_bound w))
  read_exists-holds (select_error x) o w e h = inl tt
  read_exists-holds no_rows o w e h =
      let missing_at : w ≡ none = subst (λ (p : Option Bytes). IsRow sql json p w) e h in
      inr (ap (λ (u : Option V). holds (is_bound u)) (sym missing_at))
  read_exists-holds (row b) o w e h =
      let (v, at, back) = subst (λ (p : Option Bytes). IsRow sql json p w) e h in
      inr (ap (λ (u : Option V). holds (is_bound u)) (sym at))

  get_value-IsGood :
      (s : Storage D) (m : KeyMap V) (store : Option Store) (key : Text)
      → IsView sql json s m
      → IsGood sql json m (map_step json m (gets store key)) (get_value sql json s store key)
  unfolding get_value map_step IsViewAt
  get_value-IsGood s m store key h = elim (Option-cases (validate store key)) [
    | inr (x, e) ↦ rw (e, get_value, map_step) (inr (refl, h))
    | inl e ↦
        let k = key_of store key in
        rw (e, get_value, map_step)
          (with_db-IsGood sql json s m (m, found_or (m k)) (do_select sql json k) h
            (λ t path view at.
              let kept : IsView sql json t m =
                subst (λ (p : Text). IsViewAt sql json t p m) (sym at) view in
              elim (read_row-found (sql.select t.files path k) _ (m k)
                (sql.select_rows t.files path k) (view k)) [
                  | inl error ↦ inl (error, kept)
                  | inr fine ↦ inr (fine, kept)
                ]))
  ]

  has_value-IsGood :
      (s : Storage D) (m : KeyMap V) (store : Option Store) (key : Text)
      → IsView sql json s m
      → IsGood sql json m (map_step json m (asks store key)) (has_value sql json s store key)
  unfolding has_value map_step IsViewAt
  has_value-IsGood s m store key h = elim (Option-cases (validate store key)) [
    | inr (x, e) ↦ rw (e, has_value, map_step) (inr (refl, h))
    | inl e ↦
        let k = key_of store key in
        rw (e, has_value, map_step)
          (with_db-IsGood sql json s m (m, holds (is_bound (m k))) (do_exists sql json k) h
            (λ t path view at.
              let kept : IsView sql json t m =
                subst (λ (p : Text). IsViewAt sql json t p m) (sym at) view in
              elim (read_exists-holds (sql.probe t.files path k) _ (m k)
                (sql.probe_rows t.files path k) (view k)) [
                  | inl error ↦ inl (error, kept)
                  | inr fine ↦ inr (fine, kept)
                ]))
  ]

  pub store_step-IsGood :
      (s : Storage D) (m : KeyMap V) (o : StoreOp V)
      → IsView sql json s m
      → IsGood sql json m (map_step json m o) (store_step sql json s o)
  unfolding store_step
  store_step-IsGood s m (sets store key v) h = set_value-IsGood s m store key v h
  store_step-IsGood s m (gets store key) h = get_value-IsGood s m store key h
  store_step-IsGood s m (asks store key) h = has_value-IsGood s m store key h
  store_step-IsGood s m (deletes store key) h = delete_value-IsGood s m store key h
  store_step-IsGood s m (clears store) h = clear_values-IsGood s m store h

-- The answers to the operations are those of the map, but that an operation may report an error of the
-- database, and then the map stays as it is.
abbrev pub IsPromised :
    {V : Type 0} → Json V → KeyMap V → List (StoreOp V) → List (Answer V) → Type 0
IsPromised json m [] [] = Unit
IsPromised json m (o ∷ os) (a ∷ answers) =
    (IsDatabaseError a × IsPromised json m os answers)
    ⊎ ((a ≡ (map_step json m o).1) × IsPromised json (map_step json m o).0 os answers)
IsPromised json m _ _ = ⊥

-- Any run of operations of any stores, whether the database is open, is opened by an operation, or
-- cannot be opened: where the rows at the database's path stand for a map, each answer is that of the
-- map's operation on the map that the operations before it made, or an error of the database, and an
-- operation with such an error changes nothing in the map.
pub store_run-IsPromised :
    {D V : Type 0} (sql : Sql D) (json : Json V) (os : List (StoreOp V)) (s : Storage D)
    (m : KeyMap V)
    → IsView sql json s m
    → IsPromised json m os (store_run sql json s os).1
unfolding store_run
store_run-IsPromised sql json [] s m h = tt
store_run-IsPromised sql json (o ∷ os) s m h = elim (store_step-IsGood sql json s m o h) [
  | inl (error, kept) ↦
      inl (error, store_run-IsPromised sql json os (store_step sql json s o).0 m kept)
  | inr (fine, next) ↦ inr (
    fine,
    store_run-IsPromised sql json os (store_step sql json s o).0 (map_step json m o).0 next,
  )
]
