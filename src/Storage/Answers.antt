-- ===== src/Storage/Answers.antt =====
-- What a client learns from the answers of a store, where the rows stand for a map.
use polarix.Prelude.{
  ◌≡◌, refl, sym, ap, subst, ◌∙◌, ◌≢◌, inl, inr, Bool, true, Option, none, some, if◌then◌else◌,
  Option-cases, Text,
}
use polarix.Storage.{
  Answer, Storage, StorageError, Store, delete_value, done, failed, found, get_value, has_value,
  holds, key_of, validate,
}
use polarix.Storage.Database.{Json, Sql, same_key}
use polarix.Storage.Map.{
  IsDatabaseError, IsView, KeyMap, asks, deletes, found_or, gets, is_bound, map_step, store_step,
}
use polarix.Storage.Promise.{store_step-IsGood}

found_or-found : {V : Type 0} (o : Option V) (v : V) → found_or o ≡ found v → o ≡ some v
found_or-found none v e = cc
found_or-found {V} (some w) v e = let is_v : w ≡ v = cc in ap (λ (u : V). some u) is_v

holds-bound :
    {V : Type 0} (o : Option V) (b : Bool)
    → Path (Answer V) (holds (is_bound o)) (holds b)
    → is_bound o ≡ b
holds-bound o b e = cc

bound-some : {V : Type 0} (o : Option V) → is_bound o ≡ true → (v : V) × (o ≡ some v)
bound-some none e = cc
bound-some (some w) e = (w, refl)

failed-found : {V : Type 0} (x : StorageError) (v : V) → failed x ≢ found v
failed-found x v e = cc

failed-holds : {V : Type 0} (x : StorageError) (b : Bool) → Path (Answer V) (failed x) (holds b) → ⊥
failed-holds x b e = cc

failed-done : {V : Type 0} (x : StorageError) → Path (Answer V) (failed x) done → ⊥
failed-done x e = cc

module _ {V : Type 0} (json : Json V) (m : KeyMap V) (store : Option Store) (key : Text) where
  map-gets :
      ((map_step json m (gets store key)).0 ≡ m)
      × ((v : V) → (map_step json m (gets store key)).1 ≡ found v → m (key_of store key) ≡ some v)
  unfolding map_step
  map-gets = elim (Option-cases (validate store key)) [
    | inr (x, e) ↦ rw (e, map_step) (refl, λ v f. absurd (failed-found x v f))
    | inl e ↦ rw (e, map_step) (refl, λ v f. found_or-found (m (key_of store key)) v f)
  ]

  map-asks :
      ((map_step json m (asks store key)).0 ≡ m)
      × ((b : Bool)
          → (map_step json m (asks store key)).1 ≡ holds b
          → is_bound (m (key_of store key)) ≡ b)
  unfolding map_step
  map-asks = elim (Option-cases (validate store key)) [
    | inr (x, e) ↦ rw (e, map_step) (refl, λ b f. absurd (failed-holds x b f))
    | inl e ↦ rw (e, map_step) (refl, λ b f. holds-bound (m (key_of store key)) b f)
  ]

  map-deletes :
      (map_step json m (deletes store key)).1 ≡ done
      → (map_step json m (deletes store key)).0
        ≡ (λ j. if same_key (key_of store key) j then none else m j)
  unfolding map_step
  map-deletes f = elim (Option-cases (validate store key)) [
    | inr (x, e) ↦
        let refused : Path (Answer V) (failed x) done = sym (rw (e, map_step) refl) ∙ f in
        absurd (failed-done x refused)
    | inl e ↦ rw (e, map_step) refl
  ]

module _ {D V : Type 0} (sql : Sql D) (json : Json V) where
  no-error : (a b : Answer V) → a ≡ b → ¬ IsDatabaseError b → IsDatabaseError a → ⊥
  no-error a b e free error = free (subst (λ (c : Answer V). IsDatabaseError c) e error)

  same_map-IsView :
      (s : Storage D) (m n : KeyMap V) → n ≡ m → IsView sql json s n → IsView sql json s m
  same_map-IsView s m n e h = subst (λ (k : KeyMap V). IsView sql json s k) e h

  pub get_value-found :
      (s : Storage D) (m : KeyMap V) (store : Option Store) (key : Text)
      → IsView sql json s m
      → IsView sql json (get_value sql json s store key).0 m
        × ((v : V) → (get_value sql json s store key).1 ≡ found v → m (key_of store key) ≡ some v)
  unfolding store_step
  get_value-found s m store key h = elim (store_step-IsGood sql json s m (gets store key) h) [
    | inl (error, kept) ↦ (kept, λ v e. absurd (no-error _ (found v) e (λ u. u) error))
    | inr (fine, kept) ↦
        let (same_map, value) = map-gets json m store key in
        (
          same_map-IsView (get_value sql json s store key).0 m _ same_map kept,
          λ v e. value v (sym fine ∙ e),
        )
  ]

  pub has_value-holds :
      (s : Storage D) (m : KeyMap V) (store : Option Store) (key : Text)
      → IsView sql json s m
      → IsView sql json (has_value sql json s store key).0 m
        × ((b : Bool)
            → (has_value sql json s store key).1 ≡ holds b
            → is_bound (m (key_of store key)) ≡ b)
  unfolding store_step
  has_value-holds s m store key h = elim (store_step-IsGood sql json s m (asks store key) h) [
    | inl (error, kept) ↦ (kept, λ b e. absurd (no-error _ (holds b) e (λ u. u) error))
    | inr (fine, kept) ↦
        let (same_map, value) = map-asks json m store key in
        (
          same_map-IsView (has_value sql json s store key).0 m _ same_map kept,
          λ b e. value b (sym fine ∙ e),
        )
  ]

  pub delete_value-done :
      (s : Storage D) (m : KeyMap V) (store : Option Store) (key : Text)
      → IsView sql json s m
      → (delete_value sql json s store key).1 ≡ done
      → IsView sql json
          (delete_value sql json s store key).0
          (λ j. if same_key (key_of store key) j then none else m j)
  unfolding store_step
  delete_value-done s m store key h e =
      elim (store_step-IsGood sql json s m (deletes store key) h) [
        | inl (error, kept) ↦ absurd (no-error _ done e (λ u. u) error)
        | inr (fine, kept) ↦
            same_map-IsView (delete_value sql json s store key).0
              (λ j. if same_key (key_of store key) j then none else m j) _
              (map-deletes json m store key (sym fine ∙ e)) kept
      ]
