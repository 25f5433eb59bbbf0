-- ===== src/Storage/Map.antt =====
-- What a store promises: a map from keys to values, and the operations on it.
use polarix.Prelude.{
  ◌≡◌, Bool, true, false, ◌&&◌, Option, none, some, List, [], ◌∷◌, if◌then◌else◌, Text, same,
  is_empty,
}
use polarix.Storage.Database.{Bytes, Json, Key, Sql, same_key}
use polarix.Storage.{
  Answer, Storage, Store, check_namespace, clear_values, database_error, default_db_path,
  delete_value, done, failed, found, get_value, has_value, holds, key_of, marshal_error, missing,
  or_global, set_value, validate,
}

pub data StoreOp (V : Type 0) : Type 0 where
  sets : Option Store → Text → V → StoreOp V
  gets : Option Store → Text → StoreOp V
  asks : Option Store → Text → StoreOp V
  deletes : Option Store → Text → StoreOp V
  clears : Option Store → StoreOp V

abbrev pub KeyMap : Type 0 → Type 0
KeyMap V = Key → Option V

abbrev pub found_or : {V : Type 0} → Option V → Answer V
found_or none = missing
found_or (some v) = found v

abbrev pub is_bound : {V : Type 0} → Option V → Bool
is_bound none = false
is_bound (some v) = true

module _ {V : Type 0} (json : Json V) where
  -- The operation on the map, once its guards have let it through.
  abbrev pub map_set : KeyMap V → Key → V → KeyMap V × Answer V
  map_set m k v = elim (json.marshal v) [
    | none ↦ (m, failed marshal_error)
    | some b ↦ ((λ j. if same_key k j then some v else m j), done)
  ]

  unfoldable pub map_step : KeyMap V → StoreOp V → KeyMap V × Answer V
  unfolding validate same_key same
  map_step m (sets s key v) = elim (validate s key) [
    | some e ↦ (m, failed e)
    | none ↦ map_set m (key_of s key) v
  ]
  map_step m (gets s key) = elim (validate s key) [
    | some e ↦ (m, failed e)
    | none ↦ (m, found_or (m (key_of s key)))
  ]
  map_step m (asks s key) = elim (validate s key) [
    | some e ↦ (m, failed e)
    | none ↦ (m, holds (is_bound (m (key_of s key))))
  ]
  map_step m (deletes s key) = elim (validate s key) [
    | some e ↦ (m, failed e)
    | none ↦ ((λ j. if same_key (key_of s key) j then none else m j), done)
  ]
  map_step m (clears s) = elim (check_namespace s) [
    | some e ↦ (m, failed e)
    | none ↦ (
      (λ j. if same (or_global s).scope j.0 && same (or_global s).namespace j.1 then none else m j),
      done,
    )
  ]

  unfoldable pub map_run : KeyMap V → List (StoreOp V) → KeyMap V × List (Answer V)
  unfolding map_step
  map_run m [] = (m, [])
  map_run m (o ∷ os) =
      let (t, a) = map_step m o in let (u, answers) = map_run t os in (u, a ∷ answers)

module _ {D V : Type 0} (sql : Sql D) (json : Json V) where
  unfoldable pub store_step : Storage D → StoreOp V → Storage D × Answer V
  unfolding set_value get_value has_value delete_value clear_values
  store_step s (sets store key v) = set_value sql json s store key v
  store_step s (gets store key) = get_value sql json s store key
  store_step s (asks store key) = has_value sql json s store key
  store_step s (deletes store key) = delete_value sql json s store key
  store_step s (clears store) = clear_values sql json s store

  unfoldable pub store_run : Storage D → List (StoreOp V) → Storage D × List (Answer V)
  unfolding store_step
  store_run s [] = (s, [])
  store_run s (o ∷ os) =
      let (t, a) = store_step s o in let (u, answers) = store_run t os in (u, a ∷ answers)

  -- A row stands for the value that is read from it.
  abbrev pub IsRow : Option Bytes → Option V → Type 0
  IsRow none o = o ≡ none
  IsRow (some b) o = (v : V) × (o ≡ some v) × (json.unmarshal b ≡ some v)

  -- The path of the database that the next operation uses.
  abbrev pub path_of : Storage D → Text
  path_of s = elim s.db [
    | some path ↦ path
    | none ↦ if is_empty s.db_path then default_db_path else s.db_path
  ]

  abbrev pub IsView : Storage D → KeyMap V → Type 0
  IsView s m = (k : Key) → IsRow (sql.rows s.files (path_of s) k) (m k)

abbrev pub IsDatabaseError : {V : Type 0} → Answer V → Type 0
IsDatabaseError (failed (database_error x)) = Unit
IsDatabaseError _ = ⊥
