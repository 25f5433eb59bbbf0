-- ===== src/Storage.antt =====
-- lib/storage/storage.go: the key-value store in one SQLite table. The database and the JSON encoder
-- are arguments: `D` is the state of the database files, `V` the values that are stored. The mutexes
-- make each operation one step. The callers give Get a target of the type of the values: its error
-- for a nil target does not come up.
pub mod Database
pub mod Map
pub mod Refines
pub mod Promise
pub mod Answers
pub mod Namespaces
pub mod Memory
pub mod Tests
use polarix.Prelude.{
  ◌+◌, ◌-◌, ◌/◌, ap, Bool, true, false, ◌||◌, Option, none, some, List, [], ◌∷◌, ◌++◌,
  if◌then◌else◌, set, Text, str, same, is_empty, delete,
}
use polarix.Storage.Database.{
  Bytes, Json, Key, Selected, Sql, Statement, busy_timeout, create_table, journal_mode, no_rows,
  row, select_error, synchronous,
}

pub record Store : Type 0 where
  pub scope : Text
  pub namespace : Text

pub data StorageError : Type 0 where
  invalid_namespace : StorageError
  empty_key : StorageError
  marshal_error : StorageError
  unmarshal_error : StorageError
  database_error : Text → StorageError

-- db and dbPath, and the files. An open database is known by its path.
pub record Storage (D : Type 0) : Type 0 where
  pub db : Option Text
  pub db_path : Text
  pub files : D

abbrev pub default_db_path : Text
default_db_path = str "bot.db"

unfoldable pub global : Store
global = record { scope = str "global"; namespace = str "global" }

unfoldable pub plugin_store : Text → Store
plugin_store plugin_id = record { scope = str "plugin"; namespace = plugin_id }

unfoldable pub command_store : Text → Text → Store
command_store plugin_id command_id = record {
  scope = str "command";
  namespace = plugin_id ++ b':' ∷ command_id;
}

unfoldable pub user_store : Text → Store
user_store user_id = record { scope = str "user"; namespace = user_id }

unfoldable pub group_store : Text → Store
group_store group_id = record { scope = str "group"; namespace = group_id }

abbrev pub check_namespace : Option Store → Option StorageError
check_namespace none = some invalid_namespace
check_namespace (some s) =
    if is_empty s.scope || is_empty s.namespace then some invalid_namespace else none

-- validate
unfoldable pub validate : Option Store → Text → Option StorageError
validate s key = elim (check_namespace s) [
  | some e ↦ some e
  | none ↦ if is_empty key then some empty_key else none
]

-- What an operation of a store reports.
pub data Answer (V : Type 0) : Type 0 where
  done : Answer V
  found : V → Answer V
  missing : Answer V
  holds : Bool → Answer V
  failed : StorageError → Answer V

-- The place of a key: `or_global` is only reached with a store.
abbrev pub or_global : Option Store → Store
or_global none = global
or_global (some s) = s

abbrev pub key_of : Option Store → Text → Key
key_of s key = ((or_global s).scope, (or_global s).namespace, key)

abbrev pub answer_of : {V : Type 0} → Option Text → Answer V
answer_of none = done
answer_of (some e) = failed (database_error e)

module _ {D V : Type 0} (sql : Sql D) (json : Json V) where
  -- openLocked: the connection, then each statement; an error closes the connection again.
  unfoldable pub run_statements : Storage D → Text → List Statement → Storage D × Option Text
  run_statements s path [] = (record s { db = some path }, none)
  run_statements s path (c ∷ cs) =
      let (files, e) = sql.exec s.files path c in
      elim e [
        | some x ↦ (record s { files = files }, some x)
        | none ↦ run_statements (record s { files = files }) path cs
      ]

  unfoldable pub open_locked : Storage D → Text → Storage D × Option Text
  unfolding run_statements
  open_locked s path =
      let (files, e) = sql.dial s.files path in
      elim e [
        | some x ↦ (record s { files = files }, some x)
        | none ↦
            run_statements (record s { files = files }) path
              (journal_mode ∷ busy_timeout ∷ synchronous ∷ create_table ∷ [])
      ]

  -- Open
  unfoldable pub open_db : Storage D → Text → Storage D × Option Text
  unfolding open_locked same
  open_db s given =
      let path = if is_empty given then default_db_path else given in
      elim s.db [
        | none ↦ open_locked (record s { db_path = path }) path
        | some old ↦ if same s.db_path path then (s, none) else (elim (sql.close s.files old) [
          | some x ↦ (s, some x)
          | none ↦ open_locked (record s { db = none; db_path = path }) path
        ])
      ]

  -- Close
  unfoldable pub close_db : Storage D → Storage D × Option Text
  close_db s = elim s.db [
    | none ↦ (s, none)
    | some old ↦ (record s { db = none; db_path = default_db_path }, sql.close s.files old)
  ]

  -- ensureDB, with the path of the database that is used
  unfoldable pub ensure_db : Storage D → Storage D × Text × Option Text
  unfolding open_locked
  ensure_db s = elim s.db [
    | some path ↦ (s, path, none)
    | none ↦
        let path = if is_empty s.db_path then default_db_path else s.db_path in
        let (t, e) = open_locked (record s { db_path = path }) path in (t, path, e)
  ]

  -- An operation with the open database, or the error of opening it.
  abbrev pub with_db : Storage D → (Storage D → Text → Storage D × Answer V) → Storage D × Answer V
  with_db s next =
      let (t, path, e) = ensure_db s in
      elim e [ some x ↦ (t, failed (database_error x)) | none ↦ next t path ]

  -- What is made of the row, for a target of the type `V`.
  abbrev pub read_row : Selected → Answer V
  read_row no_rows = missing
  read_row (select_error x) = failed (database_error x)
  read_row (row encoded) = elim (json.unmarshal encoded) [
    | none ↦ failed unmarshal_error
    | some v ↦ found v
  ]

  abbrev pub read_exists : Selected → Answer V
  read_exists no_rows = holds false
  read_exists (select_error x) = failed (database_error x)
  read_exists (row _) = holds true

  -- The statements of the operations, on the open database.
  abbrev pub do_upsert : Key → Bytes → Storage D → Text → Storage D × Answer V
  do_upsert k encoded t path =
      let (files, e) = sql.upsert t.files path k encoded in
      (record t { files = files }, answer_of e)

  abbrev pub do_select : Key → Storage D → Text → Storage D × Answer V
  do_select k t path = (t, read_row (sql.select t.files path k))

  abbrev pub do_exists : Key → Storage D → Text → Storage D × Answer V
  do_exists k t path = (t, read_exists (sql.probe t.files path k))

  abbrev pub do_delete : Key → Storage D → Text → Storage D × Answer V
  do_delete k t path =
      let (files, e) = sql.delete_key t.files path k in (record t { files = files }, answer_of e)

  abbrev pub do_clear : Text → Text → Storage D → Text → Storage D × Answer V
  do_clear scope space t path =
      let (files, e) = sql.delete_namespace t.files path scope space in
      (record t { files = files }, answer_of e)

  unfoldable pub set_value : Storage D → Option Store → Text → V → Storage D × Answer V
  unfolding validate
  set_value s store key value = elim (validate store key) [
    | some e ↦ (s, failed e)
    | none ↦ elim (json.marshal value) [
      | none ↦ (s, failed marshal_error)
      | some encoded ↦ with_db s (do_upsert (key_of store key) encoded)
    ]
  ]

  unfoldable pub get_value : Storage D → Option Store → Text → Storage D × Answer V
  unfolding validate
  get_value s store key = elim (validate store key) [
    | some e ↦ (s, failed e)
    | none ↦ with_db s (do_select (key_of store key))
  ]

  unfoldable pub has_value : Storage D → Option Store → Text → Storage D × Answer V
  unfolding validate
  has_value s store key = elim (validate store key) [
    | some e ↦ (s, failed e)
    | none ↦ with_db s (do_exists (key_of store key))
  ]

  unfoldable pub delete_value : Storage D → Option Store → Text → Storage D × Answer V
  unfolding validate
  delete_value s store key = elim (validate store key) [
    | some e ↦ (s, failed e)
    | none ↦ with_db s (do_delete (key_of store key))
  ]

  unfoldable pub clear_values : Storage D → Option Store → Storage D × Answer V
  clear_values s store = elim (check_namespace store) [
    | some e ↦ (s, failed e)
    | none ↦ with_db s (do_clear (or_global store).scope (or_global store).namespace)
  ]
