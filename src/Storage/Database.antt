-- ===== src/Storage/Database.antt =====
-- What lib/storage/storage.go relies on of SQLite and of JSON.
use polarix.Prelude.{ℕ, ◌≡◌, Bool, ◌&&◌, Option, none, some, List, if◌then◌else◌, Text, same}

abbrev pub Bytes : Type 0
Bytes = List ℕ

-- The primary key: scope, namespace and key.
abbrev pub Key : Type 0
Key = Text × Text × Text

unfoldable pub same_key : Key → Key → Bool
unfolding same
same_key (a, b, c) (d, e, f) = same a d && same b e && same c f

pub data Statement : Type 0 where
  journal_mode busy_timeout synchronous create_table : Statement

pub data Selected : Type 0 where
  row : Bytes → Selected
  no_rows : Selected
  select_error : Text → Selected

-- The row of a query, unless it fails. `probe` is SELECT EXISTS, read as a row or none.
abbrev pub IsSelected : Selected → Option Bytes → Type 0
IsSelected (row b) o = o ≡ some b
IsSelected no_rows o = o ≡ none
IsSelected (select_error x) o = Unit

-- A database: `dial` is sql.Open with its Ping, and `rows` is what the table at a path holds. A
-- statement that fails changes nothing.
pub record Sql (D : Type 0) : Type 0 where
  pub dial : D → Text → D × Option Text
  pub exec : D → Text → Statement → D × Option Text
  pub close : D → Text → Option Text
  pub upsert : D → Text → Key → Bytes → D × Option Text
  pub select : D → Text → Key → Selected
  pub probe : D → Text → Key → Selected
  pub delete_key : D → Text → Key → D × Option Text
  pub delete_namespace : D → Text → Text → Text → D × Option Text
  pub rows : D → Text → Key → Option Bytes
  pub dial_rows : (d : D) (p : Text) (k : Key) → rows (dial d p).0 p k ≡ rows d p k
  pub exec_rows :
      (d : D) (p : Text) (c : Statement) (k : Key) → rows (exec d p c).0 p k ≡ rows d p k
  pub upsert_rows :
      (d : D) (p : Text) (k : Key) (b : Bytes) (j : Key)
      → (upsert d p k b).1 ≡ none
      → rows (upsert d p k b).0 p j ≡ (if same_key k j then some b else rows d p j)
  pub upsert_fails :
      (d : D) (p : Text) (k : Key) (b : Bytes) (j : Key) (x : Text)
      → (upsert d p k b).1 ≡ some x
      → rows (upsert d p k b).0 p j ≡ rows d p j
  pub select_rows : (d : D) (p : Text) (k : Key) → IsSelected (select d p k) (rows d p k)
  pub probe_rows : (d : D) (p : Text) (k : Key) → IsSelected (probe d p k) (rows d p k)
  pub delete_rows :
      (d : D) (p : Text) (k : Key) (j : Key)
      → (delete_key d p k).1 ≡ none
      → rows (delete_key d p k).0 p j ≡ (if same_key k j then none else rows d p j)
  pub delete_fails :
      (d : D) (p : Text) (k : Key) (j : Key) (x : Text)
      → (delete_key d p k).1 ≡ some x
      → rows (delete_key d p k).0 p j ≡ rows d p j
  pub clear_rows :
      (d : D) (p scope space : Text) (j : Key)
      → (delete_namespace d p scope space).1 ≡ none
      → rows (delete_namespace d p scope space).0 p j
        ≡ (if same scope j.0 && same space j.1 then none else rows d p j)
  pub clear_fails :
      (d : D) (p scope space : Text) (j : Key) (x : Text)
      → (delete_namespace d p scope space).1 ≡ some x
      → rows (delete_namespace d p scope space).0 p j ≡ rows d p j

-- The encoder: what was encoded is read back.
pub record Json (V : Type 0) : Type 0 where
  pub marshal : V → Option Bytes
  pub unmarshal : Bytes → Option V
  pub read_back : (v : V) (b : Bytes) → marshal v ≡ some b → unmarshal b ≡ some v

-- The values that the plugins store as JSON.
pub data StoredValue : Type 0 where
  a_flag : Bool → StoredValue
  a_text : Text → StoredValue
