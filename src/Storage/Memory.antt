-- ===== src/Storage/Memory.antt =====
-- A database in memory, on which the interface's laws hold: rows as a function of path and key; and an
-- encoding of flags and texts.
use polarix.Prelude.{
  ◌≡◌, refl, subst, Bool, true, false, ◌&&◌, Option, none, some, [], ◌∷◌, ◌==◌, if◌then◌else◌, Text,
  same, same_refl,
}
use polarix.Storage.Map.{IsRow}
use polarix.Storage.Database.{
  Bytes, IsSelected, Json, Key, Selected, Sql, StoredValue, a_flag, a_text, no_rows, row, same_key,
}

abbrev pub Memory : Type 0
Memory = Text → Key → Option Bytes

abbrev pub selected : Option Bytes → Selected
selected none = no_rows
selected (some b) = row b

pub selected-IsSelected : (o : Option Bytes) → IsSelected (selected o) o
selected-IsSelected none = refl
selected-IsSelected (some b) = refl

abbrev pub put_row : Memory → Text → (Key → Bool) → Option Bytes → Memory
put_row d p test o q j = if same p q && test j then o else d q j

pub put_row-at :
    (d : Memory) (p : Text) (test : Key → Bool) (o : Option Bytes) (j : Key)
    → put_row d p test o p j ≡ (if test j then o else d p j)
put_row-at d p test o j = rw (same_refl p) refl

pub never_fails : {A : Type 0} (x : Text) → none ≡ some x → A
never_fails x e = let clash : none ≡ some x = e in cc

abbrev pub memory : Sql Memory
memory = record {
  dial = λ d p. (d, none);
  exec = λ d p c. (d, none);
  close = λ d p. none;
  upsert = λ d p k b. (put_row d p (same_key k) (some b), none);
  select = λ d p k. selected (d p k);
  probe = λ d p k. selected (d p k);
  delete_key = λ d p k. (put_row d p (same_key k) none, none);
  delete_namespace =
      λ d p scope space. (put_row d p (λ j. same scope j.0 && same space j.1) none, none);
  rows = λ d p k. d p k;
  dial_rows = λ d p k. refl;
  exec_rows = λ d p c k. refl;
  upsert_rows = λ d p k b j fine. put_row-at d p (same_key k) (some b) j;
  upsert_fails = λ d p k b j x e. never_fails x e;
  select_rows = λ d p k. selected-IsSelected (d p k);
  probe_rows = λ d p k. selected-IsSelected (d p k);
  delete_rows = λ d p k j fine. put_row-at d p (same_key k) none j;
  delete_fails = λ d p k j x e. never_fails x e;
  clear_rows =
      λ d p scope space j fine. put_row-at d p (λ i. same scope i.0 && same space i.1) none j;
  clear_fails = λ d p scope space j x e. never_fails x e;
}

-- A flag is one number, and a text has 2 in front.
abbrev pub write_value : StoredValue → Option Bytes
write_value (a_flag false) = some (0 ∷ [])
write_value (a_flag true) = some (1 ∷ [])
write_value (a_text t) = some (2 ∷ t)

abbrev pub read_value : Bytes → Option StoredValue
read_value [] = none
read_value (c ∷ t) =
    if c == 0 then some (a_flag false) else if c == 1 then some (a_flag true) else some (a_text t)

abbrev pub read_written : Option Bytes → Option StoredValue
read_written none = none
read_written (some b) = read_value b

pub read_value-write_value : (v : StoredValue) → read_written (write_value v) ≡ some v
read_value-write_value (a_flag false) = refl
read_value-write_value (a_flag true) = refl
read_value-write_value (a_text t) = refl

abbrev pub stored_json : Json StoredValue
stored_json = record {
  marshal = write_value;
  unmarshal = read_value;
  read_back =
      λ v b e. subst (λ (o : Option Bytes). read_written o ≡ some v) e (read_value-write_value v);
}

abbrev pub written : Option StoredValue → Option Bytes
written none = none
written (some v) = write_value v

pub written-IsRow : (o : Option StoredValue) → IsRow memory stored_json (written o) o
written-IsRow none = refl
written-IsRow (some (a_flag false)) = (a_flag false, refl, refl)
written-IsRow (some (a_flag true)) = (a_flag true, refl, refl)
written-IsRow (some (a_text t)) = (a_text t, refl, refl)
