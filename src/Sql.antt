-- ===== src/Sql.antt =====
-- SQL as the program uses it, and SQLite (with its wrapper SQLiteCpp) as an interface. A statement is
-- a value with its parameters bound; the tables and columns are those of `checkAndCreateTables` in
-- include/db_access.h. What SQLite does with a statement is a parameter, with its documented
-- behaviour as laws.
pub mod Steps
pub mod Memory
use mathlib.Core.List.{Permᴰ}
use net_chat.Prelude.{
  ℕ, zero, suc, ◌<◌, ◌≡◌, ◌≢◌, refl, Bool, true, false, ◌&&◌, ◌||◌, List, [], ◌∷◌, ◌++◌, map,
  Option, none, some, Str, ℤ, pos, int_eq, str_eq, not, ltb, ◌==◌, if◌then◌else◌, filter, count,
}
use Steps.{Cursor, cursor}

pub data Value : Type 0 where
  null : Value
  integer : ℤ → Value
  text : Str → Value

pub data Table : Type 0 where
  users groups user_group files messages : Table

pub data Column : Type 0 where
  user_id username password group_id group_name : Column
  file_id filename hash : Column
  message_id sender_id receiver_id message_type internal_id content timestamp : Column

pub Column-discrete : Discrete Column
Column-discrete = hlevel

pub Table-discrete : Discrete Table
Table-discrete = hlevel

-- SQL's `=`: NULL equals nothing.
unfoldable pub value_eq : Value → Value → Bool
value_eq (integer a) (integer b) = int_eq a b
value_eq (text s) (text t) = str_eq s t
value_eq _ _ = false

abbrev pub Row : Type 0
Row = Column → Value

abbrev pub Binding : Type 0
Binding = Column × Value

-- `WHERE c1 = ? AND c2 = ? …`
unfoldable pub matches : List Binding → Row → Bool
unfolding value_eq
matches [] r = true
matches ((c, v) ∷ rest) r = value_eq (r c) v && matches rest r

column_index : Column → ℕ
column_index user_id = 0
column_index username = 1
column_index password = 2
column_index group_id = 3
column_index group_name = 4
column_index file_id = 5
column_index filename = 6
column_index hash = 7
column_index message_id = 8
column_index sender_id = 9
column_index receiver_id = 10
column_index message_type = 11
column_index internal_id = 12
column_index content = 13
column_index timestamp = 14

unfoldable pub column_eq : Column → Column → Bool
unfolding column_index
column_eq a b = column_index a == column_index b

-- The value that an INSERT gives to a column that it names.
unfoldable pub value_of : List Binding → Column → Value
unfolding column_eq
value_of [] c = null
value_of ((d, v) ∷ rest) c = if column_eq d c then v else value_of rest c

-- `INTEGER PRIMARY KEY AUTOINCREMENT`
unfoldable pub key_column : Table → Option Column
key_column users = some user_id
key_column groups = some group_id
key_column messages = some message_id
key_column user_group = none
key_column files = none

-- `UNIQUE`, and a `PRIMARY KEY` that is no rowid. (The program never inserts into `user_group`.)
unfoldable pub unique_columns : Table → List Column
unique_columns users = username ∷ []
unique_columns files = file_id ∷ []
unique_columns _ = []

-- `NOT NULL`
unfoldable pub required_columns : Table → List Column
required_columns users = username ∷ password ∷ []
required_columns groups = group_name ∷ []
required_columns messages = sender_id ∷ receiver_id ∷ message_type ∷ timestamp ∷ []
required_columns _ = []

unfoldable pub is_null : Value → Bool
is_null null = true
is_null _ = false

taken : List Column → List Binding → Row → Bool
unfolding value_of value_eq
taken [] vals r = false
taken (c ∷ cs) vals r = value_eq (r c) (value_of vals c) || taken cs vals r

missing : List Column → List Binding → Bool
unfolding value_of is_null
missing [] vals = false
missing (c ∷ cs) vals = is_null (value_of vals c) || missing cs vals

-- Whether the new row breaks a constraint of its table. Foreign keys are declared in the schema, and
-- SQLite checks them only after `PRAGMA foreign_keys`, which the program does not give.
unfoldable pub violates : Table → List Binding → List Row → Bool
unfolding taken missing unique_columns required_columns
violates t vals rs =
    missing (required_columns t) vals || not (count (taken (unique_columns t) vals) rs == 0)

is_key : Option Column → Column → Bool
unfolding column_eq
is_key none c = false
is_key (some d) c = column_eq d c

-- The row that an INSERT adds under a new rowid.
unfoldable pub new_row : Table → ℕ → List Binding → Row
unfolding is_key key_column value_of
new_row t id vals c = if is_key (key_column t) c then integer (pos id) else value_of vals c

-- A row after `SET c1 = ?, c2 = ? …`
unfoldable pub set_columns : List Binding → Row → Row
unfolding column_eq
set_columns [] r c = r c
set_columns ((d, v) ∷ rest) r c = if column_eq d c then v else set_columns rest r c

unfoldable pub update_row : List Binding → List Binding → Row → Row
unfolding matches set_columns
update_row sets conds r = if matches conds r then set_columns sets r else r

-- Whether an id lies below a new one.
unfoldable pub id_below : ℕ → Value → Bool
id_below n (integer (pos k)) = ltb k n
id_below n _ = true

-- Whether an UPDATE sets a column that a constraint is about.
touches : List Column → List Binding → Bool
unfolding column_eq
touches cs [] = false
touches cs ((d, v) ∷ rest) = not (count (column_eq d) cs == 0) || touches cs rest

unfoldable pub constrained : Table → List Binding → Bool
unfolding touches unique_columns required_columns
constrained t sets = touches (unique_columns t ++ required_columns t) sets

pub data Statement : Type 0 where
  select : Table → List Binding → Statement
  insert : Table → List Binding → Statement
  update : Table → List Binding → List Binding → Statement

pub record Selected (rows : Table → List Row) (t : Table) (conds : List Binding) (healthy : Bool)
    (c : Cursor Row) : Type 0 where
  pub fault : Option ℕ
  pub found : List Row
  pub steps : c ≡ cursor fault found
  pub entries : Permᴰ found (filter (matches conds) (rows t))
  pub complete : healthy ≡ true → fault ≡ none

pub record Inserted (before after : Table → List Row) (t : Table) (vals : List Binding) (id n : ℕ)
    : Type 0 where
  pub one : n ≡ 1
  pub added : after t ≡ before t ++ new_row t id vals ∷ []
  pub kept : (u : Table) → u ≢ t → after u ≡ before u
  pub allowed : violates t vals (before t) ≡ false
  pub above :
      (c : Column) → key_column t ≡ some c → count (λ r. not (id_below id (r c))) (before t) ≡ 0

pub record Updated (before after : Table → List Row) (t : Table) (sets conds : List Binding) (n : ℕ)
    : Type 0 where
  pub changes : n ≡ count (matches conds) (before t)
  pub rewritten : after t ≡ map (update_row sets conds) (before t)
  pub kept : (u : Table) → u ≢ t → after u ≡ before u

-- SQLite. `rows` is what the tables hold, in order of insertion. A statement can fail for reasons
-- outside the program (a lock, the disk): `healthy` says that it does not.
pub record Sqlite : Type 1 where
  pub Db : Type 0
  pub rows : Db → Table → List Row
  pub healthy : Statement → Db → Bool
  -- the constructor `SQLite::Statement` and the calls of `bind`
  pub prepares : Statement → Db → Bool
  pub steps : Table → List Binding → Db → Cursor Row
  -- `none` is an exception, after which the database is as it was; a number is that of the changed rows
  pub exec : Statement → Db → Option (Db × ℕ)
  pub last_insert_rowid : Db → ℕ
  -- the conversions of `getInt` and `getString` between types
  pub int_of_text : Str → ℤ
  pub text_of_int : ℤ → Str
  pub prepares-healthy : (s : Statement) (db : Db) → healthy s db ≡ true → prepares s db ≡ true
  pub steps-Selected :
      (t : Table) (conds : List Binding) (db : Db)
      → Selected (rows db) t conds (healthy (select t conds) db) (steps t conds db)
  pub exec-Inserted :
      (t : Table) (vals : List Binding) (db db' : Db) (n : ℕ)
      → exec (insert t vals) db ≡ some (db', n)
      → Inserted (rows db) (rows db') t vals (last_insert_rowid db') n
  pub exec-insert_healthy :
      (t : Table) (vals : List Binding) (db : Db)
      → healthy (insert t vals) db ≡ true
      → violates t vals (rows db t) ≡ false
      → (r : Db × ℕ) × (exec (insert t vals) db ≡ some r)
  pub exec-Updated :
      (t : Table) (sets conds : List Binding) (db db' : Db) (n : ℕ)
      → exec (update t sets conds) db ≡ some (db', n)
      → Updated (rows db) (rows db') t sets conds n
  pub exec-update_healthy :
      (t : Table) (sets conds : List Binding) (db : Db)
      → healthy (update t sets conds) db ≡ true
      → constrained t sets ≡ false
      → (r : Db × ℕ) × (exec (update t sets conds) db ≡ some r)
