-- ===== src/DataAccess/Types.antt =====
-- The types of the columns, as `checkAndCreateTables` of include/db_access.h declares them. SQLite does
-- not hold a column to its type; the statements of the program do.
use net_chat.Prelude.{
  Str, ℕ, ◌≡◌, ◌≢◌, refl, sym, subst, List, [], ◌∷◌, ◌++◌, map, Option, none, some, Bool, true,
  false, ◌&&◌, not, ◌==◌, count, count-append, arith, Bool-cases, inl, inr,
}
use net_chat.Proto.{Message}
use net_chat.Entities.{User, StoredFile}
use net_chat.Sql.{
  Sqlite, Table, Table-discrete, Column, column_eq, Row, Value, null, integer, text, users, groups,
  user_group, files, messages, user_id, username, password, group_id, group_name, file_id, filename,
  hash, message_id, sender_id, receiver_id, message_type, internal_id, content, timestamp,
  key_column, unique_columns, required_columns, new_row, update_row, set_columns, matches,
}
use net_chat.DataAccess.{user_values, message_values}
use net_chat.DataAccess.Files.{file_sets, by_id}
use net_chat.DataAccess.Changes.{Change, unchanged, user_added, message_added, file_added, file_set}

pub data ColumnType : Type 0 where
  integer_type text_type : ColumnType

unfoldable pub column_type : Column → ColumnType
column_type username = text_type
column_type password = text_type
column_type group_name = text_type
column_type file_id = text_type
column_type filename = text_type
column_type hash = text_type
column_type content = text_type
column_type _ = integer_type

unfoldable pub columns : Table → List Column
columns users = user_id ∷ username ∷ password ∷ []
columns groups = group_id ∷ group_name ∷ []
columns user_group = user_id ∷ group_id ∷ []
columns files = file_id ∷ filename ∷ hash ∷ []
columns messages =
    message_id ∷ sender_id ∷ receiver_id ∷ message_type ∷ internal_id ∷ content ∷ file_id
    ∷ timestamp ∷ []

abbrev key_columns : Option Column → List Column
key_columns none = []
key_columns (some c) = c ∷ []

-- `NOT NULL`, `UNIQUE` and `PRIMARY KEY`
unfoldable pub needs_value : Table → Column → Bool
unfolding column_eq key_column unique_columns required_columns
needs_value t c = not (
    count (column_eq c) (required_columns t ++ unique_columns t ++ key_columns (key_column t)) == 0)

unfoldable pub fits : ColumnType → Bool → Value → Bool
fits integer_type needed (integer z) = true
fits text_type needed (text s) = true
fits _ needed null = not needed
fits _ needed _ = false

row_fits_in : Table → List Column → Row → Bool
unfolding fits column_type needs_value
row_fits_in t [] r = true
row_fits_in t (c ∷ cs) r = fits (column_type c) (needs_value t c) (r c) && row_fits_in t cs r

-- Whether a row has, in every column of its table, a value of the column's type.
unfoldable pub row_fits : Table → Row → Bool
unfolding row_fits_in columns
row_fits t r = row_fits_in t (columns t) r

pub record IsTyped (rows : Table → List Row) : Type 0 where
  pub rows_fit : (t : Table) → count (λ r. not (row_fits t r)) (rows t) ≡ 0

row_fits-user : (u : User) (id : ℕ) → row_fits users (new_row users id (user_values u)) ≡ true
unfolding row_fits new_row
row_fits-user u id = refl

row_fits-message :
    (m : Message) (id : ℕ) → row_fits messages (new_row messages id (message_values m)) ≡ true
unfolding row_fits new_row
row_fits-message m id = refl

row_fits-file : (uuid : Str) (id : ℕ) → row_fits files (new_row files id (by_id uuid)) ≡ true
unfolding row_fits new_row
row_fits-file uuid id = refl

row_fits-set :
    (f : StoredFile) (r : Row)
    → row_fits files r ≡ true
    → row_fits files (set_columns (file_sets f) r) ≡ true
unfolding row_fits set_columns
row_fits-set f r h = ground arith

row_fits-update :
    (f : StoredFile) (r : Row)
    → row_fits files r ≡ true
    → row_fits files (update_row (file_sets f) (by_id f.id) r) ≡ true
unfolding update_row
row_fits-update f r h = elim (Bool-cases (matches (by_id f.id) r)) [
  | inl e ↦ rw e (row_fits-set f r h)
  | inr e ↦ rw e h
]

unfit-update :
    (f : StoredFile) (rs : List Row)
    → count (λ r. not (row_fits files r)) rs ≡ 0
    → count (λ r. not (row_fits files r)) (map (update_row (file_sets f) (by_id f.id)) rs) ≡ 0
unfit-update f [] h = refl
unfit-update f (r ∷ rs) h = ground (arith, row_fits-update f r, unfit-update f rs)

unfit-added :
    (t : Table) (rs rs' : List Row) (r : Row)
    → rs' ≡ rs ++ r ∷ []
    → row_fits t r ≡ true
    → count (λ r. not (row_fits t r)) rs ≡ 0
    → count (λ r. not (row_fits t r)) rs' ≡ 0
unfit-added t rs rs' r e new h =
    subst (λ x. count (λ r. not (row_fits t r)) x ≡ 0) (sym e)
      (ground (arith, count-append (λ r. not (row_fits t r)) rs (r ∷ []), new, h))

-- One table has changed, and all its rows fit.
IsTyped-changed :
    (before after : Table → List Row) (t : Table)
    → ((u : Table) → u ≢ t → after u ≡ before u)
    → count (λ r. not (row_fits t r)) (after t) ≡ 0
    → IsTyped before
    → IsTyped after
IsTyped-changed before after t kept new h = record {
  rows_fit = λ u. elim (Table-discrete u t) [
    | yes e ↦ subst (λ x. count (λ r. not (row_fits x r)) (after x) ≡ 0) (sym e) new
    | no ne ↦ subst (λ x. count (λ r. not (row_fits u r)) x ≡ 0) (sym (kept u ne)) (h.rows_fit u)
  ];
}

module _ (q : Sqlite) where
  open q use {Db, rows, last_insert_rowid}

  -- Every statement of the program gives its columns values of their types.
  pub Change-IsTyped : (db db' : Db) → Change q db db' → IsTyped (rows db) → IsTyped (rows db')
  Change-IsTyped db db' (unchanged e) h = subst (λ d. IsTyped (rows d)) (sym e) h
  Change-IsTyped db db' (user_added u n i) h =
      IsTyped-changed (rows db) (rows db') users i.kept
        (unfit-added users (rows db users) (rows db' users) _ i.added (row_fits-user u _)
          (h.rows_fit users))
        h
  Change-IsTyped db db' (message_added m n i) h =
      IsTyped-changed (rows db) (rows db') messages i.kept
        (unfit-added messages (rows db messages) (rows db' messages) _ i.added
          (row_fits-message m _) (h.rows_fit messages))
        h
  Change-IsTyped db db' (file_added uuid n i) h =
      IsTyped-changed (rows db) (rows db') files i.kept
        (unfit-added files (rows db files) (rows db' files) _ i.added (row_fits-file uuid _)
          (h.rows_fit files))
        h
  Change-IsTyped db db' (file_set f n u) h =
      IsTyped-changed (rows db) (rows db') files u.kept
        (subst (λ x. count (λ r. not (row_fits files r)) x ≡ 0) (sym u.rewritten)
          (unfit-update f (rows db files) (h.rows_fit files)))
        h
