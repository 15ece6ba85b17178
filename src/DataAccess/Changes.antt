-- ===== src/DataAccess/Changes.antt =====
-- All that one of the program's statements can do to the database.
use net_chat.Prelude.{ℕ, ◌≡◌, refl, subst, Str, Bool-cases, Option-cases, inl, inr, arith, List}
use net_chat.Proto.{Message}
use net_chat.Entities.{User, StoredFile}
use net_chat.Sql.{
  Sqlite, Table, Row, Binding, users, messages, files, Inserted, Updated, insert, update,
}
use net_chat.DataAccess.{
  prepare, execute, select_first, select_all, create_user, create_msg, create_file, update_file,
  user_values, message_values,
}
use net_chat.DataAccess.Files.{file_sets, by_id}
use net_chat.DataAccess.Select.{select_first-unchanged, select_all-unchanged}

module _ (q : Sqlite) where
  open q use {Db, rows, prepares, exec, last_insert_rowid, exec-Inserted, exec-Updated}

  pub data Change (db db' : Db) : Type 0 where
    unchanged : db' ≡ db → Change db db'
    user_added :
        (u : User) (n : ℕ)
        → Inserted (rows db) (rows db') users (user_values u) (last_insert_rowid db') n
        → Change db db'
    message_added :
        (m : Message) (n : ℕ)
        → Inserted (rows db) (rows db') messages (message_values m) (last_insert_rowid db') n
        → Change db db'
    file_added :
        (uuid : Str) (n : ℕ)
        → Inserted (rows db) (rows db') files (by_id uuid) (last_insert_rowid db') n
        → Change db db'
    file_set :
        (f : StoredFile) (n : ℕ)
        → Updated (rows db) (rows db') files (file_sets f) (by_id f.id) n
        → Change db db'

  pub select_first-Change :
      {A : Type 0} (t : Table) (conds : List Binding) (read : Row → A) (db : Db)
      → Change db (select_first q t conds read db).1
  select_first-Change t conds read db = unchanged (select_first-unchanged q t conds read db)

  pub select_all-Change :
      {A : Type 0} (t : Table) (conds : List Binding) (read : Row → A) (db : Db)
      → Change db (select_all q t conds read db).1
  select_all-Change t conds read db = unchanged (select_all-unchanged q t conds read db)

  pub create_user-Change : (u : User) (db : Db) → Change db (create_user q u db).1
  unfolding create_user prepare execute
  create_user-Change u db = elim (Bool-cases (prepares (insert users (user_values u)) db)) [
    | inr p ↦ unchanged (rw p refl)
    | inl p ↦ elim (Option-cases (exec (insert users (user_values u)) db)) [
      | inl e ↦ unchanged (ground arith)
      | inr ((d, n), e) ↦
          subst (Change db) (ground arith)
            (user_added u n (exec-Inserted users (user_values u) db d n e))
    ]
  ]

  pub create_msg-Change : (m : Message) (db : Db) → Change db (create_msg q m db).1
  unfolding create_msg prepare execute
  create_msg-Change m db = elim (Bool-cases (prepares (insert messages (message_values m)) db)) [
    | inr p ↦ unchanged (rw p refl)
    | inl p ↦ elim (Option-cases (exec (insert messages (message_values m)) db)) [
      | inl e ↦ unchanged (ground arith)
      | inr ((d, n), e) ↦
          subst (Change db) (ground arith)
            (message_added m n (exec-Inserted messages (message_values m) db d n e))
    ]
  ]

  pub create_file-Change : (uuid : Str) (db : Db) → Change db (create_file q uuid db).1
  unfolding create_file prepare execute
  create_file-Change uuid db = elim (Bool-cases (prepares (insert files (by_id uuid)) db)) [
    | inr p ↦ unchanged (ground arith)
    | inl p ↦ elim (Option-cases (exec (insert files (by_id uuid)) db)) [
      | inl e ↦ unchanged (ground arith)
      | inr ((d, n), e) ↦
          subst (Change db) (ground arith)
            (file_added uuid n (exec-Inserted files (by_id uuid) db d n e))
    ]
  ]

  pub update_file-Change : (f : StoredFile) (db : Db) → Change db (update_file q f db).1
  unfolding update_file prepare execute
  update_file-Change f db =
      elim (Bool-cases (prepares (update files (file_sets f) (by_id f.id)) db)) [
        | inr p ↦ unchanged (ground arith)
        | inl p ↦ elim (Option-cases (exec (update files (file_sets f) (by_id f.id)) db)) [
          | inl e ↦ unchanged (ground arith)
          | inr ((d, n), e) ↦
              subst (Change db) (ground arith)
                (file_set f n (exec-Updated files (file_sets f) (by_id f.id) db d n e))
        ]
      ]
