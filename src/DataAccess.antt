-- ===== src/DataAccess.antt =====
-- `class DataAccess` of include/db_access.h and src/db/db_access.cpp, over an SQLite engine. The
-- proofs are in the modules below.
pub mod Select
pub mod Users
pub mod Registered
pub mod MaxId
pub mod Numbering
pub mod Bounded
pub mod Conversation
pub mod Race
pub mod Files
pub mod Untouched
pub mod Healthy
pub mod Changes
pub mod Keys
pub mod Types
pub mod History
pub mod Opening
use net_chat.Prelude.{
  ℕ, zero, suc, ◌+◌, ◌≡◌, Bool, true, false, not, List, [], ◌∷◌, ◌++◌, Option, none, some, Str, ℤ,
  pos, int_lt, to_int, inc, c_str, ◌==◌, if◌then◌else◌,
}
use net_chat.Exec.{Result, ok, threw, Exec, pure, throw, try_catch, no_except, ◌>>=◌, ◌>>◌}
use net_chat.Proto.{RawMessage, Message}
use net_chat.Entities.{User, Group, StoredFile, make_user, make_group, new_file}
use net_chat.Sql.{
  Sqlite, Table, Row, Binding, Value, null, integer, text, Statement, select, insert, update, users,
  groups, files, messages, user_id, username, password, group_id, group_name, file_id, filename,
  hash, message_id, sender_id, receiver_id, message_type, internal_id, content, timestamp,
}
use net_chat.Sql.Steps.{Cursor, done, row, failed}

-- The tests of the loop that looks for the largest internal id: it starts from 0.
unfoldable pub max_internal_id : ℤ → List Message → ℤ
max_internal_id best [] = best
max_internal_id best (m ∷ ms) =
    max_internal_id (if int_lt best m.internal_id then m.internal_id else best) ms

-- `getTimestamp`: a count of seconds, cut to an `int`.
unfoldable pub get_timestamp : ℕ → ℤ
get_timestamp seconds = to_int (pos seconds)

abbrev pub between : ℤ → ℤ → List Binding
between from to = (sender_id, integer from) ∷ (receiver_id, integer to) ∷ []

abbrev pub user_values : User → List Binding
user_values u = (username, text u.username) ∷ (password, text u.password) ∷ []

abbrev pub message_values : Message → List Binding
message_values m =
    (sender_id, integer m.message.from)
    ∷ (receiver_id, integer m.message.to)
    ∷ (content, text m.message.content)
    ∷ (message_type, integer m.message.message_type)
    ∷ (internal_id, integer m.internal_id)
    ∷ (timestamp, integer m.timestamp)
    ∷ []

-- the message that is stored, with the next internal id and the time
unfoldable pub numbered : RawMessage → List Message → ℕ → Message
unfolding max_internal_id get_timestamp
numbered m msgs seconds = record {
  message = m;
  id = pos 0;
  timestamp = get_timestamp seconds;
  internal_id = inc (max_internal_id (pos 0) msgs);
}

abbrev pub with_id : Message → Option ℤ → Option Message
with_id m none = none
with_id m (some id) = some (record m { id = id })

module _ (q : Sqlite) where
  open q use {Db, prepares, steps, exec, last_insert_rowid, int_of_text, text_of_int}

  -- Column::getInt and Column::getString
  unfoldable pub get_int : Value → ℤ
  get_int null = pos 0
  get_int (integer z) = to_int z
  get_int (text s) = int_of_text s

  unfoldable pub get_string : Value → Str
  get_string null = []
  get_string (integer z) = text_of_int z
  get_string (text s) = s

  unfoldable pub read_user : Row → User
  unfolding get_int get_string make_user
  read_user r = make_user (get_int (r user_id)) (get_string (r username)) (get_string (r password))

  unfoldable pub read_group : Row → Group
  unfolding get_int get_string make_group
  read_group r = make_group (get_int (r group_id)) (get_string (r group_name))

  unfoldable pub read_message : Row → Message
  unfolding get_int get_string
  read_message r = record {
    message = record {
      from = get_int (r sender_id);
      to = get_int (r receiver_id);
      message_type = get_int (r message_type);
      content = get_string (r content);
    };
    id = get_int (r message_id);
    timestamp = get_int (r timestamp);
    internal_id = get_int (r internal_id);
  }

  unfoldable pub read_file : Row → StoredFile
  unfolding get_string
  read_file r = record {
    id = get_string (r file_id);
    name = get_string (r filename);
    hash = get_string (r hash);
  }

  -- `SQLite::Statement query(db_, …)` and its `bind` calls
  unfoldable pub prepare : Statement → Exec Db (Unit {0})
  prepare st db = if prepares st db then (ok tt, db) else (threw, db)

  -- `query.exec()`: the number of rows that changed
  unfoldable pub execute : Statement → Exec Db ℕ
  execute st db = elim (exec st db) [ none ↦ (threw, db) | some (db', n) ↦ (ok n, db') ]

  -- `if (query.executeStep()) { … return x; } return {};`
  unfoldable pub first_row : {A : Type 0} → (Row → A) → Cursor Row → Exec Db (Option A)
  first_row read done = pure none
  first_row read (row r rest) = pure (some (read r))
  first_row read failed = throw

  -- `while (query.executeStep()) { … xs.push_back(x); } return xs;`
  unfoldable pub all_rows : {A : Type 0} → (Row → A) → List A → Cursor Row → Exec Db (List A)
  all_rows read xs done = pure xs
  all_rows read xs (row r rest) = all_rows read (xs ++ read r ∷ []) rest
  all_rows read xs failed = throw

  unfoldable pub select_first : {A : Type 0} → Table → List Binding → (Row → A) → Exec Db (Option A)
  unfolding ◌>>=◌ prepare first_row
  select_first t conds read = do
    prepare (select t conds)
    λ db. first_row read (steps t conds db) db

  unfoldable pub select_all : {A : Type 0} → Table → List Binding → (Row → A) → Exec Db (List A)
  unfolding ◌>>=◌ prepare all_rows
  select_all t conds read = do
    prepare (select t conds)
    λ db. all_rows read [] (steps t conds db) db

  -- getUser(std::string_view)
  unfoldable pub get_user_by_name : Str → Exec Db (Option User)
  get_user_by_name name = select_first users ((username, text (c_str name)) ∷ []) read_user

  -- getUser(const int &)
  unfoldable pub get_user : ℤ → Exec Db (Option User)
  get_user id = select_first users ((user_id, integer id) ∷ []) read_user

  unfoldable pub get_all_users : Exec Db (List User)
  get_all_users = select_all users [] read_user

  -- getGroup(std::string_view)
  unfoldable pub get_group_by_name : Str → Exec Db (Option Group)
  get_group_by_name name = select_first groups ((group_name, text (c_str name)) ∷ []) read_group

  -- getGroup(const int &)
  unfoldable pub get_group : ℤ → Exec Db (Option Group)
  get_group id = select_first groups ((group_id, integer id) ∷ []) read_group

  unfoldable pub get_all_groups : Exec Db (List Group)
  get_all_groups = select_all groups [] read_group

  unfoldable pub get_message : ℤ → ℤ → ℤ → Exec Db (Option Message)
  get_message from to id =
      select_first messages
        ((sender_id, integer from) ∷ (receiver_id, integer to) ∷ (internal_id, integer id) ∷ [])
        read_message

  unfoldable pub get_all_messages : ℤ → ℤ → Exec Db (List Message)
  get_all_messages from to = select_all messages (between from to) read_message

  unfoldable pub get_file : Str → Exec Db (Option StoredFile)
  get_file uuid = select_first files ((file_id, text (c_str uuid)) ∷ []) read_file

  unfoldable pub create_user : User → Exec Db Bool
  unfolding ◌>>=◌
  create_user u =
      try_catch
        (do
          prepare (insert users (user_values u))
          n ← execute (insert users (user_values u))
          pure (not (n == 0)))
        (pure false)

  unfoldable pub create_group : Group → Exec Db Bool
  unfolding ◌>>=◌
  create_group g = do
    prepare (insert groups ((group_name, text g.name) ∷ []))
    n ← execute (insert groups ((group_name, text g.name) ∷ []))
    pure (n == 1)

  -- getLastInsertRowid() becomes an `int`.
  unfoldable pub create_msg : Message → Exec Db (Option ℤ)
  unfolding ◌>>=◌
  create_msg m = do
    prepare (insert messages (message_values m))
    n ← execute (insert messages (message_values m))
    λ db. (ok (if n == 1 then some (to_int (pos (last_insert_rowid db))) else none), db)

  unfoldable pub create_msg_by_raw_msg : RawMessage → ℕ → Exec Db (Option Message)
  unfolding ◌>>=◌
  create_msg_by_raw_msg m seconds = do
    msgs ← get_all_messages m.from m.to
    result ← create_msg (numbered m msgs seconds)
    pure (with_id (numbered m msgs seconds) result)

  -- `noexcept`: the statement is made outside the `try`.
  unfoldable pub create_file : Str → Exec Db (Option Str)
  unfolding ◌>>=◌
  create_file uuid = no_except do
    prepare (insert files ((file_id, text uuid) ∷ []))
    try_catch
        (do
          n ← execute (insert files ((file_id, text uuid) ∷ []))
          pure (if n == 1 then some uuid else none))
        (pure none)

  update_by_id : Str → Str → Str → Exec Db Bool
  unfolding ◌>>=◌
  update_by_id id name digest = no_except do
    prepare
        (update files ((filename, text name) ∷ (hash, text digest) ∷ []) ((file_id, text id) ∷ []))
    try_catch
        (do
          n ← execute (
              update files ((filename, text name) ∷ (hash, text digest) ∷ [])
                ((file_id, text id) ∷ []))
          pure (not (n == 0)))
        (pure false)

  -- updateFile(const file::FileStorage &)
  unfoldable pub update_file : StoredFile → Exec Db Bool
  unfolding update_by_id
  update_file f = update_by_id f.id f.name f.hash

  -- updateFile(std::string_view, std::string_view, std::string_view)
  unfoldable pub update_file_by_name : Str → Str → Str → Exec Db Bool
  unfolding update_by_id
  update_file_by_name uuid name digest = update_by_id (c_str uuid) (c_str name) (c_str digest)
