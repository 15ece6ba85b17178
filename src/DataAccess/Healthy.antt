-- ===== src/DataAccess/Healthy.antt =====
-- Messages while SQLite can read and write: storing one never fails.
use net_chat.Prelude.{ℕ, ◌≡◌, refl, true, false, List, [], ◌∷◌, map, some, ℤ, pos, to_int, arith}
use net_chat.Exec.{ok}
use net_chat.Proto.{RawMessage, Message}
use net_chat.Sql.{Sqlite, messages, select, insert, violates, Row}
use net_chat.DataAccess.{
  prepare, execute, create_msg, create_msg_by_raw_msg, get_all_messages, numbered, between,
  message_values, read_message,
}
use net_chat.DataAccess.Select.{answer, select_all-answer}

-- The columns that must not be NULL are numbers, and none has to be unique.
violates-message : (m : Message) (rs : List Row) → violates messages (message_values m) rs ≡ false
unfolding violates
violates-message m [] = refl
violates-message m (r ∷ rs) = ground (arith, violates-message m rs)

module _ (q : Sqlite) where
  open q use {
    Db, rows, healthy, exec, last_insert_rowid, prepares-healthy, exec-insert_healthy,
    exec-Inserted,
  }

  create_msg_healthy :
      (m : Message) (db : Db)
      → healthy (insert messages (message_values m)) db ≡ true
      → (db' : Db) × (create_msg q m db ≡ (ok (some (to_int (pos (last_insert_rowid db')))), db'))
  unfolding create_msg prepare execute
  create_msg_healthy m db h =
      let ((db', n), e) =
        exec-insert_healthy messages (message_values m) db h
          (violates-message m (rows db messages)) in
      let i = exec-Inserted messages (message_values m) db db' n e in
      let p = prepares-healthy (insert messages (message_values m)) db h in
      (db', ground (arith, i.one))

  get_all_messages_healthy :
      (from to : ℤ) (db : Db)
      → healthy (select messages (between from to)) db ≡ true
      → (msgs : List Message) × (get_all_messages q from to db ≡ (ok msgs, db))
  unfolding get_all_messages
  get_all_messages_healthy from to db h = (
    map (read_message q) (answer q messages (between from to) db h),
    select_all-answer q messages (between from to) db h (read_message q),
  )

  pub create_msg_by_raw_msg_healthy :
      (m : RawMessage) (seconds : ℕ) (db : Db)
      → healthy (select messages (between m.from m.to)) db ≡ true
      → ((msg : Message) → healthy (insert messages (message_values msg)) db ≡ true)
      → (msg : Message) × (db' : Db) × (create_msg_by_raw_msg q m seconds db ≡ (ok (some msg), db'))
  unfolding create_msg_by_raw_msg
  create_msg_by_raw_msg_healthy m seconds db h k =
      let (msgs, e) = get_all_messages_healthy m.from m.to db h in
      let (db', f) =
        create_msg_healthy (numbered m msgs seconds) db (k (numbered m msgs seconds)) in
      let stored_message : Message = record (numbered m msgs seconds) {
        id = to_int (pos (last_insert_rowid db'));
      } in
      (stored_message, db', ground arith)
