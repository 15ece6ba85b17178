-- ===== src/Server/Process/Numbered.antt =====
-- The numbering of the stored messages under whole packets.
use net_chat.Prelude.{
  ℕ, suc, ◌+◌, ◌<◌, ◌≤◌, List, ℤ, int_max_suc, length, length-snoc, arith, inl, inr,
}
use net_chat.Proto.{RawMessage}
use net_chat.Sql.{Row, messages, Sqlite}
use net_chat.DataAccess.{create_msg_by_raw_msg, numbered}
use net_chat.DataAccess.Numbering.{
  IsNumbered, chat, create_msg_by_raw_msg-IsNumbered, create_msg-cases, get_all_messages-cases,
  stored,
}
use net_chat.Server.State.{Env, Server}
use net_chat.Server.Process.{process_recv_socket}
use net_chat.Server.Process.Quiet.{log}
use net_chat.Server.Process.Stored.{process_recv_socket-Relates}

-- Every conversation has room for one more internal id.
abbrev pub HasRoom : List Row → Type 0
HasRoom rs = (from to : ℤ) → length (chat from to rs) + 1 < int_max_suc

module _ (q : Sqlite) where
  open q use {Db, rows}

  -- one call stores at most one message
  pub create_msg_by_raw_msg-length :
      (m : RawMessage) (seconds : ℕ) (db : Db)
      → length (rows (create_msg_by_raw_msg q m seconds db).1 messages)
        ≤ suc (length (rows db messages))
  unfolding create_msg_by_raw_msg
  create_msg_by_raw_msg-length m seconds db = elim (get_all_messages-cases q m.from m.to db) [
    | inr e ↦ rw e (omega arith)
    | inl (msgs, e) ↦ elim (create_msg-cases q (numbered m msgs seconds) db) [
      | inr f ↦ rw (e, f) (omega arith)
      | inl (db', f, added) ↦
          rw (e, f, added)
            (omega (
              arith,
              length-snoc (rows db messages)
                  (stored (q.last_insert_rowid db') (numbered m msgs seconds)),
            ))
    ]
  ]

module _ (env : Env) where
  open env use {sqlite}

  -- One run of processRecvSocket, whatever arrives on the socket and however its handling
  -- ends, keeps every conversation (the messages from one user to another) numbered 1, 2, 3, …
  -- by internal id, if it was so before and every conversation had room for one more id below
  -- 2^31.
  pub process_recv_socket-IsNumbered :
      (fd : ℕ) (s : Server env)
      → IsNumbered (log env s)
      → HasRoom (log env s)
      → IsNumbered (log env (process_recv_socket env fd s).1)
  process_recv_socket-IsNumbered =
      process_recv_socket-Relates env (λ a b. IsNumbered a → HasRoom a → IsNumbered b)
        (λ rs h room. h)
        (λ m seconds db h room.
          create_msg_by_raw_msg-IsNumbered sqlite m seconds db h (room m.from m.to))

  pub process_recv_socket-length :
      (fd : ℕ) (s : Server env)
      → length (log env (process_recv_socket env fd s).1) ≤ suc (length (log env s))
  process_recv_socket-length =
      process_recv_socket-Relates env (λ a b. length b ≤ suc (length a)) (λ rs. omega arith)
        (create_msg_by_raw_msg-length sqlite)
