-- ===== src/Server/Messaging/Sending.antt =====
-- SendMessageRequest: who may send, what is stored and where the message goes; ContactMessageRequest
-- reads it back.
use net_chat.Prelude.{
  ℕ, suc, ◌+◌, ◌<◌, ◌≡◌, refl, sym, ◌∙◌, ap, ◌⊎◌, inl, inr, true, false, [], ◌∷◌, ◌++◌, some, Str,
  ℤ, pos, int_eq, int_eq_iff, int_max_suc, IsInt, to_int, length,
}
use net_chat.Exec.{ok, threw, ◌>>=◌}
use net_chat.Exec.Inversion.{bind_ok, bind_threw}
use net_chat.Proto.{
  Message, RawMessage, SendMessageRequest, send_message_reply, contact_message_reply,
}
use net_chat.Proto.PacketType.{send_message_response, contact_message_response}
use net_chat.Entities.{User}
use net_chat.Sql.{messages, select}
use net_chat.DataAccess.{get_user, get_message, create_msg_by_raw_msg}
use net_chat.DataAccess.Numbering.{IsNumbered, chat, stored, create_msg_by_raw_msg-cases}
use net_chat.DataAccess.Conversation.{one_message, get_message-create_msg_by_raw_msg}
use net_chat.UserManager.{get_user_id_by_token}
use net_chat.Server.State.{Env, Server, Reply, notify, answer, pack_to_packet, on_db}
use net_chat.Server.State.Inversion.{on_db-run}
use net_chat.Server.Messaging.{
  handle_send_message, handle_contact_message, check_receiver, store_message, after_store, is_file,
  found_message,
}

abbrev pub sent_reply : Message → Reply
sent_reply msg = answer send_message_response (send_message_reply msg)

-- the reply to a text, which also goes to its receiver
abbrev pub text_reply : ℤ → Message → Reply
text_reply receiver_id msg = record {
  packet = pack_to_packet send_message_response (send_message_reply msg);
  callback = some (notify receiver_id msg);
}

module _ (env : Env) where
  open env use {sqlite, queues}

  -- a text from its sender to a known receiver goes to the database
  handle_send_message_known :
      (r : SendMessageRequest) (s : Server env) (receiver : User)
      → get_user_id_by_token queues r.token s.pools ≡ r.message.from
      → get_user sqlite r.message.to s.db ≡ (ok (some receiver), s.db)
      → handle_send_message env r s
        ≡ (on_db env (create_msg_by_raw_msg sqlite r.message (env.clock s.readings))
              >>= after_store env r.message)
            (record s { readings = suc s.readings })
  unfolding handle_send_message check_receiver store_message ◌>>=◌
  handle_send_message_known r s receiver u e =
      let yes : int_eq (get_user_id_by_token queues r.token s.pools) r.message.from ≡ true =
        (int_eq_iff _ _).1 u in
      rw (yes, e) refl

  stored-id : (n : ℕ) (msg : Message) (id : ℤ) → stored n (record msg { id = id }) ≡ stored n msg
  unfolding stored
  stored-id n msg id = refl

  after_store_text :
      (m : RawMessage) (msg : Message) (s : Server env)
      → is_file m.message_type ≡ false
      → after_store env m (some msg) s ≡ (ok (text_reply m.to msg), s)
  unfolding after_store
  after_store_text m msg s h = rw h refl

  -- A text from the user of the token to a user that the database has, in a database whose
  -- conversations are numbered and with room for one more id: either it is stored under the
  -- next internal id of its conversation, as the one new row of the table, the reply carries
  -- it, the callback notifies its receiver and the pools are as they were; or the database
  -- throws and only the clock has been read.
  pub handle_send_message_lem :
      (r : SendMessageRequest) (s : Server env) (receiver : User)
      → get_user_id_by_token queues r.token s.pools ≡ r.message.from
      → get_user sqlite r.message.to s.db ≡ (ok (some receiver), s.db)
      → is_file r.message.message_type ≡ false
      → IsNumbered (sqlite.rows s.db messages)
      → length (chat r.message.from r.message.to (sqlite.rows s.db messages)) + 1 < int_max_suc
      → ((s' : Server env) × (msg : Message) × (handle_send_message env r s
            ≡ (ok (text_reply r.message.to msg), s'))
          × (create_msg_by_raw_msg sqlite r.message (env.clock s.readings) s.db
              ≡ (ok (some msg), s'.db))
          × (msg.message ≡ r.message)
          × (msg.internal_id
              ≡ pos (suc (length (chat r.message.from r.message.to (sqlite.rows s.db messages)))))
          × (sqlite.rows s'.db messages
              ≡ sqlite.rows s.db messages ++ stored (sqlite.last_insert_rowid s'.db) msg ∷ [])
          × (s'.pools ≡ s.pools))
        ⊎ (handle_send_message env r s ≡ (threw, record s { readings = suc s.readings }))
  handle_send_message_lem r s receiver u e text h small =
      let s0 = record s { readings = suc s.readings } in
      let m = on_db env (create_msg_by_raw_msg sqlite r.message (env.clock s.readings)) in
      let known = handle_send_message_known r s receiver u e in
      elim (create_msg_by_raw_msg-cases sqlite r.message (env.clock s.readings) s.db h small) [
        | inr f ↦ inr (
            known
            ∙ bind_threw m (after_store env r.message) s0 s0 (
                on_db-run env (create_msg_by_raw_msg sqlite r.message (env.clock s.readings)) s0
                  threw s.db f))
        | inl (db', msg0, f, same, next, _, added) ↦
            let msg = record msg0 { id = to_int (pos (sqlite.last_insert_rowid db')) } in
            let s' = record s0 { db = db' } in
            let run : m s0 ≡ (ok (some msg), s') =
              on_db-run env (create_msg_by_raw_msg sqlite r.message (env.clock s.readings)) s0
                (ok (some msg)) db' f in
            inl (
              s',
              msg,
              known
                  ∙ bind_ok m (after_store env r.message) s0 s' (some msg) run
                  ∙ after_store_text r.message msg s' text,
              f,
              same,
              next,
              added ∙ ap (λ x. sqlite.rows s.db messages ++ x ∷ []) (sym (stored-id _ msg0 _)),
              refl,
            )
      ]

  text_reply-injective : (to : ℤ) (a b : Message) → text_reply to a ≡ text_reply to b → a ≡ b
  text_reply-injective to a b e =
      let c : some (notify to a) ≡ some (notify to b) = ap (λ x. x.callback) e in cc c

  handle_contact_message_found :
      (token : Str) (id internal : ℤ) (s : Server env) (uid : ℤ) (msg : Message)
      → get_user_id_by_token queues token s.pools ≡ uid
      → get_message sqlite uid id internal s.db ≡ (ok (some msg), s.db)
      → handle_contact_message env (record { token = token; id = id; internal_id = internal }) s
        ≡ (ok (answer contact_message_response (contact_message_reply msg)), s)
  unfolding handle_contact_message found_message ◌>>=◌
  handle_contact_message_found token id internal s uid msg u e = rw (u, e) refl

  -- A text that was sent and answered is what ContactMessageRequest gives back to its sender
  -- for the receiver and the internal id of the reply: if the database was numbered with room
  -- for one more id, the ids and the type of the message are ints, and SQLite can read.
  pub handle_contact_message-handle_send_message :
      (r : SendMessageRequest) (s s' : Server env) (receiver : User) (msg : Message)
      → get_user_id_by_token queues r.token s.pools ≡ r.message.from
      → get_user sqlite r.message.to s.db ≡ (ok (some receiver), s.db)
      → is_file r.message.message_type ≡ false
      → IsNumbered (sqlite.rows s.db messages)
      → length (chat r.message.from r.message.to (sqlite.rows s.db messages)) + 1 < int_max_suc
      → IsInt r.message.from
      → IsInt r.message.to
      → IsInt r.message.message_type
      → handle_send_message env r s ≡ (ok (text_reply r.message.to msg), s')
      → sqlite.healthy
          (select messages (one_message r.message.from r.message.to msg.internal_id))
          s'.db
        ≡ true
      → handle_contact_message env
          (record { token = r.token; id = r.message.to; internal_id = msg.internal_id })
          s'
        ≡ (ok (answer contact_message_response (contact_message_reply msg)), s')
  handle_contact_message-handle_send_message r s s' receiver msg u e text h small f t y run well =
      elim (handle_send_message_lem r s receiver u e text h small) [
        | inr bad ↦ cc (bad, run)
        | inl (s1, msg1, run1, made, _, _, _, kept) ↦
            let same : s1 ≡ s' = cc (run, run1) in
            let said : text_reply r.message.to msg1 ≡ text_reply r.message.to msg =
              cc (run, run1) in
            let m : msg1 ≡ msg = text_reply-injective r.message.to msg1 msg said in
            let made' = rw (same, m) at made in
            let user : get_user_id_by_token queues r.token s'.pools ≡ r.message.from =
              rw (← same, kept) u in
            handle_contact_message_found r.token r.message.to msg.internal_id s' r.message.from msg
              user
              (get_message-create_msg_by_raw_msg sqlite r.message (env.clock s.readings) s.db s'.db
                msg h small f t y made' well)
      ]
