-- ===== src/Tests/Chats.antt =====
-- Messages, channels and files, run.
use net_chat.Prelude.{
  inc, suc, ◌+◌, ◌<◌, ◌≡◌, ◌⊎◌, refl, true, false, not, ◌++◌, [], ◌∷◌, List, map, some, codes,
  str_eq, ℤ, pos, int_eq, IsInt, int_max_suc, length, c_str, to_int, arith, if◌then◌else◌,
}
use net_chat.Exec.{ok, threw, ◌>>=◌}
use net_chat.Proto.{
  Message, RawMessage, SendMessageRequest, ContactList, contact_list, contact_message_reply,
}
use net_chat.Proto.PacketType.{contact_list_request, contact_message_response}
use net_chat.Entities.{User, make_user}
use net_chat.Sql.{messages, new_row}
use net_chat.Sql.Memory.{memory, Store, store_exec, store_steps, empty_store}
use net_chat.Dict.{lookup, insert}
use net_chat.Van.{control}
use net_chat.DataAccess.{
  get_all_messages, create_msg, select_all, all_rows, numbered, read_user, first_row, select_first,
  create_user, get_user, get_all_users, prepare, execute, create_msg_by_raw_msg,
}
use net_chat.DataAccess.Numbering.{chat, IsNumbered, stored}
use net_chat.PacketQueue.{list_queue}
use net_chat.UserManager.{
  Sender, no_pools, get_user_id_by_token, set_user_id_by_token, set_kp_alive_sender, get_sender,
  add_send_task,
}
use net_chat.Server.State.{Server, answer, pack_to_packet}
use net_chat.Server.Messaging.{
  handle_send_message, handle_contact_message, contact_of, run_open_channel, run_notify, is_file,
}
use net_chat.Server.Messaging.Sending.{
  text_reply, handle_send_message_lem, handle_contact_message-handle_send_message,
}
use net_chat.Server.Messaging.Channel.{sizes, run_open_channel_lem}
use net_chat.Server.Messaging.Notify.{news, run_notify_online}
use net_chat.Tests.World.{world, start}

abbrev pub two_users : Store
two_users =
    (create_user memory (make_user (pos 0) (codes "bob") (codes "p"))
      (create_user memory (make_user (pos 0) (codes "alice") (codes "p")) empty_store).1).1

-- alice, who is user 1, has logged in
abbrev pub chatting : Server world
chatting = record start {
  db = two_users;
  pools = set_user_id_by_token list_queue (codes "token") (pos 1) (no_pools list_queue);
}

abbrev pub hello : RawMessage
hello = record { from = pos 1; to = pos 2; message_type = pos 0; content = codes "hello" }

abbrev pub sending : SendMessageRequest
sending = record { token = codes "token"; message = hello }

abbrev forged : SendMessageRequest
forged = record { token = codes "token"; message = record hello { from = pos 2 } }

abbrev pub bob : User
bob = record { id = pos 2; username = codes "bob"; password = codes "p" }

pub token_is_alice : get_user_id_by_token list_queue (codes "token") chatting.pools ≡ pos 1
unfolding get_user_id_by_token set_user_id_by_token lookup insert str_eq
token_is_alice = refl

pub finds_bob : get_user memory (pos 2) two_users ≡ (ok (some bob), two_users)
unfolding get_user select_first first_row store_steps store_exec ◌>>=◌ create_user prepare execute
    make_user str_eq c_str new_row to_int read_user
finds_bob = refl

pub is_text : is_file (pos 0) ≡ false
unfolding is_file
is_text = refl

pub no_messages : IsNumbered (two_users.table messages)
unfolding chat store_exec ◌>>=◌ create_user prepare execute make_user str_eq c_str new_row
no_messages from to = refl

pub has_room : (from to : ℤ) → length (chat from to (two_users.table messages)) + 1 < int_max_suc
unfolding chat store_exec ◌>>=◌ create_user prepare execute make_user str_eq c_str new_row
has_room from to = omega arith

handle_send_message_lem_example :
    ((s' : Server world) × (msg : Message) × (handle_send_message world sending chatting
        ≡ (ok (text_reply (pos 2) msg), s'))
      × (create_msg_by_raw_msg memory hello 1700000000 two_users ≡ (ok (some msg), s'.db))
      × (msg.message ≡ hello)
      × (msg.internal_id ≡ pos (suc (length (chat (pos 1) (pos 2) (two_users.table messages)))))
      × (s'.db.table messages ≡ two_users.table messages ++ stored s'.db.last msg ∷ [])
      × (s'.pools ≡ chatting.pools))
    ⊎ (handle_send_message world sending chatting ≡ (threw, record chatting { readings = 1 }))
handle_send_message_lem_example =
    handle_send_message_lem world sending chatting bob token_is_alice finds_bob is_text no_messages
      (has_room (pos 1) (pos 2))

abbrev stored_hello : Message
stored_hello = record {
  message = hello;
  id = pos 1;
  timestamp = pos 1700000000;
  internal_id = pos 1;
}

abbrev pub sent_hello : Server world
sent_hello = (handle_send_message world sending chatting).1

sends :
    handle_send_message world sending chatting ≡ (ok (text_reply (pos 2) stored_hello), sent_hello)
unfolding handle_send_message get_user_id_by_token set_user_id_by_token lookup insert get_user
    select_first first_row store_steps store_exec ◌>>=◌ create_user prepare execute make_user str_eq
    c_str new_row to_int read_user create_msg_by_raw_msg get_all_messages create_msg select_all
    all_rows numbered is_file inc
sends = refl

healthy_after : not sent_hello.db.broken ≡ true
unfolding handle_send_message get_user_id_by_token set_user_id_by_token lookup insert get_user
    select_first first_row store_steps store_exec ◌>>=◌ create_user prepare execute make_user str_eq
    c_str new_row to_int read_user create_msg_by_raw_msg get_all_messages create_msg select_all
    all_rows numbered is_file inc
healthy_after = refl

one-IsInt : IsInt (pos 1)
one-IsInt = omega arith

two-IsInt : IsInt (pos 2)
two-IsInt = omega arith

zero-IsInt : IsInt (pos 0)
zero-IsInt = omega arith

handle_contact_message-handle_send_message_example :
    handle_contact_message world
      (record { token = codes "token"; id = pos 2; internal_id = pos 1 })
      sent_hello
    ≡ (ok (answer contact_message_response (contact_message_reply stored_hello)), sent_hello)
handle_contact_message-handle_send_message_example =
    handle_contact_message-handle_send_message world sending chatting sent_hello bob stored_hello
      token_is_alice finds_bob is_text no_messages (has_room (pos 1) (pos 2)) one-IsInt two-IsInt
      zero-IsInt sends healthy_after

-- bob has a channel on socket 6
abbrev pub listening : Server world
listening = record chatting { pools = set_kp_alive_sender list_queue (pos 2) 6 chatting.pools }

abbrev channel : Sender list_queue
channel = record { uid = pos 2; fd = 6; queue = [] }

has_channel : get_sender list_queue (pos 2) listening.pools ≡ some channel
unfolding get_sender set_kp_alive_sender lookup insert set_user_id_by_token
has_channel = refl

run_notify_online_example :
    (s' : Server world) × (sender' : Sender list_queue) × (run_notify world
        (pos 2)
        stored_hello
        listening
      ≡ (ok tt, s'))
    × (get_sender list_queue (pos 2) s'.pools ≡ some sender')
    × (sender'.fd ≡ 6)
    × (sender'.queue ≡ news world stored_hello ∷ [])
    × ((other : ℤ)
        → get_sender list_queue other s'.pools ≡ (
            if int_eq (pos 2) other
            then some sender'
            else get_sender list_queue other listening.pools))
run_notify_online_example =
    run_notify_online world (pos 2) stored_hello listening channel has_channel

abbrev opened : Server world
opened = (run_open_channel world (pos 1) 5 chatting).1

opens : run_open_channel world (pos 1) 5 chatting ≡ (ok tt, opened)
unfolding run_open_channel get_sender set_kp_alive_sender lookup insert set_user_id_by_token
    get_all_users get_all_messages select_all all_rows store_steps store_exec ◌>>=◌ create_user
    prepare execute make_user str_eq c_str new_row to_int read_user control add_send_task
opens = refl

run_open_channel_lem_example :
    (us : List User) × (list : ContactList) × (sender : Sender list_queue) × ((get_all_users memory
        two_users).0
      ≡ ok us)
    × (list.contacts ≡ map contact_of us)
    × (list.internal_ids ≡ sizes world two_users (pos 1) us)
    × (get_sender list_queue (pos 1) opened.pools ≡ some sender)
    × (sender.fd ≡ 5)
    × (sender.queue ≡ pack_to_packet contact_list_request (contact_list list) ∷ [])
run_open_channel_lem_example =
    run_open_channel_lem world (pos 1) 5 chatting opened (λ e. cc e) opens
