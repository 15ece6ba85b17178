-- ===== src/Server/Messaging.antt =====
-- Channels and messages: the cases SetupChannelRequest, SendMessageRequest and ContactMessageRequest
-- of the switch, with the callbacks of the first two.
pub mod Sending
pub mod Channel
pub mod Notify
use net_chat.Prelude.{
  ℕ, Bool, true, false, ◌||◌, not, List, [], ◌∷◌, ◌++◌, Option, none, some, Str, codes, ℤ, pos,
  negsuc, int_eq, to_int, length, if◌then◌else◌,
}
use net_chat.Exec.{Exec, Result, ok, pure, ◌>>=◌, ◌>>◌}
use net_chat.Proto.{
  Packet, Contact, ContactList, RawMessage, Message, SendMessageRequest, ContactMessageRequest,
  Content, no_message, friend_type, image_type, file_type, server_ack, contact_list,
  send_message_reply, contact_message_reply, contact_message_list,
}
use net_chat.Proto.PacketType.{
  server_ack_response, contact_list_request, send_message_response, contact_message_response,
  contact_message_list_request,
}
use net_chat.Entities.{User}
use net_chat.DataAccess.{
  get_user, get_all_users, get_all_messages, create_msg_by_raw_msg, create_file, get_message,
}
use net_chat.UserManager.{
  Pools, Sender, get_user_id_by_token, set_kp_alive_sender, get_sender, add_send_task, is_online,
  set_file_msg,
}
use net_chat.Van.{control}
use net_chat.Server.State.{
  Env, Server, Reply, Callback, open_channel, record_file, notify, answer, pack_to_packet, on_db,
  on_pools, from_pools, on_van, next_uuid, read_clock,
}

-- `response.mutable_message()->set_id(-1)` on an empty response
abbrev pub failed_message : Message
failed_message = record no_message { id = negsuc 0 }

unfoldable pub contact_of : User → Contact
contact_of u = record { id = u.id; name = u.username; online = true; contact_type = friend_type }

-- IMAGE or FILE
unfoldable pub is_file : ℤ → Bool
is_file t = int_eq t image_type || int_eq t file_type

module _ (env : Env) where
  open env use {sqlite, queues, net}

  -- case SetupChannelRequest
  unfoldable pub handle_setup_channel : Str → Exec (Server env) Reply
  handle_setup_channel token = do
    uid ← from_pools env (get_user_id_by_token queues token)
    pure (record {
      packet = pack_to_packet server_ack_response server_ack;
      callback = some (open_channel uid);
    })

  -- The loop over the users: a contact for each, and the size of the conversation with it.
  unfoldable pub contacts_loop : ℤ → ContactList → List User → Exec (Server env) ContactList
  contacts_loop uid list [] = pure list
  contacts_loop uid list (u ∷ us) = do
    msgs ← on_db env (get_all_messages sqlite uid u.id)
    contacts_loop uid
        (record {
          contacts = list.contacts ++ contact_of u ∷ [];
          internal_ids = list.internal_ids ++ to_int (pos (length msgs)) ∷ [];
        })
        us

  -- `if (sender) sender->addSendTask(packet)`
  unfoldable pub push_task : ℤ → Option (Sender queues) → Packet → Exec (Server env) (Unit {0})
  push_task uid none packet = pure tt
  push_task uid (some s) packet = on_pools env (add_send_task queues uid s packet)

  -- the callback of SetupChannelRequest
  unfoldable pub run_open_channel : ℤ → ℕ → Exec (Server env) (Unit {0})
  unfolding push_task contacts_loop
  run_open_channel uid client_fd = do
    on_pools env (set_kp_alive_sender queues uid client_fd)
    users ← on_db env (get_all_users sqlite)
    list ← contacts_loop uid (record { contacts = []; internal_ids = [] }) users
    sender ← from_pools env (get_sender queues uid)
    push_task uid sender (pack_to_packet contact_list_request (contact_list list))
    on_van env (control net client_fd (codes "EPOLL_DEL_FD"))
    pure tt

  -- the reply with the generated file id in the message, and the callback that keeps it for the upload
  unfoldable pub registered : ℤ → Message → Option Str → Reply
  registered receiver_id msg none = answer send_message_response (send_message_reply failed_message)
  registered receiver_id msg (some file_id) =
      let msg' = record msg { message = record msg.message { content = file_id } } in
      record {
        packet = pack_to_packet send_message_response (send_message_reply msg');
        callback = some (record_file file_id receiver_id msg');
      }

  unfoldable pub register_file : ℤ → Message → Exec (Server env) Reply
  unfolding registered
  register_file receiver_id msg = do
    uuid ← next_uuid env
    file_id_result ← on_db env (create_file sqlite uuid)
    pure (registered receiver_id msg file_id_result)

  -- an image or a file is registered; a text goes to its receiver
  unfoldable pub after_store : RawMessage → Option Message → Exec (Server env) Reply
  unfolding register_file
  after_store message none = pure (answer send_message_response (send_message_reply failed_message))
  after_store message (some msg) =
      if is_file message.message_type
      then register_file message.to msg
      else pure (record {
        packet = pack_to_packet send_message_response (send_message_reply msg);
        callback = some (notify message.to msg);
      })

  unfoldable pub store_message : RawMessage → Option User → Exec (Server env) Reply
  unfolding after_store
  store_message message none =
      pure (answer send_message_response (send_message_reply failed_message))
  store_message message (some receiver) = do
    seconds ← read_clock env
    msg_result ← on_db env (create_msg_by_raw_msg sqlite message seconds)
    after_store message msg_result

  unfoldable pub check_receiver : RawMessage → Exec (Server env) Reply
  unfolding store_message
  check_receiver message = do
    receiver ← on_db env (get_user sqlite message.to)
    store_message message receiver

  -- whether the token's user is the one that the message names
  unfoldable pub check_sender : Bool → RawMessage → Exec (Server env) Reply
  unfolding check_receiver
  check_sender true message = check_receiver message
  check_sender false message =
      pure (answer send_message_response (send_message_reply failed_message))

  -- case SendMessageRequest
  unfoldable pub handle_send_message : SendMessageRequest → Exec (Server env) Reply
  unfolding check_sender
  handle_send_message request = do
    uid ← from_pools env (get_user_id_by_token queues request.token)
    check_sender (int_eq uid request.message.from) request.message

  -- the callback of SendMessageRequest for an image or a file
  unfoldable pub run_record_file : Str → ℤ → Message → Exec (Server env) (Unit {0})
  run_record_file file_id receiver_id msg =
      on_pools env (set_file_msg queues file_id receiver_id msg)

  unfoldable pub notify_online : Bool → ℤ → Message → Exec (Server env) (Unit {0})
  unfolding push_task
  notify_online false receiver_id msg = pure tt
  notify_online true receiver_id msg = do
    sender ← from_pools env (get_sender queues receiver_id)
    push_task receiver_id sender
        (pack_to_packet contact_message_list_request (contact_message_list (msg ∷ [])))

  -- the callback of SendMessageRequest for a text
  unfoldable pub run_notify : ℤ → Message → Exec (Server env) (Unit {0})
  unfolding notify_online
  run_notify receiver_id msg = do
    online ← from_pools env (is_online queues receiver_id)
    notify_online online receiver_id msg

  unfoldable pub found_message : Option Message → Message
  found_message none = failed_message
  found_message (some msg) = msg

  -- case ContactMessageRequest
  unfoldable pub handle_contact_message : ContactMessageRequest → Exec (Server env) Reply
  unfolding found_message
  handle_contact_message request = do
    uid ← from_pools env (get_user_id_by_token queues request.token)
    result ← on_db env (get_message sqlite uid request.id request.internal_id)
    pure (answer contact_message_response (contact_message_reply (found_message result)))
