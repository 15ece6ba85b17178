-- ===== src/Server/Process.antt =====
-- `processRecvSocket`: receive a packet, answer it by the switch, send the reply and run the callback.
pub mod Replies
pub mod Outcomes
pub mod Quiet
pub mod Aftermath
pub mod Stored
pub mod Numbered
use net_chat.Prelude.{
  ℕ, zero, suc, Bool, true, false, Option, none, some, Str, codes, ℤ, pos, ◌==◌, if◌then◌else◌,
}
use net_chat.Exec.{Exec, Result, ok, threw, abort, pure, ◌>>=◌, ◌>>◌}
use net_chat.Proto.{
  Packet, Content, unpack_register, unpack_login_pre, unpack_login, unpack_setup_channel,
  unpack_send_message, unpack_file_upload, unpack_file_download, unpack_contact_message,
}
use net_chat.Proto.PacketType.{
  PacketType, packet_type, server_status_request, server_status_response,
  server_status_update_request, server_status_update_response, login_pre_request,
  login_pre_response, login_request, login_response, contact_list_request, client_ack_response,
  contact_request, server_ack_response, contact_message_request, contact_message_response,
  send_message_request, send_message_response, setup_channel_request, channel_heart_request,
  contact_message_list_request, file_upload_request, file_upload_response, file_download_request,
  file_download_response, register_request, register_response, delete_message_request,
  delete_message_response,
}
use net_chat.Van.{SendResult, sent, send_failed, overread, van_recv, van_send, control}
use net_chat.Server.State.{
  Env, Server, Reply, Callback, open_channel, record_file, notify, forward_file, on_van,
}
use net_chat.Server.Account.{
  handle_server_status, handle_server_status_update, handle_register, handle_login_pre,
  handle_login,
}
use net_chat.Server.Messaging.{
  handle_setup_channel, handle_send_message, handle_contact_message, run_open_channel,
  run_record_file, run_notify,
}
use net_chat.Server.Transfer.{handle_file_upload, handle_file_download, run_forward_file}

abbrev pub replying {ℓ} : {S : Type ℓ} → Exec S Reply → Exec S (Option Reply)
replying m = do reply ← m; pure (some reply)

module _ (env : Env) where
  open env use {net}

  -- The switch. `none` is the early return of `DeleteMessageRequest` and of the default case.
  unfoldable pub dispatch : Option PacketType → Option Content → Exec (Server env) (Option Reply)
  dispatch (some server_status_request) c = replying (handle_server_status env)
  dispatch (some server_status_update_request) c = replying (handle_server_status_update env)
  dispatch (some register_request) c = replying (handle_register env (unpack_register c))
  dispatch (some login_pre_request) c = replying (handle_login_pre env (unpack_login_pre c))
  dispatch (some login_request) c = replying (handle_login env (unpack_login c))
  dispatch (some setup_channel_request) c =
      replying (handle_setup_channel env (unpack_setup_channel c))
  dispatch (some send_message_request) c =
      replying (handle_send_message env (unpack_send_message c))
  dispatch (some file_upload_request) c = replying (handle_file_upload env (unpack_file_upload c))
  dispatch (some file_download_request) c =
      replying (handle_file_download env (unpack_file_download c))
  dispatch (some contact_message_request) c =
      replying (handle_contact_message env (unpack_contact_message c))
  dispatch _ c = pure none

  -- `cb()`
  unfoldable pub run_callback : Option Callback → ℕ → Exec (Server env) (Unit {0})
  run_callback none client_fd = pure tt
  run_callback (some (open_channel uid)) client_fd = run_open_channel env uid client_fd
  run_callback (some (record_file file_id receiver_id msg)) client_fd =
      run_record_file env file_id receiver_id msg
  run_callback (some (notify receiver_id msg)) client_fd = run_notify env receiver_id msg
  run_callback (some (forward_file file_id)) client_fd = run_forward_file env file_id

  -- After the reply: on a failure the socket is given up, and otherwise the callback runs. (Reading
  -- past the buffer is undefined; the model ends there.)
  unfoldable pub after_send : Option Callback → ℕ → SendResult → Exec (Server env) (Unit {0})
  unfolding run_callback
  after_send callback client_fd send_failed = do
    on_van env (control net client_fd (codes "EPOLL_DEL_FD"))
    on_van env (control net client_fd (codes "CLOSE_FD"))
    pure tt
  after_send callback client_fd (sent n) = run_callback callback client_fd
  after_send callback client_fd overread = abort

  unfoldable pub has_content : Packet → Bool
  has_content p = elim p.content [ none ↦ false | some c ↦ true ]

  unfoldable pub deliver : Reply → ℕ → Exec (Server env) (Unit {0})
  unfolding after_send
  deliver reply client_fd = do
    ret ← on_van env (van_send net reply.packet client_fd)
    after_send reply.callback client_fd ret

  -- `if (!pkt_reply.has_content()) return;` and what follows it
  unfoldable pub finish : Option Reply → ℕ → Exec (Server env) (Unit {0})
  unfolding deliver has_content
  finish none client_fd = pure tt
  finish (some reply) client_fd =
      if has_content reply.packet then deliver reply client_fd else pure tt

  unfoldable pub answer_packet : ℕ → ℕ × Packet → Exec (Server env) (Unit {0})
  unfolding dispatch finish
  answer_packet client_fd (pkt_bytes, pkt) =
      if pkt_bytes == 0
      then pure tt
      else do reply ← dispatch (packet_type pkt.packet_id) pkt.content; finish reply client_fd

  unfoldable pub on_received : ℕ → Option (ℕ × Packet) → Exec (Server env) (Unit {0})
  unfolding answer_packet
  on_received client_fd none = pure tt
  on_received client_fd (some received) = answer_packet client_fd received

  -- processRecvSocket
  unfoldable pub process_recv_socket : ℕ → Exec (Server env) (Unit {0})
  unfolding on_received
  process_recv_socket client_fd = do
    received ← on_van env (van_recv net client_fd)
    on_received client_fd received
