-- ===== src/Server/Threads/Process.antt =====
-- `processRecvSocket`, split into steps.
use net_chat.Prelude.{ℕ, List, [], Option, none, some}
use net_chat.Exec.{Exec, pure}
use net_chat.Proto.{Packet, Content}
use net_chat.Proto.PacketType.{
  PacketType, server_status_request, server_status_update_request, login_pre_request, login_request,
  setup_channel_request, send_message_request, contact_message_request, file_upload_request,
  file_download_request, register_request,
}
use net_chat.Van.{SendResult, sent, send_failed, overread}
use net_chat.Server.State.{
  Env, Server, Reply, Callback, open_channel, record_file, notify, forward_file,
}
use net_chat.Server.Account.{handle_server_status, handle_server_status_update}
use net_chat.Server.Process.{
  replying, dispatch, run_callback, after_send, has_content, deliver, finish, answer_packet,
  on_received, process_recv_socket,
}
use net_chat.Server.Threads.{Fact, Splits, perform, socket, stop}
use net_chat.Server.Threads.Rules.{split_pure, split_act, split_atom, split_bind, split_if}
use net_chat.Server.Threads.Account.{split_register, split_login_pre, split_login}
use net_chat.Server.Threads.Messaging.{
  split_setup_channel, split_send_message, split_contact_message, split_open_channel,
  split_record_file, split_notify,
}
use net_chat.Server.Threads.Transfer.{split_upload, split_download, split_forward_file}

module _ (env : Env) where
  unfoldable pub split_replying :
      {known : List Fact} (m : Exec (Server env) Reply)
      → Splits env known m
      → Splits env known (replying m)
  split_replying m h = split_bind env _ _ h (λ k r. split_pure env _)

  unfoldable pub split_dispatch :
      {known : List Fact} (t : Option PacketType) (c : Option Content)
      → Splits env known (dispatch env t c)
  unfolding dispatch handle_server_status handle_server_status_update
  split_dispatch (some server_status_request) c = split_replying _ (split_pure env _)
  split_dispatch (some server_status_update_request) c = split_replying _ (split_pure env _)
  split_dispatch (some register_request) c = split_replying _ (split_register env _)
  split_dispatch (some login_pre_request) c = split_replying _ (split_login_pre env _)
  split_dispatch (some login_request) c = split_replying _ (split_login env _)
  split_dispatch (some setup_channel_request) c = split_replying _ (split_setup_channel env _)
  split_dispatch (some send_message_request) c = split_replying _ (split_send_message env _)
  split_dispatch (some file_upload_request) c = split_replying _ (split_upload env _)
  split_dispatch (some file_download_request) c = split_replying _ (split_download env _)
  split_dispatch (some contact_message_request) c = split_replying _ (split_contact_message env _)
  split_dispatch _ c = split_pure env _

  unfoldable pub split_callback :
      {known : List Fact} (cb : Option Callback) (fd : ℕ)
      → Splits env known (run_callback env cb fd)
  unfolding run_callback
  split_callback none fd = split_pure env _
  split_callback (some (open_channel uid)) fd = split_open_channel env uid fd
  split_callback (some (record_file id to msg)) fd = split_record_file env id to msg
  split_callback (some (notify to msg)) fd = split_notify env to msg
  split_callback (some (forward_file id)) fd = split_forward_file env id

  unfoldable pub split_after_send :
      {known : List Fact} (cb : Option Callback) (fd : ℕ) (r : SendResult)
      → Splits env known (after_send env cb fd r)
  unfolding after_send perform
  split_after_send cb fd (sent n) = split_callback cb fd
  split_after_send cb fd send_failed =
      split_act env (socket _) _ (λ _. split_act env (socket _) _ (λ _. split_pure env _))
  split_after_send cb fd overread = split_atom env stop

  unfoldable pub split_deliver :
      {known : List Fact} (reply : Reply) (fd : ℕ) → Splits env known (deliver env reply fd)
  unfolding deliver perform
  split_deliver reply fd =
      split_act env (socket _) _ (λ ret. split_after_send reply.callback fd ret)

  unfoldable pub split_finish :
      {known : List Fact} (o : Option Reply) (fd : ℕ) → Splits env known (finish env o fd)
  unfolding finish
  split_finish none fd = split_pure env _
  split_finish (some reply) fd =
      split_if env (has_content env reply.packet) (deliver env reply fd) (pure tt)
        (split_deliver reply fd) (split_pure env _)

  unfoldable pub split_received :
      {known : List Fact} (fd : ℕ) (o : Option (ℕ × Packet))
      → Splits env known (on_received env fd o)
  unfolding on_received answer_packet
  split_received fd none = split_pure env _
  split_received fd (some (n, p)) =
      split_if env _ _ _ (split_pure env _)
        (split_bind env _ _ (split_dispatch _ p.content) (λ k o. split_finish o fd))

  unfoldable pub split_process : (fd : ℕ) → Splits env [] (process_recv_socket env fd)
  unfolding process_recv_socket perform
  split_process fd = split_act env (socket _) _ (λ o. split_received fd o)
