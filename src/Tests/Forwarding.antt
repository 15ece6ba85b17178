-- ===== src/Tests/Forwarding.antt =====
-- alice sends bob a file; when it has been uploaded, bob's channel tells him of it.
use net_chat.Prelude.{◌≡◌, ◌≢◌, refl, some, codes, str_eq, pos, ℤ, c_str, to_int, inc}
use net_chat.Exec.{ok, ◌>>=◌}
use net_chat.Proto.{Message, SendMessageRequest, FileUploadRequest, no_message}
use net_chat.Entities.{make_user}
use net_chat.Sql.{new_row}
use net_chat.Sql.Memory.{store_exec, store_steps}
use net_chat.Dict.{lookup, insert, erase}
use net_chat.DataAccess.{
  create_user, create_file, create_msg, create_msg_by_raw_msg, get_user, get_all_messages, get_file,
  update_file, prepare, execute, select_first, first_row, select_all, all_rows, read_user, numbered,
  read_file,
}
use net_chat.FileStorage.{path_prefix, disk_path, save_to_disk, check_disk_existence}
use net_chat.PacketQueue.{list_queue}
use net_chat.UserManager.{
  get_sender, set_kp_alive_sender, add_send_task, set_user_id_by_token, get_user_id_by_token,
  set_file_msg, get_file_msg, del_file_msg,
}
use net_chat.Server.State.{Server, Reply, record_file, forward_file, pack_to_packet}
use net_chat.Server.Messaging.{handle_send_message, is_file, run_record_file, registered}
use net_chat.Server.Messaging.Notify.{news}
use net_chat.Server.Process.{run_callback}
use net_chat.Server.Transfer.{handle_file_upload, run_forward_file}
use net_chat.Server.Transfer.Upload.{stored_reply}
use net_chat.Server.Transfer.Forwarding.{Reached, handle_file_upload-handle_send_message}
use net_chat.Tests.World.{world}
use net_chat.Tests.Chats.{hello, sending, listening}

abbrev with_file : SendMessageRequest
with_file = record sending { message = record hello { message_type = pos 2 } }

abbrev sent : Server world
sent = (handle_send_message world with_file listening).1

abbrev message : Message
message = record {
  message = record hello { message_type = pos 2; content = codes "uuida" };
  id = pos 1;
  timestamp = pos 1700000000;
  internal_id = pos 1;
}

abbrev reply : Reply
reply = registered world (pos 2) message (some (codes "uuida"))

abbrev recorded : Server world
recorded = (run_callback world reply.callback 5 sent).1

abbrev upload : FileUploadRequest
upload = record {
  token = codes "token";
  id = codes "uuida";
  file = record { name = codes "a.txt"; content = codes "data" };
  hash = codes "h";
}

abbrev in_place : Server world
in_place = (handle_file_upload world upload recorded).1

abbrev told : Server world
told = (run_callback world (some (forward_file (codes "uuida"))) 7 in_place).1

sends : handle_send_message world with_file listening ≡ (ok reply, sent)
unfolding handle_send_message get_user_id_by_token set_user_id_by_token lookup insert get_user
    select_first first_row store_steps store_exec ◌>>=◌ create_user prepare execute make_user str_eq
    c_str new_row to_int read_user create_msg_by_raw_msg get_all_messages create_msg select_all
    all_rows numbered is_file inc create_file set_kp_alive_sender registered pack_to_packet erase
sends = refl

records : run_callback world reply.callback 5 sent ≡ (ok tt, recorded)
unfolding handle_send_message get_user_id_by_token set_user_id_by_token lookup insert get_user
    select_first first_row store_steps store_exec ◌>>=◌ create_user prepare execute make_user str_eq
    c_str new_row to_int read_user create_msg_by_raw_msg get_all_messages create_msg select_all
    all_rows numbered is_file inc create_file set_kp_alive_sender registered pack_to_packet erase
    run_callback run_record_file set_file_msg
records = refl

uploads : handle_file_upload world upload recorded ≡ (ok (stored_reply (codes "uuida")), in_place)
unfolding handle_send_message get_user_id_by_token set_user_id_by_token lookup insert get_user
    select_first first_row store_steps store_exec ◌>>=◌ create_user prepare execute make_user str_eq
    c_str new_row to_int read_user create_msg_by_raw_msg get_all_messages create_msg select_all
    all_rows numbered is_file inc create_file set_kp_alive_sender registered pack_to_packet erase
    run_callback run_record_file set_file_msg handle_file_upload get_file read_file update_file
    check_disk_existence save_to_disk disk_path path_prefix
uploads = refl

tells : run_callback world (some (forward_file (codes "uuida"))) 7 in_place ≡ (ok tt, told)
unfolding handle_send_message get_user_id_by_token set_user_id_by_token lookup insert get_user
    select_first first_row store_steps store_exec ◌>>=◌ create_user prepare execute make_user str_eq
    c_str new_row to_int read_user create_msg_by_raw_msg get_all_messages create_msg select_all
    all_rows numbered is_file inc create_file set_kp_alive_sender registered pack_to_packet erase
    run_callback run_record_file set_file_msg handle_file_upload get_file read_file update_file
    check_disk_existence save_to_disk disk_path path_prefix run_forward_file get_file_msg
    del_file_msg get_sender add_send_task
tells = refl

keeps : reply.callback ≡ some (record_file (codes "uuida") (pos 2) message)
unfolding registered
keeps = refl

handle_file_upload-handle_send_message_example :
    (pos 2 ≡ pos 2)
    × (codes "uuida" ≡ codes "uuida")
    × Reached world
        (news world message)
        (get_sender list_queue (pos 2) listening.pools)
        (get_sender list_queue (pos 2) told.pools)
    × ((other : ℤ)
        → pos 2 ≢ other
        → get_sender list_queue other told.pools ≡ get_sender list_queue other listening.pools)
    × (get_file_msg list_queue (codes "uuida") told.pools ≡ (pos 0, no_message))
handle_file_upload-handle_send_message_example =
    handle_file_upload-handle_send_message world with_file upload listening sent recorded in_place
      told 5 7 reply (codes "uuida") (pos 2) message sends keeps records uploads tells (λ e. cc e)
