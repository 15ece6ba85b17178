-- ===== src/Tests/Life.antt =====
-- A client connects, asks for a channel and gets it.
use net_chat.Prelude.{
  ◌+◌, ◌<◌, ◌≡◌, refl, [], ◌∷◌, some, codes, str_eq, c_str, to_int, int_max_suc, length, arith,
}
use net_chat.Exec.{ok, ◌>>=◌}
use net_chat.Proto.{unpack_setup_channel}
use net_chat.Proto.PacketType.{packet_type}
use net_chat.Entities.{make_user}
use net_chat.Dict.{lookup, insert}
use net_chat.Sql.{new_row}
use net_chat.Sql.Memory.{store_exec, store_steps}
use net_chat.DataAccess.{
  create_user, prepare, execute, select_all, all_rows, get_all_users, get_all_messages, read_user,
}
use net_chat.DataAccess.Numbering.{IsNumbered}
use net_chat.UserManager.{
  set_recv_socket, set_user_id_by_token, get_user_id_by_token, set_kp_alive_sender, get_sender,
  add_send_task,
}
use net_chat.Van.{
  van_recv, van_send, recv_loop, send_loop, max_message_size, control, epoll_add_client,
}
use net_chat.Server.State.{Server, pack_to_packet}
use net_chat.Server.Messaging.{handle_setup_channel, run_open_channel}
use net_chat.Server.Process.{
  process_recv_socket, answer_packet, on_received, dispatch, finish, deliver, after_send,
  run_callback, has_content,
}
use net_chat.Server.EventLoop.{
  Event, accepted, readable, System, handle_event, Evolves, rest, event, work_done,
}
use net_chat.Server.EventLoop.Invariant.{stored_log, Evolves-IsNumbered}
use net_chat.Tests.World.{world, idle_van}
use net_chat.Tests.Chats.{chatting, no_messages}

abbrev pub quiet : System world
quiet = record { server = record chatting { van = record idle_van { calls = 0 } }; work = [] }

abbrev pub connection : Event
connection = accepted (some (codes "10.0.0.7:5000", 5))

abbrev pub connected : System world
connected = (handle_event world connection quiet).1

abbrev pub asked : System world
asked = (handle_event world (readable 5) connected).1

abbrev pub served : Server world
served = (process_recv_socket world 5 asked.server).1

connects : handle_event world connection quiet ≡ (ok tt, connected)
unfolding handle_event ◌>>=◌ epoll_add_client
connects = refl

asks : handle_event world (readable 5) connected ≡ (ok tt, asked)
unfolding handle_event ◌>>=◌ epoll_add_client
asks = refl

queued : asked.work ≡ 5 ∷ []
unfolding handle_event ◌>>=◌ epoll_add_client
queued = refl

serves : process_recv_socket world 5 asked.server ≡ (ok tt, served)
unfolding process_recv_socket epoll_add_client handle_event set_recv_socket van_recv van_send
    recv_loop send_loop max_message_size answer_packet on_received dispatch finish deliver
    after_send run_callback has_content handle_setup_channel run_open_channel get_user_id_by_token
    set_user_id_by_token lookup insert str_eq get_sender set_kp_alive_sender add_send_task
    get_all_users get_all_messages select_all all_rows store_steps store_exec ◌>>=◌ create_user
    prepare execute make_user c_str new_row to_int read_user control packet_type
    unpack_setup_channel pack_to_packet
serves = refl

pub life : Evolves world quiet (record { server = served; work = [] }) 1
life =
    event connection connects (event (readable 5) asks (work_done 5 [] served queued serves rest))

few_messages : length (stored_log world quiet) + 1 < int_max_suc
unfolding store_exec ◌>>=◌ create_user prepare execute make_user str_eq c_str new_row
few_messages = omega arith

Evolves-IsNumbered_example : IsNumbered (stored_log world (record { server = served; work = [] }))
Evolves-IsNumbered_example = Evolves-IsNumbered world life no_messages few_messages
