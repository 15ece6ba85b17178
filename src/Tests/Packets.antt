-- ===== src/Tests/Packets.antt =====
-- Whole packets, from the socket to the reply.
use net_chat.Prelude.{◌≡◌, refl, [], ◌∷◌, Option, some, codes, str_eq, pos}
use net_chat.Exec.{ok, ◌>>=◌}
use net_chat.Proto.{Packet, Content, setup_channel, login_pre, server_ack}
use net_chat.Proto.PacketType.{login_pre_request, server_ack_response}
use net_chat.DataAccess.Numbering.{IsNumbered}
use net_chat.Van.{Van, unwatched, shut, wrote, send_failed, control}
use net_chat.Server.State.{Server, Reply, open_channel, pack_to_packet}
use net_chat.Server.Process.{dispatch, after_send, process_recv_socket}
use net_chat.Server.Process.Quiet.{log, Quiet, dispatch-Quiet}
use net_chat.Server.Process.Numbered.{process_recv_socket-IsNumbered}
use net_chat.Server.Process.Outcomes.{after_send_failed}
use net_chat.Tests.World.{world, idle_van}
use net_chat.Tests.Chats.{chatting, no_messages, has_room}

process_recv_socket-IsNumbered_example :
    IsNumbered (log world (process_recv_socket world 5 chatting).1)
process_recv_socket-IsNumbered_example =
    process_recv_socket-IsNumbered world 5 chatting no_messages has_room

abbrev asking : Option Content
asking = some (setup_channel (codes "token"))

abbrev acknowledged : Reply
acknowledged = record {
  packet = pack_to_packet server_ack_response server_ack;
  callback = some (open_channel (pos 1));
}

dispatch-Quiet_example :
    Quiet world (dispatch world (some login_pre_request) (some (login_pre (codes "alice"))))
dispatch-Quiet_example =
    dispatch-Quiet world (some login_pre_request) (some (login_pre (codes "alice"))) (λ e. cc e)

-- The bytes ran out before a packet came.
abbrev request : Packet
request = record { packet_id = pos 16; content = asking }

abbrev received_van : Van
received_van = record idle_van { calls = 3; recv_bytes = 1 }

abbrev sent_van : Van
sent_van = record received_van {
  calls = 4;
  send_bytes = 3;
  actions = wrote 5 (1 ∷ 2 ∷ 3 ∷ []) ∷ [];
}

abbrev given_up : Server world
given_up = (after_send world (some (open_channel (pos 1))) 5 send_failed chatting).1

gives_up : after_send world (some (open_channel (pos 1))) 5 send_failed chatting ≡ (ok tt, given_up)
unfolding after_send ◌>>=◌ control str_eq
gives_up = refl

after_send_failed_example :
    (given_up.db ≡ chatting.db)
    × (given_up.pools ≡ chatting.pools)
    × (given_up.van.actions ≡ unwatched 5 ∷ shut 5 ∷ [])
after_send_failed_example =
    after_send_failed world (some (open_channel (pos 1))) 5 chatting given_up gives_up
