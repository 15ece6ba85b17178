-- ===== src/Server/Process/Replies.antt =====
-- Which packet answers which.
use net_chat.Prelude.{◌≡◌, Option, none, some, pos}
use net_chat.Exec.{Exec}
use net_chat.Exec.Returns.{Returns}
use net_chat.Proto.{Content}
use net_chat.Proto.PacketType.{
  PacketType, packet_id, server_status_request, server_status_response,
  server_status_update_request, server_status_update_response, login_pre_request,
  login_pre_response, login_request, login_response, server_ack_response, contact_message_request,
  contact_message_response, send_message_request, send_message_response, setup_channel_request,
  file_upload_request, file_upload_response, file_download_request, file_download_response,
  register_request, register_response,
}
use net_chat.Server.State.{Server, Reply}

-- proto/messages.proto names the response to each request.
unfoldable pub response_type : PacketType → Option PacketType
response_type server_status_request = some server_status_response
response_type server_status_update_request = some server_status_update_response
response_type login_pre_request = some login_pre_response
response_type login_request = some login_response
response_type register_request = some register_response
response_type setup_channel_request = some server_ack_response
response_type send_message_request = some send_message_response
response_type contact_message_request = some contact_message_response
response_type file_upload_request = some file_upload_response
response_type file_download_request = some file_download_response
response_type _ = none

-- A packet of a type, with content.
pub record HasType (t : PacketType) (r : Reply) : Type 0 where
  pub id : r.packet.packet_id ≡ pos (packet_id t)
  pub filled : (c : Content) × (r.packet.content ≡ some c)

-- A request with a response in the protocol gets a packet of that type, with content; for any other
-- packet the switch returns with nothing to send.
unfoldable pub Answers : PacketType → Option Reply → Type 0
Answers t none = response_type t ≡ none
Answers t (some r) = (u : PacketType) × (response_type t ≡ some u) × HasType u r
