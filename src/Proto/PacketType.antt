-- ===== src/Proto/PacketType.antt =====
-- `enum class PacketType` of include/message.h, and the casts between it and the packet id.
use net_chat.Prelude.{
  ℕ, ◌≡◌, refl, List, [], ◌∷◌, Option, none, some, ℤ, pos, negsuc, ◌==◌, if◌then◌else◌,
}

pub data PacketType : Type 0 where
  server_status_request server_status_response : PacketType
  server_status_update_request server_status_update_response : PacketType
  login_pre_request login_pre_response login_request login_response : PacketType
  contact_list_request client_ack_response contact_request server_ack_response : PacketType
  contact_message_request contact_message_response : PacketType
  send_message_request send_message_response : PacketType
  setup_channel_request channel_heart_request contact_message_list_request : PacketType
  file_upload_request file_upload_response : PacketType
  file_download_request file_download_response : PacketType
  register_request register_response : PacketType
  delete_message_request delete_message_response : PacketType

-- static_cast<int>(type)
unfoldable pub packet_id : PacketType → ℕ
packet_id server_status_request = 0
packet_id server_status_response = 1
packet_id server_status_update_request = 6
packet_id server_status_update_response = 7
packet_id login_pre_request = 2
packet_id login_pre_response = 3
packet_id login_request = 4
packet_id login_response = 5
packet_id contact_list_request = 8
packet_id client_ack_response = 9
packet_id contact_request = 10
packet_id server_ack_response = 11
packet_id contact_message_request = 12
packet_id contact_message_response = 13
packet_id send_message_request = 14
packet_id send_message_response = 15
packet_id setup_channel_request = 16
packet_id channel_heart_request = 17
packet_id contact_message_list_request = 18
packet_id file_upload_request = 19
packet_id file_upload_response = 24
packet_id file_download_request = 20
packet_id file_download_response = 21
packet_id register_request = 22
packet_id register_response = 23
packet_id delete_message_request = 25
packet_id delete_message_response = 26

unfoldable pub all_types : List PacketType
all_types =
    server_status_request ∷ server_status_response ∷ server_status_update_request
    ∷ server_status_update_response ∷ login_pre_request ∷ login_pre_response ∷ login_request
    ∷ login_response ∷ contact_list_request ∷ client_ack_response ∷ contact_request
    ∷ server_ack_response ∷ contact_message_request ∷ contact_message_response
    ∷ send_message_request ∷ send_message_response ∷ setup_channel_request ∷ channel_heart_request
    ∷ contact_message_list_request ∷ file_upload_request ∷ file_upload_response
    ∷ file_download_request ∷ file_download_response ∷ register_request ∷ register_response
    ∷ delete_message_request ∷ delete_message_response ∷ []

find_type : ℕ → List PacketType → Option PacketType
find_type n [] = none
find_type n (t ∷ ts) = if packet_id t == n then some t else find_type n ts

-- static_cast<PacketType>(id): `none` is a value that the enum does not name.
unfoldable pub packet_type : ℤ → Option PacketType
unfolding find_type packet_id all_types
packet_type (pos n) = find_type n all_types
packet_type (negsuc n) = none

-- The number that a packet type has in the enum is cast back to that type, for every type.
pub packet_type-packet_id : (t : PacketType) → packet_type (pos (packet_id t)) ≡ some t
unfolding packet_type
packet_type-packet_id server_status_request = refl
packet_type-packet_id _ = refl
