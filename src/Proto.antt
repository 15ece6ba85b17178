-- ===== src/Proto.antt =====
-- The messages of proto/messages.proto that the server reads or writes, and their packet. An `int32`
-- is a ℤ; an enum is one too, since proto3 keeps values that the enum does not name. What no packet
-- sets is the field's default.
pub mod PacketType
use net_chat.Prelude.{Str, ℤ, pos, Bool, false, [], List, Option, none, some}

pub record ServerStatus : Type 0 where
  pub online : Bool
  pub registrable : Bool

pub record LoginRequest : Type 0 where
  pub username : Str
  pub hash_password : Str

pub record LoginResponse : Type 0 where
  pub logined : Bool
  pub id : ℤ
  pub token : Str

pub record Contact : Type 0 where
  pub id : ℤ
  pub name : Str
  pub online : Bool
  pub contact_type : ℤ

pub record ContactList : Type 0 where
  pub contacts : List Contact
  pub internal_ids : List ℤ

pub record File : Type 0 where
  pub name : Str
  pub content : Str

pub record RawMessage : Type 0 where
  pub from : ℤ
  pub to : ℤ
  pub message_type : ℤ
  pub content : Str

pub record Message : Type 0 where
  pub message : RawMessage
  pub id : ℤ
  pub timestamp : ℤ
  pub internal_id : ℤ

pub record ContactMessageRequest : Type 0 where
  pub token : Str
  pub id : ℤ
  pub internal_id : ℤ

pub record SendMessageRequest : Type 0 where
  pub token : Str
  pub message : RawMessage

pub record FileUploadRequest : Type 0 where
  pub token : Str
  pub id : Str
  pub file : File
  pub hash : Str

pub record FileDownloadRequest : Type 0 where
  pub token : Str
  pub id : Str

pub record FileDownloadResponse : Type 0 where
  pub file : File
  pub hash : Str

pub record RegisterRequest : Type 0 where
  pub username : Str
  pub raw_password : Str

-- enum MessageType, enum ContactType
abbrev pub text_type : ℤ
text_type = pos 0

abbrev pub image_type : ℤ
image_type = pos 1

abbrev pub file_type : ℤ
file_type = pos 2

abbrev pub friend_type : ℤ
friend_type = pos 0

abbrev pub no_file : File
no_file = record { name = []; content = [] }

abbrev pub no_raw_message : RawMessage
no_raw_message = record { from = pos 0; to = pos 0; message_type = text_type; content = [] }

abbrev pub no_message : Message
no_message = record { message = no_raw_message; id = pos 0; timestamp = pos 0; internal_id = pos 0 }

-- What a `google.protobuf.Any` holds. `foreign` is a message of any other type.
pub data Content : Type 0 where
  server_status : ServerStatus → Content
  server_status_update : ServerStatus → Content
  login_pre : Str → Content
  challenge : Str → Content
  login : LoginRequest → Content
  login_reply : LoginResponse → Content
  contact_list : ContactList → Content
  server_ack : Content
  contact_message : ContactMessageRequest → Content
  contact_message_reply : Message → Content
  send_message : SendMessageRequest → Content
  send_message_reply : Message → Content
  setup_channel : Str → Content
  contact_message_list : List Message → Content
  file_upload : FileUploadRequest → Content
  file_upload_reply : Bool → Content
  file_download : FileDownloadRequest → Content
  file_download_reply : FileDownloadResponse → Content
  register : RegisterRequest → Content
  register_reply : Bool → Content
  foreign : Str → Str → Content

pub record Packet : Type 0 where
  pub packet_id : ℤ
  pub content : Option Content

abbrev pub empty_packet : Packet
empty_packet = record { packet_id = pos 0; content = none }

-- `pkt.content().UnpackTo(&request)`, with the result not looked at: content of another type leaves
-- the request as it was made, with every field at its default.
unfoldable pub unpack_register : Option Content → RegisterRequest
unpack_register (some (register r)) = r
unpack_register _ = record { username = []; raw_password = [] }

unfoldable pub unpack_login_pre : Option Content → Str
unpack_login_pre (some (login_pre u)) = u
unpack_login_pre _ = []

unfoldable pub unpack_login : Option Content → LoginRequest
unpack_login (some (login r)) = r
unpack_login _ = record { username = []; hash_password = [] }

unfoldable pub unpack_setup_channel : Option Content → Str
unpack_setup_channel (some (setup_channel t)) = t
unpack_setup_channel _ = []

unfoldable pub unpack_send_message : Option Content → SendMessageRequest
unpack_send_message (some (send_message r)) = r
unpack_send_message _ = record { token = []; message = no_raw_message }

unfoldable pub unpack_file_upload : Option Content → FileUploadRequest
unpack_file_upload (some (file_upload r)) = r
unpack_file_upload _ = record { token = []; id = []; file = no_file; hash = [] }

unfoldable pub unpack_file_download : Option Content → FileDownloadRequest
unpack_file_download (some (file_download r)) = r
unpack_file_download _ = record { token = []; id = [] }

unfoldable pub unpack_contact_message : Option Content → ContactMessageRequest
unpack_contact_message (some (contact_message r)) = r
unpack_contact_message _ = record { token = []; id = pos 0; internal_id = pos 0 }
