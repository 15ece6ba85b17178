-- ===== src/Server/Transfer.antt =====
-- Files: the cases FileUploadRequest and FileDownloadRequest of the switch, and the callback of the
-- first.
pub mod Upload
pub mod Keeping
pub mod Forwarding
use net_chat.Prelude.{
  ℕ, Bool, true, false, not, ◌&&◌, List, [], ◌∷◌, Option, none, some, Str, ℤ, pos, int_eq,
  if◌then◌else◌,
}
use net_chat.Exec.{Exec, Result, ok, pure, ◌>>=◌, ◌>>◌}
use net_chat.Proto.{
  File, Message, FileUploadRequest, FileDownloadRequest, FileDownloadResponse, no_file,
  file_upload_reply, file_download_reply, contact_message_list,
}
use net_chat.Proto.PacketType.{
  file_upload_response, file_download_response, contact_message_list_request,
}
use net_chat.Entities.{StoredFile}
use net_chat.DataAccess.{get_file, update_file}
use net_chat.FileStorage.{check_disk_existence, save_to_disk, load_into_proto}
use net_chat.UserManager.{
  Sender, get_user_id_by_token, get_file_msg, del_file_msg, get_sender, add_send_task,
}
use net_chat.Server.State.{
  Env, Server, Reply, forward_file, answer, pack_to_packet, on_db, on_disk, on_pools, from_pools,
}

abbrev pub upload_reply : Bool → Reply
upload_reply success = answer file_upload_response (file_upload_reply success)

abbrev pub download_reply : FileDownloadResponse → Reply
download_reply response = answer file_download_response (file_download_reply response)

-- `response.mutable_file()->set_name("")` on an empty response
abbrev pub no_download : FileDownloadResponse
no_download = record { file = no_file; hash = [] }

-- the stored file with what the request says of it
unfoldable pub renamed : StoredFile → FileUploadRequest → StoredFile
renamed file request = record file { hash = request.hash; name = request.file.name }

module _ (env : Env) where
  open env use {sqlite, files, queues}

  -- `if (!file.checkDiskExistence()) success = file.saveToDisk(request.file());`
  unfoldable pub save_if_absent : StoredFile → File → Exec (Server env) Bool
  save_if_absent file upload = do
    there ← on_disk env (check_disk_existence files file)
    if there then pure false else on_disk env (save_to_disk files file upload)

  unfoldable pub uploaded : Str → Bool → Bool → Reply
  uploaded id success updated =
      if updated
      then record {
        packet = pack_to_packet file_upload_response (file_upload_reply success);
        callback = if success then some (forward_file id) else none;
      }
      else upload_reply false

  unfoldable pub upload_registered : FileUploadRequest → Option StoredFile → Exec (Server env) Reply
  unfolding uploaded renamed save_if_absent
  upload_registered request none = pure (upload_reply false)
  upload_registered request (some file) = do
    success ← save_if_absent (renamed file request) request.file
    updated ← on_db env (update_file sqlite (renamed file request))
    pure (uploaded request.id success updated)

  unfoldable pub upload_known : FileUploadRequest → Exec (Server env) Reply
  unfolding upload_registered
  upload_known request = do
    result ← on_db env (get_file sqlite request.id)
    upload_registered request result

  -- case FileUploadRequest
  unfoldable pub handle_file_upload : FileUploadRequest → Exec (Server env) Reply
  unfolding upload_known
  handle_file_upload request = do
    uid ← from_pools env (get_user_id_by_token queues request.token)
    if int_eq uid (pos 0) then pure (upload_reply false) else upload_known request

  unfoldable pub forward : ℤ → Message → Option (Sender queues) → Exec (Server env) (Unit {0})
  forward uid msg none = pure tt
  forward uid msg (some s) = on_pools env (
      add_send_task queues uid s
        (pack_to_packet contact_message_list_request (contact_message_list (msg ∷ []))))

  unfoldable pub forward_to : Str → ℤ × Message → Exec (Server env) (Unit {0})
  unfolding forward
  forward_to file_id (uid, msg) = if int_eq uid (pos 0) then pure tt else do
    on_pools env (del_file_msg queues file_id)
    sender ← from_pools env (get_sender queues uid)
    forward uid msg sender

  -- the callback of FileUploadRequest
  unfoldable pub run_forward_file : Str → Exec (Server env) (Unit {0})
  unfolding forward_to
  run_forward_file file_id = do
    uid_msg ← from_pools env (get_file_msg queues file_id)
    forward_to file_id uid_msg

  -- `file.checkDiskExistence() && file.loadIntoProto(…)`
  unfoldable pub load_if_there : StoredFile → Bool → Exec (Server env) (Bool × File)
  load_if_there file there =
      if there then on_disk env (load_into_proto files file no_file) else pure (false, no_file)

  unfoldable pub downloaded : StoredFile → Bool × File → FileDownloadResponse
  downloaded file (good, contents) =
      if good
      then record { file = contents; hash = file.hash }
      else record { file = record contents { name = [] }; hash = file.hash }

  unfoldable pub download_registered : Option StoredFile → Exec (Server env) Reply
  unfolding load_if_there downloaded
  download_registered none = pure (download_reply no_download)
  download_registered (some file) = do
    there ← on_disk env (check_disk_existence files file)
    result ← load_if_there file there
    pure (download_reply (downloaded file result))

  unfoldable pub download_known : FileDownloadRequest → Exec (Server env) Reply
  unfolding download_registered
  download_known request = do
    result ← on_db env (get_file sqlite request.id)
    download_registered result

  -- case FileDownloadRequest
  unfoldable pub handle_file_download : FileDownloadRequest → Exec (Server env) Reply
  unfolding download_known
  handle_file_download request = do
    uid ← from_pools env (get_user_id_by_token queues request.token)
    if int_eq uid (pos 0) then pure (download_reply no_download) else download_known request
