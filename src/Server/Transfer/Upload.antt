-- ===== src/Server/Transfer/Upload.antt =====
-- A file that was uploaded is the one that is downloaded.
use net_chat.Prelude.{◌≡◌, true, some, Str}
use net_chat.Exec.{ok}
use net_chat.Proto.{File, file_upload_reply}
use net_chat.Proto.PacketType.{file_upload_response}
use net_chat.Entities.{StoredFile}
use net_chat.Sql.{files}
use net_chat.FileStorage.{save_to_disk}
use net_chat.Server.State.{Env, Server, Reply, forward_file, pack_to_packet}

-- the reply to an upload that was stored
abbrev pub stored_reply : Str → Reply
stored_reply id = record {
  packet = pack_to_packet file_upload_response (file_upload_reply true);
  callback = some (forward_file id);
}

module _ (env : Env) where
  open env use {sqlite, queues}

  Saved : StoredFile → File → Server env → Server env → Type 0
  Saved f upload s s' =
      (d : env.files.Disk) × (save_to_disk env.files f upload d ≡ (ok true, s'.disk))
      × (s'.db ≡ s.db)
      × (s'.pools ≡ s.pools)
