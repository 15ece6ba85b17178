-- ===== src/Tests/Transfers.antt =====
-- A file that goes up and comes down again.
use net_chat.Prelude.{[], codes, pos}
use net_chat.Proto.{FileUploadRequest}
use net_chat.Entities.{StoredFile}
use net_chat.Sql.Memory.{memory, Store, empty_store}
use net_chat.DataAccess.{create_file}
use net_chat.PacketQueue.{list_queue}
use net_chat.UserManager.{no_pools, set_user_id_by_token}
use net_chat.Server.State.{Server}
use net_chat.Server.Transfer.{handle_file_upload}
use net_chat.Tests.World.{world, start}

abbrev registered_file : Store
registered_file = (create_file memory (codes "f1") empty_store).1

abbrev before : Server world
before = record start {
  db = registered_file;
  pools = set_user_id_by_token list_queue (codes "token") (pos 1) (no_pools list_queue);
}

abbrev upload : FileUploadRequest
upload = record {
  token = codes "token";
  id = codes "f1";
  file = record { name = codes "a.txt"; content = codes "data" };
  hash = codes "h";
}

abbrev after : Server world
after = (handle_file_upload world upload before).1

abbrev known : StoredFile
known = record { id = codes "f1"; name = []; hash = [] }
