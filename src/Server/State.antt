-- ===== src/Server/State.antt =====
-- The server's state, the operations of the other components lifted to it, and what a case of the
-- switch in `processRecvSocket` leaves behind: the reply packet and the callback.
pub mod Inversion
use net_chat.Prelude.{ℕ, suc, ◌+◌, Bool, Option, none, some, Str, ℤ, pos}
use net_chat.Exec.{Exec, Result, ok, within, gets, modify, ◌>>=◌, ◌>>◌}
use net_chat.Proto.{Packet, Content, Message}
use net_chat.Proto.PacketType.{PacketType, packet_id}
use net_chat.Sql.{Sqlite}
use net_chat.FileStorage.{FileSystem}
use net_chat.PacketQueue.{PacketQueue}
use net_chat.UserManager.{Pools}
use net_chat.Van.{Network, Van}
use net_chat.Crypto.{Libsodium, sha256}

-- What the program runs on. `uuid n` and `clock n` are the n-th results of `getUUID` and of reading
-- the time in seconds; `rand` is that of `genChallenge`.
pub record Env : Type 1 where
  pub sqlite : Sqlite
  pub files : FileSystem
  pub queues : PacketQueue
  pub net : Network
  pub sodium : Libsodium
  pub rand : ℕ → ℕ → ℕ
  pub uuid : ℕ → Str
  pub clock : ℕ → ℕ

-- The closures that the switch assigns to `cb`, with what they capture. (The source captures `uid` and
-- `receiver_id` by reference and runs the closures after those variables are gone; the model takes
-- the values that they had.)
pub data Callback : Type 0 where
  open_channel : ℤ → Callback
  record_file : Str → ℤ → Message → Callback
  notify : ℤ → Message → Callback
  forward_file : Str → Callback

pub record Reply : Type 0 where
  pub packet : Packet
  pub callback : Option Callback

-- packToPacket
unfoldable pub pack_to_packet : PacketType → Content → Packet
unfolding packet_id
pack_to_packet t c = record { packet_id = pos (packet_id t); content = some c }

-- a reply with no callback
abbrev pub answer : PacketType → Content → Reply
answer t c = record { packet = pack_to_packet t c; callback = none }

module _ (env : Env) where
  open env use {sqlite, files, queues, net, sodium}

  pub record Server : Type 0 where
    pub db : sqlite.Db
    pub disk : files.Disk
    pub pools : Pools queues
    pub van : Van
    pub uuids : ℕ
    pub readings : ℕ

  abbrev pub on_db : {A : Type 0} → Exec sqlite.Db A → Exec Server A
  on_db = within (λ s. s.db) (λ d s. record s { db = d })

  abbrev pub on_disk : {A : Type 0} → Exec files.Disk A → Exec Server A
  on_disk = within (λ s. s.disk) (λ d s. record s { disk = d })

  abbrev pub on_van : {A : Type 0} → Exec Van A → Exec Server A
  on_van = within (λ s. s.van) (λ v s. record s { van = v })

  abbrev pub on_pools : (Pools queues → Pools queues) → Exec Server (Unit {0})
  on_pools f = modify (λ s. record s { pools = f s.pools })

  abbrev pub from_pools : {A : Type 0} → (Pools queues → A) → Exec Server A
  from_pools f = gets (λ s. f s.pools)

  -- getUUID
  abbrev pub next_uuid : Exec Server Str
  next_uuid s = (ok (env.uuid s.uuids), record s { uuids = suc s.uuids })

  -- std::time, system_clock::now
  abbrev pub read_clock : Exec Server ℕ
  read_clock s = (ok (env.clock s.readings), record s { readings = suc s.readings })

  -- SHA256
  abbrev pub digest : Str → Exec Server Str
  digest text s = (sha256 sodium text, s)
