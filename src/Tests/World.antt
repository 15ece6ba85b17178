-- ===== src/Tests/World.antt =====
-- A file system, a network and a libsodium that meet their laws, and a server that runs on them with
-- the engine of Sql/Memory.
use net_chat.Prelude.{
  ℕ, zero, suc, ◌+◌, ◌%◌, ◌<◌, ◌≤◌, ◌≡◌, ◌≢◌, refl, sym, ap, Bool, true, false, ◌||◌, List, [], ◌∷◌,
  ◌++◌, Option, none, some, Str, codes, str_eq, str_eq_iff, str_key, length, arith, pos,
}
use net_chat.Dict.{Dict, lookup, insert, lookup-insert, lookup-insert_self}
use net_chat.FileStorage.{FileSystem}
use net_chat.Crypto.{Libsodium, AllOf}
use net_chat.Proto.{Packet, setup_channel}
use net_chat.PacketQueue.{list_queue}
use net_chat.Sql.Memory.{memory, empty_store}
use net_chat.UserManager.{no_pools}
use net_chat.Van.{Network, Received, Van, bytes, again, took}
use net_chat.Server.State.{Env, Server}

abbrev is_there : Option Str → Bool
is_there none = false
is_there (some s) = true

abbrev pub Disk : Type 0
Disk = Dict Str Str

abbrev exists : Str → Disk → Bool
exists p d = str_eq p (codes "files") || is_there (lookup p d)

pub read-write :
    (p s : Str) (d d' : Disk)
    → ◌≡◌ {A = Disk × Bool} (insert p s d, true) (d', true)
    → (lookup p d' ≡ some s) × (exists p d' ≡ true)
read-write p s d d' e =
    let same : insert p s d ≡ d' = ap (λ x. x.0) e in
    let found : lookup p d' ≡ some s = rw (← same) (lookup-insert_self p s d) in
    (found, rw found (ground arith))

pub read-insert_ne : (p r s : Str) (d : Disk) → r ≢ p → lookup r (insert p s d) ≡ lookup r d
read-insert_ne p r s d h = rw (lookup-insert p r s d) (ground (arith, str_eq_iff p r))

pub read-open_out_ne :
    (p r : Str) (d d' : Disk) → some (insert p [] d) ≡ some d' → r ≢ p → lookup r d' ≡ lookup r d
read-open_out_ne p r d d' e h =
    let same : insert p [] d ≡ d' = cc e in rw (← same) (read-insert_ne p r [] d h)

abbrev pub disk : FileSystem
disk = record {
  Disk = Disk;
  exists = exists;
  create_directory = λ p d. some d;
  open_out = λ p d. some (insert p [] d);
  write = λ p s d. (insert p s d, true);
  read = lookup;
  read-write = read-write;
  read-write_ne = read-insert_ne;
  read-open_out_ne = read-open_out_ne;
  read-create_directory = λ p r d d' e. let same : d ≡ d' = cc e in ap (lookup r) (sym same);
}

-- One byte arrives, in call 1, and stands for a request to open a channel.
abbrev arriving : ℕ → ℕ → ℕ → Received
arriving (suc zero) fd (suc room) = bytes (7 ∷ [])
arriving call fd room = again

pub arriving_room :
    (call fd room : ℕ) (b : Str)
    → arriving call fd room ≡ bytes b
    → (0 < length b) × (length b ≤ room)
arriving_room zero fd room b e = cc e
arriving_room (suc zero) fd zero b e = cc e
arriving_room (suc zero) fd (suc room) b e =
    let same : 7 ∷ [] ≡ b = cc e in rw (← same) (ground arith)
arriving_room (suc (suc call)) fd room b e = cc e

abbrev read_packet : Str → Option Packet
read_packet [] = some (record { packet_id = pos 0; content = none })
read_packet (c ∷ cs) =
    some (record { packet_id = pos 16; content = some (setup_channel (codes "token")) })

abbrev pub network : Network
network = record {
  recv = arriving;
  send = λ call fd s. took (length s);
  epoll_add = λ call fd. true;
  epoll_del = λ call fd. true;
  close = λ call fd. true;
  parse = read_packet;
  serialize = λ p. 1 ∷ 2 ∷ 3 ∷ [];
  recv_room = arriving_room;
  send_room = λ call fd s k h e. let same : length s ≡ k = cc e in (omega arith, omega arith);
}

abbrev pub zeros : ℕ → List ℕ
zeros zero = []
zeros (suc n) = 0 ∷ zeros n

-- a toy digest of 32 bytes
abbrev pub toy_digest : Str → List ℕ
toy_digest s = length s % 256 ∷ zeros 31

zeros-bytes : (n : ℕ) → AllOf (λ b. b < 256) (zeros n)
zeros-bytes zero = tt
zeros-bytes (suc n) = (omega arith, zeros-bytes n)

pub toy_digest-bytes :
    (s : Str) (d : List ℕ) → some (toy_digest s) ≡ some d → (length d ≡ 32) × AllOf (λ b. b < 256) d
toy_digest-bytes s d e =
    let same : toy_digest s ≡ d = cc e in rw (← same) (refl, (omega arith, zeros-bytes 31))

abbrev pub sodium : Libsodium
sodium = record {
  initializes = true;
  crypto_hash_sha256 = λ s. some (toy_digest s);
  digest_bytes = toy_digest-bytes;
}

abbrev pub world : Env
world = record {
  sqlite = memory;
  files = disk;
  queues = list_queue;
  net = network;
  sodium = sodium;
  rand = λ seed i. seed + i;
  uuid = λ n. codes "uuid" ++ (n + 97) ∷ [];
  clock = λ n. 1700000000 + n;
}

abbrev pub idle_van : Van
idle_van = record { send_bytes = 0; recv_bytes = 0; calls = 1; actions = [] }

abbrev pub start : Server world
start = record {
  db = empty_store;
  disk = [];
  pools = no_pools list_queue;
  van = idle_van;
  uuids = 0;
  readings = 0;
}
