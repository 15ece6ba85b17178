-- ===== src/Server/Start.antt =====
-- The start: `main` (src/main.cpp), the constructors of `Van` (src/van.cpp) and `ServerVan` with its
-- `Bind` (src/Server/server_van.h), `Server::Init` (src/Server/Server.cpp) and `BindServer`
-- (include/user_manager.h). What is started is noted in order; CLOG_IF(…, FATAL, …) ends the process.
pub mod Order
pub mod Sound
use net_chat.Prelude.{
  ℕ, ◌≡◌, refl, sym, ap, ◌∙◌, List, [], ◌∷◌, ◌++◌, Bool, true, false, Option, none, some, Str,
  codes, Bool-cases, Option-cases, inl, inr, arith, if◌then◌else◌,
}
use net_chat.Exec.{Exec, Result, ok, threw, aborted, pure, abort, modify, ◌>>=◌, ◌>>◌}
use net_chat.DataAccess.Opening.{Schema, data_access}
use net_chat.UserManager.{no_pools}
use net_chat.Van.{Van}
use net_chat.Server.State.{Env, Server}
use net_chat.Server.EventLoop.{System}
use net_chat.Server.Workers.{Crew, idle_workers}

-- revc_socket_pool_thread_num and kServerPort of include/base.h
abbrev pub revc_socket_pool_thread_num : ℕ
revc_socket_pool_thread_num = 10

abbrev pub server_port : ℕ
server_port = 8081

-- What the operating system answers.
pub record Host : Type 0 where
  pub socket : Option ℕ
  pub bind : ℕ → ℕ → Bool
  pub listen : ℕ → Bool
  pub epoll_create : Option ℕ
  pub epoll_add : ℕ → ℕ → Bool

-- What has been started.
pub data Started : Type 0 where
  bound : ℕ → ℕ → Started
  listening : ℕ → Started
  workers : ℕ → Started
  watching : ℕ → ℕ → Started
  accepting : Started
  manager_bound : Started

abbrev note : Started → Exec (List Started) (Unit {0})
note x = modify (λ l. l ++ x ∷ [])

-- CLOG_IF(!good, FATAL, …)
abbrev fatal_unless : Bool → Exec (List Started) (Unit {0})
fatal_unless good = if good then pure tt else abort

abbrev fatal_unless_some : Option ℕ → Exec (List Started) ℕ
fatal_unless_some none = abort
fatal_unless_some (some fd) = pure fd

module _ (host : Host) where
  open host use {socket, bind, listen, epoll_create, epoll_add}

  -- Van::Van
  unfoldable pub make_socket : Exec (List Started) ℕ
  make_socket = fatal_unless_some socket

  -- Bind
  unfoldable pub bind_server : ℕ → Exec (List Started) (Unit {0})
  bind_server fd = do
    fatal_unless (bind fd server_port)
    note (bound fd server_port)
    fatal_unless (listen fd)
    note (listening fd)

  -- ServerVan::ServerVan
  unfoldable pub start_van : Exec (List Started) (Unit {0})
  unfolding make_socket bind_server
  start_van = do
    fd ← make_socket
    bind_server fd
    note (workers revc_socket_pool_thread_num)
    epoll_fd ← fatal_unless_some epoll_create
    fatal_unless (epoll_add epoll_fd fd)
    note (watching epoll_fd fd)
    note accepting

  -- Server::Init
  unfoldable pub init_server : Exec (List Started) (Unit {0})
  unfolding start_van
  init_server = do start_van; note manager_bound

module _ (env : Env) (schema : Schema env.sqlite) (host : Host) (disk : env.files.Disk) where
  open env use {sqlite, queues}

  -- the van and the server as they are made
  abbrev pub new_van : Van
  new_van = record { send_bytes = 0; recv_bytes = 0; calls = 0; actions = [] }

  abbrev pub new_server : sqlite.Db → Server env
  new_server db = record {
    db = db;
    disk = disk;
    pools = no_pools queues;
    van = new_van;
    uuids = 0;
    readings = 0;
  }

  abbrev pub new_crew : sqlite.Db → Crew env
  new_crew db = record {
    system = record { server = new_server db; work = [] };
    workers = idle_workers env revc_socket_pool_thread_num;
  }

  started : Result (Unit {0}) → sqlite.Db → Result (Crew env)
  started (ok u) db = ok (new_crew db)
  started threw db = threw
  started aborted db = aborted

  with_db : Result sqlite.Db → Result (Crew env) × List Started
  unfolding started init_server
  with_db (ok db) = let (r, log) = init_server host [] in (started r db, log)
  with_db threw = (threw, [])
  with_db aborted = (aborted, [])

  -- main
  unfoldable pub main : Result (Crew env) × List Started
  unfolding with_db data_access
  main = with_db (data_access sqlite schema (codes "chat.db"))
