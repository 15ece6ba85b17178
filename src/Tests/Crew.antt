-- ===== src/Tests/Crew.antt =====
-- The program starts on an empty database; a client connects and registers, and a worker serves it.
use net_chat.Prelude.{
  ℕ, ◌≡◌, ◌≢◌, refl, ◌⊎◌, [], ◌∷◌, Option, none, some, codes, Str, str_eq, c_str, count, true,
  arith, pos, str_key, int_key,
}
use net_chat.Exec.{ok, ◌>>=◌}
use net_chat.Proto.{Packet, register, unpack_register}
use net_chat.Crypto.{sha256}
use net_chat.Proto.PacketType.{packet_type, packet_id, register_request}
use net_chat.Entities.{make_user}
use net_chat.Sql.{Table, new_row}
use net_chat.Sql.Memory.{memory, Store, empty_store, store_exec}
use net_chat.DataAccess.{create_user, prepare, execute}
use net_chat.DataAccess.Keys.{HasKeys}
use net_chat.DataAccess.Types.{IsTyped}
use net_chat.DataAccess.History.{Extends}
use net_chat.DataAccess.Opening.{
  Schema, data_access, data_access_lem, check_and_create_tables, create_if_absent,
}
use net_chat.UserManager.{set_recv_socket}
use net_chat.Van.{van_recv, van_send, recv_loop, send_loop, max_message_size, epoll_add_client}
use net_chat.Server.State.{Env, Server, pack_to_packet}
use net_chat.Server.Account.{handle_register, register_user, legal_name, legal_password}
use net_chat.Server.Process.{
  process_recv_socket, answer_packet, on_received, dispatch, finish, deliver, after_send,
  run_callback, has_content,
}
use net_chat.Server.EventLoop.{
  Event, accepted, readable, System, handle_event, Evolves, rest, event, work_done,
}
use net_chat.Server.Workers.{Crew, Interleaves, idle_workers}
use net_chat.Server.Workers.Alone.{Evolves-Interleaves}
use net_chat.Server.Workers.Tables.{tables}
use net_chat.Server.Workers.Tokens.{HasOwners}
use net_chat.Server.Start.{Host, main, new_crew, init_server, start_van, bind_server, make_socket}
use net_chat.Server.Start.Order.{everything, main_lem, is_accepting}
use net_chat.Server.Start.Sound.{IsConsistent, main-Sound}
use net_chat.Server.Workers.Parties.{HasParties}
use net_chat.Tests.World.{world, network}

abbrev read_registration : Str → Option Packet
read_registration b = some (record {
  packet_id = pos (packet_id register_request);
  content = some (register (record { username = codes "alice"; raw_password = codes "secret" }));
})

abbrev registering : Env
registering = record world { net = record network { parse = read_registration } }

-- an existing file, with its tables
abbrev schema : Schema memory
schema = record {
  open_file = λ path. some empty_store;
  exists = λ db t. true;
  create_table = λ t db. none;
  rows-absent = λ db t e. cc e;
  created = λ db db' t e. cc e;
  others = λ db db' t u e h. cc e;
}

abbrev host : Host
host = record {
  socket = some 3;
  bind = λ fd port. true;
  listen = λ fd. true;
  epoll_create = some 4;
  epoll_add = λ ep fd. true;
}

abbrev ready : Crew registering
ready = new_crew registering schema host [] empty_store

opens : data_access memory schema (codes "chat.db") ≡ ok empty_store
unfolding data_access check_and_create_tables create_if_absent ◌>>=◌
opens = refl

main_runs : main registering schema host [] ≡ (ok ready, everything 3 4)
unfolding main data_access check_and_create_tables create_if_absent init_server start_van
    bind_server make_socket ◌>>=◌
main_runs = refl

abbrev connection : Event
connection = accepted (some (codes "10.0.0.7:5000", 5))

abbrev connected : System registering
connected = (handle_event registering connection ready.system).1

abbrev asked : System registering
asked = (handle_event registering (readable 5) connected).1

abbrev served : Server registering
served = (process_recv_socket registering 5 asked.server).1

connects : handle_event registering connection ready.system ≡ (ok tt, connected)
unfolding handle_event ◌>>=◌ epoll_add_client
connects = refl

asks : handle_event registering (readable 5) connected ≡ (ok tt, asked)
unfolding handle_event
asks = refl

queued : asked.work ≡ 5 ∷ []
unfolding handle_event ◌>>=◌ epoll_add_client
queued = refl

serves : process_recv_socket registering 5 asked.server ≡ (ok tt, served)
unfolding process_recv_socket epoll_add_client handle_event set_recv_socket van_recv van_send
    recv_loop send_loop max_message_size answer_packet on_received dispatch finish deliver
    after_send run_callback has_content handle_register register_user legal_name legal_password
    str_eq store_exec ◌>>=◌ create_user prepare execute make_user c_str new_row packet_type
    packet_id pack_to_packet unpack_register sha256
serves = refl

registration : Evolves registering ready.system (record { server = served; work = [] }) 1
registration =
    event connection connects (event (readable 5) asks (work_done 5 [] served queued serves rest))

abbrev after_registration : Crew registering
after_registration = record {
  system = record { server = served; work = [] };
  workers = idle_workers registering 10;
}

Evolves-Interleaves_example : Interleaves registering ready after_registration
Evolves-Interleaves_example =
    Evolves-Interleaves registering [] (idle_workers registering 9) registration

nothing_stored : HasKeys empty_store.table
nothing_stored = record {
  names = λ name. omega arith;
  user_ids = λ n. omega arith;
  message_ids = λ n. omega arith;
  file_ids = λ id. omega arith;
}

nothing_unfit : IsTyped empty_store.table
nothing_unfit = record { rows_fit = λ t. refl }

nothing_sent : HasParties memory empty_store.table
nothing_sent = record { all_between = tt }

main-Sound_example :
    IsConsistent memory (tables registering after_registration)
    × HasOwners registering after_registration.system.server
    × Extends empty_store.table (tables registering after_registration)
main-Sound_example =
    main-Sound registering schema host [] ready after_registration (everything 3 4) empty_store
      main_runs Evolves-Interleaves_example refl
      (record { keys = nothing_stored; types = nothing_unfit; parties = nothing_sent })

data_access_lem_example :
    (db : Store) × (schema.open_file (codes "chat.db") ≡ some db)
    × ((t : Table) → (schema.exists empty_store t ≡ true) × (empty_store.table t ≡ db.table t))
data_access_lem_example = data_access_lem memory schema (codes "chat.db") empty_store opens

main_lem_example :
    ((db : Store) × (fd : ℕ) × (epoll_fd : ℕ) × (data_access memory schema (codes "chat.db")
        ≡ ok db)
      × (main registering schema host []
          ≡ (ok (new_crew registering schema host [] db), everything fd epoll_fd)))
    ⊎ (((c : Crew registering) → (main registering schema host []).0 ≢ ok c)
        × (count is_accepting (main registering schema host []).1 ≡ 0))
main_lem_example = main_lem registering schema host []
