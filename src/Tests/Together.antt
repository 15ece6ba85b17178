-- ===== src/Tests/Together.antt =====
-- Workers beside one another, in the surroundings of Chats and Life.
use net_chat.Prelude.{
  ◌≡◌, refl, subst, [], ◌∷◌, some, Str, str_eq, c_str, to_int, count, true, arith, pos, ℤ, not,
  str_key, int_key,
}
use net_chat.Exec.{ok, ◌>>=◌}
use net_chat.Entities.{make_user}
use net_chat.Dict.{lookup, insert}
use net_chat.Sql.{Table, new_row, users, groups, user_group, files, messages}
use net_chat.Sql.Memory.{memory, store_exec}
use net_chat.DataAccess.{create_user, prepare, execute, read_user}
use net_chat.DataAccess.Types.{IsTyped, row_fits}
use net_chat.DataAccess.History.{Extends}
use net_chat.UserManager.{is_online, get_sender, set_kp_alive_sender, set_user_id_by_token}
use net_chat.Server.EventLoop.{readable, System, handle_event}
use net_chat.Server.Workers
use net_chat.Server.Threads.Process.{split_process}
use net_chat.Server.Workers.Online.{Interleaves-IsOnline}
use net_chat.Server.Workers.{busy, move, halt, Crew, Interleaves, idle_workers}
use net_chat.Server.Workers.Alone.{Evolves-Interleaves}
use net_chat.Server.Workers.Tables.{Interleaves-IsTyped, Interleaves-Extends}
use net_chat.DataAccess.Registered.{HasUser, is_user}
use net_chat.Server.Workers.Tokens.{HasOwners, Interleaves-HasOwners}
use net_chat.Tests.World.{world}
use net_chat.Tests.Chats.{listening, chatting}
use net_chat.PacketQueue.{list_queue}
use net_chat.Tests.Life
use net_chat.Tests.Life.{quiet, life}

-- Alice has logged in and asks for a channel, as in Life.
abbrev opened : System world
opened = record { server = Life.served; work = [] }

channel_opens :
    Interleaves world
      (record { system = quiet; workers = idle_workers world 2 })
      (record { system = opened; workers = idle_workers world 2 })
channel_opens = Evolves-Interleaves world [] (idle_workers world 1) life

token_is_alices : (token : Str) (id : ℤ) → lookup token chatting.pools.tokens ≡ some id → pos 1 ≡ id
unfolding lookup set_user_id_by_token insert
token_is_alices token id e = ground arith

alice_is_there : HasUser memory (memory.rows chatting.db users) (pos 1)
unfolding is_user store_exec ◌>>=◌ create_user prepare execute make_user str_eq c_str new_row
    read_user to_int
alice_is_there = omega arith

alices_token : HasOwners world quiet.server
alices_token = record {
  owner = λ token id e.
      subst (HasUser memory (memory.rows chatting.db users)) (token_is_alices token id e)
        alice_is_there;
}

Interleaves-HasOwners_example : HasOwners world opened.server
Interleaves-HasOwners_example = Interleaves-HasOwners world quiet 2 channel_opens alices_token

two_users_fit : (t : Table) → count (λ r. not (row_fits t r)) (memory.rows chatting.db t) ≡ 0
unfolding row_fits store_exec ◌>>=◌ create_user prepare execute make_user str_eq c_str new_row
two_users_fit users = refl
two_users_fit groups = refl
two_users_fit user_group = refl
two_users_fit files = refl
two_users_fit messages = refl

two_users-IsTyped : IsTyped (memory.rows chatting.db)
two_users-IsTyped = record { rows_fit = two_users_fit }

Interleaves-IsTyped_example : IsTyped (memory.rows opened.server.db)
Interleaves-IsTyped_example = Interleaves-IsTyped world channel_opens two_users-IsTyped

Interleaves-Extends_example : Extends (memory.rows chatting.db) (memory.rows opened.server.db)
Interleaves-Extends_example = Interleaves-Extends world channel_opens

-- bob has a channel, and a packet arrives on a socket
abbrev with_bob : Crew world
with_bob = record {
  system = record { server = listening; work = [] };
  workers = idle_workers world 1;
}

abbrev arrived : Crew world
arrived = record with_bob { system = record { server = listening; work = 9 ∷ [] } }

abbrev fetched : Crew world
fetched = record {
  system = record { server = listening; work = [] };
  workers = busy [] (split_process world 9).code ∷ [];
}

arrives : handle_event world (readable 9) with_bob.system ≡ (ok tt, arrived.system)
unfolding handle_event
arrives = refl

fetching : Interleaves world with_bob fetched
fetching =
    move (Workers.event (readable 9) arrived.system arrives)
      (move (Workers.fetch [] [] 9 [] refl refl) halt)

bob_is_online : is_online list_queue (pos 2) listening.pools ≡ true
unfolding is_online get_sender set_kp_alive_sender lookup insert set_user_id_by_token
bob_is_online = refl

Interleaves-IsOnline_example : is_online list_queue (pos 2) fetched.system.server.pools ≡ true
Interleaves-IsOnline_example = Interleaves-IsOnline world (pos 2) fetching bob_is_online
