-- ===== src/Tests/Sharing.antt =====
-- Two workers store a message in one conversation at once.
use net_chat.Prelude.{
  str_key, ℤ, subst, ap, length-map, int_max_suc, inc, to_int, c_str, str_eq, ℕ, zero, suc, ◌≡◌,
  ◌<◌, ◌≤◌, ◌%◌, ◌==◌, if◌then◌else◌, refl, inl, inr, Bool-cases, length, arith, List, [], ◌∷◌, map,
  codes, Str, Option, some, pos,
}
use net_chat.Proto.{unpack_send_message, Packet, send_message}
use net_chat.Proto.PacketType.{packet_type, packet_id, send_message_request}
use net_chat.Sql.{users, messages, internal_id, integer}
use net_chat.Entities.{make_user}
use net_chat.Dict.{lookup, insert}
use net_chat.Sql.Memory.{memory, store_steps, store_exec}
use net_chat.Sql.{new_row}
use net_chat.DataAccess.{
  get_user_by_name, get_all_messages, create_msg, select_all, all_rows, numbered, read_user,
  first_row, select_first, create_user, get_user, prepare, execute, create_msg_by_raw_msg,
}
use net_chat.Server.Messaging.{is_file}
use net_chat.UserManager.{get_user_id_by_token, set_user_id_by_token, no_pools}
use net_chat.PacketQueue.{list_queue}
use net_chat.Exec.{◌>>=◌}
use net_chat.Server.Threads.{perform, ask}
use net_chat.Server.EventLoop.{handle_event}
use net_chat.Server.Threads.Process.{split_process, split_received, split_dispatch, split_replying}
use net_chat.Server.Threads.Rules.{
  split_act, split_atom, split_bind, split_if, split_pure, split_same, split_learn, code_bind,
}
use net_chat.Server.Threads.Messaging.{
  split_send_message, split_check_sender, split_store_message, split_create_msg,
}
use net_chat.Van.{van_recv, recv_loop, received, max_message_size, Received, bytes, again}
use net_chat.Server.State.{Env}
use net_chat.Server.EventLoop.{readable}
use net_chat.Server.Workers.{Crew, idle_workers}
use net_chat.Server.Workers.Parties.{HasParties, Interleaves-HasParties}
use net_chat.Server.Workers.Tokens.{HasOwners}
use net_chat.DataAccess.Registered.{HasUser, is_user}
use net_chat.Server.Workers.Numbers.{Interleaves-IsBounded}
use net_chat.DataAccess.Bounded.{IsBounded}
use net_chat.DataAccess.Numbering.{chat}
use net_chat.Server.Workers.Schedule.{Turn, happen, step, schedule}
use net_chat.Tests.World.{world, network, idle_van}
use net_chat.Tests.Chats.{two_users, sending}

abbrev pub read_text : Str → Option Packet
read_text b = some (record {
  packet_id = pos (packet_id send_message_request);
  content = some (send_message sending);
})

-- A byte at each odd call.
abbrev pub one_byte : ℕ → Received
one_byte zero = again
one_byte (suc room) = bytes (7 ∷ [])

abbrev pub arriving : ℕ → ℕ → ℕ → Received
arriving call fd room = if call % 2 == 1 then one_byte room else again

one_byte-room : (room : ℕ) (b : Str) → one_byte room ≡ bytes b → (0 < length b) × (length b ≤ room)
one_byte-room zero b e = cc e
one_byte-room (suc room) b e = let same : 7 ∷ [] ≡ b = cc e in rw (← same) (ground arith)

pub arriving-room :
    (call fd room : ℕ) (b : Str)
    → arriving call fd room ≡ bytes b
    → (0 < length b) × (length b ≤ room)
arriving-room call fd room b e = elim (Bool-cases (call % 2 == 1)) [
  | inl odd ↦ one_byte-room room b (rw odd at e)
  | inr even ↦ let no : again ≡ bytes b = rw even at e in cc no
]

abbrev pub texting : Env
texting = record world {
  net = record network { recv = arriving; recv_room = arriving-room; parse = read_text };
}

abbrev pub two_workers : Crew texting
two_workers = record {
  system = record {
    server = record {
      db = two_users;
      disk = [];
      pools = set_user_id_by_token list_queue (codes "token") (pos 1) (no_pools list_queue);
      van = idle_van;
      uuids = 0;
      readings = 0;
    };
    work = [];
  };
  workers = idle_workers texting 2;
}

-- The two workers in turn.
abbrev pub in_turn : ℕ → List Turn
in_turn zero = []
in_turn (suc n) = step 0 ∷ step 1 ∷ in_turn n

-- Both sockets can be read; each worker takes one of them and both go on in turn until both have stored
-- their message.
abbrev shared : Crew texting
shared = (schedule texting (happen (readable 5) ∷ happen (readable 6) ∷ in_turn 7) two_workers).0

-- Both messages have the id 1.
shared_ids :
    map (λ r. r internal_id) (shared.system.server.db.table messages)
    ≡ integer (pos 1) ∷ integer (pos 1) ∷ []
unfolding schedule ask get_user_by_name handle_event van_recv recv_loop received max_message_size
    split_process split_received split_dispatch split_send_message split_check_sender
    split_store_message split_create_msg split_act split_atom split_bind split_if split_pure
    split_same split_learn code_bind perform ◌>>=◌ packet_type packet_id get_user_id_by_token
    set_user_id_by_token lookup insert get_user select_first first_row store_steps store_exec
    create_user prepare execute make_user str_eq c_str new_row to_int read_user
    create_msg_by_raw_msg get_all_messages create_msg select_all all_rows numbered is_file inc
    split_replying unpack_send_message
shared_ids = refl

nothing_said : IsBounded (two_users.table messages)
unfolding chat store_exec ◌>>=◌ create_user prepare execute make_user str_eq c_str new_row
nothing_said = record { bounded = λ from to. tt }

few_said : length (shared.system.server.db.table messages) < int_max_suc
few_said = omega (
  arith,
  length-map (shared.system.server.db.table messages) (λ r. r internal_id),
  ap {B = ℕ} length shared_ids,
)

Interleaves-IsBounded_example : IsBounded (shared.system.server.db.table messages)
Interleaves-IsBounded_example =
    Interleaves-IsBounded texting two_workers.system 2
      (schedule texting (happen (readable 5) ∷ happen (readable 6) ∷ in_turn 7) two_workers).1
      nothing_said few_said

-- alice's token, as in Crew
token_is_alices :
    (token : Str) (id : ℤ)
    → lookup token two_workers.system.server.pools.tokens ≡ some id
    → pos 1 ≡ id
unfolding lookup set_user_id_by_token insert
token_is_alices token id e = ground arith

alice_is_there : HasUser memory (two_users.table users) (pos 1)
unfolding is_user store_exec ◌>>=◌ create_user prepare execute make_user str_eq c_str new_row
    read_user to_int
alice_is_there = omega arith

alices_token : HasOwners texting two_workers.system.server
alices_token = record {
  owner = λ token id e.
      subst (HasUser memory (two_users.table users)) (token_is_alices token id e) alice_is_there;
}

no_strangers : HasParties memory two_users.table
unfolding store_exec ◌>>=◌ create_user prepare execute make_user str_eq c_str new_row
no_strangers = record { all_between = tt }

Interleaves-HasParties_example : HasParties memory shared.system.server.db.table
Interleaves-HasParties_example =
    Interleaves-HasParties texting two_workers.system 2
      (schedule texting (happen (readable 5) ∷ happen (readable 6) ∷ in_turn 7) two_workers).1
      alices_token no_strangers
