-- ===== src/Tests/Parts.antt =====
-- The components below the server, and files, run.
use net_chat.Prelude.{
  suc, ◌+◌, ◌≤◌, ◌<◌, ◌≡◌, ◌⊎◌, refl, true, false, not, ◌++◌, [], ◌∷◌, none, some, codes, pos,
  int_max_suc, length, count, c_str, to_int, arith,
}
use net_chat.Exec.{ok, ◌>>=◌}
use net_chat.Proto.{RawMessage, Message, Packet}
use net_chat.Entities.{User, make_user}
use net_chat.Sql.{users, messages}
use net_chat.Sql.Memory.{memory, Store, store_exec, store_steps, empty_store}
use net_chat.DataAccess.{
  create_user, create_msg, get_all_messages, get_user_by_name, prepare, execute, select_all,
  all_rows, numbered, max_internal_id,
}
use net_chat.DataAccess.Users.{create_user-refines, created, has_name, get_user_by_name-create_user}
use net_chat.DataAccess.Numbering.{IsNumbered, chat}
use net_chat.DataAccess.Conversation.{length-get_all_messages}
use net_chat.Crypto.{bytes_to_hex_string, gen_challenge, AllOf}
use net_chat.Crypto.Hex.{read_hex, read_hex-bytes_to_hex_string}
use net_chat.Crypto.Challenge.{IsAlphanumeric, gen_challenge_lem}
use net_chat.Van.{recv_loop, max_message_size, van_send}
use net_chat.Van.Receive.{Receives, recv_loop-Receives_all}
use net_chat.Van.Send.{Delivers, van_send-Delivers}
use net_chat.Tests.World.{network, idle_van}

recv_loop-Receives_all_example :
    Receives network 5 0 [] (recv_loop network (suc max_message_size) 0 5 [])
recv_loop-Receives_all_example = recv_loop-Receives_all network 5 0

abbrev blank : Packet
blank = record { packet_id = pos 0; content = none }

fits : 3 ≤ max_message_size
unfolding max_message_size
fits = omega arith

van_send-Delivers_example :
    Delivers network 5 (1 ∷ 2 ∷ 3 ∷ []) idle_van (van_send network blank 5 idle_van)
van_send-Delivers_example = van_send-Delivers network 5 blank idle_van fits

two_bytes : AllOf (λ b. b < 256) (7 ∷ 254 ∷ [])
two_bytes = (omega arith, (omega arith, tt))

read_hex-bytes_to_hex_string_example : read_hex (bytes_to_hex_string (7 ∷ 254 ∷ [])) ≡ 7 ∷ 254 ∷ []
read_hex-bytes_to_hex_string_example = read_hex-bytes_to_hex_string (7 ∷ 254 ∷ []) two_bytes

gen_challenge_lem_example :
    (length (gen_challenge (λ seed i. seed + i) 1700000000) ≡ 32)
    × AllOf IsAlphanumeric (gen_challenge (λ seed i. seed + i) 1700000000)
gen_challenge_lem_example = gen_challenge_lem (λ seed i. seed + i) 1700000000

abbrev alice : User
alice = make_user (pos 0) (codes "alice") (codes "p")

abbrev with_alice : Store
with_alice = (create_user memory alice empty_store).1

create_user-refines_example :
    ((db' : Store) × (create_user memory alice empty_store ≡ (ok true, db'))
      × (count (has_name alice.username) (empty_store.table users) ≡ 0)
      × (db'.table users ≡ empty_store.table users ++ created memory alice db' ∷ []))
    ⊎ (create_user memory alice empty_store ≡ (ok false, empty_store))
create_user-refines_example = create_user-refines memory alice empty_store

creates : create_user memory alice empty_store ≡ (ok true, with_alice)
unfolding create_user prepare execute store_exec ◌>>=◌ make_user
creates = refl

clean_name : c_str alice.username ≡ alice.username
unfolding make_user c_str
clean_name = refl

clean_password : c_str alice.password ≡ alice.password
unfolding make_user c_str
clean_password = refl

alice_readable : not with_alice.broken ≡ true
unfolding create_user prepare execute store_exec ◌>>=◌ make_user
alice_readable = refl

get_user_by_name-create_user_example :
    get_user_by_name memory alice.username with_alice
    ≡ (ok (some (record alice { id = to_int (pos with_alice.last) })), with_alice)
get_user_by_name-create_user_example =
    get_user_by_name-create_user memory alice empty_store with_alice creates clean_name
      clean_password alice_readable

abbrev hello : RawMessage
hello = record { from = pos 1; to = pos 2; message_type = pos 0; content = codes "hello" }

abbrev once : Store
once = (create_msg memory (numbered hello [] 100) empty_store).1

abbrev twice : Store
twice = (create_msg memory (numbered hello [] 101) once).1

nothing_stored : IsNumbered (empty_store.table messages)
unfolding chat
nothing_stored from to = refl

room_for_none : length (chat (pos 1) (pos 2) (empty_store.table messages)) < int_max_suc
unfolding chat
room_for_none = omega arith

reads_none : get_all_messages memory (pos 1) (pos 2) empty_store ≡ (ok [], empty_store)
unfolding get_all_messages select_all all_rows store_steps ◌>>=◌
reads_none = refl

length-get_all_messages_example : max_internal_id (pos 0) [] ≡ pos (length {0} {A = Message} [])
length-get_all_messages_example =
    length-get_all_messages memory (pos 1) (pos 2) empty_store empty_store [] nothing_stored
      room_for_none reads_none
