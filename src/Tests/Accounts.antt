-- ===== src/Tests/Accounts.antt =====
-- Registration and login, run.
use net_chat.Prelude.{
  ◌==◌, ℕ, ◌≤◌, ◌≡◌, ◌≢◌, refl, true, false, not, ◌&&◌, ◌++◌, [], ◌∷◌, List, some, Str, codes,
  str_eq, ℤ, pos, count, c_str, to_int, if◌then◌else◌,
}
use net_chat.Exec.{ok, ◌>>=◌}
use net_chat.Proto.{RegisterRequest, LoginRequest, login_reply, challenge}
use net_chat.Proto.PacketType.{login_response, login_pre_response}
use net_chat.Entities.{User, make_user}
use net_chat.Sql.{users, new_row}
use net_chat.Sql.Memory.{memory, store_exec, store_steps}
use net_chat.Dict.{lookup}
use net_chat.DataAccess.{
  read_user, create_user, select_first, first_row, get_user_by_name, prepare, execute,
}
use net_chat.DataAccess.Users.{created, has_name}
use net_chat.UserManager.{get_challenge, get_user_id_by_token}
use net_chat.Crypto.{sha256, bytes_to_hex_string}
use net_chat.PacketQueue.{list_queue}
use net_chat.Server.State.{Server, answer}
use net_chat.Server.Account.{
  legal_name, legal_password, handle_register, handle_login, handle_login_pre, granted, refusal,
}
use net_chat.Server.Account.Registration.{
  registered_reply, handle_register-stores, handle_register_lem,
}
use net_chat.Server.Account.Login.{handle_login_lem, next_token}
use net_chat.Server.Account.Session.{handle_login-handle_register, next_challenge}
use net_chat.Tests.World.{world, start, sodium, toy_digest}

abbrev pub alice : RegisterRequest
alice = record { username = codes "alice"; raw_password = codes "secret" }

abbrev pub registered_alice : Server world
registered_alice = (handle_register world alice start).1

-- A first registration succeeds, and a second one for the same name does not.
registers : handle_register world alice start ≡ (ok (registered_reply true), registered_alice)
unfolding handle_register store_exec ◌>>=◌ create_user prepare execute sha256 make_user
registers = refl

twice : (handle_register world alice registered_alice).0 ≡ ok (registered_reply false)
unfolding handle_register store_exec ◌>>=◌ create_user prepare execute sha256 make_user str_eq c_str
twice = refl

abbrev short : RegisterRequest
short = record { username = codes "al"; raw_password = codes "secret" }

refused : handle_register world short start ≡ (ok (registered_reply false), start)
unfolding handle_register ◌>>=◌
refused = refl

handle_register-stores_example :
    (3 ≤ 5)
    × (5 ≤ 32)
    × (6 ≤ 6)
    × (6 ≤ 32)
    × ((hashed : Str) × (sha256 sodium (codes "secret") ≡ ok hashed)
        × (count (has_name (c_str (codes "alice"))) (start.db.table users) ≡ 0)
        × (registered_alice.db.table users
            ≡ start.db.table users
              ++ created memory (make_user (pos 0) (codes "alice") hashed) registered_alice.db
                ∷ []))
handle_register-stores_example = handle_register-stores world alice start registered_alice registers

abbrev digest_of_secret : List ℕ
digest_of_secret = toy_digest (codes "secret")

abbrev response : Str
response =
    bytes_to_hex_string
      (toy_digest (bytes_to_hex_string digest_of_secret ++ next_challenge world registered_alice))

digests :
    sha256 sodium (bytes_to_hex_string digest_of_secret ++ next_challenge world registered_alice)
    ≡ ok response
unfolding sha256
digests = refl

alice_is_clean : c_str (codes "alice") ≡ codes "alice"
unfolding c_str
alice_is_clean = refl

healthy_store : not registered_alice.db.broken ≡ true
unfolding handle_register store_exec ◌>>=◌ create_user prepare execute sha256 make_user
healthy_store = refl

token_is_there : next_token world registered_alice ≢ []
unfolding handle_register store_exec ◌>>=◌ create_user prepare execute sha256 make_user
token_is_there e = cc e

handle_login-handle_register_example :
    (id : ℤ) × (s2 : Server world) × (s3 : Server world) × (handle_login_pre world
        (codes "alice")
        registered_alice
      ≡ (ok (answer login_pre_response (challenge (next_challenge world registered_alice))), s2))
    × (handle_login world (record { username = codes "alice"; hash_password = response }) s2 ≡ (
      ok (answer login_response (login_reply (granted id (next_token world registered_alice)))),
      s3,
    ))
    × (get_user_id_by_token list_queue (next_token world registered_alice) s3.pools ≡ id)
handle_login-handle_register_example =
    handle_login-handle_register world alice start registered_alice digest_of_secret response
      registers alice_is_clean refl refl healthy_store digests token_is_there

abbrev alice_user : User
alice_user = record {
  id = pos 1;
  username = codes "alice";
  password = bytes_to_hex_string digest_of_secret;
}

finds_alice :
    get_user_by_name memory (codes "alice") registered_alice.db
    ≡ (ok (some alice_user), registered_alice.db)
unfolding get_user_by_name select_first first_row store_steps handle_register store_exec ◌>>=◌
    create_user prepare execute sha256 make_user str_eq c_str new_row to_int read_user
finds_alice = refl

-- a login that never asked for a challenge, with a wrong answer
abbrev guess : LoginRequest
guess = record { username = codes "alice"; hash_password = codes "guess" }

abbrev unchallenged : Str
unchallenged = bytes_to_hex_string (toy_digest (bytes_to_hex_string digest_of_secret))

digests_unchallenged :
    sha256 sodium (alice_user.password ++ get_challenge list_queue (pos 1) registered_alice.pools)
    ≡ ok unchallenged
unfolding sha256 handle_register store_exec ◌>>=◌ create_user prepare execute make_user
    get_challenge lookup
digests_unchallenged = refl

handle_login_lem_example :
    (s' : Server world) × (handle_login world guess registered_alice ≡ (
      ok (
          answer login_response (
            login_reply (
              if str_eq unchallenged (codes "guess")
              then granted (pos 1) (next_token world registered_alice)
              else refusal (codes "wrong password")))),
      s',
    ))
    × (s'.db ≡ registered_alice.db)
    × (get_challenge list_queue (pos 1) s'.pools ≡ [])
    × ((t : Str)
        → get_user_id_by_token list_queue t s'.pools ≡ (
            if str_eq unchallenged (codes "guess")
              && str_eq (next_token world registered_alice) t
              && not (str_eq t [])
            then pos 1
            else get_user_id_by_token list_queue t registered_alice.pools))
handle_login_lem_example =
    handle_login_lem world guess registered_alice alice_user unchallenged finds_alice
      digests_unchallenged refl

legal_alice : legal_name (codes "alice") ≡ true
unfolding legal_name
legal_alice = refl

legal_secret : legal_password (codes "secret") ≡ true
unfolding legal_password
legal_secret = refl

digests_secret : sha256 sodium (codes "secret") ≡ ok (bytes_to_hex_string digest_of_secret)
unfolding sha256
digests_secret = refl

-- the second registration of the name
handle_register_lem_example :
    (s' : Server world) × (handle_register world alice registered_alice ≡ (
      ok (
          registered_reply
            (count (has_name (c_str (codes "alice"))) (registered_alice.db.table users) == 0)),
      s',
    ))
handle_register_lem_example =
    handle_register_lem world alice registered_alice (bytes_to_hex_string digest_of_secret)
      legal_alice legal_secret digests_secret healthy_store
