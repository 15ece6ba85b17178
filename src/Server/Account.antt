-- ===== src/Server/Account.antt =====
-- Status, registration and login: the cases ServerStatusRequest to LoginRequest of the switch.
pub mod Registration
pub mod Login
pub mod Session
use net_chat.Prelude.{
  ℕ, suc, ◌+◌, Bool, true, false, ◌&&◌, ◌||◌, not, [], ◌++◌, Option, none, some, Str, codes, str_eq,
  ℤ, pos, negsuc, length, ltb, if◌then◌else◌,
}
use net_chat.Exec.{Exec, Result, ok, aborted, pure, ◌>>=◌, ◌>>◌}
use net_chat.Proto.{
  RegisterRequest, LoginRequest, LoginResponse, ServerStatus, Content, server_status,
  server_status_update, register_reply, challenge, login_reply,
}
use net_chat.Proto.PacketType.{
  server_status_response, server_status_update_response, register_response, login_pre_response,
  login_response,
}
use net_chat.Entities.{User, make_user}
use net_chat.DataAccess.{create_user, get_user_by_name}
use net_chat.UserManager.{set_challenge, get_challenge, del_challenge, set_user_id_by_token}
use net_chat.Crypto.{gen_challenge}
use net_chat.Server.State.{
  Env, Server, Reply, answer, on_db, on_pools, from_pools, next_uuid, read_clock, digest,
}

abbrev pub status : ServerStatus
status = record { online = true; registrable = true }

-- the tests on a new name and password
unfoldable pub legal_name : Str → Bool
legal_name n = not (ltb (length n) 3 || ltb 32 (length n))

unfoldable pub legal_password : Str → Bool
legal_password p = not (ltb (length p) 6 || ltb 32 (length p))

abbrev pub refusal : Str → LoginResponse
refusal token = record { logined = false; id = negsuc 0; token = token }

abbrev pub granted : ℤ → Str → LoginResponse
granted id token = record { logined = true; id = id; token = token }

module _ (env : Env) where
  open env use {sqlite, queues, sodium, rand}

  -- case ServerStatusRequest
  unfoldable pub handle_server_status : Exec (Server env) Reply
  handle_server_status = pure (answer server_status_response (server_status status))

  -- case ServerStatusUpdateRequest
  unfoldable pub handle_server_status_update : Exec (Server env) Reply
  handle_server_status_update =
      pure (answer server_status_update_response (server_status_update status))

  unfoldable pub register_user : Str → Str → Exec (Server env) Bool
  register_user n p = do
    hashed ← digest env p
    on_db env (create_user sqlite (make_user (pos 0) n hashed))

  -- case RegisterRequest
  unfoldable pub handle_register : RegisterRequest → Exec (Server env) Reply
  unfolding register_user legal_name legal_password
  handle_register request = do
    is_success ←
        if legal_name request.username && legal_password request.raw_password
        then register_user request.username request.raw_password
        else pure false
    pure (answer register_response (register_reply is_success))

  unfoldable pub new_challenge : Option User → Exec (Server env) Str
  new_challenge none = pure []
  new_challenge (some user) = do
    seconds ← read_clock env
    on_pools env (set_challenge queues user.id (gen_challenge rand seconds))
    pure (gen_challenge rand seconds)

  -- case LoginPreRequest
  unfoldable pub handle_login_pre : Str → Exec (Server env) Reply
  unfolding new_challenge
  handle_login_pre name = do
    result ← on_db env (get_user_by_name sqlite name)
    text ← new_challenge result
    pure (answer login_pre_response (challenge text))

  -- InitSodium: a FATAL log entry if libsodium does not start
  unfoldable pub init_sodium : Exec (Server env) (Unit {0})
  init_sodium s = (if sodium.initializes then ok tt else aborted, s)

  -- genToken
  unfoldable pub gen_token : Exec (Server env) Str
  unfolding init_sodium
  gen_token = do init_sodium; next_uuid env

  unfoldable pub grant : ℤ → Exec (Server env) LoginResponse
  unfolding gen_token
  grant id = do
    token ← gen_token
    on_pools env (set_user_id_by_token queues token id)
    pure (granted id token)

  unfoldable pub log_in : Str → Option User → Exec (Server env) LoginResponse
  unfolding grant
  log_in hash_password none = pure (refusal (codes "illegal user"))
  log_in hash_password (some user) = do
    text ← from_pools env (get_challenge queues user.id)
    expected ← digest env (user.password ++ text)
    response ←
        if str_eq expected hash_password
        then grant user.id
        else pure (refusal (codes "wrong password"))
    on_pools env (del_challenge queues user.id)
    pure response

  -- case LoginRequest
  unfoldable pub handle_login : LoginRequest → Exec (Server env) Reply
  unfolding log_in
  handle_login request = do
    result ← on_db env (get_user_by_name sqlite request.username)
    response ← log_in request.hash_password result
    pure (answer login_response (login_reply response))
