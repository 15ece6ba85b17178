-- ===== src/Server/Account/Session.antt =====
-- A whole session: register, ask for a challenge, log in.
use net_chat.Prelude.{
  ℕ, suc, ◌≡◌, ◌≢◌, refl, ◌∙◌, ap, Bool, true, false, ◌++◌, [], ◌∷◌, List, some, Str, codes, str_eq,
  str_eq_iff, ℤ, int_eq_iff, pos, arith, to_int, c_str, c_str_idem, if◌then◌else◌,
}
use net_chat.Exec.{ok, ◌>>=◌}
use net_chat.Exec.Inversion.{ok-injective}
use net_chat.Proto.{RegisterRequest, LoginRequest, LoginResponse, login_reply, challenge}
use net_chat.Proto.PacketType.{login_response, login_pre_response}
use net_chat.Entities.{User, make_user}
use net_chat.Sql.{users, select, username, text}
use net_chat.DataAccess.{get_user_by_name}
use net_chat.DataAccess.Users.{get_user_by_name-create_user}
use net_chat.UserManager.{get_challenge, get_user_id_by_token, set_challenge}
use net_chat.UserManager.Sessions.{get_challenge-set_challenge}
use net_chat.Crypto.{sha256, gen_challenge, bytes_to_hex_string}
use net_chat.Crypto.Hex.{sha256_lem, c_str-IsHex}
use net_chat.Server.State.{Env, Server, answer}
use net_chat.Server.Account.{
  handle_register, handle_login, handle_login_pre, new_challenge, granted, refusal,
}
use net_chat.Server.Account.Registration.{registered_reply, handle_register-created}
use net_chat.Server.Account.Login.{handle_login_lem, next_token}

module _ (env : Env) where
  open env use {sqlite, queues, sodium, rand}

  abbrev pub next_challenge : Server env → Str
  next_challenge s = gen_challenge rand (env.clock s.readings)

  -- A name that the database has gets a challenge, which is kept under the user's id.
  pub handle_login_pre_known :
      (name : Str) (s : Server env) (u : User)
      → get_user_by_name sqlite name s.db ≡ (ok (some u), s.db)
      → handle_login_pre env name s ≡ (
        ok (answer login_pre_response (challenge (next_challenge s))),
        record s {
          pools = set_challenge queues u.id (next_challenge s) s.pools;
          readings = suc s.readings;
        },
      )
  unfolding handle_login_pre new_challenge ◌>>=◌
  handle_login_pre_known name s u e = rw e refl

  -- A challenge answered with the digest of the stored password and the challenge logs the user in.
  pub handle_login-handle_login_pre :
      (name expected : Str) (s : Server env) (u : User)
      → get_user_by_name sqlite name s.db ≡ (ok (some u), s.db)
      → sha256 sodium (u.password ++ next_challenge s) ≡ ok expected
      → sodium.initializes ≡ true
      → next_token env s ≢ []
      → (s2 : Server env) × (s3 : Server env) × (handle_login_pre env name s
          ≡ (ok (answer login_pre_response (challenge (next_challenge s))), s2))
        × (handle_login env (record { username = name; hash_password = expected }) s2
            ≡ (ok (answer login_response (login_reply (granted u.id (next_token env s)))), s3))
        × (get_user_id_by_token queues (next_token env s) s3.pools ≡ u.id)
  handle_login-handle_login_pre name expected s u l h i fresh =
      let s2 = record s {
        pools = set_challenge queues u.id (next_challenge s) s.pools;
        readings = suc s.readings;
      } in
      let kept : get_challenge queues u.id s2.pools ≡ next_challenge s = ground (
        arith,
        get_challenge-set_challenge queues u.id u.id (next_challenge s) s.pools,
        int_eq_iff u.id u.id,
      ) in
      let r : LoginRequest = record { username = name; hash_password = expected } in
      let yes : str_eq expected expected ≡ true = (str_eq_iff expected expected).1 refl in
      let (s3, run, _, _, tokens) = handle_login_lem env r s2 u expected l (rw kept h) i in
      let out : Bool → LoginResponse =
        λ b. if b then granted u.id (next_token env s) else refusal (codes "wrong password") in
      let same : str_eq (next_token env s) (next_token env s) ≡ true =
        (str_eq_iff (next_token env s) (next_token env s)).1 refl in
      let other : str_eq (next_token env s) [] ≡ false =
        ground (arith, str_eq_iff (next_token env s) [], fresh) in
      (
        s2,
        s3,
        handle_login_pre_known name s u l,
        run ∙ ap (λ b. (ok (answer login_response (login_reply (out b))), s3)) yes,
        tokens (next_token env s) ∙ rw (yes, same, other) refl,
      )

  -- the row that a registration leaves is the one that a login finds
  get_user_by_name-handle_register :
      (r : RegisterRequest) (s s1 : Server env) (d : List ℕ)
      → handle_register env r s ≡ (ok (registered_reply true), s1)
      → c_str r.username ≡ r.username
      → sodium.initializes ≡ true
      → sodium.crypto_hash_sha256 r.raw_password ≡ some d
      → sqlite.healthy (select users ((username, text r.username) ∷ [])) s1.db ≡ true
      → (u : User) × (get_user_by_name sqlite r.username s1.db ≡ (ok (some u), s1.db))
        × (u.password ≡ bytes_to_hex_string d)
  unfolding make_user
  get_user_by_name-handle_register r s s1 d e n i hd healthy =
      let (_, _, (hashed, hash, made)) = handle_register-created env r s s1 e in
      let (digest, _, hex, _) = sha256_lem sodium r.raw_password d i hd in
      let same : hashed ≡ bytes_to_hex_string d =
        ok-injective hashed (bytes_to_hex_string d) (cc (hash, digest)) in
      let clean : c_str hashed ≡ hashed = rw same (c_str-IsHex (bytes_to_hex_string d) hex) in
      let u = make_user (pos 0) r.username hashed in
      let found =
        get_user_by_name-create_user sqlite u s.db s1.db made (c_str_idem r.username)
          (c_str_idem hashed) (rw n healthy) in
      (
        record u { id = to_int (pos (sqlite.last_insert_rowid s1.db)); username = r.username },
        rw n at found,
        clean ∙ same,
      )

  -- A user whose registration succeeded, who then asked for a challenge and answered it with
  -- the digest of the password's digest and the challenge, is logged in, and the token in the
  -- reply stands for the id in the reply: if the name has no zero byte, libsodium starts and
  -- digests the password, SQLite can read, and the fresh token is not empty.
  pub handle_login-handle_register :
      (r : RegisterRequest) (s s1 : Server env) (d : List ℕ) (expected : Str)
      → handle_register env r s ≡ (ok (registered_reply true), s1)
      → c_str r.username ≡ r.username
      → sodium.initializes ≡ true
      → sodium.crypto_hash_sha256 r.raw_password ≡ some d
      → sqlite.healthy (select users ((username, text r.username) ∷ [])) s1.db ≡ true
      → sha256 sodium (bytes_to_hex_string d ++ next_challenge s1) ≡ ok expected
      → next_token env s1 ≢ []
      → (id : ℤ) × (s2 : Server env) × (s3 : Server env) × (handle_login_pre env r.username s1
          ≡ (ok (answer login_pre_response (challenge (next_challenge s1))), s2))
        × (handle_login env (record { username = r.username; hash_password = expected }) s2
            ≡ (ok (answer login_response (login_reply (granted id (next_token env s1)))), s3))
        × (get_user_id_by_token queues (next_token env s1) s3.pools ≡ id)
  handle_login-handle_register r s s1 d expected e n i hd healthy h fresh =
      let (u, found, pass) = get_user_by_name-handle_register r s s1 d e n i hd healthy in
      let (s2, s3, asked, logged, token) =
        handle_login-handle_login_pre r.username expected s1 u found (rw pass h) i fresh in
      (u.id, s2, s3, asked, logged, token)
