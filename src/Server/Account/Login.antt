-- ===== src/Server/Account/Login.antt =====
-- LoginPreRequest and LoginRequest: the challenge, the digest that answers it and the token.
use net_chat.Prelude.{
  suc, ◌≡◌, refl, ap, Bool, true, false, not, ◌&&◌, ◌++◌, [], some, Str, codes, str_eq, ℤ,
  int_eq_iff, Bool-cases, arith, inl, inr, if◌then◌else◌,
}
use net_chat.Exec.{Exec, Result, ok, aborted, pure, ◌>>=◌, ◌>>◌}
use net_chat.Exec.Inversion.{bind_ok}
use net_chat.Proto.{LoginRequest, LoginResponse, login_reply}
use net_chat.Proto.PacketType.{login_response}
use net_chat.Entities.{User}
use net_chat.DataAccess.{get_user_by_name}
use net_chat.UserManager.{get_challenge, get_user_id_by_token, set_user_id_by_token, del_challenge}
use net_chat.UserManager.Sessions.{
  get_challenge-del_challenge, get_user_id_by_token-set_user_id_by_token,
}
use net_chat.Crypto.{sha256}
use net_chat.Server.State.{Env, Server, answer, on_pools, next_uuid}
use net_chat.Server.Account.{handle_login, log_in, grant, gen_token, init_sodium, refusal, granted}

module _ (env : Env) where
  open env use {sqlite, queues, sodium, rand}

  -- the token of the next login
  abbrev pub next_token : Server env → Str
  next_token s = env.uuid s.uuids

  -- the pools after a login by this user
  pools_after : User → Bool → Server env → Server env
  pools_after u true s = record s {
    pools = del_challenge queues u.id (set_user_id_by_token queues (next_token s) u.id s.pools);
    uuids = suc s.uuids;
  }
  pools_after u false s = record s { pools = del_challenge queues u.id s.pools }

  init_sodium_lem : (s : Server env) → sodium.initializes ≡ true → init_sodium env s ≡ (ok tt, s)
  unfolding init_sodium
  init_sodium_lem s i =
      let r : Bool → Result (Unit {0}) = λ b. if b then ok tt else aborted in ap (λ b. (r b, s)) i

  grant_lem :
      (id : ℤ) (s : Server env)
      → sodium.initializes ≡ true
      → grant env id s ≡ (
        ok (granted id (next_token s)),
        record s {
          pools = set_user_id_by_token queues (next_token s) id s.pools;
          uuids = suc s.uuids;
        },
      )
  unfolding grant gen_token ◌>>=◌
  grant_lem id s i =
      let give : Str → Exec (Server env) LoginResponse =
        λ token. on_pools env (set_user_id_by_token queues token id) >> pure (granted id token) in
      let made : gen_token env s ≡ (ok (next_token s), record s { uuids = suc s.uuids }) =
        bind_ok (init_sodium env) (λ _. next_uuid env) s s tt (init_sodium_lem s i) in
      bind_ok (gen_token env) give s (record s { uuids = suc s.uuids }) (next_token s) made

  handle_login_known :
      (r : LoginRequest) (s : Server env) (u : User) (expected : Str)
      → get_user_by_name sqlite r.username s.db ≡ (ok (some u), s.db)
      → sha256 sodium (u.password ++ get_challenge queues u.id s.pools) ≡ ok expected
      → sodium.initializes ≡ true
      → handle_login env r s ≡ (
        ok (
            answer login_response (
              login_reply (
                if str_eq expected r.hash_password
                then granted u.id (next_token s)
                else refusal (codes "wrong password")))),
        pools_after u (str_eq expected r.hash_password) s,
      )
  unfolding handle_login log_in pools_after ◌>>=◌
  handle_login_known r s u expected l h i = elim (Bool-cases (str_eq expected r.hash_password)) [
    | inl e ↦ rw (l, h, e, grant_lem u.id s i) refl
    | inr e ↦ rw (l, h, e) refl
  ]

  -- what tokens stand for after it
  token_after :
      (u : User) (b : Bool) (s : Server env) (t : Str)
      → get_user_id_by_token queues t (pools_after u b s).pools ≡ (
          if b && str_eq (next_token s) t && not (str_eq t [])
          then u.id
          else get_user_id_by_token queues t s.pools)
  unfolding pools_after del_challenge get_user_id_by_token
  token_after u false s t = refl
  token_after u true s t =
      let h = get_user_id_by_token-set_user_id_by_token queues (next_token s) t u.id s.pools in
      ground (arith, h)

  challenge_after :
      (u : User) (b : Bool) (s : Server env)
      → get_challenge queues u.id (pools_after u b s).pools ≡ []
  unfolding pools_after
  challenge_after u true s =
      let h =
        get_challenge-del_challenge queues u.id u.id
          (set_user_id_by_token queues (next_token s) u.id s.pools) in
      ground (arith, h, int_eq_iff u.id u.id)
  challenge_after u false s =
      let h = get_challenge-del_challenge queues u.id u.id s.pools in
      ground (arith, h, int_eq_iff u.id u.id)

  db_after : (u : User) (b : Bool) (s : Server env) → (pools_after u b s).db ≡ s.db
  unfolding pools_after
  db_after u true s = refl
  db_after u false s = refl

  -- A login of a user that the database has, with libsodium started: it is granted exactly
  -- when the hash is the digest of the stored password and the user's challenge, and then the
  -- new token stands for the user unless it is empty; no other token changes, the database is
  -- as it was, and the challenge is gone in either case.
  pub handle_login_lem :
      (r : LoginRequest) (s : Server env) (u : User) (expected : Str)
      → get_user_by_name sqlite r.username s.db ≡ (ok (some u), s.db)
      → sha256 sodium (u.password ++ get_challenge queues u.id s.pools) ≡ ok expected
      → sodium.initializes ≡ true
      → let good = str_eq expected r.hash_password in
        (s' : Server env) × (handle_login env r s ≡ (
          ok (
              answer login_response (
                login_reply (
                  if good then granted u.id (next_token s) else refusal (codes "wrong password")))),
          s',
        ))
        × (s'.db ≡ s.db)
        × (get_challenge queues u.id s'.pools ≡ [])
        × ((t : Str)
            → get_user_id_by_token queues t s'.pools ≡ (
                if good && str_eq (next_token s) t && not (str_eq t [])
                then u.id
                else get_user_id_by_token queues t s.pools))
  handle_login_lem r s u expected l h i =
      let good = str_eq expected r.hash_password in
      (
        pools_after u good s,
        handle_login_known r s u expected l h i,
        db_after u good s,
        challenge_after u good s,
        token_after u good s,
      )
