-- ===== src/Server/Account/Registration.antt =====
-- RegisterRequest: which requests are refused, and what the others store.
use net_chat.Prelude.{
  ◌==◌, ◌∙◌, ◌≤◌, ◌≡◌, refl, ap, Bool, true, false, ◌&&◌, Bool-cases, inl, inr, [], ◌∷◌, ◌++◌, Str,
  pos, length, c_str, count, arith,
}
use net_chat.Exec.{pure, Exec, ok, ◌>>=◌}
use net_chat.Exec.Inversion.{bind_ok, bind-inv, pure-inv}
use net_chat.Server.State.Inversion.{on_db-inv, digest-inv}
use net_chat.Proto.{RegisterRequest, register_reply}
use net_chat.Proto.PacketType.{register_response}
use net_chat.Entities.{make_user}
use net_chat.Sql.{insert, users}
use net_chat.DataAccess.{user_values, create_user}
use net_chat.DataAccess.Users.{create_user_healthy, has_name, create_user-true, created}
use net_chat.Crypto.{sha256}
use net_chat.Server.State.{Env, Server, Reply, answer, pack_to_packet, on_db, digest}
use net_chat.Server.Account.{handle_register, legal_name, legal_password, register_user}

abbrev pub registered_reply : Bool → Reply
registered_reply success = answer register_response (register_reply success)

registered_reply-true : (b : Bool) → registered_reply b ≡ registered_reply true → b ≡ true
unfolding pack_to_packet
registered_reply-true true e = refl
registered_reply-true false e = cc e

-- The bounds of the tests, in bytes.
legal_name_iff : (n : Str) → legal_name n ≡ true → (3 ≤ length n) × (length n ≤ 32)
unfolding legal_name
legal_name_iff n h = ground arith

legal_password_iff : (p : Str) → legal_password p ≡ true → (6 ≤ length p) × (length p ≤ 32)
unfolding legal_password
legal_password_iff p h = ground arith

module _ (env : Env) (r : RegisterRequest) where
  open env use {sqlite}

  -- A name or password of a forbidden length is refused, and nothing changes.
  pub handle_register_illegal :
      (s : Server env)
      → legal_name r.username && legal_password r.raw_password ≡ false
      → handle_register env r s ≡ (ok (registered_reply false), s)
  unfolding handle_register ◌>>=◌
  handle_register_illegal s h = rw h refl

  -- what a registration of a legal name and password has done
  register_user-cases :
      (n p : Str) (s s' : Server env) (b : Bool)
      → register_user env n p s ≡ (ok b, s')
      → (hashed : Str) × (sha256 env.sodium p ≡ ok hashed)
        × (create_user sqlite (make_user (pos 0) n hashed) s.db ≡ (ok b, s'.db))
  unfolding register_user ◌>>=◌
  register_user-cases n p s s' b e =
      let store = λ (h : Str). on_db env (create_user sqlite (make_user (pos 0) n h)) in
      let (hashed, t, d, stored) = bind-inv (digest env p) store s s' b e in
      let (hash, same) = digest-inv env p hashed s t d in
      let (db, made, put) =
        on_db-inv env (create_user sqlite (make_user (pos 0) n hashed)) t s' b stored in
      (hashed, hash, cc (made, ap (λ x. x.db) same, ap (λ x. x.db) put))

  pub handle_register-created :
      (s s' : Server env)
      → handle_register env r s ≡ (ok (registered_reply true), s')
      → (legal_name r.username ≡ true)
        × (legal_password r.raw_password ≡ true)
        × ((hashed : Str) × (sha256 env.sodium r.raw_password ≡ ok hashed)
            × (create_user sqlite (make_user (pos 0) r.username hashed) s.db ≡ (ok true, s'.db)))
  unfolding handle_register
  handle_register-created s s' e =
      elim (Bool-cases (legal_name r.username && legal_password r.raw_password)) [
        | inr h ↦
            let clash : false ≡ true =
              registered_reply-true false (cc (handle_register_illegal s h, e)) in
            absurd (cc clash)
        | inl h ↦
            let reply : Bool → Exec (Server env) Reply = λ b. pure (registered_reply b) in
            let e' : (register_user env r.username r.raw_password >>= reply) s
                ≡ (ok (registered_reply true), s') =
              rw h at e in
            let (b, t, run, last) =
              bind-inv (register_user env r.username r.raw_password) reply s s'
                (registered_reply true) e' in
            let (said, same) = pure-inv (registered_reply b) (registered_reply true) t s' last in
            let success : b ≡ true = registered_reply-true b said in
            let (hashed, hash, made) = register_user-cases r.username r.raw_password s t b run in
            let store = create_user sqlite (make_user (pos 0) r.username hashed) in
            let yes : store s.db ≡ (ok true, s'.db) = cc (made, success, ap (λ x. x.db) same) in
            (ground (arith, h), ground (arith, h), (hashed, hash, yes))
      ]

  -- A registration that reports success had a name of 3 to 32 bytes and a password of 6 to 32,
  -- and has stored one user: under the name up to its first zero byte, which no user had, with
  -- the password's digest.
  pub handle_register-stores :
      (s s' : Server env)
      → handle_register env r s ≡ (ok (registered_reply true), s')
      → (3 ≤ length r.username)
        × (length r.username ≤ 32)
        × (6 ≤ length r.raw_password)
        × (length r.raw_password ≤ 32)
        × ((hashed : Str) × (sha256 env.sodium r.raw_password ≡ ok hashed)
            × (count (has_name (c_str r.username)) (sqlite.rows s.db users) ≡ 0)
            × (sqlite.rows s'.db users
                ≡ sqlite.rows s.db users
                  ++ created sqlite (make_user (pos 0) r.username hashed) s'.db ∷ []))
  unfolding make_user
  handle_register-stores s s' e =
      let (name, pass, (hashed, hash, made)) = handle_register-created s s' e in
      let (low, high) = legal_name_iff r.username name in
      let (low', high') = legal_password_iff r.raw_password pass in
      let (free, added) =
        create_user-true sqlite (make_user (pos 0) r.username hashed) s.db s'.db made in
      (low, high, low', high', (hashed, hash, free, added))

  -- the run of a legal registration
  handle_register_legal :
      (s : Server env)
      → legal_name r.username && legal_password r.raw_password ≡ true
      → handle_register env r s
        ≡ (register_user env r.username r.raw_password >>= λ b. pure (registered_reply b)) s
  unfolding handle_register
  handle_register_legal s h = rw h refl

  -- A registration with a legal name and password always gets a reply, where libsodium digests
  -- the password and SQLite can write: it reports success exactly when no user has the name,
  -- up to its first zero byte.
  pub handle_register_lem :
      (s : Server env) (hashed : Str)
      → legal_name r.username ≡ true
      → legal_password r.raw_password ≡ true
      → sha256 env.sodium r.raw_password ≡ ok hashed
      → sqlite.healthy (insert users (user_values (make_user (pos 0) r.username hashed))) s.db
        ≡ true
      → (s' : Server env) × (handle_register env r s ≡ (
        ok (registered_reply (count (has_name (c_str r.username)) (sqlite.rows s.db users) == 0)),
        s',
      ))
  unfolding register_user make_user
  handle_register_lem s hashed name pass hash well =
      let u = make_user (pos 0) r.username hashed in
      let store = create_user sqlite u in
      let legal : legal_name r.username && legal_password r.raw_password ≡ true =
        ground (arith, name, pass) in
      let s' : Server env = record s { db = (store s.db).1 } in
      let free = count (has_name (c_str r.username)) (sqlite.rows s.db users) == 0 in
      let made : (store s.db).0 ≡ ok free = create_user_healthy sqlite u s.db well in
      let run : register_user env r.username r.raw_password s ≡ (ok free, s') =
        bind_ok (digest env r.raw_password)
          (λ h. on_db env (create_user sqlite (make_user (pos 0) r.username h))) s s hashed
          (ap (λ x. (x, s)) hash)
        ∙ ap (λ x. (x, s')) made in
      (
        s',
        handle_register_legal s legal
            ∙ bind_ok (register_user env r.username r.raw_password) (λ b. pure (registered_reply b))
                s s' free run,
      )
