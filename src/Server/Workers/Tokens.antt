-- ===== src/Server/Workers/Tokens.antt =====
-- Whom a token stands for, whatever the threads do beside one another.
use net_chat.Prelude.{
  none, [], pos, Option-cases, ℕ, ◌<◌, ◌≡◌, refl, sym, ap, subst, ◌⊎◌, inl, inr, List, some, count,
  count-append, arith, Str, str_eq, str_key, ℤ, All, Bool-cases,
}
use net_chat.Exec.{ok}
use net_chat.Entities.{User}
use net_chat.Sql.{users}
use net_chat.Dict.{lookup, insert, lookup-insert}
use net_chat.DataAccess.{get_user_by_name, get_user}
use net_chat.DataAccess.Changes.{Change, unchanged}
use net_chat.DataAccess.History.{Change-step}
use net_chat.DataAccess.Registered.{is_user, HasUser, get_user-HasUser, get_user_by_name-HasUser}
use net_chat.UserManager.{
  set_challenge, del_challenge, set_kp_alive_sender, add_send_task, set_file_msg, del_file_msg,
  set_user_id_by_token, get_user_id_by_token,
}
use net_chat.Server.State.{Env, Server, on_db}
use net_chat.Server.State.Inversion.{on_db-inv}
use net_chat.Server.Account.{init_sodium}
use net_chat.Server.EventLoop.{System}
use net_chat.Server.Threads.{
  Fact, user, account, ids_up_to, In, Query, by_name, by_id, conversation, owner, Answer, learnt,
  ask, Op, perform, socket, file, find, find_all, add_user, add_message, add_file, set_file,
  ask_pools, put_challenge, drop_challenge, put_sender, put_task, put_file_msg, drop_file_msg,
  put_token, draw_uuid, draw_time, hash_text, start_sodium, stop,
}
use net_chat.Server.Workers.{Crew, idle_workers, Interleaves}
use net_chat.Server.Workers.Changes.{kept, perform-Change}
use net_chat.Server.Workers.Knowledge.{All-In, Discipline, Interleaves-Good}

module _ (env : Env) where
  open env use {sqlite}

  abbrev Owned : Server env → ℤ → Type 0
  Owned s id = HasUser sqlite (sqlite.rows s.db users) id

  -- Every token of the pool stands for a user of the table.
  pub record HasOwners (s : Server env) : Type 0 where
    pub owner : (token : Str) (id : ℤ) → lookup token s.pools.tokens ≡ some id → Owned s id

  Owned-Change : (s t : Server env) (id : ℤ) → Change sqlite s.db t.db → Owned s id → Owned t id
  Owned-Change s t id c h =
      let (more, e) = (Change-step sqlite s.db t.db c).users_kept in
      subst (λ rs. 0 < count (is_user sqlite id) rs) (sym e)
        (omega (arith, h, count-append (is_user sqlite id) (sqlite.rows s.db users) more))

  HasOwners-same :
      (s t : Server env)
      → Change sqlite s.db t.db
      → t.pools.tokens ≡ s.pools.tokens
      → HasOwners s
      → HasOwners t
  HasOwners-same s t c e h = record {
    owner = λ token id found. Owned-Change s t id c (h.owner token id (rw e at found));
  }

  pub HasOwners-kept : (s t : Server env) → kept env t ≡ kept env s → HasOwners s → HasOwners t
  HasOwners-kept s t e h = HasOwners-same s t (unchanged (ap (λ p. p.0) e)) (ap (λ p. p.1) e) h

  HasOwners-insert :
      (s t : Server env) (token : Str) (id : ℤ)
      → Change sqlite s.db t.db
      → t.pools.tokens ≡ insert token id s.pools.tokens
      → Owned s id
      → HasOwners s
      → HasOwners t
  HasOwners-insert s t token id c e own h = record {
    owner = λ other uid found.
        let found' = rw (e, lookup-insert token other id s.pools.tokens) at found in
        elim (Bool-cases (str_eq token other)) [
          | inl same ↦
              let is : id ≡ uid = cc (rw same at found') in
              Owned-Change s t uid c (subst (Owned s) is own)
          | inr apart ↦ Owned-Change s t uid c (h.owner other uid (rw apart at found'))
        ];
  }

  perform-tokens :
      {known : List Fact} {B : Type 0} (o : Op env known B) (s : Server env)
      → ((perform env o s).1.pools.tokens ≡ s.pools.tokens)
        ⊎ ((token : Str) × (id : ℤ) × In (user id) known
            × ((perform env o s).1.pools.tokens ≡ insert token id s.pools.tokens))
  unfolding perform set_challenge del_challenge set_kp_alive_sender add_send_task set_file_msg
      del_file_msg set_user_id_by_token init_sodium
  perform-tokens (put_token token id found) s = inr (token, id, found, refl)
  perform-tokens (socket m) s = inl refl
  perform-tokens (file m) s = inl refl
  perform-tokens (find t conds read) s = inl refl
  perform-tokens (find_all t conds read) s = inl refl
  perform-tokens (add_user u) s = inl refl
  perform-tokens (add_message m z read next from to) s = inl refl
  perform-tokens (add_file uuid) s = inl refl
  perform-tokens (set_file f) s = inl refl
  perform-tokens (ask_pools f) s = inl refl
  perform-tokens (put_challenge id c) s = inl refl
  perform-tokens (drop_challenge id) s = inl refl
  perform-tokens (put_sender id fd) s = inl refl
  perform-tokens (put_task id sender p) s = inl refl
  perform-tokens (put_file_msg id uid m) s = inl refl
  perform-tokens (drop_file_msg id) s = inl refl
  perform-tokens draw_uuid s = inl refl
  perform-tokens draw_time s = inl refl
  perform-tokens (hash_text text) s = inl refl
  perform-tokens start_sodium s = inl refl
  perform-tokens stop s = inl refl

  -- What a worker has learnt of the users.
  abbrev pub Holds : Server env → Fact → Type 0
  Holds s (user id) = Owned s id
  Holds s (account id) = (id ≡ pos 0) ⊎ Owned s id
  Holds s (ids_up_to from to z) = Unit

  pub perform-HasOwners :
      {known : List Fact} {B : Type 0} (o : Op env known B) (s : Server env)
      → All (Holds s) known
      → HasOwners s
      → HasOwners (perform env o s).1
  perform-HasOwners {known} o s found h = elim (perform-tokens o s) [
    | inl e ↦ HasOwners-same s (perform env o s).1 (perform-Change env o s) e h
    | inr (token, id, is, e) ↦
        HasOwners-insert s (perform env o s).1 token id (perform-Change env o s) e
          (All-In (Holds s) known (user id) found is) h
  ]

  found-Owned :
      (name : Str) (u : User) (s t : Server env)
      → on_db env (get_user_by_name sqlite name) s ≡ (ok (some u), t)
      → Owned s u.id
  found-Owned name u s t e =
      let (d, found, put) = on_db-inv env (get_user_by_name sqlite name) s t (some u) e in
      get_user_by_name-HasUser sqlite name s.db d u found

  pub Holds-Change :
      (s t : Server env) → Change sqlite s.db t.db → (f : Fact) → Holds s f → Holds t f
  Holds-Change s t c (user id) h = Owned-Change s t id c h
  Holds-Change s t c (account id) (inl e) = inl e
  Holds-Change s t c (account id) (inr h) = inr (Owned-Change s t id c h)
  Holds-Change s t c (ids_up_to from to z) h = tt

  -- The user of a token, or 0.
  owner-Holds :
      (token : Str) (s : Server env)
      → HasOwners s
      → Holds s (account (get_user_id_by_token env.queues token s.pools))
  unfolding get_user_id_by_token
  owner-Holds token s h = elim (Bool-cases (str_eq token [])) [
    | inl e ↦ inl (rw e refl)
    | inr e ↦ elim (Option-cases (lookup token s.pools.tokens)) [
      | inl f ↦ inl (rw (e, f) refl)
      | inr (id, f) ↦ inr (rw (e, f) (h.owner token id f))
    ]
  ]

  pub answered :
      (q : Query) (a : Answer q) (s t : Server env)
      → ask env q s ≡ (ok a, t)
      → HasOwners s
      → All (Holds s) (learnt q a)
  unfolding ask
  answered (by_name name) none s t e h = tt
  answered (by_name name) (some u) s t e h = (found-Owned name u s t e, tt)
  answered (by_id id) none s t e h = tt
  answered (by_id id) (some u) s t e h =
      let (d, found, put) = on_db-inv env (get_user sqlite id) s t (some u) e in
      (get_user-HasUser sqlite id s.db d u found, tt)
  answered (conversation from to) msgs s t e h = (tt, tt)
  answered (owner token) id s t e h =
      (subst (λ z. Holds s (account z)) (cc e) (owner-Holds token s h), tt)

  tokens-Discipline : Discipline env HasOwners Holds
  tokens-Discipline = record {
    kept_good = HasOwners-kept;
    stays = Holds-Change;
    performed = perform-HasOwners;
    answered = answered;
  }

  -- With any number of workers, however their steps interleave with each other, with
  -- connections and with the senders: if at first no worker is under way and every token
  -- stands for a user of the table, then every token always does. A login gives a token only
  -- to a user that it has found.
  pub Interleaves-HasOwners :
      {d : Crew env} (s : System env) (n : ℕ)
      → Interleaves env (record { system = s; workers = idle_workers env n }) d
      → HasOwners s.server
      → HasOwners d.system.server
  Interleaves-HasOwners s n steps h =
      Interleaves-Good env HasOwners Holds tokens-Discipline s n steps h
