-- ===== src/Server/Threads.antt =====
-- `processRecvSocket` as the worker threads run it beside one another: a sequence of atomic steps, each
-- of which is a call that holds a mutex, a statement of SQLite, a file operation, or the receiving or
-- sending of a packet.
pub mod Rules
pub mod Account
pub mod Messaging
pub mod Transfer
pub mod Process
use net_chat.Prelude.{
  ◌≡◌, refl, List, [], ◌∷◌, ◌++◌, to_int, Option, none, some, Str, ℤ, pos, inc, ℕ, Bool,
}
use net_chat.Exec.{Exec, pure, abort, ◌>>=◌}
use net_chat.Proto.{Message, Packet}
use net_chat.Entities.{User, StoredFile}
use net_chat.Sql.{Row, Table, Binding, Statement}
use net_chat.DataAccess.{
  select_first, select_all, get_user_by_name, get_user, get_all_messages, max_internal_id,
  create_user, create_msg, create_file, update_file,
}
use net_chat.UserManager.{
  Pools, Sender, set_challenge, del_challenge, set_kp_alive_sender, add_send_task, set_file_msg,
  del_file_msg, set_user_id_by_token, get_user_id_by_token,
}
use net_chat.Van.{Van}
use net_chat.Server.State.{
  Env, Server, on_db, on_disk, on_van, on_pools, from_pools, next_uuid, read_clock, digest,
}
use net_chat.Server.Account.{init_sodium}

-- What a thread has learnt: that a user is there; that an id is a user's or 0, as the id of a token is;
-- how far the ids of a conversation go.
pub data Fact : Type 0 where
  user : ℤ → Fact
  account : ℤ → Fact
  ids_up_to : ℤ → ℤ → ℤ → Fact

pub data In : Fact → List Fact → Type 0 where
  here : {x : Fact} {xs : List Fact} → In x (x ∷ xs)
  there : {x y : Fact} {xs : List Fact} → In x xs → In x (y ∷ xs)

-- The questions from which a thread learns: getUser by name and by id, getAllMessages, getUserIdByToken.
pub data Query : Type 0 where
  by_name : Str → Query
  by_id : ℤ → Query
  conversation : ℤ → ℤ → Query
  owner : Str → Query

abbrev pub Answer : Query → Type 0
Answer (by_name name) = Option User
Answer (by_id id) = Option User
Answer (conversation from to) = List Message
Answer (owner token) = ℤ

abbrev pub learnt : (q : Query) → Answer q → List Fact
learnt (by_name name) none = []
learnt (by_name name) (some u) = user u.id ∷ []
learnt (by_id id) none = []
learnt (by_id id) (some u) = user (to_int id) ∷ []
learnt (conversation from to) msgs = ids_up_to from to (max_internal_id (pos 0) msgs) ∷ []
learnt (owner token) id = account id ∷ []

module _ (env : Env) where
  open env use {sqlite, files, queues}

  -- An atomic step of a thread that knows `known`: a token is only given to a user that it has found, and
  -- a message is only stored from the user of a token, to a user that it has found, with the id after the
  -- largest one that it has read.
  pub data Op (known : List Fact) : Type 0 → Type 1 where
    socket : {B : Type 0} → Exec Van B → Op known B
    file : {B : Type 0} → Exec files.Disk B → Op known B
    find : {B : Type 0} → Table → List Binding → (Row → B) → Op known (Option B)
    find_all : {B : Type 0} → Table → List Binding → (Row → B) → Op known (List B)
    add_user : User → Op known Bool
    add_message :
        (m : Message) (z : ℤ)
        → In (ids_up_to m.message.from m.message.to z) known
        → m.internal_id ≡ inc z
        → In (account m.message.from) known
        → In (user (to_int m.message.to)) known
        → Op known (Option ℤ)
    add_file : Str → Op known (Option Str)
    set_file : StoredFile → Op known Bool
    ask_pools : {B : Type 0} → (Pools queues → B) → Op known B
    put_challenge : ℤ → Str → Op known (Unit {0})
    drop_challenge : ℤ → Op known (Unit {0})
    put_sender : ℤ → ℕ → Op known (Unit {0})
    put_task : ℤ → Sender queues → Packet → Op known (Unit {0})
    put_file_msg : Str → ℤ → Message → Op known (Unit {0})
    drop_file_msg : Str → Op known (Unit {0})
    put_token : Str → (id : ℤ) → In (user id) known → Op known (Unit {0})
    draw_uuid : Op known Str
    draw_time : Op known ℕ
    hash_text : Str → Op known Str
    start_sodium : Op known (Unit {0})
    stop : {B : Type 0} → Op known B

  unfoldable pub perform : {known : List Fact} {B : Type 0} → Op known B → Exec (Server env) B
  perform (socket m) = on_van env m
  perform (file m) = on_disk env m
  perform (find t conds read) = on_db env (select_first sqlite t conds read)
  perform (find_all t conds read) = on_db env (select_all sqlite t conds read)
  perform (add_user u) = on_db env (create_user sqlite u)
  perform (add_message m z read next sender receiver) = on_db env (create_msg sqlite m)
  perform (add_file uuid) = on_db env (create_file sqlite uuid)
  perform (set_file f) = on_db env (update_file sqlite f)
  perform (ask_pools f) = from_pools env f
  perform (put_challenge id c) = on_pools env (set_challenge queues id c)
  perform (drop_challenge id) = on_pools env (del_challenge queues id)
  perform (put_sender id fd) = on_pools env (set_kp_alive_sender queues id fd)
  perform (put_task id s p) = on_pools env (add_send_task queues id s p)
  perform (put_file_msg id uid m) = on_pools env (set_file_msg queues id uid m)
  perform (drop_file_msg id) = on_pools env (del_file_msg queues id)
  perform (put_token token id known) = on_pools env (set_user_id_by_token queues token id)
  perform draw_uuid = next_uuid env
  perform draw_time = read_clock env
  perform (hash_text text) = digest env text
  perform start_sodium = init_sodium env
  perform stop = abort

  unfoldable pub ask : (q : Query) → Exec (Server env) (Answer q)
  ask (by_name name) = on_db env (get_user_by_name sqlite name)
  ask (by_id id) = on_db env (get_user sqlite id)
  ask (conversation from to) = on_db env (get_all_messages sqlite from to)
  ask (owner token) = from_pools env (get_user_id_by_token queues token)

  -- The rest of a thread's run: a result, or a step and what is done with what it gives.
  pub data Code (A : Type 0) : List Fact → Type 1 where
    give : {known : List Fact} → A → Code A known
    act : {known : List Fact} {B : Type 0} → Op known B → (B → Code A known) → Code A known
    learn :
        {known : List Fact} (q : Query)
        → ((a : Answer q) → Code A (learnt q a ++ known))
        → Code A known

  -- All of it at once.
  unfoldable pub run : {A : Type 0} {known : List Fact} → Code A known → Exec (Server env) A
  unfolding perform ask
  run (give a) = pure a
  run (act o k) = perform o >>= λ b. run (k b)
  run (learn q k) = ask q >>= λ a. run (k a)

  -- A way to run `m` in steps.
  pub record Splits {A : Type 0} (known : List Fact) (m : Exec (Server env) A) : Type 1 where
    pub code : Code A known
    pub same : (s : Server env) → run code s ≡ m s
