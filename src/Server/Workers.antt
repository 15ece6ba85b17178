-- ===== src/Server/Workers.antt =====
-- The threads of the server beside one another: the workers (`RevcSocketThreadFunc_` of
-- src/Server/server_van.h), each a step of `processRecvSocket` at a time, `Accepting`, and the threads of
-- the senders (`run` of src/Server/Server.cpp), of which a round is one step.
pub mod Alone
pub mod Changes
pub mod Tables
pub mod Knowledge
pub mod Storing
pub mod Tokens
pub mod Numbers
pub mod Parties
pub mod Online
pub mod Channels
pub mod Traffic
pub mod Delivery
pub mod Schedule
use net_chat.Prelude.{ℕ, zero, suc, ◌≡◌, List, [], ◌∷◌, ◌++◌, Option, none, some, Str, ℤ, int_key}
use net_chat.Exec.{Exec, Result, ok, pure, ◌>>=◌, ◌>>◌}
use net_chat.Proto.{Packet, Message}
use net_chat.Entities.{User}
use net_chat.Dict.{lookup, insert}
use net_chat.DataAccess.{get_user_by_name, get_all_messages}
use net_chat.UserManager.{Pools, Sender}
use net_chat.Server.State.{Env, Server, on_db, on_van, on_pools, from_pools}
use net_chat.Server.KeepAlive.{exchange}
use net_chat.Server.EventLoop.{Event, System, handle_event}
use net_chat.Server.Threads.{Fact, Query, Answer, learnt, ask, Op, Code, give, act, learn, perform}
use net_chat.Server.Threads.Process.{split_process}

module _ (env : Env) where
  open env use {sqlite, queues, net}
  open queues use {Queue, pop}

  -- A worker waits for a socket, or is somewhere in `processRecvSocket`.
  pub data Worker : Type 1 where
    idle : Worker
    busy : (known : List Fact) → Code env (Unit {0}) known → Worker

  pub record Crew : Type 1 where
    pub system : System env
    pub workers : List Worker

  -- `RecvSocketThreads_`, at first
  abbrev pub idle_workers : ℕ → List Worker
  idle_workers zero = []
  idle_workers (suc n) = idle ∷ idle_workers n

  abbrev pub with_server : Crew → Server env → System env
  with_server c s = record c.system { server = s }

  keep_rest : ℤ → Sender queues → Queue → Pools queues → Pools queues
  keep_rest uid s rest p = record p { senders = insert uid (record s { queue = rest }) p.senders }

  send_next : ℤ → Sender queues → Option (Packet × Queue) → Exec (Server env) (Unit {0})
  unfolding keep_rest
  send_next uid s none = pure tt
  send_next uid s (some (pkt, rest)) = do
    on_pools env (keep_rest uid s rest)
    on_van env (exchange net pkt s.fd)

  send_waiting : ℤ → Option (Sender queues) → Exec (Server env) (Unit {0})
  unfolding send_next
  send_waiting uid none = pure tt
  send_waiting uid (some s) = send_next uid s (pop s.queue)

  -- A round of the thread of a user's sender; with nothing in the queue it waits.
  unfoldable pub sender_round : ℤ → Exec (Server env) (Unit {0})
  unfolding send_waiting
  sender_round uid = do sender ← from_pools env (λ p. lookup uid p.senders); send_waiting uid sender

  -- A step of one of the threads. A step that throws has no successor here: an exception that leaves
  -- the function of a thread ends the process.
  pub data Moves (c : Crew) : Crew → Type 1 where
    -- Accepting
    event :
        (e : Event) (s : System env)
        → handle_event env e c.system ≡ (ok tt, s)
        → Moves c (record c { system = s })
    -- a round of a sender
    send :
        (uid : ℤ) (s : Server env)
        → sender_round uid c.system.server ≡ (ok tt, s)
        → Moves c (record c { system = with_server c s })
    -- WaitAndPop, and the call of processRecvSocket
    fetch :
        (before after : List Worker) (fd : ℕ) (left : List ℕ)
        → c.workers ≡ before ++ idle ∷ after
        → c.system.work ≡ fd ∷ left
        → Moves c (record {
          system = record c.system { work = left };
          workers = before ++ busy [] (split_process env fd).code ∷ after;
        })
    -- a step of a worker
    work :
        (before after : List Worker) (known : List Fact) {B : Type 0} (o : Op env known B)
        (k : B → Code env (Unit {0}) known) (b : B) (s : Server env)
        → c.workers ≡ before ++ busy known (act o k) ∷ after
        → perform env o c.system.server ≡ (ok b, s)
        → Moves c
            (record { system = with_server c s; workers = before ++ busy known (k b) ∷ after })
    -- a question of a worker
    learns :
        (before after : List Worker) (known : List Fact) (q : Query)
        (k : (a : Answer q) → Code env (Unit {0}) (learnt q a ++ known)) (a : Answer q)
        (s : Server env)
        → c.workers ≡ before ++ busy known (learn q k) ∷ after
        → ask env q c.system.server ≡ (ok a, s)
        → Moves c (record {
          system = with_server c s;
          workers = before ++ busy (learnt q a ++ known) (k a) ∷ after;
        })
    -- the end of the call
    finished :
        (before after : List Worker) (known : List Fact)
        → c.workers ≡ before ++ busy known (give tt) ∷ after
        → Moves c (record c { workers = before ++ idle ∷ after })

  -- Any interleaving of such steps.
  pub data Interleaves : Crew → Crew → Type 1 where
    halt : {c : Crew} → Interleaves c c
    move : {c d e : Crew} → Moves c d → Interleaves d e → Interleaves c e

  pub Interleaves-trans : {c d e : Crew} → Interleaves c d → Interleaves d e → Interleaves c e
  Interleaves-trans halt r = r
  Interleaves-trans (move m q) r = move m (Interleaves-trans q r)
