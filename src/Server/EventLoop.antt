-- ===== src/Server/EventLoop.antt =====
-- `Accepting` of src/Server/server_van.h, which turns epoll's events into work, and the worker threads
-- (`RevcSocketThreadFunc_`) that do it. A run of `processRecvSocket` is one step here. The options
-- of a new socket leave no trace.
pub mod Invariant
use net_chat.Prelude.{ℕ, suc, ◌≡◌, List, [], ◌∷◌, ◌++◌, Option, none, some, Str, codes}
use net_chat.Exec.{Exec, Result, ok, pure, modify, within, ◌>>=◌, ◌>>◌}
use net_chat.UserManager.{set_recv_socket}
use net_chat.Van.{control, epoll_add_client}
use net_chat.Server.State.{Env, Server, on_pools, on_van}
use net_chat.Server.Process.{process_recv_socket}

-- What `epoll_wait` and `accept` report: a new connection, with its address and socket, or one that
-- could not be accepted; bytes to read; and any other event of a client's socket.
pub data Event : Type 0 where
  accepted : Option (Str × ℕ) → Event
  readable : ℕ → Event
  hung_up : ℕ → Event

module _ (env : Env) where
  open env use {queues, net}

  -- the server and RecvSocketQueue_
  pub record System : Type 0 where
    pub server : Server env
    pub work : List ℕ

  abbrev pub on_server : {A : Type 0} → Exec (Server env) A → Exec System A
  on_server = within (λ s. s.server) (λ t s. record s { server = t })

  -- The body of the loop over the events of one `epoll_wait`.
  unfoldable pub handle_event : Event → Exec System (Unit {0})
  handle_event (accepted none) = pure tt
  handle_event (accepted (some (ip_port, fd))) = do
    on_server (on_pools env (set_recv_socket queues ip_port fd))
    on_server (on_van env (epoll_add_client net fd))
  handle_event (readable fd) = modify (λ s. record s { work = s.work ++ fd ∷ [] })
  handle_event (hung_up fd) = do
    on_server (on_van env (control net fd (codes "EPOLL_DEL_FD")))
    on_server (on_van env (control net fd (codes "CLOSE_FD")))
    pure tt

  -- A life of the system in which no thread ends the process, with the number of times that a worker
  -- has taken a socket from the queue and answered it.
  pub data Evolves : System → System → ℕ → Type 0 where
    rest : {s : System} → Evolves s s 0
    event :
        {s t u : System} {n : ℕ} (e : Event)
        → handle_event e s ≡ (ok tt, t)
        → Evolves t u n
        → Evolves s u n
    work_done :
        {s u : System} {n : ℕ} (fd : ℕ) (left : List ℕ) (t : Server env)
        → s.work ≡ fd ∷ left
        → process_recv_socket env fd s.server ≡ (ok tt, t)
        → Evolves (record s { server = t; work = left }) u n
        → Evolves s u (suc n)
