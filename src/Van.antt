-- ===== src/Van.antt =====
-- Sockets: src/van.cpp, include/van.h, and `SendMesg`, `RecvMesg`, `Control` of
-- src/Server/server_van.h. The operating system and protobuf's wire format are parameters.
pub mod Receive
pub mod Send
pub mod Closing
use net_chat.Prelude.{
  ℕ, zero, suc, ◌+◌, ◌-◌, ◌*◌, ◌^◌, ◌%◌, ◌<◌, ◌≤◌, ◌≡◌, Bool, true, false, List, [], ◌∷◌, ◌++◌,
  Option, none, some, Str, codes, str_eq, length, take, drop, leb, ltb, if◌then◌else◌, ℤ, pos,
  negsuc,
}
use net_chat.Exec.{Exec, Result, ok, aborted}
use net_chat.Proto.{Packet}

-- kMaxMessageSize of include/base.h
unfoldable pub max_message_size : ℕ
max_message_size = 1024 * 1024

-- What `recv` does: bytes, EAGAIN or EWOULDBLOCK, another error, or 0 for a peer that has closed.
pub data Received : Type 0 where
  bytes : Str → Received
  again : Received
  error : Received
  closed : Received

-- What `send` does: it takes some of the bytes, or fails.
pub data Sent : Type 0 where
  took : ℕ → Sent
  refused : Sent

-- The operating system, by the number of the system call, and protobuf's wire format.
pub record Network : Type 0 where
  -- call, socket, room in the buffer
  pub recv : ℕ → ℕ → ℕ → Received
  -- call, socket, bytes
  pub send : ℕ → ℕ → Str → Sent
  pub epoll_add : ℕ → ℕ → Bool
  pub epoll_del : ℕ → ℕ → Bool
  pub close : ℕ → ℕ → Bool
  pub parse : Str → Option Packet
  pub serialize : Packet → Str
  pub recv_room :
      (call fd room : ℕ) (b : Str)
      → recv call fd room ≡ bytes b
      → (0 < length b) × (length b ≤ room)
  pub send_room :
      (call fd : ℕ) (s : Str) (k : ℕ)
      → 0 < length s
      → send call fd s ≡ took k
      → (0 < k) × (k ≤ length s)

-- What a process does to its sockets.
pub data Action : Type 0 where
  wrote : ℕ → Str → Action
  watched : ℕ → Action
  unwatched : ℕ → Action
  shut : ℕ → Action

pub record Van : Type 0 where
  pub send_bytes : ℕ
  pub recv_bytes : ℕ
  pub calls : ℕ
  pub actions : List Action

-- std::atomic<size_t>
abbrev pub size_mod : ℕ
size_mod = 2 ^ 64

-- How a loop over system calls ends; `exhausted` is only the model's fuel.
pub data Ended {ℓ} (A : Type ℓ) : Type ℓ where
  done : A → ℕ → Ended A
  failed : A → ℕ → Ended A
  exhausted : Ended A

-- The result of `Send`; a failure is -1. `SerializeToArray` fails, and is not asked, where the packet
-- is larger than the buffer; the loop then reads past the buffer's end, which is undefined.
pub data SendResult : Type 0 where
  sent : ℕ → SendResult
  send_failed : SendResult
  overread : SendResult

module _ (net : Network) where
  open net use {recv, send, epoll_add, epoll_del, close, parse, serialize}

  -- The loop of `RecvMesg`, with the call's number and what is in the buffer.
  unfoldable pub recv_loop : ℕ → ℕ → ℕ → Str → Ended Str
  recv_loop zero call fd buf = exhausted
  recv_loop (suc fuel) call fd buf = elim (recv call fd (max_message_size - length buf)) [
    | again ↦ done buf (suc call)
    | error ↦ failed buf (suc call)
    | closed ↦ done buf (suc call)
    | bytes b ↦
        let rest = recv_loop fuel (suc call) fd (buf ++ b) in
        if leb max_message_size (length (buf ++ b)) then failed (buf ++ b) (suc call) else rest
  ]

  -- RecvMesg and Van::Recv: `none` is -1.
  unfoldable pub received : Ended Str → Exec Van (Option (ℕ × Packet))
  received (done buf call) v = elim (parse buf) [
    | none ↦ (ok none, record v { calls = call })
    | some p ↦ (
      ok (some (length buf, p)),
      record v { calls = call; recv_bytes = (v.recv_bytes + length buf) % size_mod },
    )
  ]
  received (failed buf call) v = (ok none, record v { calls = call })
  received exhausted v = (ok none, v)

  unfoldable pub van_recv : ℕ → Exec Van (Option (ℕ × Packet))
  unfolding received max_message_size recv_loop
  van_recv fd v = received (recv_loop (suc max_message_size) v.calls fd []) v

  -- The loop of `SendMesg`, with the bytes that went out and those that are left.
  unfoldable pub send_loop : ℕ → ℕ → ℕ → Str → Str → Ended Str
  send_loop fuel call fd out [] = done out call
  send_loop zero call fd out (b ∷ bs) = exhausted
  send_loop (suc fuel) call fd out (b ∷ bs) = elim (send call fd (b ∷ bs)) [
    | refused ↦ failed out (suc call)
    | took k ↦ send_loop fuel (suc call) fd (out ++ take k (b ∷ bs)) (drop k (b ∷ bs))
  ]

  -- Van::Send(const Packet &, int) and SendMesg
  transmitted : ℕ → Ended Str → Exec Van SendResult
  transmitted fd (done out call) v = (
    ok (sent (length out)),
    record v {
      calls = call;
      send_bytes = (v.send_bytes + length out) % size_mod;
      actions = v.actions ++ wrote fd out ∷ [];
    },
  )
  transmitted fd (failed out call) v =
      (ok send_failed, record v { calls = call; actions = v.actions ++ wrote fd out ∷ [] })
  transmitted fd exhausted v = (ok send_failed, v)

  unfoldable pub van_send : Packet → ℕ → Exec Van SendResult
  unfolding transmitted max_message_size send_loop
  van_send p fd v =
      let s = serialize p in
      if ltb max_message_size (length s)
      then (ok overread, v)
      else transmitted fd (send_loop (length s) v.calls fd [] s) v

  -- `SendMesg` and `Van::Send` between names: a stub that sends nothing.
  send_mesg_named : Packet → Str → Str → ℕ
  send_mesg_named msg to from = 0

  unfoldable pub van_send_named : Packet → Str → Str → Exec Van ℤ
  unfolding send_mesg_named
  van_send_named msg to from v =
      let n = send_mesg_named msg to from in
      (ok (pos n), record v { send_bytes = (v.send_bytes + n) % size_mod })

  -- `epoll_ctl(…, EPOLL_CTL_ADD, client_socket, …)` of Accepting: a failure is a FATAL log entry.
  unfoldable pub epoll_add_client : ℕ → Exec Van (Unit {0})
  epoll_add_client fd v =
      let v' = record v { calls = suc v.calls; actions = v.actions ++ watched fd ∷ [] } in
      if epoll_add v.calls fd then (ok tt, v') else (aborted, v')

  -- controlEpollDel: a failure is a FATAL log entry.
  unfoldable pub control_epoll_del : ℕ → Exec Van ℤ
  control_epoll_del fd v =
      let v' = record v { calls = suc v.calls; actions = v.actions ++ unwatched fd ∷ [] } in
      if epoll_del v.calls fd then (ok (pos 0), v') else (aborted, v')

  close_fd : ℕ → Exec Van ℤ
  close_fd fd v = (
    ok (if close v.calls fd then pos 0 else negsuc 0),
    record v { calls = suc v.calls; actions = v.actions ++ shut fd ∷ [] },
  )

  -- Control
  unfoldable pub control : ℕ → Str → Exec Van ℤ
  unfolding control_epoll_del close_fd
  control fd cmd v =
      if str_eq cmd (codes "EPOLL_DEL_FD")
      then control_epoll_del fd v
      else if str_eq cmd (codes "CLOSE_FD")
      then close_fd fd v
      else (ok (negsuc 0), v)
