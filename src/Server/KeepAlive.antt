-- ===== src/Server/KeepAlive.antt =====
-- `KeepAliveMsgSender` of src/Server/Server.h and its `run` in src/Server/Server.cpp: the thread that
-- empties the queue of one sender, beside the threads that fill it. (The pauses of one and three
-- seconds leave no trace.)
pub mod Exchange
pub mod Order
pub mod Progress
use net_chat.Prelude.{ℕ, ◌≡◌, Bool, true, false, List, [], ◌∷◌, ◌++◌, Option, none, some, codes}
use net_chat.Exec.{Exec, Result, ok, pure, abort, ◌>>=◌, ◌>>◌}
use net_chat.Proto.{Packet}
use net_chat.PacketQueue.{PacketQueue}
use net_chat.Van.{
  Network, Van, SendResult, sent, send_failed, overread, van_send, van_recv, control,
}

module _ (net : Network) where
  -- `if (ret < 0) … Control(fd, "CLOSE_FD")`
  unfoldable pub after_try : ℕ → SendResult → Exec Van (Unit {0})
  after_try fd (sent n) = pure tt
  after_try fd send_failed = do control net fd (codes "CLOSE_FD"); pure tt
  after_try fd overread = abort

  -- `if (pkt_bytes < 0) … Control(fd, "CLOSE_FD")`; what the acknowledgement says is only logged.
  unfoldable pub after_ack : ℕ → Option (ℕ × Packet) → Exec Van (Unit {0})
  after_ack fd none = do control net fd (codes "CLOSE_FD"); pure tt
  after_ack fd (some received) = pure tt

  -- The part of a round under the lock: one packet to the socket, and its acknowledgement.
  unfoldable pub exchange : Packet → ℕ → Exec Van (Unit {0})
  unfolding after_try after_ack
  exchange pkt fd = do
    ret ← van_send net pkt fd
    after_try fd ret
    ack ← van_recv net fd
    after_ack fd ack

module _ (net : Network) (pq : PacketQueue) where
  open pq use {Queue, push, pop, clear, to_list}

  -- A sender: its socket and queue, the packet that its thread has taken and not yet tried, and the
  -- sockets of the process.
  pub record Channel : Type 0 where
    pub fd : ℕ
    pub queue : Queue
    pub taken : Option Packet
    pub van : Van

  -- What is still to be sent, in order.
  abbrev pub in_hand : Option Packet → List Packet
  in_hand none = []
  in_hand (some p) = p ∷ []

  unfoldable pub waiting : Channel → List Packet
  waiting c = in_hand c.taken ++ to_list c.queue

  -- One step of any thread on the channel, with the packets that it adds to the queue and those that
  -- it has tried to send. `setFd` needs the lock, so it does not come into an exchange; between the
  -- taking of a packet and its exchange it may.
  pub data Step (c : Channel) : Channel → List Packet → List Packet → Type 0 where
    -- addSendTask
    enqueue : (p : Packet) → Step c (record c { queue = push p c.queue }) (p ∷ []) []
    -- WaitAndPop
    take_next :
        (p : Packet) (rest : Queue)
        → c.taken ≡ none
        → pop c.queue ≡ some (p, rest)
        → Step c (record c { queue = rest; taken = some p }) [] []
    -- the rest of a round of `run`
    try_send :
        (p : Packet) (v : Van)
        → c.taken ≡ some p
        → exchange net p c.fd c.van ≡ (ok tt, v)
        → Step c (record c { taken = none; van = v }) [] (p ∷ [])
    -- setFd
    move : (fd : ℕ) → Step c (record c { fd = fd }) [] []
    -- the work of other threads on other sockets
    elsewhere : (v : Van) → Step c (record c { van = v }) [] []

  -- A sequence of steps, with all that was added and tried, and whether `Clear` has come into it.
  pub data Run : Channel → Channel → List Packet → List Packet → Bool → Type 0 where
    stop : {c : Channel} → Run c c [] [] false
    step :
        {c d e : Channel} {ins outs ins' outs' : List Packet} {b : Bool}
        → Step c d ins outs
        → Run d e ins' outs' b
        → Run c e (ins ++ ins') (outs ++ outs') b
    clear_queue :
        {c e : Channel} {ins outs : List Packet} {b : Bool}
        → Run (record c { queue = clear c.queue }) e ins outs b
        → Run c e ins outs true
