-- ===== src/UserManager.antt =====
-- `class UM` of include/user_manager.h, over the pools of `Server` (src/Server/Server.h) that it
-- guards. Each method holds the mutex of its pool, so it is one step on the pools.
pub mod Channels
pub mod Sessions
use net_chat.Prelude.{
  ℕ, Bool, true, false, List, [], Option, none, some, Str, ℤ, pos, int_eq, str_eq, if◌then◌else◌,
  int_key, str_key,
}
use net_chat.Proto.{Packet, Message, no_message}
use net_chat.Dict.{Dict, lookup, insert, erase}
use net_chat.PacketQueue.{PacketQueue}

abbrev pub or_else : {A : Type 0} → Option A → A → A
or_else none d = d
or_else (some a) d = a

module _ (pq : PacketQueue) where
  open pq use {Queue, empty, push, clear}

  -- KeepAliveMsgSender: the state that its methods and its thread share
  pub record Sender : Type 0 where
    pub uid : ℤ
    pub fd : ℕ
    pub queue : Queue

  pub record Pools : Type 0 where
    pub recv_sockets : Dict Str ℕ
    pub challenges : Dict ℤ Str
    pub senders : Dict ℤ Sender
    pub tokens : Dict Str ℤ
    pub file_msgs : Dict Str (ℤ × Message)

  abbrev pub no_pools : Pools
  no_pools = record {
    recv_sockets = [];
    challenges = [];
    senders = [];
    tokens = [];
    file_msgs = [];
  }

  -- getLongLifeSocket and setLongLifeSocket: stubs
  unfoldable pub get_long_life_socket : Str → Pools → ℕ
  get_long_life_socket user_id p = 0

  unfoldable pub set_long_life_socket : Str → ℕ → Pools → ℕ × Pools
  set_long_life_socket user_id fd p = (0, p)

  -- setRevcSocketMp
  unfoldable pub set_recv_socket : Str → ℕ → Pools → Pools
  set_recv_socket ip_port fd p = record p { recv_sockets = insert ip_port fd p.recv_sockets }

  -- setChallengeMp, getChallengeMp, delChallengeMp
  unfoldable pub set_challenge : ℤ → Str → Pools → Pools
  set_challenge id challenge p = record p { challenges = insert id challenge p.challenges }

  unfoldable pub get_challenge : ℤ → Pools → Str
  get_challenge id p = or_else (lookup id p.challenges) []

  erase_if_found : {K V : Type 0} → Option V → Dict K V → Dict K V → Dict K V
  erase_if_found none m smaller = m
  erase_if_found (some v) m smaller = smaller

  unfoldable pub del_challenge : ℤ → Pools → Pools
  unfolding erase_if_found
  del_challenge id p = record p {
    challenges = erase_if_found (lookup id p.challenges) p.challenges (erase id p.challenges);
  }

  -- a sender that is there gets the new socket and loses its backlog; otherwise a new one starts
  renewed : ℤ → ℕ → Option Sender → Sender
  renewed uid fd none = record { uid = uid; fd = fd; queue = empty }
  renewed uid fd (some s) = record s { fd = fd; queue = clear s.queue }

  unfoldable pub set_kp_alive_sender : ℤ → ℕ → Pools → Pools
  unfolding renewed
  set_kp_alive_sender uid fd p = record p {
    senders = insert uid (renewed uid fd (lookup uid p.senders)) p.senders;
  }

  unfoldable pub del_kp_alive_sender : ℤ → Pools → Pools
  unfolding erase_if_found
  del_kp_alive_sender uid p = record p {
    senders = erase_if_found (lookup uid p.senders) p.senders (erase uid p.senders);
  }

  unfoldable pub get_sender : ℤ → Pools → Option Sender
  get_sender id p = if int_eq id (pos 0) then none else lookup id p.senders

  unfoldable pub is_online : ℤ → Pools → Bool
  unfolding get_sender
  is_online uid p = elim (get_sender uid p) [ none ↦ false | some s ↦ true ]

  -- `sender->addSendTask(packet)`, through the pointer `s` that `getSender(uid)` gave: it reaches the
  -- sender as it is now.
  unfoldable pub add_send_task : ℤ → Sender → Packet → Pools → Pools
  add_send_task uid s packet p =
      let now = or_else (lookup uid p.senders) s in
      record p { senders = insert uid (record now { queue = push packet now.queue }) p.senders }

  unfoldable pub get_user_id_by_token : Str → Pools → ℤ
  get_user_id_by_token token p =
      if str_eq token [] then pos 0 else or_else (lookup token p.tokens) (pos 0)

  unfoldable pub set_user_id_by_token : Str → ℤ → Pools → Pools
  set_user_id_by_token token uid p = record p { tokens = insert token uid p.tokens }

  unfoldable pub set_file_msg : Str → ℤ → Message → Pools → Pools
  set_file_msg file_id uid msg p = record p { file_msgs = insert file_id (uid, msg) p.file_msgs }

  unfoldable pub del_file_msg : Str → Pools → Pools
  unfolding erase_if_found
  del_file_msg file_id p = record p {
    file_msgs = erase_if_found (lookup file_id p.file_msgs) p.file_msgs (erase file_id p.file_msgs);
  }

  unfoldable pub get_file_msg : Str → Pools → ℤ × Message
  get_file_msg file_id p = or_else (lookup file_id p.file_msgs) (pos 0, no_message)
