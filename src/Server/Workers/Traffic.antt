-- ===== src/Server/Workers/Traffic.antt =====
-- What an interleaving pushes to a user and tries to send.
use net_chat.Prelude.{
  Bool, false, ◌||◌, [], ◌∷◌, ◌++◌, if◌then◌else◌, int_eq, List, Option, none, some, ℤ, int_key,
}
use net_chat.Proto.{Packet}
use net_chat.Dict.{lookup}
use net_chat.UserManager.{Sender}
use net_chat.Server.State.{Env, Server}
use net_chat.Server.Threads.{Fact, Op, put_sender, put_task}
use net_chat.Server.Workers
use net_chat.Server.Workers.{
  Crew, Moves, Interleaves, halt, move, sender_round, send_waiting, send_next, keep_rest,
}

module _ (env : Env) where
  open env use {queues}

  -- The packets that an operation pushes for a user.
  unfoldable pub pushed_by : ℤ → {known : List Fact} {B : Type 0} → Op env known B → List Packet
  pushed_by uid (put_task id s p) = if int_eq id uid then p ∷ [] else []
  pushed_by uid _ = []

  -- Whether an operation gives a user a new socket, and so clears the queue.
  unfoldable pub cleared_by : ℤ → {known : List Fact} {B : Type 0} → Op env known B → Bool
  cleared_by uid (put_sender id fd) = int_eq id uid
  cleared_by uid _ = false

  abbrev pub front : Option (Packet × queues.Queue) → List Packet
  front none = []
  front (some (p, rest)) = p ∷ []

  abbrev pub front_of : Option (Sender queues) → List Packet
  front_of none = []
  front_of (some s) = front (queues.pop s.queue)

  -- The packet that a round of a sender's thread tries to send, when it is this user's.
  unfoldable pub tried_by : ℤ → ℤ → Server env → List Packet
  tried_by uid id s = if int_eq id uid then front_of (lookup id s.pools.senders) else []

  -- The same along the steps of an interleaving.
  unfoldable pub pushed_in : ℤ → {c d : Crew env} → Moves env c d → List Packet
  unfolding pushed_by
  pushed_in uid (Workers.work before after known o k b s is did) = pushed_by uid o
  pushed_in uid _ = []

  unfoldable pub tried_in : ℤ → {c d : Crew env} → Moves env c d → List Packet
  unfolding tried_by
  tried_in uid {c} (Workers.send id s did) = tried_by uid id c.system.server
  tried_in uid _ = []

  unfoldable pub cleared_in : ℤ → {c d : Crew env} → Moves env c d → Bool
  unfolding cleared_by
  cleared_in uid (Workers.work before after known o k b s is did) = cleared_by uid o
  cleared_in uid _ = false

  unfoldable pub pushed : ℤ → {c d : Crew env} → Interleaves env c d → List Packet
  unfolding pushed_in
  pushed uid halt = []
  pushed uid (move m more) = pushed_in uid m ++ pushed uid more

  unfoldable pub tried : ℤ → {c d : Crew env} → Interleaves env c d → List Packet
  unfolding tried_in
  tried uid halt = []
  tried uid (move m more) = tried_in uid m ++ tried uid more

  unfoldable pub cleared : ℤ → {c d : Crew env} → Interleaves env c d → Bool
  unfolding cleared_in
  cleared uid halt = false
  cleared uid (move m more) = cleared_in uid m || cleared uid more
