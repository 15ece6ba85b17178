-- ===== src/Server/Workers/Delivery.antt =====
-- Any interleaving of the threads, seen from one user's sender.
use net_chat.Prelude.{Bool, List, ℤ, int_key}
use net_chat.Proto.{Packet}
use net_chat.Server.State.{Env, Server}
use net_chat.Server.KeepAlive.{stop}
use net_chat.Server.Threads.{stop}
use net_chat.Server.Workers
use net_chat.Server.Workers.Channels.{Follows}

module _ (env : Env) where
  open env use {sqlite, queues, net}

  -- What happens to the sender of a user between two states.
  abbrev Delivers : ℤ → Server env → Server env → List Packet → List Packet → Bool → Type 0
  Delivers uid s t ins outs b = Follows net queues uid s.pools s.van t.pools t.van ins outs b
