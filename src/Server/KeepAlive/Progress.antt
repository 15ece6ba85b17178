-- ===== src/Server/KeepAlive/Progress.antt =====
-- A sender's queue can always be emptied.
use net_chat.Prelude.{◌≤◌, ◌≡◌, false, List, [], ◌∷◌, length}
use net_chat.Proto.{Packet}
use net_chat.PacketQueue.{PacketQueue}
use net_chat.Van.{Network, max_message_size}
use net_chat.Server.KeepAlive.{Channel, Run, waiting}

-- Every packet of a list fits the buffer of SendMesg.
unfoldable pub AllFit : Network → List Packet → Type 0
AllFit net [] = Unit {0}
AllFit net (p ∷ ps) = (length (net.serialize p) ≤ max_message_size) × AllFit net ps

module _ (net : Network) (pq : PacketQueue) where
  open pq use {to_list, pop-cons}

  -- the end of a run that has tried all of a list
  abbrev pub Drains : Channel net pq → List Packet → Type 0
  Drains c ps = (e : Channel net pq) × Run net pq c e [] ps false × (waiting net pq e ≡ [])
