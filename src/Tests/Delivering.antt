-- ===== src/Tests/Delivering.antt =====
-- The receiver of the messages of Sharing has a channel, and its sender's thread has its turns.
use net_chat.Prelude.{length, str_key, length, List, [], ◌∷◌, pos, ◌++◌, int_key}
use net_chat.UserManager.{Sender, set_kp_alive_sender}
use net_chat.PacketQueue.{list_queue}
use net_chat.Server.EventLoop.{readable}
use net_chat.Server.Workers.{Crew, Interleaves}
use net_chat.Server.Workers.Schedule.{Turn, happen, schedule, send_one}
use net_chat.Tests.Sharing.{texting, two_workers, in_turn}

-- bob has a channel on socket 9
abbrev listening : Crew texting
listening = record two_workers {
  system = record two_workers.system {
    server = record two_workers.system.server {
      pools = set_kp_alive_sender list_queue (pos 2) 9 two_workers.system.server.pools;
    };
  };
}

abbrev turns : List Turn
turns =
    happen (readable 5) ∷ happen (readable 6) ∷ in_turn 11
    ++ send_one (pos 2) ∷ send_one (pos 2) ∷ []

abbrev heard : Crew texting
heard = (schedule texting turns listening).0

abbrev steps : Interleaves texting listening heard
steps = (schedule texting turns listening).1

abbrev bobs : Sender list_queue
bobs = record { uid = pos 2; fd = 9; queue = [] }
