-- ===== src/Tests/Channels.antt =====
-- A sender's thread beside the others, run.
use net_chat.Prelude.{
  ℕ, ◌≤◌, ◌<◌, ◌≡◌, refl, true, [], ◌∷◌, ◌++◌, none, some, Str, codes, str_eq, pos, length,
}
use net_chat.Exec.{ok}
use net_chat.Proto.{Packet}
use net_chat.PacketQueue.{list_queue}
use net_chat.Van.{
  Network, error, refused, bytes, took, Van, wrote, shut, send_failed, van_send, van_recv,
  send_loop, recv_loop, max_message_size, control,
}
use net_chat.Server.KeepAlive.{Channel, exchange}
use net_chat.Server.KeepAlive.Exchange.{exchange_dead}
use net_chat.Tests.World.{network, idle_van}

abbrev first : Packet
first = record { packet_id = pos 7; content = none }

abbrev second : Packet
second = record { packet_id = pos 8; content = none }

abbrev busy : Channel network list_queue
busy = record { fd = 6; queue = first ∷ []; taken = some second; van = idle_van }

error_room : (call fd room : ℕ) (b : Str) → error ≡ bytes b → (0 < length b) × (length b ≤ room)
error_room call fd room b e = cc e

refused_room :
    (call fd : ℕ) (s : Str) (k : ℕ) → 0 < length s → refused ≡ took k → (0 < k) × (k ≤ length s)
refused_room call fd s k h e = cc e

-- a network that is down
abbrev dead : Network
dead = record {
  recv = λ call fd room. error;
  send = λ call fd s. refused;
  epoll_add = λ call fd. true;
  epoll_del = λ call fd. true;
  close = λ call fd. true;
  parse = λ s. none;
  serialize = λ p. 1 ∷ 2 ∷ 3 ∷ [];
  recv_room = error_room;
  send_room = refused_room;
}

abbrev failed_van : Van
failed_van = record idle_van { calls = 2; actions = wrote 6 [] ∷ [] }

abbrev closed_van : Van
closed_van = record failed_van { calls = 3; actions = wrote 6 [] ∷ shut 6 ∷ [] }

abbrev waited_van : Van
waited_van = record closed_van { calls = 4 }

abbrev twice_closed : Van
twice_closed = record waited_van { calls = 5; actions = wrote 6 [] ∷ shut 6 ∷ shut 6 ∷ [] }

fails : van_send dead first 6 idle_van ≡ (ok send_failed, failed_van)
unfolding van_send send_loop max_message_size
fails = refl

closes : control dead 6 (codes "CLOSE_FD") failed_van ≡ (ok (pos 0), closed_van)
unfolding control str_eq
closes = refl

hears_nothing : van_recv dead 6 closed_van ≡ (ok none, waited_van)
unfolding van_recv recv_loop max_message_size
hears_nothing = refl

closes_again : control dead 6 (codes "CLOSE_FD") waited_van ≡ (ok (pos 0), twice_closed)
unfolding control str_eq
closes_again = refl

exchange_dead_example :
    (exchange dead first 6 idle_van ≡ (ok tt, twice_closed))
    × (twice_closed.actions ≡ failed_van.actions ++ shut 6 ∷ shut 6 ∷ [])
exchange_dead_example =
    exchange_dead dead 6 first idle_van failed_van closed_van waited_van twice_closed (pos 0)
      (pos 0) fails closes hears_nothing closes_again
