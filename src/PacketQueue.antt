-- ===== src/PacketQueue.antt =====
-- The queue of include/threadsafe_queue.h, which is taken from ps-lite: an interface with its laws.
-- Each operation holds the queue's mutex, so it is one step. `pop` is what `WaitAndPop` does once its
-- wait is over; it has nothing to take from an empty queue, where `WaitAndPop` waits.
use net_chat.Prelude.{◌≡◌, refl, ap, List, [], ◌∷◌, ◌++◌, Option, none, some}
use net_chat.Proto.{Packet}

pub record PacketQueue : Type 1 where
  pub Queue : Type 0
  pub empty : Queue
  pub push : Packet → Queue → Queue
  pub pop : Queue → Option (Packet × Queue)
  pub clear : Queue → Queue
  pub to_list : Queue → List Packet
  pub to_list-empty : to_list empty ≡ []
  pub to_list-push : (p : Packet) (q : Queue) → to_list (push p q) ≡ to_list q ++ p ∷ []
  pub to_list-clear : (q : Queue) → to_list (clear q) ≡ []
  pub pop-nil : (q : Queue) → to_list q ≡ [] → pop q ≡ none
  pub pop-cons :
      (q : Queue) (p : Packet) (ps : List Packet)
      → to_list q ≡ p ∷ ps
      → (q' : Queue) × (pop q ≡ some (p, q')) × (to_list q' ≡ ps)

abbrev pub take_front : List Packet → Option (Packet × List Packet)
take_front [] = none
take_front (p ∷ ps) = some (p, ps)

pub take_front-nil : (q : List Packet) → q ≡ [] → take_front q ≡ none
take_front-nil q e = ap take_front e

pub take_front-cons :
    (q : List Packet) (p : Packet) (ps : List Packet)
    → q ≡ p ∷ ps
    → (q' : List Packet) × (take_front q ≡ some (p, q')) × (q' ≡ ps)
take_front-cons q p ps e = (ps, ap take_front e, refl)

-- A plain list meets the laws.
abbrev pub list_queue : PacketQueue
list_queue = record {
  Queue = List Packet;
  empty = [];
  push = λ p q. q ++ p ∷ [];
  pop = take_front;
  clear = λ q. [];
  to_list = λ q. q;
  to_list-empty = refl;
  to_list-push = λ p q. refl;
  to_list-clear = λ q. refl;
  pop-nil = take_front-nil;
  pop-cons = take_front-cons;
}
