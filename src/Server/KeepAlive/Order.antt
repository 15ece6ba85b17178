-- ===== src/Server/KeepAlive/Order.antt =====
-- The order in which a sender's packets go out.
use mathlib.Core.List.{append-nil, append_assoc}
use net_chat.Prelude.{◌≡◌, refl, sym, ◌∙◌, ap, Bool, false, List, [], ◌∷◌, ◌++◌, some, subst}
use net_chat.Proto.{Packet}
use net_chat.PacketQueue.{PacketQueue}
use net_chat.Van.{Network}
use net_chat.Server.KeepAlive.{
  Channel, Step, enqueue, take_next, try_send, move, elsewhere, Run, stop, step, clear_queue,
  waiting, in_hand,
}

module _ (net : Network) (pq : PacketQueue) where
  open pq use {Queue, pop, to_list, to_list-push, pop-nil, pop-cons}

  -- taking a packet leaves what waits as it was
  pop-waiting :
      (q rest : Queue) (p : Packet) → pop q ≡ some (p, rest) → to_list q ≡ p ∷ to_list rest
  pop-waiting q rest p e = go (to_list q) refl
    where
      go : (l : List Packet) → to_list q ≡ l → to_list q ≡ p ∷ to_list rest
      go [] h = cc (pop-nil q h, e)
      go (x ∷ xs) h =
          let (q', f, g) = pop-cons q x xs h in
          let same : some (x, q') ≡ some (p, rest) = sym f ∙ e in
          let first : x ≡ p = cc same in
          let others : q' ≡ rest = cc same in h ∙ rw (first, ← g, others) refl

  Step-waiting :
      {c d : Channel net pq} {ins outs : List Packet}
      → Step net pq c d ins outs
      → outs ++ waiting net pq d ≡ waiting net pq c ++ ins
  unfolding waiting
  Step-waiting {c} (enqueue p) =
      ap (λ l. in_hand net pq c.taken ++ l) (to_list-push p c.queue)
      ∙ sym (append_assoc (in_hand net pq c.taken) (to_list c.queue) (p ∷ []))
  Step-waiting {c} (take_next p rest e f) =
      rw (e, pop-waiting c.queue rest p f) (sym (append-nil _))
  Step-waiting {c} (try_send p v e f) = rw e (sym (append-nil _))
  Step-waiting (move fd) = sym (append-nil _)
  Step-waiting (elsewhere v) = sym (append-nil _)

  -- First in, first out: along a sequence of steps in which nothing clears the queue, the
  -- packets that were tried, followed by those that still wait, are exactly those that waited
  -- at first, followed by those that were added.
  pub Run-waiting :
      {c e : Channel net pq} {ins outs : List Packet} {b : Bool}
      → Run net pq c e ins outs b
      → b ≡ false
      → outs ++ waiting net pq e ≡ waiting net pq c ++ ins
  Run-waiting stop h = sym (append-nil _)
  Run-waiting {c} {e} (step {d = d} {ins = i} {outs = o} {ins' = i'} {outs' = o'} s r) h =
      append_assoc o o' (waiting net pq e)
      ∙ ap (λ l. o ++ l) (Run-waiting r h)
      ∙ sym (append_assoc o (waiting net pq d) i')
      ∙ ap (λ l. l ++ i') (Step-waiting s)
      ∙ append_assoc (waiting net pq c) i i'
  Run-waiting (clear_queue r) h = cc h

-- The first list is the second with some packets left out.
pub data LeavesOut : List Packet → List Packet → Type 0 where
  nothing : LeavesOut [] []
  keep : {ps qs : List Packet} (p : Packet) → LeavesOut ps qs → LeavesOut (p ∷ ps) (p ∷ qs)
  skip : {ps qs : List Packet} (p : Packet) → LeavesOut ps qs → LeavesOut ps (p ∷ qs)

LeavesOut-refl : (ps : List Packet) → LeavesOut ps ps
LeavesOut-refl [] = nothing
LeavesOut-refl (p ∷ ps) = keep p (LeavesOut-refl ps)

LeavesOut-trans : {ps qs rs : List Packet} → LeavesOut ps qs → LeavesOut qs rs → LeavesOut ps rs
LeavesOut-trans h nothing = h
LeavesOut-trans (keep p h) (keep _ k) = keep p (LeavesOut-trans h k)
LeavesOut-trans (skip p h) (keep _ k) = skip p (LeavesOut-trans h k)
LeavesOut-trans h (skip p k) = skip p (LeavesOut-trans h k)

LeavesOut-append :
    (ps : List Packet) {qs rs : List Packet} → LeavesOut qs rs → LeavesOut (ps ++ qs) (ps ++ rs)
LeavesOut-append [] h = h
LeavesOut-append (p ∷ ps) h = keep p (LeavesOut-append ps h)

LeavesOut-front : (ps qs : List Packet) → LeavesOut qs (ps ++ qs)
LeavesOut-front [] qs = LeavesOut-refl qs
LeavesOut-front (p ∷ ps) qs = skip p (LeavesOut-front ps qs)

module _ (net : Network) (pq : PacketQueue) where
  open pq use {to_list, clear, to_list-clear}

  clear-waiting :
      (c : Channel net pq) (ins : List Packet)
      → LeavesOut
          (waiting net pq (record c { queue = clear c.queue }) ++ ins)
          (waiting net pq c ++ ins)
  unfolding waiting
  clear-waiting c ins =
      let held = in_hand net pq c.taken in
      rw (to_list-clear c.queue, append-nil held, append_assoc held (to_list c.queue) ins)
        (LeavesOut-append held (LeavesOut-front (to_list c.queue) ins))

  -- Along any sequence of steps of the threads on one sender, with its queue cleared however
  -- often, the packets that its thread has tried to send, followed by those that still wait,
  -- are some of those that waited at first and were added, in that order: none is tried twice,
  -- and none overtakes another.
  pub Run-LeavesOut :
      {c e : Channel net pq} {ins outs : List Packet} {b : Bool}
      → Run net pq c e ins outs b
      → LeavesOut (outs ++ waiting net pq e) (waiting net pq c ++ ins)
  Run-LeavesOut {c} stop = rw (append-nil (waiting net pq c)) (LeavesOut-refl _)
  Run-LeavesOut {c} {e} (step {d = d} {ins = i} {outs = o} {ins' = i'} {outs' = o'} s r) =
      subst (λ l. LeavesOut (o ++ o' ++ waiting net pq e) l)
        (sym (append_assoc o (waiting net pq d) i')
          ∙ ap (λ l. l ++ i') (Step-waiting net pq s)
          ∙ append_assoc (waiting net pq c) i i')
        (rw (append_assoc o o' (waiting net pq e)) (LeavesOut-append o (Run-LeavesOut r)))
  Run-LeavesOut {c} (clear_queue {ins = i} r) =
      LeavesOut-trans (Run-LeavesOut r) (clear-waiting c i)
