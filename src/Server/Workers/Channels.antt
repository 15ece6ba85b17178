-- ===== src/Server/Workers/Channels.antt =====
-- One user's sender, as Server/KeepAlive has it, in the middle of all the threads.
use mathlib.Core.List.{append_assoc}
use net_chat.Prelude.{
  ℕ, ◌≡◌, refl, subst, ◌∙◌, inl, inr, Bool, false, ◌||◌, Bool-cases, List, [], ◌∷◌, ◌++◌,
  if◌then◌else◌, none, some, ℤ, int_key, int_eq, int_eq_iff,
}
use net_chat.Exec.{ok}
use net_chat.Proto.{Packet}
use net_chat.Dict.{lookup, insert, lookup-insert, lookup-insert_self}
use net_chat.Van.{Van, Network}
use net_chat.PacketQueue.{PacketQueue}
use net_chat.UserManager.{Pools, Sender, set_kp_alive_sender, add_send_task}
use net_chat.Server.KeepAlive.{
  exchange, Channel, enqueue, take_next, try_send, move, elsewhere, Run, stop, step, clear_queue,
}

module _ (net : Network) (pq : PacketQueue) where
  open pq use {Queue, push, pop, clear}

  pub Run-trans :
      {c d e : Channel net pq} {ins outs ins' outs' : List Packet} {b b' : Bool}
      → Run net pq c d ins outs b
      → Run net pq d e ins' outs' b'
      → Run net pq c e (ins ++ ins') (outs ++ outs') (b || b')
  Run-trans stop r = r
  Run-trans {ins' = i'} {outs' = o'} (step {ins = i} {outs = o} {ins' = i1} {outs' = o1} s q) r =
      rw (append_assoc i i1 i', append_assoc o o1 o') (step s (Run-trans q r))
  Run-trans (clear_queue q) r = clear_queue (Run-trans q r)

  -- What the channel of a sender is, between the rounds of its thread.
  abbrev pub channel_of : Sender pq → Van → Channel net pq
  channel_of s v = record { fd = s.fd; queue = s.queue; taken = none; van = v }

  -- If the user has a sender, it has one afterwards, and steps of its channel lead there, in which these
  -- packets are added and those are tried, and the queue is cleared or not.
  abbrev pub Follows :
      ℤ → Pools pq → Van → Pools pq → Van → List Packet → List Packet → Bool → Type 0
  Follows uid p v p' v' ins outs b =
      (x : Sender pq)
      → lookup uid p.senders ≡ some x
      → (y : Sender pq) × (lookup uid p'.senders ≡ some y)
        × Run net pq (channel_of x v) (channel_of y v') ins outs b

  -- Nothing happens to the sender.
  pub Follows-same :
      (uid : ℤ) (p p' : Pools pq) (v v' : Van)
      → lookup uid p'.senders ≡ lookup uid p.senders
      → Follows uid p v p' v' [] [] false
  Follows-same uid p p' v v' e x is = (x, e ∙ is, step (elsewhere v') stop)

  pub Follows-set_kp_alive_sender :
      (uid id : ℤ) (fd : ℕ) (p : Pools pq) (v : Van)
      → Follows uid p v (set_kp_alive_sender pq id fd p) v [] [] (int_eq id uid)
  unfolding set_kp_alive_sender
  Follows-set_kp_alive_sender uid id fd p v x is = elim (Bool-cases (int_eq id uid)) [
    | inl same ↦ (
      record x { fd = fd; queue = clear x.queue },
      rw ((int_eq_iff id uid).0 same, lookup-insert_self uid _ p.senders, is) refl,
      rw same (clear_queue (step (move fd) stop)),
    )
    | inr other ↦
        (x, lookup-insert id uid _ p.senders ∙ rw other is, rw other (step (elsewhere v) stop))
  ]

  pub Follows-add_send_task :
      (uid id : ℤ) (s : Sender pq) (pkt : Packet) (p : Pools pq) (v : Van)
      → Follows uid p v
          (add_send_task pq id s pkt p)
          v
          (if int_eq id uid then pkt ∷ [] else [])
          []
          false
  unfolding add_send_task
  Follows-add_send_task uid id s pkt p v x is = elim (Bool-cases (int_eq id uid)) [
    | inl same ↦ (
      record x { queue = push pkt x.queue },
      rw ((int_eq_iff id uid).0 same, lookup-insert_self uid _ p.senders, is) refl,
      rw same (step (enqueue pkt) stop),
    )
    | inr other ↦
        (x, lookup-insert id uid _ p.senders ∙ rw other is, rw other (step (elsewhere v) stop))
  ]

  -- A round of the thread of a sender, as it leaves the pools.
  pub Follows-round :
      (uid id : ℤ) (c : Sender pq) (pkt : Packet) (rest : Queue) (p : Pools pq) (v v' : Van)
      → lookup id p.senders ≡ some c
      → pop c.queue ≡ some (pkt, rest)
      → exchange net pkt c.fd v ≡ (ok tt, v')
      → Follows uid p v
          (record p { senders = insert id (record c { queue = rest }) p.senders })
          v'
          []
          (if int_eq id uid then pkt ∷ [] else [])
          false
  Follows-round uid id c pkt rest p v v' there pops did x is = elim (Bool-cases (int_eq id uid)) [
    | inl same ↦
        let own : id ≡ uid = (int_eq_iff id uid).0 same in
        let c_is_x : c ≡ x = cc (rw own at there, is) in
        let round : Run net pq (channel_of c v) (channel_of (record c { queue = rest }) v') []
            (pkt ∷ []) false =
          step (take_next pkt rest refl pops) (step (try_send pkt v' refl did) stop) in
        (
          record c { queue = rest },
          rw own (lookup-insert_self uid (record c { queue = rest }) p.senders),
          rw same (
              subst
                (λ z.
                  Run net pq (channel_of z v) (channel_of (record c { queue = rest }) v') []
                    (pkt ∷ []) false)
                c_is_x round),
        )
    | inr other ↦
        (x, lookup-insert id uid _ p.senders ∙ rw other is, rw other (step (elsewhere v') stop))
  ]
