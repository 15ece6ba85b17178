-- ===== src/UserManager/Channels.antt =====
-- The keep-alive senders: who has one, and what is in its queue.
use net_chat.Prelude.{
  ℕ, ◌≡◌, ◌≢◌, refl, ◌∙◌, ap, Bool, true, false, [], ◌∷◌, ◌++◌, ℤ, pos, int_eq_iff, arith, int_key,
  none, some, Option,
}
use net_chat.Proto.{Packet}
use net_chat.Dict.{lookup, insert, lookup-insert, lookup-insert_self}
use net_chat.PacketQueue.{PacketQueue}
use net_chat.UserManager.{
  Pools, Sender, get_sender, set_kp_alive_sender, add_send_task, renewed, is_online, or_else,
}

module _ (pq : PacketQueue) where
  open pq use {Queue, to_list, to_list-empty, to_list-push, to_list-clear}

  renewed_lem :
      (uid : ℤ) (fd : ℕ) (o : Option (Sender pq))
      → ((renewed pq uid fd o).fd ≡ fd) × (to_list (renewed pq uid fd o).queue ≡ [])
  unfolding renewed
  renewed_lem uid fd none = (refl, to_list-empty)
  renewed_lem uid fd (some s) = (refl, to_list-clear s.queue)

  -- After `setKpAliveSender` the user's sender has the new socket and nothing to send.
  pub get_sender-set_kp_alive_sender :
      (uid : ℤ) (fd : ℕ) (p : Pools pq)
      → uid ≢ pos 0
      → (s : Sender pq) × (get_sender pq uid (set_kp_alive_sender pq uid fd p) ≡ some s)
        × (s.fd ≡ fd)
        × (to_list s.queue ≡ [])
  unfolding get_sender set_kp_alive_sender
  get_sender-set_kp_alive_sender uid fd p h =
      let s = renewed pq uid fd (lookup uid p.senders) in
      let (f, q) = renewed_lem uid fd (lookup uid p.senders) in
      (s, ground (arith, int_eq_iff uid (pos 0), lookup-insert_self uid s p.senders), f, q)

  -- Other users' senders stay as they are.
  pub get_sender-set_kp_alive_sender_ne :
      (uid other : ℤ) (fd : ℕ) (p : Pools pq)
      → uid ≢ other
      → get_sender pq other (set_kp_alive_sender pq uid fd p) ≡ get_sender pq other p
  unfolding get_sender set_kp_alive_sender
  get_sender-set_kp_alive_sender_ne uid other fd p h =
      rw (lookup-insert uid other (renewed pq uid fd (lookup uid p.senders)) p.senders)
        (ground (arith, int_eq_iff uid other))

  -- Nobody is user 0: the sender that is made for it is never found.
  pub get_sender_zero : (p : Pools pq) → get_sender pq (pos 0) p ≡ none
  unfolding get_sender
  get_sender_zero p = refl

  found : Option (Sender pq) → Bool
  found none = false
  found (some s) = true

  is_online_lem : (uid : ℤ) (p : Pools pq) → is_online pq uid p ≡ found (get_sender pq uid p)
  unfolding is_online found get_sender
  is_online_lem uid p = ground arith

  pub is_online-some :
      (uid : ℤ) (p : Pools pq) (s : Sender pq)
      → get_sender pq uid p ≡ some s
      → is_online pq uid p ≡ true
  unfolding found
  is_online-some uid p s e = is_online_lem uid p ∙ ap found e

  pub is_online-none :
      (uid : ℤ) (p : Pools pq) → get_sender pq uid p ≡ none → is_online pq uid p ≡ false
  unfolding found
  is_online-none uid p e = is_online_lem uid p ∙ ap found e

  lookup-get_sender :
      (uid : ℤ) (p : Pools pq) (s : Sender pq)
      → get_sender pq uid p ≡ some s
      → lookup uid p.senders ≡ some s
  unfolding get_sender
  lookup-get_sender uid p s e = ground arith

  -- The pointer that getSender has just given points to the sender that is there.
  pub add_send_task-get_sender :
      (uid : ℤ) (s : Sender pq) (packet : Packet) (p : Pools pq)
      → get_sender pq uid p ≡ some s
      → add_send_task pq uid s packet p
        ≡ record p { senders = insert uid (record s { queue = pq.push packet s.queue }) p.senders }
  unfolding add_send_task
  add_send_task-get_sender uid s packet p e =
      ap
        (λ o.
          let now = or_else o s in
          record p {
            senders = insert uid (record now { queue = pq.push packet now.queue }) p.senders;
          })
        (lookup-get_sender uid p s e)

  -- A packet goes to the end of its receiver's queue, and to no other.
  pub get_sender-add_send_task :
      (uid other : ℤ) (s : Sender pq) (packet : Packet) (p : Pools pq)
      → get_sender pq uid p ≡ some s
      → ((s' : Sender pq) × (get_sender pq uid (add_send_task pq uid s packet p) ≡ some s')
          × (s'.fd ≡ s.fd)
          × (to_list s'.queue ≡ to_list s.queue ++ packet ∷ []))
        × (uid ≢ other
            → get_sender pq other (add_send_task pq uid s packet p) ≡ get_sender pq other p)
  unfolding get_sender
  get_sender-add_send_task uid other s packet p e =
      let s' = record s { queue = pq.push packet s.queue } in
      rw (add_send_task-get_sender uid s packet p e) (
        (
          s',
          ground (arith, lookup-insert_self uid s' p.senders),
          refl,
          to_list-push packet s.queue,
        ),
        λ h. rw (lookup-insert uid other s' p.senders) (ground (arith, int_eq_iff uid other)),
      )
