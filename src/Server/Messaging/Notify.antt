-- ===== src/Server/Messaging/Notify.antt =====
-- A text that was sent, on its way to its receiver's channel.
use net_chat.Prelude.{
  ◌≡◌, ◌≢◌, refl, subst, inl, inr, Bool-cases, [], ◌∷◌, ◌++◌, none, some, ℤ, int_eq, int_eq_iff,
  arith, if◌then◌else◌,
}
use net_chat.Exec.{ok, ◌>>=◌}
use net_chat.Proto.{Packet, Message, contact_message_list}
use net_chat.Proto.PacketType.{contact_message_list_request}
use net_chat.UserManager.{Sender, get_sender, add_send_task}
use net_chat.UserManager.Channels.{is_online-some, is_online-none, get_sender-add_send_task}
use net_chat.Server.State.{Env, Server, pack_to_packet}
use net_chat.Server.Messaging.{run_notify, notify_online, push_task}

module _ (env : Env) where
  open env use {queues}

  abbrev pub news : Message → Packet
  news msg = pack_to_packet contact_message_list_request (contact_message_list (msg ∷ []))

  run_notify_push :
      (to : ℤ) (msg : Message) (s : Server env) (sender : Sender queues)
      → get_sender queues to s.pools ≡ some sender
      → run_notify env to msg s
        ≡ (ok tt, record s { pools = add_send_task queues to sender (news msg) s.pools })
  unfolding run_notify notify_online push_task ◌>>=◌
  run_notify_push to msg s sender e = rw (is_online-some queues to s.pools sender e, e) refl

  -- The callback of SendMessageRequest for a text puts the message at the end of the queue of
  -- a receiver who has a sender, on the same socket, and leaves every other user's sender as
  -- it was.
  pub run_notify_online :
      (to : ℤ) (msg : Message) (s : Server env) (sender : Sender queues)
      → get_sender queues to s.pools ≡ some sender
      → (s' : Server env) × (sender' : Sender queues) × (run_notify env to msg s ≡ (ok tt, s'))
        × (get_sender queues to s'.pools ≡ some sender')
        × (sender'.fd ≡ sender.fd)
        × (queues.to_list sender'.queue ≡ queues.to_list sender.queue ++ news msg ∷ [])
        × ((other : ℤ)
            → get_sender queues other s'.pools
              ≡ (if int_eq to other then some sender' else get_sender queues other s.pools))
  run_notify_online to msg s sender e =
      let ((sender', there, fd, queue), _) =
        get_sender-add_send_task queues to to sender (news msg) s.pools e in
      let others : (other : ℤ)
          → get_sender queues other (add_send_task queues to sender (news msg) s.pools)
            ≡ (if int_eq to other then some sender' else get_sender queues other s.pools) =
        λ other. elim (Bool-cases (int_eq to other)) [
          | inl e' ↦
              let same : to ≡ other = (int_eq_iff to other).0 e' in
              rw e' (
                subst
                  (λ x.
                    get_sender queues x (add_send_task queues to sender (news msg) s.pools)
                    ≡ some sender')
                  same there)
          | inr e' ↦
              let apart : to ≢ other = ground (arith, int_eq_iff to other) in
              rw e' ((get_sender-add_send_task queues to other sender (news msg) s.pools e).1 apart)
        ] in
      (
        record s { pools = add_send_task queues to sender (news msg) s.pools },
        sender',
        run_notify_push to msg s sender e,
        there,
        fd,
        queue,
        others,
      )

  -- A message for a user without one changes nothing.
  pub run_notify_offline :
      (to : ℤ) (msg : Message) (s : Server env)
      → get_sender queues to s.pools ≡ none
      → run_notify env to msg s ≡ (ok tt, s)
  unfolding run_notify notify_online ◌>>=◌
  run_notify_offline to msg s e = rw (is_online-none queues to s.pools e) refl
