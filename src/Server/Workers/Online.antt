-- ===== src/Server/Workers/Online.antt =====
-- Who is online, whatever the threads do: nothing in the program ever takes a sender away, since
-- `delKpAliveSender` is never called.
use net_chat.Prelude.{
  ◌≡◌, refl, sym, ap, subst, ◌∙◌, List, Option, none, some, true, ℤ, int_key, arith,
}
use net_chat.Exec.{ok, ◌>>=◌}
use net_chat.Exec.Inversion.{bind-inv}
use net_chat.Exec.Preserves.{Preserves, Preserves-pure, Preserves-bind}
use net_chat.Proto.{Packet}
use net_chat.Dict.{Dict, lookup, insert, lookup-insert}
use net_chat.UserManager.{
  Pools, Sender, is_online, get_sender, set_recv_socket, set_challenge, del_challenge,
  set_kp_alive_sender, add_send_task, set_file_msg, del_file_msg, set_user_id_by_token,
}
use net_chat.Server.State.{Env, Server, on_pools, on_van}
use net_chat.Server.Account.{init_sodium}
use net_chat.Server.KeepAlive.{exchange}
use net_chat.Server.EventLoop.{Event, accepted, readable, hung_up, System, handle_event}
use net_chat.Server.Threads.{
  Fact, Query, by_name, by_id, conversation, owner, ask, Op, perform, socket, file, find, find_all,
  add_user, add_message, add_file, set_file, ask_pools, put_challenge, drop_challenge, put_sender,
  put_task, put_file_msg, drop_file_msg, put_token, draw_uuid, draw_time, hash_text, start_sodium,
  stop,
}
use net_chat.Server.Workers
use net_chat.Server.Workers.{
  Crew, Moves, Interleaves, halt, move, sender_round, send_waiting, send_next, keep_rest,
}

module _ (env : Env) where
  open env use {sqlite, queues, net}

  abbrev Senders : Type 0
  Senders = Dict ℤ (Sender queues)

  abbrev IsOnline : ℤ → Pools queues → Type 0
  IsOnline uid p = is_online queues uid p ≡ true

  IsOnline-insert :
      (uid id : ℤ) (s : Sender queues) (p : Pools queues)
      → IsOnline uid p
      → IsOnline uid (record p { senders = insert id s p.senders })
  unfolding is_online get_sender
  IsOnline-insert uid id s p h = ground (arith, lookup-insert id uid s p.senders)

  IsOnline-same :
      (uid : ℤ) (p r : Pools queues) → p.senders ≡ r.senders → IsOnline uid p → IsOnline uid r
  unfolding is_online get_sender
  IsOnline-same uid p r e h = rw (← e) h

  perform-IsOnline :
      (uid : ℤ) {known : List Fact} {B : Type 0} (o : Op env known B) (s : Server env)
      → IsOnline uid s.pools
      → IsOnline uid (perform env o s).1.pools
  unfolding perform set_challenge del_challenge set_kp_alive_sender add_send_task set_file_msg
      del_file_msg set_user_id_by_token init_sodium
  perform-IsOnline uid (put_sender id fd) s h = IsOnline-insert uid id _ s.pools h
  perform-IsOnline uid (put_task id sender p) s h = IsOnline-insert uid id _ s.pools h
  perform-IsOnline uid (put_challenge id c) s h = IsOnline-same uid s.pools _ refl h
  perform-IsOnline uid (drop_challenge id) s h = IsOnline-same uid s.pools _ refl h
  perform-IsOnline uid (put_file_msg id to m) s h = IsOnline-same uid s.pools _ refl h
  perform-IsOnline uid (drop_file_msg id) s h = IsOnline-same uid s.pools _ refl h
  perform-IsOnline uid (put_token token id found) s h = IsOnline-same uid s.pools _ refl h
  perform-IsOnline uid (socket m) s h = h
  perform-IsOnline uid (file m) s h = h
  perform-IsOnline uid (find t conds read) s h = h
  perform-IsOnline uid (find_all t conds read) s h = h
  perform-IsOnline uid (add_user u) s h = h
  perform-IsOnline uid (add_message m z read next from to) s h = h
  perform-IsOnline uid (add_file uuid) s h = h
  perform-IsOnline uid (set_file f) s h = h
  perform-IsOnline uid (ask_pools f) s h = h
  perform-IsOnline uid draw_uuid s h = h
  perform-IsOnline uid draw_time s h = h
  perform-IsOnline uid (hash_text text) s h = h
  perform-IsOnline uid start_sodium s h = h
  perform-IsOnline uid stop s h = h

  send_next-IsOnline :
      (uid id : ℤ) (c : Sender queues) (o : Option (Packet × queues.Queue)) (s t : Server env)
      → send_next env id c o s ≡ (ok tt, t)
      → IsOnline uid s.pools
      → IsOnline uid t.pools
  unfolding send_next keep_rest
  send_next-IsOnline uid id c none s t e h = rw (ap (λ p. p.1) e) at h
  send_next-IsOnline uid id c (some (pkt, rest)) s t e h =
      let (_, m, put, sends) =
        bind-inv (on_pools env (keep_rest env id c rest)) (λ _. on_van env (exchange net pkt c.fd))
          s t tt e in
      let after : m.pools ≡ t.pools = ap (λ p. p.1.pools) sends in
      let mid : (record s.pools { senders = insert id (record c { queue = rest }) s.pools.senders })
          ≡ m.pools =
        ap (λ p. p.1.pools) put in
      subst (IsOnline uid) (mid ∙ after) (IsOnline-insert uid id _ s.pools h)

  send_waiting-IsOnline :
      (uid id : ℤ) (o : Option (Sender queues)) (s t : Server env)
      → send_waiting env id o s ≡ (ok tt, t)
      → IsOnline uid s.pools
      → IsOnline uid t.pools
  unfolding send_waiting
  send_waiting-IsOnline uid id none s t e h = subst (λ x. IsOnline uid x.pools) (ap (λ p. p.1) e) h
  send_waiting-IsOnline uid id (some c) s t e h = send_next-IsOnline uid id c _ s t e h

  sender_round-IsOnline :
      (uid id : ℤ) (s t : Server env)
      → sender_round env id s ≡ (ok tt, t)
      → IsOnline uid s.pools
      → IsOnline uid t.pools
  unfolding sender_round ◌>>=◌
  sender_round-IsOnline uid id s t e h =
      send_waiting-IsOnline uid id (lookup id s.pools.senders) s t e h

  abbrev senders : System env → Senders
  senders s = s.server.pools.senders

  pub handle_event-senders : (e : Event) → Preserves senders (handle_event env e)
  unfolding handle_event set_recv_socket
  handle_event-senders (accepted none) = Preserves-pure _
  handle_event-senders (accepted (some (ip_port, fd))) =
      Preserves-bind _ _ (record { at = λ s. refl }) (λ _. record { at = λ s. refl })
  handle_event-senders (readable fd) = record { at = λ s. refl }
  handle_event-senders (hung_up fd) =
      Preserves-bind _ _ (record { at = λ s. refl })
        (λ _. Preserves-bind _ _ (record { at = λ s. refl }) (λ _. Preserves-pure _))

  event-IsOnline :
      (uid : ℤ) (e : Event) (s t : System env)
      → handle_event env e s ≡ (ok tt, t)
      → IsOnline uid s.server.pools
      → IsOnline uid t.server.pools
  event-IsOnline uid e s t did h =
      IsOnline-same uid s.server.pools t.server.pools
        (sym ((handle_event-senders e).at s) ∙ ap (λ p. senders p.1) did) h

  ask-IsOnline :
      (uid : ℤ) (q : Query) (s : Server env)
      → IsOnline uid s.pools
      → IsOnline uid (ask env q s).1.pools
  unfolding ask
  ask-IsOnline uid (by_name name) s h = h
  ask-IsOnline uid (by_id id) s h = h
  ask-IsOnline uid (conversation from to) s h = h
  ask-IsOnline uid (owner token) s h = h

  Moves-IsOnline :
      (uid : ℤ) {c d : Crew env}
      → Moves env c d
      → IsOnline uid c.system.server.pools
      → IsOnline uid d.system.server.pools
  Moves-IsOnline uid {c} (Workers.event e s did) h = event-IsOnline uid e c.system s did h
  Moves-IsOnline uid {c} (Workers.send id s did) h =
      sender_round-IsOnline uid id c.system.server s did h
  Moves-IsOnline uid (Workers.fetch before after fd left free waits) h = h
  Moves-IsOnline uid {c} (Workers.work before after known o k b s is did) h =
      subst (λ p. IsOnline uid p.1.pools) did (perform-IsOnline uid o c.system.server h)
  Moves-IsOnline uid {c} (Workers.learns before after known q k a s is did) h =
      subst (λ p. IsOnline uid p.1.pools) did (ask-IsOnline uid q c.system.server h)
  Moves-IsOnline uid (Workers.finished before after known is) h = h

  -- Whatever the threads do beside one another, hang-ups of sockets and failed sends included,
  -- a user who is online stays online for good: nothing in the program takes a sender away.
  pub Interleaves-IsOnline :
      (uid : ℤ) {c d : Crew env}
      → Interleaves env c d
      → is_online queues uid c.system.server.pools ≡ true
      → is_online queues uid d.system.server.pools ≡ true
  Interleaves-IsOnline uid halt h = h
  Interleaves-IsOnline uid (move m more) h = Interleaves-IsOnline uid more (Moves-IsOnline uid m h)
