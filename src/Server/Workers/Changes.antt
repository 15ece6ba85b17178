-- ===== src/Server/Workers/Changes.antt =====
-- What a step of any thread does to the database: nothing, or one of the program's statements.
use net_chat.Prelude.{◌≡◌, refl, sym, ap, subst, ◌∙◌, List, Option, none, some, Str, codes, ℤ, ℕ}
use net_chat.Exec.{Exec, ok, pure, ◌>>◌}
use net_chat.Exec.Preserves.{Preserves, Preserves-pure, Preserves-gets, Preserves-bind}
use net_chat.Proto.{Packet}
use net_chat.DataAccess.{get_user_by_name, get_user, get_all_messages}
use net_chat.DataAccess.Select.{select_first-unchanged, select_all-unchanged}
use net_chat.DataAccess.Changes.{
  Change, unchanged, select_first-Change, select_all-Change, create_user-Change, create_msg-Change,
  create_file-Change, update_file-Change,
}
use net_chat.UserManager.{Sender, set_recv_socket}
use net_chat.Server.State.{Env, Server, on_pools, on_van}
use net_chat.Van.{control, epoll_add_client}
use net_chat.Server.Account.{init_sodium}
use net_chat.Server.EventLoop.{Event, accepted, readable, hung_up, System, on_server, handle_event}
use net_chat.Server.Threads.{
  Fact, Query, by_name, by_id, conversation, owner, Answer, ask, Op, perform, socket, file, find,
  find_all, add_user, add_message, add_file, set_file, ask_pools, put_challenge, drop_challenge,
  put_sender, put_task, put_file_msg, drop_file_msg, put_token, draw_uuid, draw_time, hash_text,
  start_sodium, stop,
}
use net_chat.Server.Workers
use net_chat.Server.Workers.{
  Crew, Moves, Interleaves, halt, move, sender_round, send_waiting, send_next, keep_rest,
}

module _ (env : Env) where
  open env use {sqlite, queues, net}

  pub perform-Change :
      {known : List Fact} {B : Type 0} (o : Op env known B) (s : Server env)
      → Change sqlite s.db (perform env o s).1.db
  unfolding perform init_sodium
  perform-Change (socket m) s = unchanged refl
  perform-Change (file m) s = unchanged refl
  perform-Change (find t conds read) s = select_first-Change sqlite t conds read s.db
  perform-Change (find_all t conds read) s = select_all-Change sqlite t conds read s.db
  perform-Change (add_user u) s = create_user-Change sqlite u s.db
  perform-Change (add_message m z read next from to) s = create_msg-Change sqlite m s.db
  perform-Change (add_file uuid) s = create_file-Change sqlite uuid s.db
  perform-Change (set_file f) s = update_file-Change sqlite f s.db
  perform-Change (ask_pools f) s = unchanged refl
  perform-Change (put_challenge id c) s = unchanged refl
  perform-Change (drop_challenge id) s = unchanged refl
  perform-Change (put_sender id fd) s = unchanged refl
  perform-Change (put_task id sender p) s = unchanged refl
  perform-Change (put_file_msg id uid m) s = unchanged refl
  perform-Change (drop_file_msg id) s = unchanged refl
  perform-Change (put_token token id found) s = unchanged refl
  perform-Change draw_uuid s = unchanged refl
  perform-Change draw_time s = unchanged refl
  perform-Change (hash_text text) s = unchanged refl
  perform-Change start_sodium s = unchanged refl
  perform-Change stop s = unchanged refl

  -- The database and the tokens, which only the steps above touch.
  abbrev Kept : Type 0
  Kept = sqlite.Db × List (Str × ℤ)

  abbrev pub kept : Server env → Kept
  kept s = (s.db, s.pools.tokens)

  send_next-Preserves :
      (uid : ℤ) (s : Sender queues) (o : Option (Packet × queues.Queue))
      → Preserves kept (send_next env uid s o)
  unfolding send_next keep_rest
  send_next-Preserves uid s none = Preserves-pure _
  send_next-Preserves uid s (some (pkt, rest)) =
      Preserves-bind _ _ (record { at = λ s. refl }) (λ _. record { at = λ s. refl })

  send_waiting-Preserves :
      (uid : ℤ) (o : Option (Sender queues)) → Preserves kept (send_waiting env uid o)
  unfolding send_waiting
  send_waiting-Preserves uid none = Preserves-pure _
  send_waiting-Preserves uid (some s) = send_next-Preserves uid s _

  sender_round-Preserves : (uid : ℤ) → Preserves kept (sender_round env uid)
  unfolding sender_round
  sender_round-Preserves uid =
      Preserves-bind _ _ (Preserves-gets _) (λ o. send_waiting-Preserves uid o)

  abbrev controls : ℕ → Str → Exec (System env) ℤ
  controls fd cmd = on_server env (on_van env (control net fd cmd))

  handle_event-kept : (e : Event) → Preserves (λ s. kept s.server) (handle_event env e)
  unfolding handle_event set_recv_socket
  handle_event-kept (accepted none) = Preserves-pure _
  handle_event-kept (accepted (some (ip_port, fd))) =
      Preserves-bind (on_server env (on_pools env (set_recv_socket queues ip_port fd)))
        (λ _. on_server env (on_van env (epoll_add_client net fd))) (record { at = λ s. refl })
        (λ _. record { at = λ s. refl })
  handle_event-kept (readable fd) = record { at = λ s. refl }
  handle_event-kept (hung_up fd) =
      Preserves-bind (controls fd (codes "EPOLL_DEL_FD"))
        (λ _. controls fd (codes "CLOSE_FD") >> pure tt) (record { at = λ s. refl })
        (λ _.
          Preserves-bind (controls fd (codes "CLOSE_FD")) (λ _. pure tt) (record { at = λ s. refl })
            (λ _. Preserves-pure _))

  pub sender_round-kept :
      (uid : ℤ) (s t : Server env) → sender_round env uid s ≡ (ok tt, t) → kept t ≡ kept s
  sender_round-kept uid s t e = ap (λ p. kept p.1) (sym e) ∙ (sender_round-Preserves uid).at s

  pub event-kept :
      (e : Event) (s t : System env)
      → handle_event env e s ≡ (ok tt, t)
      → kept t.server ≡ kept s.server
  event-kept e s t h = ap (λ p. kept p.1.server) (sym h) ∙ (handle_event-kept e).at s

  -- A question changes neither.
  pub ask-kept : (q : Query) (s : Server env) → kept (ask env q s).1 ≡ kept s
  unfolding ask get_user_by_name get_user get_all_messages
  ask-kept (by_name name) s =
      ap (λ d. (d, s.pools.tokens)) (select_first-unchanged sqlite _ _ _ s.db)
  ask-kept (by_id id) s = ap (λ d. (d, s.pools.tokens)) (select_first-unchanged sqlite _ _ _ s.db)
  ask-kept (conversation from to) s =
      ap (λ d. (d, s.pools.tokens)) (select_all-unchanged sqlite _ _ _ s.db)
  ask-kept (owner token) s = refl

  pub answer-kept :
      (q : Query) (a : Answer q) (s t : Server env) → ask env q s ≡ (ok a, t) → kept t ≡ kept s
  answer-kept q a s t e = subst (λ p. kept p.1 ≡ kept s) e (ask-kept q s)

  pub Moves-Change :
      {c d : Crew env} → Moves env c d → Change sqlite c.system.server.db d.system.server.db
  Moves-Change {c} (Workers.event e s did) = unchanged (ap (λ p. p.0) (event-kept e c.system s did))
  Moves-Change {c} (Workers.send uid s did) =
      unchanged (ap (λ p. p.0) (sender_round-kept uid c.system.server s did))
  Moves-Change (Workers.fetch before after fd left free waits) = unchanged refl
  Moves-Change {c} (Workers.work before after known o k b s is did) =
      subst (λ p. Change sqlite c.system.server.db p.1.db) did (perform-Change o c.system.server)
  Moves-Change {c} (Workers.learns before after known q k a s is did) =
      unchanged (ap (λ p. p.0) (answer-kept q a c.system.server s did))
  Moves-Change (Workers.finished before after known is) = unchanged refl

  -- What every statement keeps, every interleaving keeps.
  pub Interleaves-keeps :
      (I : sqlite.Db → Type 0)
      → ((db db' : sqlite.Db) → Change sqlite db db' → I db → I db')
      → {c d : Crew env} → Interleaves env c d
      → I c.system.server.db
      → I d.system.server.db
  Interleaves-keeps I keep halt h = h
  Interleaves-keeps I keep (move m more) h =
      Interleaves-keeps I keep more (keep _ _ (Moves-Change m) h)
