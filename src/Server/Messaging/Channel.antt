-- ===== src/Server/Messaging/Channel.antt =====
-- Channels: what the queue of a new channel holds.
use net_chat.Prelude.{
  ℕ, ◌≡◌, ◌≢◌, sym, ◌∙◌, ap, subst, List, [], ◌∷◌, ◌++◌, map, some, Str, codes, ℤ, pos, to_int,
  length,
}
use mathlib.Core.List.{append-nil, append_assoc}
use net_chat.Exec.{Exec, ok}
use net_chat.Exec.Inversion.{bind-inv, pure-inv, ok-injective}
use net_chat.Proto.{Packet, ContactList, Message, contact_list}
use net_chat.Proto.PacketType.{contact_list_request}
use net_chat.Entities.{User}
use net_chat.DataAccess.{read_user, get_all_users, get_all_messages}
use net_chat.Sql.{messages, users}
use net_chat.DataAccess.Select.{select_all-unchanged}
use net_chat.DataAccess.Numbering.{chat}
use net_chat.DataAccess.Conversation.{get_all_messages-length}
use net_chat.UserManager.{Sender, get_sender, set_kp_alive_sender, add_send_task}
use net_chat.UserManager.Channels.{get_sender-add_send_task, get_sender-set_kp_alive_sender}
use net_chat.Server.State.{Env, Server, pack_to_packet, on_db, on_van}
use net_chat.Server.State.Inversion.{on_db-inv}
use net_chat.Server.Messaging.{run_open_channel, contacts_loop, contact_of, push_task}
use net_chat.Van.{control}

module _ (env : Env) where
  open env use {sqlite, queues, net}

  -- The numbers of a contact list: the size of each conversation.
  abbrev pub sizes : sqlite.Db → ℤ → List User → List ℤ
  sizes db uid us = map (λ u. to_int (pos (length (chat uid u.id (sqlite.rows db messages))))) us

  contacts_loop-inv :
      (uid : ℤ) (us : List User) (list l : ContactList) (s s' : Server env)
      → contacts_loop env uid list us s ≡ (ok l, s')
      → (l.contacts ≡ list.contacts ++ map contact_of us)
        × (l.internal_ids ≡ list.internal_ids ++ sizes s.db uid us)
        × (s' ≡ s)
  unfolding contacts_loop
  contacts_loop-inv uid [] list l s s' e =
      let (a, b) = pure-inv list l s s' e in
      (
        rw (append-nil list.contacts) (ap (λ x. x.contacts) (sym a)),
        rw (append-nil list.internal_ids) (ap (λ x. x.internal_ids) (sym a)),
        sym b,
      )
  contacts_loop-inv uid (u ∷ us) list l s s' e =
      let next : List Message → ContactList = λ msgs. record {
        contacts = list.contacts ++ contact_of u ∷ [];
        internal_ids = list.internal_ids ++ to_int (pos (length msgs)) ∷ [];
      } in
      let rest : List Message → Exec (Server env) ContactList =
        λ msgs. contacts_loop env uid (next msgs) us in
      let m = get_all_messages sqlite uid u.id in
      let (msgs, t, read, more) = bind-inv (on_db env m) rest s s' l e in
      let (d, got, put) = on_db-inv env m s t msgs read in
      let (size, kept) = get_all_messages-length sqlite uid u.id s.db d msgs got in
      let same : t ≡ s = sym put ∙ ap (λ x. record s { db = x }) kept in
      let (c, i, last) = contacts_loop-inv uid us (next msgs) l s s' (rw same at more) in
      (
        c ∙ append_assoc list.contacts (contact_of u ∷ []) (map contact_of us),
        i
            ∙ append_assoc list.internal_ids (to_int (pos (length msgs)) ∷ []) (sizes s.db uid us)
            ∙ ap (λ n. list.internal_ids ++ to_int (pos n) ∷ sizes s.db uid us) size,
        last,
      )

  push_task-channel :
      (uid : ℤ) (packet : Packet) (sender : Sender queues) (s s' : Server env)
      → get_sender queues uid s.pools ≡ some sender
      → queues.to_list sender.queue ≡ []
      → push_task env uid (get_sender queues uid s.pools) packet s ≡ (ok tt, s')
      → (sender' : Sender queues) × (get_sender queues uid s'.pools ≡ some sender')
        × (sender'.fd ≡ sender.fd)
        × (queues.to_list sender'.queue ≡ packet ∷ [])
  unfolding push_task
  push_task-channel uid packet sender s s' e empty run =
      let run' : push_task env uid (some sender) packet s ≡ (ok tt, s') = rw e at run in
      let ((sender', there, fd, queue), _) =
        get_sender-add_send_task queues uid uid sender packet s.pools e in
      let put : add_send_task queues uid sender packet s.pools ≡ s'.pools =
        ap (λ p. p.1.pools) run' in
      (
        sender',
        subst (λ x. get_sender queues uid x ≡ some sender') put there,
        fd,
        rw empty at queue,
      )

  control-pools :
      (fd : ℕ) (cmd : Str) (s s' : Server env) (r : ℤ)
      → on_van env (control net fd cmd) s ≡ (ok r, s')
      → s'.pools ≡ s.pools
  control-pools fd cmd s s' r e = ap (λ p. p.1.pools) (sym e)

  get_all_users-unchanged : (db : sqlite.Db) → (get_all_users sqlite db).1 ≡ db
  unfolding get_all_users
  get_all_users-unchanged db = select_all-unchanged sqlite users [] (read_user sqlite) db

  -- When the callback of SetupChannelRequest returns for a user other than 0, the user's
  -- sender has the socket of the request, and its queue holds one packet: the contact list,
  -- with every user that the database returned, in its order, and beside each the size of the
  -- conversation with that user.
  pub run_open_channel_lem :
      (uid : ℤ) (fd : ℕ) (s s' : Server env)
      → uid ≢ pos 0
      → run_open_channel env uid fd s ≡ (ok tt, s')
      → (us : List User) × (list : ContactList) × (sender : Sender queues) × ((get_all_users sqlite
            s.db).0
          ≡ ok us)
        × (list.contacts ≡ map contact_of us)
        × (list.internal_ids ≡ sizes s.db uid us)
        × (get_sender queues uid s'.pools ≡ some sender)
        × (sender.fd ≡ fd)
        × (queues.to_list sender.queue
            ≡ pack_to_packet contact_list_request (contact_list list) ∷ [])
  unfolding run_open_channel
  run_open_channel_lem uid fd s s' h e =
      let (_, s1, set, e1) = bind-inv _ _ s s' tt e in
      let set_pools : set_kp_alive_sender queues uid fd s.pools ≡ s1.pools =
        ap (λ p. p.1.pools) set in
      let set_db : s.db ≡ s1.db = ap (λ p. p.1.db) set in
      let (us, s2, read, e2) = bind-inv _ _ s1 s' tt e1 in
      let (d, got, put) = on_db-inv env (get_all_users sqlite) s1 s2 us read in
      let kept : d ≡ s1.db = sym (ap (λ p. p.1) got) ∙ get_all_users-unchanged s1.db in
      let (list, s3, filled, e3) = bind-inv _ _ s2 s' tt e2 in
      let (contacts, numbers, same) =
        contacts_loop-inv uid us (record { contacts = []; internal_ids = [] }) list s2 s3 filled in
      let (o, s4, looked, e4) = bind-inv _ _ s3 s' tt e3 in
      let (_, s5, pushed, e5) = bind-inv _ _ s4 s' tt e4 in
      let (z, s6, freed, e6) = bind-inv _ _ s5 s' tt e5 in
      let pools6 = control-pools fd (codes "EPOLL_DEL_FD") s5 s6 z freed in
      let (_, last) = pure-inv tt tt s6 s' e6 in
      let (fresh, is_there, on_fd, nothing) =
        get_sender-set_kp_alive_sender queues uid fd s.pools h in
      let db_is : s2.db ≡ s.db = ap (λ x. x.db) (sym put) ∙ kept ∙ sym set_db in
      let pools4 : set_kp_alive_sender queues uid fd s.pools ≡ s4.pools =
        set_pools
        ∙ ap (λ x. x.pools) put
        ∙ ap (λ x. x.pools) (sym same)
        ∙ ap (λ p. p.1.pools) looked in
      let there4 : get_sender queues uid s4.pools ≡ some fresh =
        subst (λ x. get_sender queues uid x ≡ some fresh) pools4 is_there in
      let packet = pack_to_packet contact_list_request (contact_list list) in
      let o_is : o ≡ get_sender queues uid s4.pools =
        sym (ok-injective _ o (ap (λ p. p.0) looked))
        ∙ ap (λ p. get_sender queues uid p.1.pools) looked in
      let (sender, there, at_fd, queue) =
        push_task-channel uid packet fresh s4 s5 there4 nothing (rw o_is at pushed) in
      let end : s5.pools ≡ s'.pools = sym pools6 ∙ ap (λ x. x.pools) last in
      (
        us,
        list,
        sender,
        ap (λ x. (get_all_users sqlite x).0) set_db ∙ ap (λ p. p.0) got,
        contacts,
        rw db_is at numbers,
        subst (λ x. get_sender queues uid x ≡ some sender) end there,
        at_fd ∙ on_fd,
        queue,
      )
