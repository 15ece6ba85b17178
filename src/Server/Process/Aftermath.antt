-- ===== src/Server/Process/Aftermath.antt =====
-- What follows the switch leaves the messages table as it was: every callback does.
use net_chat.Prelude.{ℕ, refl, Bool, true, false, Option, none, some, List, [], ◌∷◌, Str, ℤ}
use net_chat.Exec.Preserves.{Preserves-pure, Preserves-gets, Preserves-bind, Preserves-if}
use net_chat.Proto.{Packet, ContactList, Message}
use net_chat.Entities.{User}
use net_chat.Sql.{messages}
use net_chat.DataAccess.{get_all_users, get_all_messages}
use net_chat.DataAccess.Untouched.{select_all-Preserves}
use net_chat.UserManager.{Sender}
use net_chat.Van.{SendResult, sent, send_failed, overread}
use net_chat.Server.State.{Env, Reply, Callback, open_channel, record_file, notify, forward_file}
use net_chat.Server.Messaging.{
  push_task, contacts_loop, run_open_channel, run_record_file, run_notify, notify_online,
}
use net_chat.Server.Transfer.{run_forward_file, forward_to, forward}
use net_chat.Server.Process.{run_callback, after_send, deliver, finish}
use net_chat.Server.Process.Quiet.{Quiet, on_db-Quiet, on_van-Quiet, on_pools-Quiet}

module _ (env : Env) where
  open env use {sqlite, queues}

  push_task-Quiet :
      (uid : ℤ) (o : Option (Sender queues)) (p : Packet) → Quiet env (push_task env uid o p)
  unfolding push_task
  push_task-Quiet uid none p = Preserves-pure _
  push_task-Quiet uid (some s) p = on_pools-Quiet env _

  contacts_loop-Quiet :
      (uid : ℤ) (us : List User) (list : ContactList) → Quiet env (contacts_loop env uid list us)
  unfolding contacts_loop get_all_messages
  contacts_loop-Quiet uid [] list = Preserves-pure _
  contacts_loop-Quiet uid (u ∷ us) list =
      Preserves-bind _ _ (on_db-Quiet env _ (select_all-Preserves sqlite messages _ _ _))
        (λ msgs. contacts_loop-Quiet uid us _)

  run_open_channel-Quiet : (uid : ℤ) (fd : ℕ) → Quiet env (run_open_channel env uid fd)
  unfolding run_open_channel get_all_users
  run_open_channel-Quiet uid fd = Preserves-bind _ _ (on_pools-Quiet env _) (λ _.
      Preserves-bind _ _ (on_db-Quiet env _ (select_all-Preserves sqlite messages _ _ _)) (λ us.
        Preserves-bind _ _ (contacts_loop-Quiet uid us _) (λ list.
          Preserves-bind _ _ (Preserves-gets _) (λ o.
            Preserves-bind _ _ (push_task-Quiet uid o _)
              (λ _. Preserves-bind _ _ (on_van-Quiet env _) (λ _. Preserves-pure _))))))

  notify_online-Quiet : (b : Bool) (to : ℤ) (msg : Message) → Quiet env (notify_online env b to msg)
  unfolding notify_online
  notify_online-Quiet false to msg = Preserves-pure _
  notify_online-Quiet true to msg =
      Preserves-bind _ _ (Preserves-gets _) (λ o. push_task-Quiet to o _)

  forward_to-Quiet : (id : Str) (x : ℤ × Message) → Quiet env (forward_to env id x)
  unfolding forward_to forward
  forward_to-Quiet id (uid, msg) = Preserves-if _ _ _ (Preserves-pure _) (
      Preserves-bind _ _ (on_pools-Quiet env _) (λ _.
        Preserves-bind _ _ (Preserves-gets _)
          (elim [ none ↦ Preserves-pure _ | some s ↦ on_pools-Quiet env _ ])))

  run_callback-Quiet : (cb : Option Callback) (fd : ℕ) → Quiet env (run_callback env cb fd)
  unfolding run_callback run_record_file run_notify run_forward_file
  run_callback-Quiet none fd = Preserves-pure _
  run_callback-Quiet (some (open_channel uid)) fd = run_open_channel-Quiet uid fd
  run_callback-Quiet (some (record_file id to msg)) fd = on_pools-Quiet env _
  run_callback-Quiet (some (notify to msg)) fd =
      Preserves-bind _ _ (Preserves-gets _) (λ b. notify_online-Quiet b to msg)
  run_callback-Quiet (some (forward_file id)) fd =
      Preserves-bind _ _ (Preserves-gets _) (λ x. forward_to-Quiet id x)

  after_send-Quiet :
      (cb : Option Callback) (fd : ℕ) (r : SendResult) → Quiet env (after_send env cb fd r)
  unfolding after_send
  after_send-Quiet cb fd (sent n) = run_callback-Quiet cb fd
  after_send-Quiet cb fd send_failed =
      Preserves-bind _ _ (on_van-Quiet env _)
        (λ _. Preserves-bind _ _ (on_van-Quiet env _) (λ _. Preserves-pure _))
  after_send-Quiet cb fd overread = record { at = λ s. refl }

  -- What follows the switch leaves the stored messages alone.
  pub finish-Quiet : (o : Option Reply) (fd : ℕ) → Quiet env (finish env o fd)
  unfolding finish deliver
  finish-Quiet none fd = Preserves-pure _
  finish-Quiet (some reply) fd =
      Preserves-if _ _ _
        (Preserves-bind _ _ (on_van-Quiet env _) (λ ret. after_send-Quiet reply.callback fd ret))
        (Preserves-pure _)
