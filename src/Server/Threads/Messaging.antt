-- ===== src/Server/Threads/Messaging.antt =====
-- Channels and messages, with their callbacks, split into steps.
use net_chat.Prelude.{
  ℕ, Bool, true, false, List, [], ◌∷◌, Option, none, some, Str, ℤ, to_int, int_eq, int_eq_iff,
  subst, ◌++◌, refl, ◌≡◌, ◌∙◌,
}
use net_chat.Exec.{Exec, Result, ok, threw, aborted, continue, ◌>>=◌, pure}
use net_chat.Proto.{
  Packet, ContactList, Message, RawMessage, SendMessageRequest, ContactMessageRequest,
}
use net_chat.Entities.{User}
use net_chat.DataAccess.{
  get_all_users, get_all_messages, create_msg_by_raw_msg, create_msg, numbered, with_id,
  get_message,
}
use net_chat.UserManager.{Sender}
use net_chat.Server.State.{Env, Server, on_db}
use net_chat.Server.Messaging.{
  handle_setup_channel, contacts_loop, push_task, run_open_channel, register_file, after_store,
  store_message, check_receiver, check_sender, handle_send_message, run_record_file, notify_online,
  run_notify, handle_contact_message,
}
use net_chat.Server.Threads.{
  Fact, user, account, In, here, there, by_id, conversation, owner, ask, learnt, Splits, perform,
  socket, find, find_all, add_message, add_file, ask_pools, put_sender, put_task, put_file_msg,
  draw_uuid, draw_time,
}
use net_chat.Server.Threads.Rules.{
  bind-same, split_pure, split_act, split_atom, split_bind, split_if, split_same, split_learn,
}

module _ (env : Env) where
  open env use {sqlite, queues}

  unfoldable pub split_setup_channel :
      {known : List Fact} (token : Str) → Splits env known (handle_setup_channel env token)
  unfolding handle_setup_channel perform
  split_setup_channel token = split_act env (ask_pools _) _ (λ uid. split_pure env _)

  unfoldable pub split_contacts_loop :
      {known : List Fact} (uid : ℤ) (us : List User) (list : ContactList)
      → Splits env known (contacts_loop env uid list us)
  unfolding contacts_loop get_all_messages perform
  split_contacts_loop uid [] list = split_pure env _
  split_contacts_loop uid (u ∷ us) list =
      split_act env (find_all _ _ _) _ (λ msgs. split_contacts_loop uid us _)

  unfoldable pub split_push_task :
      {known : List Fact} (uid : ℤ) (o : Option (Sender queues)) (p : Packet)
      → Splits env known (push_task env uid o p)
  unfolding push_task perform
  split_push_task uid none p = split_pure env _
  split_push_task uid (some s) p = split_atom env (put_task uid s p)

  unfoldable pub split_open_channel :
      {known : List Fact} (uid : ℤ) (fd : ℕ) → Splits env known (run_open_channel env uid fd)
  unfolding run_open_channel get_all_users perform
  split_open_channel uid fd = split_act env (put_sender uid fd) _ (λ _.
      split_act env (find_all _ _ _) _ (λ us.
        split_bind env _ _ (split_contacts_loop uid us _) (λ k list.
          split_act env (ask_pools _) _ (λ o.
            split_bind env _ _ (split_push_task uid o _)
              (λ l _. split_act env (socket _) _ (λ _. split_pure env _))))))

  -- The two statements of createMsgByRawMsg, each a step of its own.
  pub on_db-bind :
      {A B : Type 0} (m : Exec sqlite.Db A) (f : A → Exec sqlite.Db B) (s : Server env)
      → (on_db env m >>= λ a. on_db env (f a)) s ≡ on_db env (m >>= f) s
  unfolding ◌>>=◌
  on_db-bind {A} {B} m f s = go (m s.db).0 (m s.db).1
    where
      go :
          (r : Result A) (d : sqlite.Db)
          → continue r (λ a. on_db env (f a)) (record s { db = d })
            ≡ ((continue r f d).0, record s { db = (continue r f d).1 })
      go (ok a) d = refl
      go threw d = refl
      go aborted d = refl

  unfoldable pub split_create_msg :
      {known : List Fact} (m : RawMessage) (seconds : ℕ)
      → In (account m.from) known
      → In (user (to_int m.to)) known
      → Splits env known (on_db env (create_msg_by_raw_msg sqlite m seconds))
  unfolding create_msg_by_raw_msg numbered perform ask
  split_create_msg m seconds sender receiver =
      split_same env _ _
        (λ s.
          bind-same (on_db env (get_all_messages sqlite m.from m.to)) _ _ s (λ msgs t.
            on_db-bind (create_msg sqlite (numbered m msgs seconds))
              (λ r. pure (with_id (numbered m msgs seconds) r)) t)
          ∙ on_db-bind (get_all_messages sqlite m.from m.to)
              (λ msgs. create_msg sqlite (numbered m msgs seconds) >>= λ r.
                pure (with_id (numbered m msgs seconds) r))
              s)
        (split_learn env (conversation m.from m.to) _ (λ msgs.
          split_act env
            (add_message (numbered m msgs seconds) _ here refl (there sender) (there receiver)) _
            (λ r. split_pure env _)))

  unfoldable pub split_register_file :
      {known : List Fact} (to : ℤ) (m : Message) → Splits env known (register_file env to m)
  unfolding register_file perform
  split_register_file to m =
      split_act env draw_uuid _ (λ uuid. split_act env (add_file uuid) _ (λ o. split_pure env _))

  unfoldable pub split_after_store :
      {known : List Fact} (m : RawMessage) (o : Option Message)
      → Splits env known (after_store env m o)
  unfolding after_store
  split_after_store m none = split_pure env _
  split_after_store m (some msg) = split_if env _ _ _ (split_register_file _ msg) (split_pure env _)

  unfoldable pub split_store_message :
      {known : List Fact} (m : RawMessage) (o : Option User)
      → In (account m.from) known
      → Splits env (learnt (by_id m.to) o ++ known) (store_message env m o)
  unfolding store_message perform
  split_store_message m none sender = split_pure env _
  split_store_message m (some u) sender = split_act env draw_time _ (λ seconds.
      split_bind env _ _ (split_create_msg m seconds (there sender) here)
        (λ k o. split_after_store m o))

  unfoldable pub split_check_sender :
      {known : List Fact} (b : Bool) (m : RawMessage)
      → (b ≡ true → In (account m.from) known)
      → Splits env known (check_sender env b m)
  unfolding check_sender check_receiver ask
  split_check_sender false m sender = split_pure env _
  split_check_sender true m sender =
      split_learn env (by_id m.to) _ (λ o. split_store_message m o (sender refl))

  unfoldable pub split_send_message :
      {known : List Fact} (r : SendMessageRequest) → Splits env known (handle_send_message env r)
  unfolding handle_send_message ask
  split_send_message {known} r = split_learn env (owner r.token) _ (λ uid.
      split_check_sender (int_eq uid r.message.from) r.message (λ same.
        subst (λ id. In (account id) (account uid ∷ known)) ((int_eq_iff uid r.message.from).0 same)
          here))

  unfoldable pub split_record_file :
      {known : List Fact} (id : Str) (to : ℤ) (m : Message)
      → Splits env known (run_record_file env id to m)
  unfolding run_record_file perform
  split_record_file id to m = split_atom env (put_file_msg id to m)

  unfoldable pub split_notify_online :
      {known : List Fact} (b : Bool) (to : ℤ) (m : Message)
      → Splits env known (notify_online env b to m)
  unfolding notify_online perform
  split_notify_online false to m = split_pure env _
  split_notify_online true to m = split_act env (ask_pools _) _ (λ o. split_push_task to o _)

  unfoldable pub split_notify :
      {known : List Fact} (to : ℤ) (m : Message) → Splits env known (run_notify env to m)
  unfolding run_notify perform
  split_notify to m = split_act env (ask_pools _) _ (λ b. split_notify_online b to m)

  unfoldable pub split_contact_message :
      {known : List Fact} (r : ContactMessageRequest)
      → Splits env known (handle_contact_message env r)
  unfolding handle_contact_message get_message perform
  split_contact_message r =
      split_act env (ask_pools _) _ (λ uid. split_act env (find _ _ _) _ (λ o. split_pure env _))
