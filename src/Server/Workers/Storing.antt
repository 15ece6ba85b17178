-- ===== src/Server/Workers/Storing.antt =====
-- What a step of a worker does to the messages table.
use net_chat.Prelude.{ℕ, ◌≡◌, refl, ap, ◌∙◌, inl, inr, List, [], ◌∷◌, ◌++◌, ℤ, inc, to_int}
use net_chat.Proto.{Message}
use net_chat.Sql.{Row, messages}
use net_chat.DataAccess.Numbering.{stored, create_msg-cases}
use net_chat.DataAccess.Untouched.{
  select_first-Preserves, select_all-Preserves, create_user-Preserves, create_file-Preserves,
  update_file-Preserves,
}
use net_chat.Server.State.{Env, Server}
use net_chat.Server.Account.{init_sodium}
use net_chat.Server.Threads.{
  Fact, user, account, ids_up_to, In, Op, perform, socket, file, find, find_all, add_user,
  add_message, add_file, set_file, ask_pools, put_challenge, drop_challenge, put_sender, put_task,
  put_file_msg, drop_file_msg, put_token, draw_uuid, draw_time, hash_text, start_sodium, stop,
}

-- Nothing, or one message more, from and to whom the worker knows, under the number after the largest that
-- it has read.
pub data Stores (known : List Fact) (before after : List Row) : Type 0 where
  left_alone : after ≡ before → Stores known before after
  stores :
      (m : Message) (z : ℤ) (id : ℕ)
      → In (ids_up_to m.message.from m.message.to z) known
      → m.internal_id ≡ inc z
      → In (account m.message.from) known
      → In (user (to_int m.message.to)) known
      → after ≡ before ++ stored id m ∷ []
      → Stores known before after

module _ (env : Env) where
  open env use {sqlite}

  pub perform-messages :
      {known : List Fact} {B : Type 0} (o : Op env known B) (s : Server env)
      → Stores known (sqlite.rows s.db messages) (sqlite.rows (perform env o s).1.db messages)
  unfolding perform init_sodium
  perform-messages (add_message m z read next sender receiver) s =
      elim (create_msg-cases sqlite m s.db) [
        | inl (db', e, added) ↦
            stores m z (sqlite.last_insert_rowid db') read next sender receiver
              (ap (λ p. sqlite.rows p.1 messages) e ∙ added)
        | inr e ↦ left_alone (ap (λ p. sqlite.rows p.1 messages) e)
      ]
  perform-messages (find t conds read) s =
      left_alone ((select_first-Preserves sqlite messages t conds read).at s.db)
  perform-messages (find_all t conds read) s =
      left_alone ((select_all-Preserves sqlite messages t conds read).at s.db)
  perform-messages (add_user u) s =
      left_alone ((create_user-Preserves sqlite messages u (λ e. cc e)).at s.db)
  perform-messages (add_file uuid) s =
      left_alone ((create_file-Preserves sqlite messages uuid (λ e. cc e)).at s.db)
  perform-messages (set_file f) s =
      left_alone ((update_file-Preserves sqlite messages f (λ e. cc e)).at s.db)
  perform-messages (socket m) s = left_alone refl
  perform-messages (file m) s = left_alone refl
  perform-messages (ask_pools f) s = left_alone refl
  perform-messages (put_challenge id c) s = left_alone refl
  perform-messages (drop_challenge id) s = left_alone refl
  perform-messages (put_sender id fd) s = left_alone refl
  perform-messages (put_task id sender p) s = left_alone refl
  perform-messages (put_file_msg id uid m) s = left_alone refl
  perform-messages (drop_file_msg id) s = left_alone refl
  perform-messages (put_token token id found) s = left_alone refl
  perform-messages draw_uuid s = left_alone refl
  perform-messages draw_time s = left_alone refl
  perform-messages (hash_text text) s = left_alone refl
  perform-messages start_sodium s = left_alone refl
  perform-messages stop s = left_alone refl
