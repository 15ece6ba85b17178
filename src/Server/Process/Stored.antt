-- ===== src/Server/Process/Stored.antt =====
-- What `processRecvSocket` as a whole does to the stored messages: whatever relates the messages
-- before and after one call of `createMsgByRawMsg`, and everything to itself, relates those before and
-- after a whole run.
use net_chat.Prelude.{
  ℕ, refl, subst, sym, Bool, true, false, Option, none, some, List, if◌then◌else◌,
}
use net_chat.Exec.{Exec, Result, ok, threw, aborted, continue, ◌>>=◌}
use net_chat.Exec.Preserves.{Preserves-pure, Preserves-gets}
use net_chat.Proto.{Packet, Content, RawMessage, SendMessageRequest, unpack_send_message}
use net_chat.Proto.PacketType.{PacketType, packet_type, send_message_request}
use net_chat.Entities.{User}
use net_chat.Sql.{Row, messages}
use net_chat.DataAccess.{get_user, create_msg_by_raw_msg}
use net_chat.DataAccess.Untouched.{select_first-Preserves}
use net_chat.Server.State.{Env, Server, on_db}
use net_chat.Server.Messaging.{handle_send_message, check_sender, check_receiver, store_message}
use net_chat.Server.Process.{dispatch, answer_packet, on_received, process_recv_socket}
use net_chat.Server.Process.Aftermath.{finish-Quiet}
use net_chat.Server.Process.Quiet.{
  log, Quiet, dispatch-Quiet, after_store-Quiet, on_db-Quiet, on_van-Quiet,
}

PacketType-discrete : Discrete PacketType
PacketType-discrete = hlevel

module _ (env : Env) (R : List Row → List Row → Type 0) (same : (rs : List Row) → R rs rs) where
  open env use {sqlite, net}

  -- How the stored messages before and after are related, whether the code returns or not.
  pub record Relates {A : Type 0} (m : Exec (Server env) A) : Type 0 where
    pub at : (s : Server env) → R (log env s) (log env (m s).1)

  Relates-Quiet : {A : Type 0} (m : Exec (Server env) A) → Quiet env m → Relates m
  Relates-Quiet m q = record { at = λ s. subst (R (log env s)) (sym (q.at s)) (same (log env s)) }

  first-Quiet :
      {A B : Type 0} (r : Result A) (f : A → Exec (Server env) B) (s : Server env)
      → ((a : A) → Relates (f a))
      → R (log env s) (log env (continue r f s).1)
  first-Quiet (ok a) f s k = (k a).at s
  first-Quiet threw f s k = same (log env s)
  first-Quiet aborted f s k = same (log env s)

  Relates-bind :
      {A B : Type 0} (m : Exec (Server env) A) (f : A → Exec (Server env) B)
      → Quiet env m
      → ((a : A) → Relates (f a))
      → Relates (m >>= f)
  unfolding ◌>>=◌
  Relates-bind m f q k = record {
    at = λ s.
        subst (λ x. R x (log env (continue (m s).0 f (m s).1).1)) (q.at s)
          (first-Quiet (m s).0 f (m s).1 k);
  }

  then-Quiet :
      {A B : Type 0} (r : Result A) (f : A → Exec (Server env) B) (s : Server env) (rs : List Row)
      → ((a : A) → Quiet env (f a))
      → R rs (log env s)
      → R rs (log env (continue r f s).1)
  then-Quiet (ok a) f s rs q h = subst (R rs) (sym ((q a).at s)) h
  then-Quiet threw f s rs q h = h
  then-Quiet aborted f s rs q h = h

  Relates-then :
      {A B : Type 0} (m : Exec (Server env) A) (f : A → Exec (Server env) B)
      → Relates m
      → ((a : A) → Quiet env (f a))
      → Relates (m >>= f)
  unfolding ◌>>=◌
  Relates-then m f k q = record { at = λ s. then-Quiet (m s).0 f (m s).1 (log env s) q (k.at s) }

  Relates-if :
      {A : Type 0} (b : Bool) (m n : Exec (Server env) A)
      → Relates m
      → Relates n
      → Relates (if b then m else n)
  Relates-if true m n h k = h
  Relates-if false m n h k = k

module _ (env : Env) (R : List Row → List Row → Type 0) (same : (rs : List Row) → R rs rs)
    (create : (m : RawMessage) (seconds : ℕ) (db : env.sqlite.Db)
      → R
          (env.sqlite.rows db messages)
          (env.sqlite.rows (create_msg_by_raw_msg env.sqlite m seconds db).1 messages)) where
  open env use {sqlite, net}

  abbrev Does : {A : Type 0} → Exec (Server env) A → Type 0
  Does m = Relates env R same m

  create-Does :
      (m : RawMessage) (seconds : ℕ) → Does (on_db env (create_msg_by_raw_msg sqlite m seconds))
  create-Does m seconds = record { at = λ s. create m seconds s.db }

  store_message-Does : (m : RawMessage) (o : Option User) → Does (store_message env m o)
  unfolding store_message
  store_message-Does m none = Relates-Quiet env R same _ (Preserves-pure _)
  store_message-Does m (some u) =
      Relates-bind env R same _ _ (record { at = λ s. refl })
        (λ seconds.
          Relates-then env R same _ _ (create-Does m seconds) (λ o. after_store-Quiet env m o))

  check_sender-Does : (b : Bool) (m : RawMessage) → Does (check_sender env b m)
  unfolding check_sender check_receiver get_user
  check_sender-Does false m = Relates-Quiet env R same _ (Preserves-pure _)
  check_sender-Does true m =
      Relates-bind env R same _ _ (on_db-Quiet env _ (select_first-Preserves sqlite messages _ _ _))
        (λ o. store_message-Does m o)

  handle_send_message-Does : (r : SendMessageRequest) → Does (handle_send_message env r)
  unfolding handle_send_message
  handle_send_message-Does r =
      Relates-bind env R same _ _ (Preserves-gets _) (λ uid. check_sender-Does _ r.message)

  dispatch_send-Does : (c : Option Content) → Does (dispatch env (some send_message_request) c)
  unfolding dispatch
  dispatch_send-Does c =
      Relates-then env R same _ _ (handle_send_message-Does (unpack_send_message c))
        (λ r. Preserves-pure _)

  dispatch-Does : (t : Option PacketType) (c : Option Content) → Does (dispatch env t c)
  unfolding dispatch
  dispatch-Does (some t) c = elim (PacketType-discrete t send_message_request) [
    | yes e ↦ subst (λ x. Does (dispatch env (some x) c)) (sym e) (dispatch_send-Does c)
    | no h ↦ Relates-Quiet env R same _ (dispatch-Quiet env (some t) c (λ e. h (cc e)))
  ]
  dispatch-Does none c = Relates-Quiet env R same _ (dispatch-Quiet env none c (λ e. cc e))

  answer_packet-Does : (fd : ℕ) (x : ℕ × Packet) → Does (answer_packet env fd x)
  unfolding answer_packet
  answer_packet-Does fd (n, p) =
      Relates-if env R same _ _ _ (Relates-Quiet env R same _ (Preserves-pure _)) (
        Relates-then env R same _ _ (dispatch-Does (packet_type p.packet_id) p.content)
          (λ o. finish-Quiet env o fd))

  on_received-Does : (fd : ℕ) (o : Option (ℕ × Packet)) → Does (on_received env fd o)
  unfolding on_received
  on_received-Does fd none = Relates-Quiet env R same _ (Preserves-pure _)
  on_received-Does fd (some x) = answer_packet-Does fd x

  process_recv_socket-Does : (fd : ℕ) → Does (process_recv_socket env fd)
  unfolding process_recv_socket
  process_recv_socket-Does fd =
      Relates-bind env R same _ _ (on_van-Quiet env _) (λ o. on_received-Does fd o)

  pub process_recv_socket-Relates :
      (fd : ℕ) (s : Server env) → R (log env s) (log env (process_recv_socket env fd s).1)
  process_recv_socket-Relates fd s = (process_recv_socket-Does fd).at s
