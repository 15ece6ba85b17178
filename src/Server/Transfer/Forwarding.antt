-- ===== src/Server/Transfer/Forwarding.antt =====
-- A file message on its way: it is kept when it is sent, and goes to its receiver when the file has been
-- uploaded.
use mathlib.Core.Path.{subst₂}
use net_chat.Prelude.{
  ℕ, ◌≡◌, ◌≢◌, refl, sym, ◌∙◌, ap, subst, false, inl, inr, Option-cases, [], ◌∷◌, ◌++◌, Option,
  none, some, Str, ℤ, pos, int_eq, int_eq_iff, str_eq_iff, arith, str_key, int_key,
}
use net_chat.Exec.{Exec, ok, ◌>>=◌}
use net_chat.Exec.Preserves.{Preserves}
use net_chat.Exec.Returns.{Returns-eq}
use net_chat.Proto.{Message, Packet, SendMessageRequest, FileUploadRequest, no_message}
use net_chat.UserManager.{
  Pools, Sender, get_sender, set_file_msg, get_file_msg, del_file_msg, add_send_task,
}
use net_chat.UserManager.Channels.{get_sender-add_send_task}
use net_chat.UserManager.Sessions.{get_file_msg-del_file_msg, get_file_msg-set_file_msg}
use net_chat.Server.State.{Env, Server, Reply, Callback, record_file, forward_file}
use net_chat.Server.Messaging.{handle_send_message, run_record_file}
use net_chat.Server.Messaging.Notify.{news}
use net_chat.Server.Transfer.{handle_file_upload, run_forward_file, forward_to, forward}
use net_chat.Server.Transfer.Upload.{stored_reply}
use net_chat.Server.Transfer.Keeping.{
  pools, Keeps, IsFor, handle_file_upload-Preserves, handle_send_message-Preserves,
  handle_send_message-IsFor,
}
use net_chat.Server.Process.{run_callback}

module _ (env : Env) where
  open env use {queues}

  -- What becomes of a receiver's sender: the packet goes to the end of the queue that it has.
  unfoldable pub Reached : Packet → Option (Sender queues) → Option (Sender queues) → Type 0
  Reached p none later = later ≡ none
  Reached p (some c) later =
      (c' : Sender queues) × (later ≡ some c')
      × (c'.fd ≡ c.fd)
      × (queues.to_list c'.queue ≡ queues.to_list c.queue ++ p ∷ [])

  forwarded : Str → ℤ → Message → Option (Sender queues) → Pools queues → Pools queues
  forwarded id to msg none p = del_file_msg queues id p
  forwarded id to msg (some c) p =
      add_send_task queues to c (news env msg) (del_file_msg queues id p)

  get_sender-del_file_msg :
      (id : Str) (to : ℤ) (p : Pools queues)
      → get_sender queues to (del_file_msg queues id p) ≡ get_sender queues to p
  unfolding get_sender del_file_msg
  get_sender-del_file_msg id to p = refl

  get_file_msg-add_send_task :
      (id : Str) (to : ℤ) (c : Sender queues) (packet : Packet) (p : Pools queues)
      → get_file_msg queues id (add_send_task queues to c packet p) ≡ get_file_msg queues id p
  unfolding get_file_msg add_send_task
  get_file_msg-add_send_task id to c packet p = refl

  run_forward_file_lem :
      (id : Str) (to : ℤ) (msg : Message) (s : Server env)
      → get_file_msg queues id s.pools ≡ (to, msg)
      → to ≢ pos 0
      → run_forward_file env id s
        ≡ (ok tt, record s { pools = forwarded id to msg (get_sender queues to s.pools) s.pools })
  unfolding run_forward_file forward_to forward forwarded ◌>>=◌
  run_forward_file_lem id to msg s e h =
      let user : int_eq to (pos 0) ≡ false = ground (arith, int_eq_iff to (pos 0)) in
      elim (Option-cases (get_sender queues to s.pools)) [
        | inl absent ↦ rw (e, user, get_sender-del_file_msg id to s.pools, absent) refl
        | inr (c, there) ↦ rw (e, user, get_sender-del_file_msg id to s.pools, there) refl
      ]

  file_msg_gone :
      (id : Str) (to : ℤ) (msg : Message) (o : Option (Sender queues)) (p : Pools queues)
      → get_file_msg queues id (forwarded id to msg o p) ≡ (pos 0, no_message)
  unfolding forwarded
  file_msg_gone id to msg none p =
      get_file_msg-del_file_msg queues id id p ∙ rw ((str_eq_iff id id).1 refl) refl
  file_msg_gone id to msg (some c) p =
      get_file_msg-add_send_task id to c (news env msg) (del_file_msg queues id p)
      ∙ get_file_msg-del_file_msg queues id id p
      ∙ rw ((str_eq_iff id id).1 refl) refl

  receiver-Reached :
      (id : Str) (to : ℤ) (msg : Message) (o : Option (Sender queues)) (p : Pools queues)
      → get_sender queues to p ≡ o
      → Reached (news env msg) o (get_sender queues to (forwarded id to msg o p))
  unfolding Reached forwarded
  receiver-Reached id to msg none p e = get_sender-del_file_msg id to p ∙ e
  receiver-Reached id to msg (some c) p e =
      (get_sender-add_send_task queues to to c (news env msg) (del_file_msg queues id p)
        (get_sender-del_file_msg id to p ∙ e)).0

  others_untouched :
      (id : Str) (to other : ℤ) (msg : Message) (o : Option (Sender queues)) (p : Pools queues)
      → get_sender queues to p ≡ o
      → to ≢ other
      → get_sender queues other (forwarded id to msg o p) ≡ get_sender queues other p
  unfolding forwarded
  others_untouched id to other msg none p e apart = get_sender-del_file_msg id other p
  others_untouched id to other msg (some c) p e apart =
      (get_sender-add_send_task queues to other c (news env msg) (del_file_msg queues id p)
          (get_sender-del_file_msg id to p ∙ e)).1
        apart
      ∙ get_sender-del_file_msg id other p

  get_sender-set_file_msg :
      (id : Str) (to uid : ℤ) (msg : Message) (p : Pools queues)
      → get_sender queues uid (set_file_msg queues id to msg p) ≡ get_sender queues uid p
  unfolding get_sender set_file_msg
  get_sender-set_file_msg id to uid msg p = refl

  kept_file_msg :
      (id : Str) (to : ℤ) (msg : Message) (fd : ℕ) (o : Option Callback) (s s' : Server env)
      → o ≡ some (record_file id to msg)
      → run_callback env o fd s ≡ (ok tt, s')
      → set_file_msg queues id to msg s.pools ≡ s'.pools
  unfolding run_callback run_record_file
  kept_file_msg id to msg fd o s s' e run = ap (λ p. p.1.pools) (rw e at run)

  left_pools :
      {A : Type 0} (m : Exec (Server env) A) (s s' : Server env) (a : A)
      → Preserves (pools env) m
      → m s ≡ (ok a, s')
      → s'.pools ≡ s.pools
  left_pools m s s' a h e = ap (λ p. p.1.pools) (sym e) ∙ h.at s

  callback-Keeps :
      (to' to : ℤ) (id : Str) (msg : Message) (reply : Reply)
      → reply.callback ≡ some (record_file id to msg)
      → IsFor env to' reply
      → (to ≡ to') × (msg.message.content ≡ id)
  unfolding Keeps
  callback-Keeps to' to id msg reply e h = subst (Keeps env to') e h

  -- An image or a file from its message to its notice: when the message is answered with the
  -- callback that keeps it, the callback runs, an upload under the same id reports success and
  -- its callback runs, all one after another and for a receiver other than 0, then the message
  -- was kept for the receiver of the request with the id of the file as its content, it is at
  -- the end of the queue of a receiver with a sender, on the same socket, while a receiver
  -- without one has none afterwards either, no other sender has changed, and the message is
  -- kept no longer.
  pub handle_file_upload-handle_send_message :
      (r : SendMessageRequest) (up : FileUploadRequest) (s s0 s1 s2 s3 : Server env) (fd fd' : ℕ)
      (reply : Reply) (id : Str) (to : ℤ) (msg : Message)
      → handle_send_message env r s ≡ (ok reply, s0)
      → reply.callback ≡ some (record_file id to msg)
      → run_callback env reply.callback fd s0 ≡ (ok tt, s1)
      → handle_file_upload env up s1 ≡ (ok (stored_reply id), s2)
      → run_callback env (some (forward_file id)) fd' s2 ≡ (ok tt, s3)
      → r.message.to ≢ pos 0
      → (to ≡ r.message.to)
        × (msg.message.content ≡ id)
        × Reached (news env msg) (get_sender queues to s.pools) (get_sender queues to s3.pools)
        × ((other : ℤ)
            → to ≢ other
            → get_sender queues other s3.pools ≡ get_sender queues other s.pools)
        × (get_file_msg queues id s3.pools ≡ (pos 0, no_message))
  unfolding run_callback
  handle_file_upload-handle_send_message r up s s0 s1 s2 s3 fd fd' reply id to msg sends keeps
        records uploads forwards user =
      let (for, content) =
        callback-Keeps r.message.to to id msg reply keeps
          (Returns-eq _ s s0 reply (handle_send_message-IsFor env r) sends) in
      let p0 : s0.pools ≡ s.pools =
        left_pools _ s s0 reply (handle_send_message-Preserves env r) sends in
      let p1 : set_file_msg queues id to msg s0.pools ≡ s1.pools =
        kept_file_msg id to msg fd reply.callback s0 s1 keeps records in
      let p2 : s2.pools ≡ s1.pools =
        left_pools _ s1 s2 (stored_reply id) (handle_file_upload-Preserves env up) uploads in
      let before : s2.pools ≡ set_file_msg queues id to msg s.pools =
        p2 ∙ sym p1 ∙ ap (set_file_msg queues id to msg) p0 in
      let found : get_file_msg queues id s2.pools ≡ (to, msg) =
        ap (get_file_msg queues id) before
        ∙ get_file_msg-set_file_msg queues id id to msg s.pools
        ∙ rw ((str_eq_iff id id).1 refl) refl in
      let ran = run_forward_file_lem id to msg s2 found (rw for user) in
      let sender : (uid : ℤ) → get_sender queues uid s2.pools ≡ get_sender queues uid s.pools =
        λ uid. ap (get_sender queues uid) before ∙ get_sender-set_file_msg id to uid msg s.pools in
      let p3 : forwarded id to msg (get_sender queues to s2.pools) s2.pools ≡ s3.pools =
        ap (λ p. p.1.pools) (sym ran ∙ forwards) in
      (
        for,
        content,
        subst₂ (λ o p. Reached (news env msg) o (get_sender queues to p)) (sender to) p3
            (receiver-Reached id to msg _ s2.pools refl),
        λ other apart.
            ap (get_sender queues other) (sym p3)
            ∙ others_untouched id to other msg _ s2.pools refl apart
            ∙ sender other,
        ap (get_file_msg queues id) (sym p3) ∙ file_msg_gone id to msg _ s2.pools,
      )
