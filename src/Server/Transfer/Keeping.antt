-- ===== src/Server/Transfer/Keeping.antt =====
-- What the handlers of file messages and uploads leave in the pools, and for whom a file message is kept.
use net_chat.Prelude.{◌≡◌, refl, Bool, true, false, Option, none, some, Str, ℤ, str_key, int_key}
use net_chat.Exec.{pure}
use net_chat.Exec.Preserves.{
  Preserves, Preserves-pure, Preserves-gets, Preserves-bind, Preserves-if,
}
use net_chat.Exec.Returns.{Returns, Returns-pure, Returns-if, Returns-bind}
use net_chat.Proto.{File, Message, RawMessage, SendMessageRequest, FileUploadRequest}
use net_chat.Entities.{User, StoredFile}
use net_chat.FileStorage.{save_to_disk}
use net_chat.UserManager.{Pools}
use net_chat.Server.State.{Env, Server, Reply, Callback, record_file, on_disk}
use net_chat.Server.Messaging.{
  handle_send_message, check_sender, check_receiver, store_message, after_store, register_file,
  registered,
}
use net_chat.Server.Transfer.{
  handle_file_upload, upload_known, upload_registered, save_if_absent, renamed,
}

module _ (env : Env) where
  open env use {sqlite, files, queues}

  abbrev pub pools : Server env → Pools queues
  pools s = s.pools

  save_if_absent-Preserves :
      (f : StoredFile) (upload : File) → Preserves pools (save_if_absent env f upload)
  unfolding save_if_absent
  save_if_absent-Preserves f upload =
      Preserves-bind _ _ (record { at = λ s. refl })
        (λ there.
          Preserves-if there (pure false) (on_disk env (save_to_disk files f upload))
            (Preserves-pure _) (record { at = λ s. refl }))

  upload_registered-Preserves :
      (r : FileUploadRequest) (o : Option StoredFile) → Preserves pools (upload_registered env r o)
  unfolding upload_registered
  upload_registered-Preserves r none = Preserves-pure _
  upload_registered-Preserves r (some f) =
      Preserves-bind _ _ (save_if_absent-Preserves (renamed f r) r.file)
        (λ b. Preserves-bind _ _ (record { at = λ s. refl }) (λ u. Preserves-pure _))

  pub handle_file_upload-Preserves :
      (r : FileUploadRequest) → Preserves pools (handle_file_upload env r)
  unfolding handle_file_upload upload_known
  handle_file_upload-Preserves r = Preserves-bind _ _ (Preserves-gets _) (λ uid.
      Preserves-if _ _ _ (Preserves-pure _)
        (Preserves-bind _ _ (record { at = λ s. refl }) (λ o. upload_registered-Preserves r o)))

  register_file-Preserves : (to : ℤ) (m : Message) → Preserves pools (register_file env to m)
  unfolding register_file
  register_file-Preserves to m =
      Preserves-bind _ _ (record { at = λ s. refl })
        (λ uuid. Preserves-bind _ _ (record { at = λ s. refl }) (λ o. Preserves-pure _))

  after_store-Preserves :
      (m : RawMessage) (o : Option Message) → Preserves pools (after_store env m o)
  unfolding after_store
  after_store-Preserves m none = Preserves-pure _
  after_store-Preserves m (some msg) =
      Preserves-if _ _ _ (register_file-Preserves m.to msg) (Preserves-pure _)

  store_message-Preserves :
      (m : RawMessage) (o : Option User) → Preserves pools (store_message env m o)
  unfolding store_message
  store_message-Preserves m none = Preserves-pure _
  store_message-Preserves m (some u) =
      Preserves-bind _ _ (record { at = λ s. refl })
        (λ t. Preserves-bind _ _ (record { at = λ s. refl }) (λ o. after_store-Preserves m o))

  check_sender-Preserves : (b : Bool) (m : RawMessage) → Preserves pools (check_sender env b m)
  unfolding check_sender check_receiver
  check_sender-Preserves false m = Preserves-pure _
  check_sender-Preserves true m =
      Preserves-bind _ _ (record { at = λ s. refl }) (λ o. store_message-Preserves m o)

  pub handle_send_message-Preserves :
      (r : SendMessageRequest) → Preserves pools (handle_send_message env r)
  unfolding handle_send_message
  handle_send_message-Preserves r =
      Preserves-bind _ _ (Preserves-gets _) (λ uid. check_sender-Preserves _ r.message)

  -- A file message is kept for the receiver of the request, and its content is the id of the file.
  unfoldable pub Keeps : ℤ → Option Callback → Type 0
  Keeps to (some (record_file id receiver_id msg)) = (receiver_id ≡ to) × (msg.message.content ≡ id)
  Keeps to _ = Unit

  abbrev pub IsFor : ℤ → Reply → Type 0
  IsFor to reply = Keeps to reply.callback

  registered-IsFor : (to : ℤ) (m : Message) (o : Option Str) → IsFor to (registered env to m o)
  unfolding registered Keeps
  registered-IsFor to m none = tt
  registered-IsFor to m (some id) = (refl, refl)

  after_store-IsFor :
      (m : RawMessage) (o : Option Message) → Returns (IsFor m.to) (after_store env m o)
  unfolding after_store register_file Keeps
  after_store-IsFor m none = Returns-pure _ tt
  after_store-IsFor m (some msg) =
      Returns-if _ _ _
        (Returns-bind _ _
          (λ uuid. Returns-bind _ _ (λ o. Returns-pure _ (registered-IsFor m.to msg o))))
        (Returns-pure _ tt)

  store_message-IsFor :
      (m : RawMessage) (o : Option User) → Returns (IsFor m.to) (store_message env m o)
  unfolding store_message Keeps
  store_message-IsFor m none = Returns-pure _ tt
  store_message-IsFor m (some u) =
      Returns-bind _ _ (λ t. Returns-bind _ _ (λ o. after_store-IsFor m o))

  check_sender-IsFor : (b : Bool) (m : RawMessage) → Returns (IsFor m.to) (check_sender env b m)
  unfolding check_sender check_receiver Keeps
  check_sender-IsFor false m = Returns-pure _ tt
  check_sender-IsFor true m = Returns-bind _ _ (λ o. store_message-IsFor m o)

  pub handle_send_message-IsFor :
      (r : SendMessageRequest) → Returns (IsFor r.message.to) (handle_send_message env r)
  unfolding handle_send_message
  handle_send_message-IsFor r = Returns-bind _ _ (λ uid. check_sender-IsFor _ r.message)
