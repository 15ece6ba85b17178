-- ===== src/Server/Process/Quiet.antt =====
-- Which packets leave the messages table as it was: every one but SendMessageRequest.
use net_chat.Prelude.{◌≢◌, refl, false, Option, none, some, List, Str, ℤ}
use net_chat.Exec.{Exec, pure}
use net_chat.Exec.Preserves.{
  Preserves, Preserves-pure, Preserves-gets, Preserves-bind, Preserves-if,
}
use net_chat.Proto.{
  Content, Message, RawMessage, RegisterRequest, LoginRequest, FileUploadRequest,
  FileDownloadRequest, ContactMessageRequest, no_file,
}
use net_chat.Proto.PacketType.{
  PacketType, server_status_request, server_status_update_request, login_pre_request, login_request,
  setup_channel_request, send_message_request, contact_message_request, file_upload_request,
  file_download_request, register_request,
}
use net_chat.Entities.{User, StoredFile}
use net_chat.Sql.{Row, messages}
use net_chat.DataAccess.{get_user_by_name, get_message, get_file}
use net_chat.DataAccess.Untouched.{
  table, select_first-Preserves, create_user-Preserves, create_file-Preserves,
  update_file-Preserves,
}
use net_chat.FileStorage.{save_to_disk, load_into_proto}
use net_chat.UserManager.{Pools}
use net_chat.Van.{Van}
use net_chat.Server.State.{Env, Server, Reply, on_db, on_disk, on_van, on_pools}
use net_chat.Server.Account.{
  handle_server_status, handle_server_status_update, handle_register, register_user,
  handle_login_pre, new_challenge, handle_login, log_in, grant, gen_token, init_sodium,
}
use net_chat.Server.Messaging.{
  handle_setup_channel, handle_contact_message, after_store, register_file,
}
use net_chat.Server.Transfer.{
  handle_file_upload, handle_file_download, upload_known, upload_registered, save_if_absent,
  download_known, download_registered, load_if_there, renamed,
}
use net_chat.Server.Process.{dispatch, replying}

module _ (env : Env) where
  open env use {sqlite, files, queues, net}

  -- the messages that the server stores
  abbrev pub log : Server env → List Row
  log s = sqlite.rows s.db messages

  abbrev pub Quiet : {A : Type 0} → Exec (Server env) A → Type 0
  Quiet m = Preserves log m

  pub on_db-Quiet :
      {A : Type 0} (m : Exec sqlite.Db A)
      → Preserves (table sqlite messages) m
      → Quiet (on_db env m)
  on_db-Quiet m h = record { at = λ s. h.at s.db }

  on_disk-Quiet : {A : Type 0} (m : Exec env.files.Disk A) → Quiet (on_disk env m)
  on_disk-Quiet m = record { at = λ s. refl }

  pub on_van-Quiet : {A : Type 0} (m : Exec Van A) → Quiet (on_van env m)
  on_van-Quiet m = record { at = λ s. refl }

  pub on_pools-Quiet : (f : Pools queues → Pools queues) → Quiet (on_pools env f)
  on_pools-Quiet f = record { at = λ s. refl }

  get_user_by_name-Quiet : (name : Str) → Quiet (on_db env (get_user_by_name sqlite name))
  unfolding get_user_by_name
  get_user_by_name-Quiet name = on_db-Quiet _ (select_first-Preserves sqlite messages _ _ _)

  handle_register-Quiet : (r : RegisterRequest) → Quiet (handle_register env r)
  unfolding handle_register register_user
  handle_register-Quiet r =
      Preserves-bind _ _
        (Preserves-if _ _ _
          (Preserves-bind _ _ (record { at = λ s. refl })
            (λ h. on_db-Quiet _ (create_user-Preserves sqlite messages _ (λ e. cc e))))
          (Preserves-pure _))
        (λ b. Preserves-pure _)

  new_challenge-Quiet : (o : Option User) → Quiet (new_challenge env o)
  unfolding new_challenge
  new_challenge-Quiet none = Preserves-pure _
  new_challenge-Quiet (some u) =
      Preserves-bind _ _ (record { at = λ s. refl })
        (λ t. Preserves-bind _ _ (on_pools-Quiet _) (λ _. Preserves-pure _))

  handle_login_pre-Quiet : (name : Str) → Quiet (handle_login_pre env name)
  unfolding handle_login_pre
  handle_login_pre-Quiet name =
      Preserves-bind _ _ (get_user_by_name-Quiet name)
        (λ o. Preserves-bind _ _ (new_challenge-Quiet o) (λ c. Preserves-pure _))

  grant-Quiet : (id : ℤ) → Quiet (grant env id)
  unfolding grant gen_token init_sodium
  grant-Quiet id =
      Preserves-bind _ _
        (Preserves-bind _ _ (record { at = λ s. refl }) (λ _. record { at = λ s. refl }))
        (λ t. Preserves-bind _ _ (on_pools-Quiet _) (λ _. Preserves-pure _))

  log_in-Quiet : (p : Str) (o : Option User) → Quiet (log_in env p o)
  unfolding log_in
  log_in-Quiet p none = Preserves-pure _
  log_in-Quiet p (some u) = Preserves-bind _ _ (Preserves-gets _) (λ t.
      Preserves-bind _ _ (record { at = λ s. refl })
        (λ e.
          Preserves-bind _ _ (Preserves-if _ _ _ (grant-Quiet _) (Preserves-pure _))
            (λ r. Preserves-bind _ _ (on_pools-Quiet _) (λ _. Preserves-pure _))))

  handle_login-Quiet : (r : LoginRequest) → Quiet (handle_login env r)
  unfolding handle_login
  handle_login-Quiet r =
      Preserves-bind _ _ (get_user_by_name-Quiet _)
        (λ o. Preserves-bind _ _ (log_in-Quiet _ o) (λ c. Preserves-pure _))

  handle_contact_message-Quiet : (r : ContactMessageRequest) → Quiet (handle_contact_message env r)
  unfolding handle_contact_message get_message
  handle_contact_message-Quiet r = Preserves-bind _ _ (Preserves-gets _) (λ uid.
      Preserves-bind _ _ (on_db-Quiet _ (select_first-Preserves sqlite messages _ _ _))
        (λ o. Preserves-pure _))

  handle_setup_channel-Quiet : (token : Str) → Quiet (handle_setup_channel env token)
  unfolding handle_setup_channel
  handle_setup_channel-Quiet token = Preserves-bind _ _ (Preserves-gets _) (λ uid. Preserves-pure _)

  get_file-Quiet : (id : Str) → Quiet (on_db env (get_file sqlite id))
  unfolding get_file
  get_file-Quiet id = on_db-Quiet _ (select_first-Preserves sqlite messages _ _ _)

  upload_registered-Quiet :
      (r : FileUploadRequest) (o : Option StoredFile) → Quiet (upload_registered env r o)
  unfolding upload_registered save_if_absent
  upload_registered-Quiet r none = Preserves-pure _
  upload_registered-Quiet r (some f) =
      Preserves-bind _ _
        (Preserves-bind _ _ (on_disk-Quiet _) (λ there.
          Preserves-if there (pure false) (on_disk env (save_to_disk files (renamed f r) r.file))
            (Preserves-pure _) (on_disk-Quiet _)))
        (λ b.
          Preserves-bind _ _ (on_db-Quiet _ (update_file-Preserves sqlite messages _ (λ e. cc e)))
            (λ u. Preserves-pure _))

  handle_file_upload-Quiet : (r : FileUploadRequest) → Quiet (handle_file_upload env r)
  unfolding handle_file_upload upload_known
  handle_file_upload-Quiet r = Preserves-bind _ _ (Preserves-gets _) (λ uid.
      Preserves-if _ _ _ (Preserves-pure _)
        (Preserves-bind _ _ (get_file-Quiet _) (λ o. upload_registered-Quiet r o)))

  download_registered-Quiet : (o : Option StoredFile) → Quiet (download_registered env o)
  unfolding download_registered load_if_there
  download_registered-Quiet none = Preserves-pure _
  download_registered-Quiet (some f) = Preserves-bind _ _ (on_disk-Quiet _) (λ there.
      Preserves-bind _ _
        (Preserves-if there (on_disk env (load_into_proto files f no_file)) (pure (false, no_file))
          (on_disk-Quiet _) (Preserves-pure _))
        (λ l. Preserves-pure _))

  handle_file_download-Quiet : (r : FileDownloadRequest) → Quiet (handle_file_download env r)
  unfolding handle_file_download download_known
  handle_file_download-Quiet r = Preserves-bind _ _ (Preserves-gets _) (λ uid.
      Preserves-if _ _ _ (Preserves-pure _)
        (Preserves-bind _ _ (get_file-Quiet _) (λ o. download_registered-Quiet o)))

  pub after_store-Quiet : (m : RawMessage) (o : Option Message) → Quiet (after_store env m o)
  unfolding after_store register_file
  after_store-Quiet m none = Preserves-pure _
  after_store-Quiet m (some msg) =
      Preserves-if _ _ _
        (Preserves-bind _ _ (record { at = λ s. refl })
          (λ uuid.
            Preserves-bind _ _ (on_db-Quiet _ (create_file-Preserves sqlite messages _ (λ e. cc e)))
              (λ o. Preserves-pure _)))
        (Preserves-pure _)

  replying-Quiet : (m : Exec (Server env) Reply) → Quiet m → Quiet (replying m)
  replying-Quiet m h = Preserves-bind _ _ h (λ r. Preserves-pure _)

  -- No packet but SendMessageRequest changes the messages table through the switch, whether
  -- its handling returns, throws or ends the process.
  pub dispatch-Quiet :
      (t : Option PacketType) (c : Option Content)
      → t ≢ some send_message_request
      → Quiet (dispatch env t c)
  unfolding dispatch handle_server_status handle_server_status_update
  dispatch-Quiet (some server_status_request) c h = replying-Quiet _ (Preserves-pure _)
  dispatch-Quiet (some server_status_update_request) c h = replying-Quiet _ (Preserves-pure _)
  dispatch-Quiet (some register_request) c h = replying-Quiet _ (handle_register-Quiet _)
  dispatch-Quiet (some login_pre_request) c h = replying-Quiet _ (handle_login_pre-Quiet _)
  dispatch-Quiet (some login_request) c h = replying-Quiet _ (handle_login-Quiet _)
  dispatch-Quiet (some setup_channel_request) c h = replying-Quiet _ (handle_setup_channel-Quiet _)
  dispatch-Quiet (some send_message_request) c h = absurd (h refl)
  dispatch-Quiet (some file_upload_request) c h = replying-Quiet _ (handle_file_upload-Quiet _)
  dispatch-Quiet (some file_download_request) c h = replying-Quiet _ (handle_file_download-Quiet _)
  dispatch-Quiet (some contact_message_request) c h =
      replying-Quiet _ (handle_contact_message-Quiet _)
  dispatch-Quiet _ c h = Preserves-pure _
