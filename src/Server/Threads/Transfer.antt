-- ===== src/Server/Threads/Transfer.antt =====
-- Files, with the callback of an upload, split into steps.
use net_chat.Prelude.{false, List, Option, none, some, Str, ℤ}
use net_chat.Exec.{pure}
use net_chat.Proto.{File, Message, FileUploadRequest, FileDownloadRequest, no_file}
use net_chat.Entities.{StoredFile}
use net_chat.DataAccess.{get_file}
use net_chat.UserManager.{Sender}
use net_chat.FileStorage.{save_to_disk, load_into_proto}
use net_chat.Server.State.{Env, on_disk}
use net_chat.Server.Transfer.{
  handle_file_upload, handle_file_download, upload_known, upload_registered, save_if_absent,
  download_known, download_registered, load_if_there, run_forward_file, forward_to, forward,
}
use net_chat.Server.Threads.{
  Fact, Splits, perform, file, find, set_file, ask_pools, put_task, drop_file_msg,
}
use net_chat.Server.Threads.Rules.{split_pure, split_act, split_atom, split_bind, split_if}

module _ (env : Env) where
  open env use {files, queues}

  unfoldable pub split_save_if_absent :
      {known : List Fact} (f : StoredFile) (upload : File)
      → Splits env known (save_if_absent env f upload)
  unfolding save_if_absent perform
  split_save_if_absent f upload = split_act env (file _) _ (λ there.
      split_if env there (pure false) (on_disk env (save_to_disk files f upload)) (split_pure env _)
        (split_atom env (file (save_to_disk files f upload))))

  unfoldable pub split_upload_registered :
      {known : List Fact} (r : FileUploadRequest) (o : Option StoredFile)
      → Splits env known (upload_registered env r o)
  unfolding upload_registered perform
  split_upload_registered r none = split_pure env _
  split_upload_registered r (some f) =
      split_bind env _ _ (split_save_if_absent _ _)
        (λ k b. split_act env (set_file _) _ (λ u. split_pure env _))

  unfoldable pub split_upload :
      {known : List Fact} (r : FileUploadRequest) → Splits env known (handle_file_upload env r)
  unfolding handle_file_upload upload_known get_file perform
  split_upload r = split_act env (ask_pools _) _ (λ uid.
      split_if env _ _ _ (split_pure env _)
        (split_act env (find _ _ _) _ (λ o. split_upload_registered r o)))

  unfoldable pub split_download_registered :
      {known : List Fact} (o : Option StoredFile) → Splits env known (download_registered env o)
  unfolding download_registered load_if_there perform
  split_download_registered none = split_pure env _
  split_download_registered (some f) = split_act env (file _) _ (λ there.
      split_bind env _ _
        (split_if env there (on_disk env (load_into_proto files f no_file)) (pure (false, no_file))
          (split_atom env (file (load_into_proto files f no_file))) (split_pure env _))
        (λ k l. split_pure env _))

  unfoldable pub split_download :
      {known : List Fact} (r : FileDownloadRequest) → Splits env known (handle_file_download env r)
  unfolding handle_file_download download_known get_file perform
  split_download r = split_act env (ask_pools _) _ (λ uid.
      split_if env _ _ _ (split_pure env _)
        (split_act env (find _ _ _) _ (λ o. split_download_registered o)))

  unfoldable pub split_forward :
      {known : List Fact} (uid : ℤ) (m : Message) (o : Option (Sender queues))
      → Splits env known (forward env uid m o)
  unfolding forward perform
  split_forward uid m none = split_pure env _
  split_forward uid m (some s) = split_atom env (put_task uid s _)

  unfoldable pub split_forward_to :
      {known : List Fact} (id : Str) (x : ℤ × Message) → Splits env known (forward_to env id x)
  unfolding forward_to perform
  split_forward_to id (uid, m) = split_if env _ _ _ (split_pure env _) (
      split_act env (drop_file_msg id) _
        (λ _. split_act env (ask_pools _) _ (λ o. split_forward uid m o)))

  unfoldable pub split_forward_file :
      {known : List Fact} (id : Str) → Splits env known (run_forward_file env id)
  unfolding run_forward_file perform
  split_forward_file id = split_act env (ask_pools _) _ (λ x. split_forward_to id x)
