-- ===== src/Server/Threads/Account.antt =====
-- The cases ServerStatusRequest to LoginRequest, split into steps.
use net_chat.Prelude.{◌++◌, sym, List, Option, none, some, Str, ℤ}
use net_chat.Proto.{RegisterRequest, LoginRequest}
use net_chat.Entities.{User}
use net_chat.Server.State.{Env, next_uuid}
use net_chat.Server.Account.{
  handle_register, register_user, handle_login_pre, new_challenge, handle_login, log_in, grant,
  gen_token, init_sodium,
}
use net_chat.Server.Threads.{
  Fact, user, In, here, by_name, ask, learnt, Splits, perform, add_user, ask_pools, put_challenge,
  drop_challenge, put_token, draw_uuid, draw_time, hash_text, start_sodium,
}
use net_chat.Server.Threads.Rules.{
  bind_assoc, split_same, split_pure, split_act, split_atom, split_learn, split_bind, split_if,
}

module _ (env : Env) where
  unfoldable pub split_register :
      {known : List Fact} (r : RegisterRequest) → Splits env known (handle_register env r)
  unfolding handle_register register_user perform
  split_register r =
      split_bind env _ _
        (split_if env _ _ _ (split_act env (hash_text _) _ (λ h. split_atom env (add_user _)))
          (split_pure env _))
        (λ k b. split_pure env _)

  unfoldable pub split_new_challenge :
      {known : List Fact} (o : Option User) → Splits env known (new_challenge env o)
  unfolding new_challenge perform
  split_new_challenge none = split_pure env _
  split_new_challenge (some u) =
      split_act env draw_time _ (λ t. split_act env (put_challenge _ _) _ (λ _. split_pure env _))

  unfoldable pub split_login_pre :
      {known : List Fact} (name : Str) → Splits env known (handle_login_pre env name)
  unfolding handle_login_pre ask
  split_login_pre name =
      split_learn env (by_name name) _
        (λ o. split_bind env _ _ (split_new_challenge o) (λ k c. split_pure env _))

  unfoldable pub split_grant :
      {known : List Fact} (id : ℤ) → In (user id) known → Splits env known (grant env id)
  unfolding grant gen_token perform
  split_grant id found =
      split_same env _ _ (λ s. sym (bind_assoc (init_sodium env) (λ _. next_uuid env) _ s))
        (split_act env start_sodium _ (λ _.
          split_act env draw_uuid _
            (λ t. split_act env (put_token t id found) _ (λ _. split_pure env _))))

  unfoldable pub split_log_in :
      (known : List Fact) (name p : Str) (o : Option User)
      → Splits env (learnt (by_name name) o ++ known) (log_in env p o)
  unfolding log_in perform
  split_log_in known name p none = split_pure env _
  split_log_in known name p (some u) = split_act env (ask_pools _) _ (λ t.
      split_act env (hash_text _) _ (λ e.
        split_bind env _ _ (split_if env _ _ _ (split_grant u.id here) (split_pure env _))
          (λ k r. split_act env (drop_challenge _) _ (λ _. split_pure env _))))

  unfoldable pub split_login :
      {known : List Fact} (r : LoginRequest) → Splits env known (handle_login env r)
  unfolding handle_login ask
  split_login r =
      split_learn env (by_name r.username) _
        (λ o. split_bind env _ _ (split_log_in _ r.username _ o) (λ k c. split_pure env _))
