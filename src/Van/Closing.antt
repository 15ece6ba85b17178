-- ===== src/Van/Closing.antt =====
-- `Control`: what its two commands do to a socket.
use net_chat.Prelude.{ℕ, ◌≡◌, refl, [], ◌∷◌, ◌++◌, codes, str_eq, Bool-cases, inl, inr}
use net_chat.Van.{Network, Van, unwatched, shut, control, control_epoll_del, close_fd}

module _ (net : Network) (fd : ℕ) where
  pub actions-control_epoll :
      (v : Van)
      → (control net fd (codes "EPOLL_DEL_FD") v).1.actions ≡ v.actions ++ unwatched fd ∷ []
  unfolding control control_epoll_del str_eq
  actions-control_epoll v = elim (Bool-cases (net.epoll_del v.calls fd)) [
    | inl e ↦ rw e refl
    | inr e ↦ rw e refl
  ]

  pub actions-control_close :
      (v : Van) → (control net fd (codes "CLOSE_FD") v).1.actions ≡ v.actions ++ shut fd ∷ []
  unfolding control close_fd str_eq
  actions-control_close v = refl
