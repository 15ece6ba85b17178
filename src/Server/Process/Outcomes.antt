-- ===== src/Server/Process/Outcomes.antt =====
-- The ways in which the handling of one packet ends.
use net_chat.Prelude.{
  ℕ, ◌≡◌, refl, sym, ◌∙◌, ap, [], ◌∷◌, ◌++◌, Option, none, some, ℤ, codes, ◌⊎◌, inl, inr,
}
use mathlib.Core.List.{append_assoc}
use net_chat.Exec.{Exec, Result, ok}
use net_chat.Exec.Inversion.{bind_ok, bind-inv, pure-inv}
use net_chat.Proto.{Packet}
use net_chat.Van.{unwatched, shut, Van, send_failed, van_recv, control}
use net_chat.Van.Closing.{actions-control_epoll, actions-control_close}
use net_chat.Server.State.{Env, Server, Callback, on_van}
use net_chat.Server.Process.{after_send, answer_packet, on_received, process_recv_socket}

module _ (env : Env) where
  open env use {net}

  on_van-run :
      {A : Type 0} (m : Exec Van A) (s : Server env) (r : Result A) (v : Van)
      → m s.van ≡ (r, v)
      → on_van env m s ≡ (r, record s { van = v })
  on_van-run m s r v e = ap (λ p. (p.0, record s { van = p.1 })) e

  silent :
      (fd : ℕ) (s : Server env) (o : Option (ℕ × Packet))
      → (o ≡ none) ⊎ ((p : Packet) × (o ≡ some (0, p)))
      → on_received env fd o s ≡ (ok tt, s)
  unfolding on_received answer_packet
  silent fd s o (inl n) = rw n refl
  silent fd s o (inr (p, n)) = rw n refl

  -- When RecvMesg fails or the stream ends before a byte has come, processRecvSocket returns
  -- with nothing but the receiver's part of the state changed: nothing is sent, and the socket
  -- is neither taken out of epoll nor closed.
  pub process_recv_socket_silent :
      (fd : ℕ) (s : Server env) (v : Van) (received : Option (ℕ × Packet))
      → van_recv net fd s.van ≡ (ok received, v)
      → (received ≡ none) ⊎ ((p : Packet) × (received ≡ some (0, p)))
      → process_recv_socket env fd s ≡ (ok tt, record s { van = v })
  unfolding process_recv_socket
  process_recv_socket_silent fd s v received e h =
      bind_ok (on_van env (van_recv net fd)) (on_received env fd) s (record s { van = v }) received
        (on_van-run (van_recv net fd) s (ok received) v e)
      ∙ silent fd (record s { van = v }) received h

  control_epoll-inv :
      (fd : ℕ) (s s' : Server env) (z : ℤ)
      → on_van env (control net fd (codes "EPOLL_DEL_FD")) s ≡ (ok z, s')
      → (s'.db ≡ s.db)
        × (s'.pools ≡ s.pools)
        × (s'.van.actions ≡ s.van.actions ++ unwatched fd ∷ [])
  control_epoll-inv fd s s' z e = (
    ap (λ p. p.1.db) (sym e),
    ap (λ p. p.1.pools) (sym e),
    ap (λ p. p.1.van.actions) (sym e) ∙ actions-control_epoll net fd s.van,
  )

  control_close-inv :
      (fd : ℕ) (s s' : Server env) (z : ℤ)
      → on_van env (control net fd (codes "CLOSE_FD")) s ≡ (ok z, s')
      → (s'.db ≡ s.db) × (s'.pools ≡ s.pools) × (s'.van.actions ≡ s.van.actions ++ shut fd ∷ [])
  control_close-inv fd s s' z e = (
    ap (λ p. p.1.db) (sym e),
    ap (λ p. p.1.pools) (sym e),
    ap (λ p. p.1.van.actions) (sym e) ∙ actions-control_close net fd s.van,
  )

  -- When the reply cannot be sent and the clean-up returns, the socket has been taken out of
  -- epoll and then closed, and the callback has not run: the database and the pools are as the
  -- handler left them.
  pub after_send_failed :
      (callback : Option Callback) (fd : ℕ) (s s' : Server env)
      → after_send env callback fd send_failed s ≡ (ok tt, s')
      → (s'.db ≡ s.db)
        × (s'.pools ≡ s.pools)
        × (s'.van.actions ≡ s.van.actions ++ unwatched fd ∷ shut fd ∷ [])
  unfolding after_send
  after_send_failed callback fd s s' e =
      let (x, t, freed, e1) = bind-inv _ _ s s' tt e in
      let (y, u, closed_, e2) = bind-inv _ _ t s' tt e1 in
      let (_, last) = pure-inv tt tt u s' e2 in
      let (db, pools, acts) = control_epoll-inv fd s t x freed in
      let (db', pools', acts') = control_close-inv fd t u y closed_ in
      (
        ap (λ x. x.db) (sym last) ∙ db' ∙ db,
        ap (λ x. x.pools) (sym last) ∙ pools' ∙ pools,
        ap (λ x. x.van.actions) (sym last)
            ∙ acts'
            ∙ ap (λ l. l ++ shut fd ∷ []) acts
            ∙ append_assoc s.van.actions (unwatched fd ∷ []) (shut fd ∷ []),
      )
