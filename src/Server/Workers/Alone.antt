-- ===== src/Server/Workers/Alone.antt =====
-- What the workers do one after another they may do beside one another: a life in which each run of
-- `processRecvSocket` is one step is one of the interleavings.
use net_chat.Prelude.{ℕ, ◌≡◌, refl, ap, subst, ◌∙◌, List, [], ◌∷◌, ◌++◌}
use net_chat.Exec.{ok}
use net_chat.Exec.Inversion.{bind-inv}
use net_chat.Server.State.{Env, Server}
use net_chat.Server.Process.{process_recv_socket}
use net_chat.Server.EventLoop.{System, Evolves, rest, event, work_done}
use net_chat.Server.Threads.{Fact, Code, give, act, learn, ask, perform, run}
use net_chat.Server.Threads.Process.{split_process}
use net_chat.Server.Workers

module _ (env : Env) where
  open env use {sqlite}

  abbrev with_worker :
      System env
      → List (Workers.Worker env)
      → Workers.Worker env
      → List (Workers.Worker env)
      → Workers.Crew env
  with_worker sys before w after = record { system = sys; workers = before ++ w ∷ after }

  -- A worker that is alone in moving ends where its run ends.
  run_alone :
      (known : List Fact) (c : Code env (Unit {0}) known) (before after : List (Workers.Worker env))
      (sys : System env) (t : Server env)
      → run env c sys.server ≡ (ok tt, t)
      → (k : List Fact) × Workers.Interleaves env
          (with_worker sys before (Workers.busy known c) after)
          (with_worker (record sys { server = t }) before (Workers.busy k (give tt)) after)
  unfolding run
  run_alone known (give a) before after sys t e = (
    known,
    subst
        (λ x.
          Workers.Interleaves env (with_worker sys before (Workers.busy known (give a)) after)
            (with_worker (record sys { server = x }) before (Workers.busy known (give tt)) after))
        (ap (λ p. p.1) e) Workers.halt,
  )
  run_alone known (act o k) before after sys t e =
      let (b, s, did, then) = bind-inv (perform env o) (λ b. run env (k b)) sys.server t tt e in
      let (l, more) = run_alone known (k b) before after (record sys { server = s }) t then in
      (l, Workers.move (Workers.work before after known o k b s refl did) more)
  run_alone known (learn q k) before after sys t e =
      let (a, s, did, then) = bind-inv (ask env q) (λ a. run env (k a)) sys.server t tt e in
      let (l, more) = run_alone _ (k a) before after (record sys { server = s }) t then in
      (l, Workers.move (Workers.learns before after known q k a s refl did) more)

  call_alone :
      (before after : List (Workers.Worker env)) (sys : System env) (fd : ℕ) (left : List ℕ)
      (t : Server env)
      → sys.work ≡ fd ∷ left
      → process_recv_socket env fd sys.server ≡ (ok tt, t)
      → Workers.Interleaves env
          (with_worker sys before Workers.idle after)
          (with_worker (record { server = t; work = left }) before Workers.idle after)
  call_alone before after sys fd left t waits done =
      let (k, steps) =
        run_alone [] (split_process env fd).code before after (record sys { work = left }) t
          ((split_process env fd).same sys.server ∙ done) in
      Workers.move (Workers.fetch before after fd left refl waits) (
        Workers.Interleaves-trans env steps
          (Workers.move (Workers.finished before after k refl) Workers.halt))

  pub Evolves-Interleaves :
      {s u : System env} {n : ℕ} (before after : List (Workers.Worker env))
      → Evolves env s u n
      → Workers.Interleaves env
          (with_worker s before Workers.idle after)
          (with_worker u before Workers.idle after)
  Evolves-Interleaves before after rest = Workers.halt
  Evolves-Interleaves before after (event {t = t} e did more) =
      Workers.move (Workers.event e t did) (Evolves-Interleaves before after more)
  Evolves-Interleaves before after (work_done {s = s} fd left t waits done more) =
      Workers.Interleaves-trans env (call_alone before after s fd left t waits done)
        (Evolves-Interleaves before after more)
