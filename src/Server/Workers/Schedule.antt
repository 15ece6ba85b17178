-- ===== src/Server/Workers/Schedule.antt =====
-- Interleavings that run: whose turn it is, one after another.
use mathlib.Core.List.{append_assoc}
use net_chat.Prelude.{ℕ, zero, suc, ◌≡◌, refl, ◌∙◌, sym, List, [], ◌∷◌, ◌++◌, Option, none, some, ℤ}
use net_chat.Exec.{Result, ok, threw, aborted}
use net_chat.Server.State.{Env, Server}
use net_chat.Server.EventLoop.{Event, System, handle_event}
use net_chat.Server.Threads.{Answer, ask, give, act, learn, perform}
use net_chat.Server.Workers
use net_chat.Server.Workers.{Worker, idle, busy, Crew, sender_round, Moves, Interleaves, halt, move}

-- `step n` is a step of the n-th worker.
pub data Turn : Type 0 where
  happen : Event → Turn
  send_one : ℤ → Turn
  step : ℕ → Turn

module _ (env : Env) where
  open env use {sqlite}

  -- Where a step leads, if it can be taken.
  abbrev After : Crew env → Type 1
  After c = Option ((d : Crew env) × Moves env c d)

  unfoldable after_event :
      (e : Event) (c : Crew env) (p : Result (Unit {0}) × System env)
      → handle_event env e c.system ≡ p
      → After c
  after_event e c (ok tt, s) did = some (record c { system = s }, Workers.event e s did)
  after_event e c (threw, s) did = none
  after_event e c (aborted, s) did = none

  unfoldable after_round :
      (uid : ℤ) (c : Crew env) (p : Result (Unit {0}) × Server env)
      → sender_round env uid c.system.server ≡ p
      → After c
  after_round uid c (ok tt, s) did = some (_, Workers.send uid s did)
  after_round uid c (threw, s) did = none
  after_round uid c (aborted, s) did = none

  unfoldable after_fetch :
      (c : Crew env) (before after : List (Worker env)) (work : List ℕ)
      → c.workers ≡ before ++ idle ∷ after
      → c.system.work ≡ work
      → After c
  after_fetch c before after [] is waits = none
  after_fetch c before after (fd ∷ left) is waits =
      some (_, Workers.fetch before after fd left is waits)

  unfoldable after_step :
      (c : Crew env) (before after : List (Worker env)) (w : Worker env)
      → c.workers ≡ before ++ w ∷ after
      → After c
  after_step c before after idle is = after_fetch c before after c.system.work is refl
  after_step c before after (busy known (give tt)) is =
      some (_, Workers.finished before after known is)
  after_step c before after (busy known (act {B = B} o k)) is =
      go (perform env o c.system.server) refl
    where
      go : (p : Result B × Server env) → perform env o c.system.server ≡ p → After c
      go (ok b, s) did = some (_, Workers.work before after known o k b s is did)
      go (threw, s) did = none
      go (aborted, s) did = none
  after_step c before after (busy known (learn q k)) is = go (ask env q c.system.server) refl
    where
      go : (p : Result (Answer q) × Server env) → ask env q c.system.server ≡ p → After c
      go (ok a, s) did = some (_, Workers.learns before after known q k a s is did)
      go (threw, s) did = none
      go (aborted, s) did = none

  unfoldable after_worker :
      (c : Crew env) (before ws : List (Worker env)) → c.workers ≡ before ++ ws → ℕ → After c
  unfolding after_step
  after_worker c before [] is n = none
  after_worker c before (w ∷ ws) is zero = after_step c before ws w is
  after_worker c before (w ∷ ws) is (suc n) =
      after_worker c (before ++ w ∷ []) ws (is ∙ sym (append_assoc before (w ∷ []) ws)) n

  unfoldable after_turn : Turn → (c : Crew env) → After c
  unfolding after_worker
  after_turn (happen e) c = after_event e c (handle_event env e c.system) refl
  after_turn (send_one uid) c = after_round uid c (sender_round env uid c.system.server) refl
  after_turn (step n) c = after_worker c [] c.workers refl n

  -- A turn that cannot be taken is passed over.
  unfoldable pub schedule : List Turn → (c : Crew env) → (d : Crew env) × Interleaves env c d
  unfolding after_turn after_event after_round after_fetch
  schedule [] c = (c, halt)
  schedule (t ∷ ts) c = elim (after_turn t c) [
    | none ↦ schedule ts c
    | some (d, m) ↦ let (e, others) = schedule ts d in (e, move m others)
  ]
