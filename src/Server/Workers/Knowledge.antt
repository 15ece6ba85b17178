-- ===== src/Server/Workers/Knowledge.antt =====
-- What holds of the server whatever its threads do, when each worker acts on what it has learnt of the
-- tables.
use net_chat.Prelude.{
  ℕ, zero, suc, ◌≡◌, refl, ap, subst, List, ◌∷◌, ◌++◌, All, All-map, All-at, All-put, All-append,
}
use net_chat.Exec.{ok}
use net_chat.DataAccess.Changes.{Change, unchanged}
use net_chat.Server.State.{Env, Server}
use net_chat.Server.EventLoop.{System}
use net_chat.Server.Threads.{
  Fact, In, here, there, Query, Answer, learnt, ask, Op, perform, give, act, learn,
}
use net_chat.Server.Workers
use net_chat.Server.Workers.{Worker, idle, busy, Crew, idle_workers, Moves, Interleaves, halt, move}
use net_chat.Server.Workers.Changes.{
  kept, event-kept, sender_round-kept, perform-Change, answer-kept,
}

pub All-In : (P : Fact → Type 0) (known : List Fact) (f : Fact) → All P known → In f known → P f
All-In P known f h here = h.0
All-In P known f h (there m) = All-In P _ f h.1 m

module _ (env : Env) where
  open env use {sqlite}

  -- `Good` of a server, with the meaning `Holds` of what a worker learns, when a step of a worker that
  -- has learnt only what holds keeps it.
  pub record Discipline (Good : Server env → Type 0) (Holds : Server env → Fact → Type 0)
      : Type 1 where
    pub kept_good : (s t : Server env) → kept env t ≡ kept env s → Good s → Good t
    pub stays : (s t : Server env) → Change sqlite s.db t.db → (f : Fact) → Holds s f → Holds t f
    pub performed :
        {known : List Fact} {B : Type 0} (o : Op env known B) (s : Server env)
        → All (Holds s) known
        → Good s
        → Good (perform env o s).1
    pub answered :
        (q : Query) (a : Answer q) (s t : Server env)
        → ask env q s ≡ (ok a, t)
        → Good s
        → All (Holds s) (learnt q a)

  module _ (Good : Server env → Type 0) (Holds : Server env → Fact → Type 0)
      (d : Discipline Good Holds) where
    -- What a worker has learnt holds.
    Informed : Server env → Worker env → Type 0
    Informed s idle = Unit
    Informed s (busy known c) = All (Holds s) known

    record Sound (c : Crew env) : Type 1 where
      good : Good c.system.server
      informed : All (Informed c.system.server) c.workers

    Informed-Change :
        (s t : Server env)
        → Change sqlite s.db t.db
        → (w : Worker env) → Informed s w
        → Informed t w
    unfolding Informed
    Informed-Change s t c idle h = tt
    Informed-Change s t c (busy known code) h = All-map (Holds s) (Holds t) known (d.stays s t c) h

    workers-Informed :
        (s t : Server env) (ws : List (Worker env))
        → Change sqlite s.db t.db
        → All (Informed s) ws
        → All (Informed t) ws
    workers-Informed s t ws c h = All-map (Informed s) (Informed t) ws (Informed-Change s t c) h

    -- A step that is not a worker's.
    Sound-kept :
        (c : Crew env) (sys : System env)
        → kept env sys.server ≡ kept env c.system.server
        → Sound c
        → Sound (record c { system = sys })
    Sound-kept c sys e h =
        let s = c.system.server in
        record {
          good = d.kept_good s sys.server e h.good;
          informed =
              workers-Informed s sys.server c.workers (unchanged (ap (λ p. p.0) e)) h.informed;
        }

    worker-Informed :
        (c : Crew env) (before after : List (Worker env)) (w : Worker env)
        → c.workers ≡ before ++ w ∷ after
        → Sound c
        → Informed c.system.server w × All (Informed c.system.server) (before ++ w ∷ after)
    worker-Informed c before after w is h =
        let all = subst (All (Informed c.system.server)) is h.informed in
        (All-at (Informed c.system.server) before after w all, all)

    -- A step of a worker, to a server in which all that it knows then holds.
    Sound-worker :
        (c : Crew env) (before after : List (Worker env)) (w v : Worker env) (sys : System env)
        → c.workers ≡ before ++ w ∷ after
        → Change sqlite c.system.server.db sys.server.db
        → Good sys.server
        → Informed sys.server v
        → Sound c
        → Sound (record { system = sys; workers = before ++ v ∷ after })
    Sound-worker c before after w v sys is change good knows h = record {
      good = good;
      informed =
          All-put (Informed sys.server) before after w v
            (workers-Informed c.system.server sys.server _ change
              (worker-Informed c before after w is h).1)
            knows;
    }

    Moves-Sound : {c c' : Crew env} → Moves env c c' → Sound c → Sound c'
    unfolding Informed
    Moves-Sound {c} (Workers.event e s did) h = Sound-kept c s (event-kept env e c.system s did) h
    Moves-Sound {c} (Workers.send uid s did) h =
        Sound-kept c _ (sender_round-kept env uid c.system.server s did) h
    Moves-Sound {c} (Workers.fetch before after fd left is waits) h =
        Sound-worker c before after idle _ _ is (unchanged refl) h.good tt h
    Moves-Sound {c} (Workers.work before after known o k b s is did) h =
        let s' = c.system.server in
        let change = subst (λ p. Change sqlite s'.db p.1.db) did (perform-Change env o s') in
        let knows = (worker-Informed c before after (busy known (act o k)) is h).0 in
        Sound-worker c before after (busy known (act o k)) (busy known (k b)) _ is change
          (subst (λ p. Good p.1) did (d.performed o s' knows h.good))
          (All-map (Holds s') (Holds s) known (d.stays s' s change) knows) h
    Moves-Sound {c} (Workers.learns before after known q k a s is did) h =
        let s' = c.system.server in
        let e = answer-kept env q a s' s did in
        let change : Change sqlite s'.db s.db = unchanged (ap (λ p. p.0) e) in
        let knows = (worker-Informed c before after (busy known (learn q k)) is h).0 in
        Sound-worker c before after (busy known (learn q k)) (busy (learnt q a ++ known) (k a)) _ is
          change (d.kept_good s' s e h.good)
          (All-map (Holds s') (Holds s) (learnt q a ++ known) (d.stays s' s change)
            (All-append (Holds s') (learnt q a) known (d.answered q a s' s did h.good) knows))
          h
    Moves-Sound {c} (Workers.finished before after known is) h =
        Sound-worker c before after (busy known (give tt)) idle _ is (unchanged refl) h.good tt h

    idle-Informed : (s : Server env) (n : ℕ) → All (Informed s) (idle_workers env n)
    unfolding Informed
    idle-Informed s zero = tt
    idle-Informed s (suc n) = (tt, idle-Informed s n)

    Interleaves-Sound : {c c' : Crew env} → Interleaves env c c' → Sound c → Sound c'
    Interleaves-Sound halt h = h
    Interleaves-Sound (move m more) h = Interleaves-Sound more (Moves-Sound m h)

    -- From workers of which none is under way.
    pub Interleaves-Good :
        {c : Crew env} (s : System env) (n : ℕ)
        → Interleaves env (record { system = s; workers = idle_workers env n }) c
        → Good s.server
        → Good c.system.server
    Interleaves-Good s n steps h =
        (Interleaves-Sound steps (record { good = h; informed = idle-Informed s.server n })).good
