-- ===== src/Server/Start/Order.antt =====
-- In what order the program starts, and what it has started when it fails.
use net_chat.Prelude.{
  ℕ, ◌≡◌, ◌≢◌, refl, ◌⊎◌, inl, inr, List, [], ◌∷◌, Bool, true, false, codes, count, Bool-cases,
  Option-cases,
}
use net_chat.Exec.{Result, ok, threw, aborted, ◌>>=◌}
use net_chat.DataAccess.Opening.{Schema, data_access}
use net_chat.Server.State.{Env}
use net_chat.Server.Workers.{Crew}
use net_chat.Server.Start.{
  Host, Started, bound, listening, workers, watching, accepting, manager_bound, server_port,
  revc_socket_pool_thread_num, make_socket, bind_server, start_van, init_server, main, with_db,
  started, new_crew,
}

-- All that is started, in order.
abbrev pub everything : ℕ → ℕ → List Started
everything fd epoll_fd =
    bound fd server_port
    ∷ listening fd
    ∷ workers revc_socket_pool_thread_num
    ∷ watching epoll_fd fd
    ∷ accepting
    ∷ manager_bound
    ∷ []

abbrev pub is_accepting : Started → Bool
is_accepting accepting = true
is_accepting _ = false

-- A start that stops before any connection is accepted.
abbrev Stops : Result (Unit {0}) × List Started → Type 0
Stops r = (r.0 ≡ aborted) × (count is_accepting r.1 ≡ 0)

module _ (host : Host) where
  open host use {socket, bind, listen, epoll_create, epoll_add}

  init_server-cases :
      ((fd : ℕ) × (epoll_fd : ℕ) × (init_server host [] ≡ (ok tt, everything fd epoll_fd)))
      ⊎ Stops (init_server host [])
  unfolding init_server start_van bind_server make_socket ◌>>=◌
  init_server-cases = elim (Option-cases socket) [
    | inl no_socket ↦ inr (rw no_socket (refl, refl))
    | inr (fd, s) ↦ elim (Bool-cases (bind fd server_port)) [
      | inr unbound ↦ inr (rw (s, unbound) (refl, refl))
      | inl b ↦ elim (Bool-cases (listen fd)) [
        | inr deaf ↦ inr (rw (s, b, deaf) (refl, refl))
        | inl l ↦ elim (Option-cases epoll_create) [
          | inl no_epoll ↦ inr (rw (s, b, l, no_epoll) (refl, refl))
          | inr (ep, e) ↦ elim (Bool-cases (epoll_add ep fd)) [
            | inr unwatched ↦ inr (rw (s, b, l, e, unwatched) (refl, refl))
            | inl a ↦ inl (fd, ep, rw (s, b, l, e, a) refl)
          ]
        ]
      ]
    ]
  ]

module _ (env : Env) (schema : Schema env.sqlite) (host : Host) (disk : env.files.Disk) where
  open env use {sqlite}

  -- Either the constructor of DataAccess returns and everything is started, in order: the
  -- socket is bound to the port of the server and listens, ten workers start, epoll watches
  -- the socket, connections are accepted, and only then is the user manager bound; or the
  -- program comes to its end by an exception or a FATAL log entry, and has not accepted
  -- connections at any time.
  pub main_lem :
      ((db : sqlite.Db) × (fd : ℕ) × (epoll_fd : ℕ) × (data_access sqlite schema (codes "chat.db")
          ≡ ok db)
        × (main env schema host disk
            ≡ (ok (new_crew env schema host disk db), everything fd epoll_fd)))
      ⊎ (((c : Crew env) → (main env schema host disk).0 ≢ ok c)
          × (count is_accepting (main env schema host disk).1 ≡ 0))
  unfolding main with_db started
  main_lem = go (data_access sqlite schema (codes "chat.db")) refl
    where
      go :
          (r : Result sqlite.Db)
          → data_access sqlite schema (codes "chat.db") ≡ r
          → ((db : sqlite.Db) × (fd : ℕ) × (epoll_fd : ℕ) × (data_access sqlite schema
                  (codes "chat.db")
                ≡ ok db)
              × (with_db env schema host disk r
                  ≡ (ok (new_crew env schema host disk db), everything fd epoll_fd)))
            ⊎ (((c : Crew env) → (with_db env schema host disk r).0 ≢ ok c)
                × (count is_accepting (with_db env schema host disk r).1 ≡ 0))
      go threw e = inr (λ c x. cc x, refl)
      go aborted e = inr (λ c x. cc x, refl)
      go (ok db) e = elim (init_server-cases host) [
        | inl (fd, ep, all) ↦ inl (db, fd, ep, e, rw all refl)
        | inr (stops, none_yet) ↦ inr (λ c x. cc (rw stops at x), none_yet)
      ]
