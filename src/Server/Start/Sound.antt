-- ===== src/Server/Start/Sound.antt =====
-- What holds from the start of the program on, whatever its threads do.
use net_chat.Prelude.{◌≡◌, sym, ap, subst, ◌∙◌, List, inl, inr, some, codes, fun_ext}
use net_chat.Exec.{ok}
use net_chat.Exec.Inversion.{ok-injective}
use net_chat.Sql.{Sqlite, Table, Row}
use net_chat.Dict.{lookup}
use net_chat.DataAccess.Keys.{HasKeys}
use net_chat.DataAccess.Types.{IsTyped}
use net_chat.DataAccess.History.{Extends}
use net_chat.DataAccess.Opening.{Schema, data_access, data_access_lem}
use net_chat.Server.State.{Env}
use net_chat.Server.Workers.{Crew, Interleaves}
use net_chat.Server.Workers.Tables.{
  tables, Interleaves-HasKeys, Interleaves-IsTyped, Interleaves-Extends,
}
use net_chat.Server.Workers.Parties.{HasParties, Interleaves-HasParties}
use net_chat.Server.Workers.Tokens.{HasOwners, Interleaves-HasOwners}
use net_chat.Server.Start.{Host, Started, main, new_crew, new_server, revc_socket_pool_thread_num}
use net_chat.Server.Start.Order.{main_lem}

-- A database in good order: its keys, the types of its columns, and between whom its messages are.
pub record IsConsistent (q : Sqlite) (rows : Table → List Row) : Type 0 where
  pub keys : HasKeys rows
  pub types : IsTyped rows
  pub parties : HasParties q rows

module _ (env : Env) (schema : Schema env.sqlite) (host : Host) (disk : env.files.Disk) where
  open env use {sqlite, queues}

  -- The crew that `main` leaves stands on the database that the constructor has opened.
  main-new_crew :
      (c : Crew env) (log : List Started)
      → main env schema host disk ≡ (ok c, log)
      → (db : sqlite.Db) × (data_access sqlite schema (codes "chat.db") ≡ ok db)
        × (c ≡ new_crew env schema host disk db)
  main-new_crew c log e = elim (main_lem env schema host disk) [
    | inl (db, fd, ep, made, all) ↦
        (db, made, ok-injective c (new_crew env schema host disk db) (ap (λ p. p.0) (sym e ∙ all)))
    | inr (fails, _) ↦ absurd (fails c (ap (λ p. p.0) e))
  ]

  no_tokens-HasOwners : (db : sqlite.Db) → HasOwners env (new_server env schema host disk db)
  unfolding lookup
  no_tokens-HasOwners db = record { owner = λ token id e. cc e }

  same_rows :
      (db0 db : sqlite.Db)
      → schema.open_file (codes "chat.db") ≡ some db0
      → data_access sqlite schema (codes "chat.db") ≡ ok db
      → sqlite.rows db ≡ sqlite.rows db0
  same_rows db0 db opens made =
      let (db1, opened, kept) = data_access_lem sqlite schema (codes "chat.db") db made in
      let same : db1 ≡ db0 = cc (opened, opens) in
      fun_ext λ t. subst (λ x. sqlite.rows db t ≡ sqlite.rows x t) same (kept t).1

  -- From the start of the program on, in every state that any interleaving of the steps of its
  -- threads reaches, the database is in good order if it was so when the program opened it: no
  -- two users have the same name or the same id, no two messages and no two files the same id,
  -- every row has values of the declared types in its columns, the receiver of every message
  -- is a user, and its sender a user or 0; every token stands for a user; and the users, the
  -- messages and the ids of the files of the opened database are all still there, in order,
  -- before the new ones.
  pub main-Sound :
      (c d : Crew env) (log : List Started) (db : sqlite.Db)
      → main env schema host disk ≡ (ok c, log)
      → Interleaves env c d
      → schema.open_file (codes "chat.db") ≡ some db
      → IsConsistent sqlite (sqlite.rows db)
      → IsConsistent sqlite (tables env d)
        × HasOwners env d.system.server
        × Extends (sqlite.rows db) (tables env d)
  main-Sound c d log db e steps opens start =
      let (db', made, is) = main-new_crew c log e in
      let same = same_rows db db' opens made in
      let steps' = subst (λ x. Interleaves env x d) is steps in
      let owners = no_tokens-HasOwners db' in
      let start' = subst (IsConsistent sqlite) (sym same) start in
      (
        record {
          keys = Interleaves-HasKeys env steps' start'.keys;
          types = Interleaves-IsTyped env steps' start'.types;
          parties =
              Interleaves-HasParties env _ revc_socket_pool_thread_num steps' owners start'.parties;
        },
        Interleaves-HasOwners env _ revc_socket_pool_thread_num steps' owners,
        subst (λ r. Extends r (tables env d)) same (Interleaves-Extends env steps'),
      )
