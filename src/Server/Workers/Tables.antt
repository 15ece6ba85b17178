-- ===== src/Server/Workers/Tables.antt =====
-- The tables, whatever the threads do beside one another.
use net_chat.Prelude.{List}
use net_chat.Sql.{Row, Table}
use net_chat.DataAccess.Keys.{HasKeys, Change-HasKeys}
use net_chat.DataAccess.Types.{IsTyped, Change-IsTyped}
use net_chat.DataAccess.History.{Extends, Extends-refl, Change-Extends}
use net_chat.Server.State.{Env}
use net_chat.Server.Workers.{Crew, Interleaves}
use net_chat.Server.Workers.Changes.{Interleaves-keeps}

module _ (env : Env) where
  open env use {sqlite}

  -- what the tables of a crew's server hold
  abbrev pub tables : Crew env → Table → List Row
  tables c = sqlite.rows c.system.server.db

  -- x
  pub Interleaves-HasKeys :
      {c d : Crew env} → Interleaves env c d → HasKeys (tables c) → HasKeys (tables d)
  Interleaves-HasKeys steps =
      Interleaves-keeps env (λ db. HasKeys (sqlite.rows db)) (Change-HasKeys sqlite) steps

  -- Whatever the threads do beside one another, the rows of every table keep to the types that
  -- checkAndCreateTables declares: text in the text columns, integers in the integer columns,
  -- and NULL only where no constraint forbids it; if they did so before.
  pub Interleaves-IsTyped :
      {c d : Crew env} → Interleaves env c d → IsTyped (tables c) → IsTyped (tables d)
  Interleaves-IsTyped steps =
      Interleaves-keeps env (λ db. IsTyped (sqlite.rows db)) (Change-IsTyped sqlite) steps

  -- Whatever the threads do beside one another, no stored user or message is changed or lost:
  -- the users, the messages and the ids of the files before are a beginning of those after.
  pub Interleaves-Extends : {c d : Crew env} → Interleaves env c d → Extends (tables c) (tables d)
  Interleaves-Extends {c} steps =
      Interleaves-keeps env (λ db. Extends (tables c) (sqlite.rows db))
        (Change-Extends sqlite (tables c)) steps (Extends-refl (tables c))
