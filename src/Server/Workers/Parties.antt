-- ===== src/Server/Workers/Parties.antt =====
-- Between whom the stored messages are: SQLite does not check the foreign keys of the messages table, the
-- case of SendMessageRequest does.
use mathlib.Core.List.{append-nil}
use net_chat.Prelude.{
  ℕ, ◌≡◌, refl, sym, ap, subst, ◌⊎◌, List, [], ◌∷◌, ◌++◌, ℤ, pos, to_int, All, All-map, All-append,
}
use net_chat.Proto.{Message}
use net_chat.Sql.{new_row, Table, Row, integer, users, messages, sender_id, receiver_id, Sqlite}
use net_chat.DataAccess.Changes.{Change}
use net_chat.DataAccess.Numbering.{stored}
use net_chat.DataAccess.Registered.{HasUser}
use net_chat.Server.State.{Env, Server}
use net_chat.Server.EventLoop.{System}
use net_chat.Server.Threads.{Fact, user, account, Op, perform}
use net_chat.Server.Workers.{Crew, idle_workers, Interleaves}
use net_chat.Server.Workers.Changes.{perform-Change}
use net_chat.Server.Workers.Storing.{left_alone, stores, perform-messages}
use net_chat.Server.Workers.Knowledge.{All-In, Discipline, Interleaves-Good}
use net_chat.Server.Workers.Tokens.{
  HasOwners, Holds, Holds-Change, answered, perform-HasOwners, HasOwners-kept,
}

-- The receiver of a stored message is a user, and its sender is a user or 0.
pub record IsBetween (q : Sqlite) (accounts : List Row) (r : Row) : Type 0 where
  pub from : ℤ
  pub to : ℤ
  pub sent_by : r sender_id ≡ integer from
  pub sent_to : r receiver_id ≡ integer to
  pub sender : (from ≡ pos 0) ⊎ HasUser q accounts from
  pub receiver : HasUser q accounts (to_int to)

-- So it is for every message.
pub record HasParties (q : Sqlite) (rows : Table → List Row) : Type 0 where
  pub all_between : All (IsBetween q (rows users)) (rows messages)

sender_id-stored : (id : ℕ) (m : Message) → stored id m sender_id ≡ integer m.message.from
unfolding stored new_row
sender_id-stored id m = refl

receiver_id-stored : (id : ℕ) (m : Message) → stored id m receiver_id ≡ integer m.message.to
unfolding stored new_row
receiver_id-stored id m = refl

module _ (env : Env) where
  open env use {sqlite}

  abbrev Acquainted : Server env → Type 0
  Acquainted s = HasParties sqlite (sqlite.rows s.db)

  abbrev Good : Server env → Type 0
  Good s = HasOwners env s × Acquainted s

  IsBetween-Change :
      (s t : Server env)
      → Change sqlite s.db t.db
      → (r : Row) → IsBetween sqlite (sqlite.rows s.db users) r
      → IsBetween sqlite (sqlite.rows t.db users) r
  IsBetween-Change s t c r h = record {
    from = h.from;
    to = h.to;
    sent_by = h.sent_by;
    sent_to = h.sent_to;
    sender = Holds-Change env s t c (account h.from) h.sender;
    receiver = Holds-Change env s t c (user (to_int h.to)) h.receiver;
  }

  HasParties-grown :
      (s t : Server env) (more : List Row)
      → Change sqlite s.db t.db
      → sqlite.rows t.db messages ≡ sqlite.rows s.db messages ++ more
      → All (IsBetween sqlite (sqlite.rows t.db users)) more
      → Acquainted s
      → Acquainted t
  HasParties-grown s t more c e new h = record {
    all_between = subst (All (IsBetween sqlite (sqlite.rows t.db users))) (sym e) (
        All-append (IsBetween sqlite (sqlite.rows t.db users)) (sqlite.rows s.db messages) more
          (All-map (IsBetween sqlite (sqlite.rows s.db users))
            (IsBetween sqlite (sqlite.rows t.db users)) (sqlite.rows s.db messages)
            (IsBetween-Change s t c) h.all_between)
          new);
  }

  stored-IsBetween :
      (s t : Server env) (m : Message) (id : ℕ)
      → Change sqlite s.db t.db
      → Holds env s (account m.message.from)
      → Holds env s (user (to_int m.message.to))
      → IsBetween sqlite (sqlite.rows t.db users) (stored id m)
  stored-IsBetween s t m id c sender receiver = record {
    from = m.message.from;
    to = m.message.to;
    sent_by = sender_id-stored id m;
    sent_to = receiver_id-stored id m;
    sender = Holds-Change env s t c (account m.message.from) sender;
    receiver = Holds-Change env s t c (user (to_int m.message.to)) receiver;
  }

  perform-HasParties :
      {known : List Fact} {B : Type 0} (o : Op env known B) (s : Server env)
      → All (Holds env s) known
      → Acquainted s
      → Acquainted (perform env o s).1
  perform-HasParties {known} o s knows h =
      let t = (perform env o s).1 in
      let c = perform-Change env o s in
      elim (perform-messages env o s) [
        | left_alone e ↦ HasParties-grown s t [] c (rw e (sym (append-nil _))) tt h
        | stores m z id read next sender receiver added ↦
            HasParties-grown s t (stored id m ∷ []) c added
              (
                stored-IsBetween s t m id c
                    (All-In (Holds env s) known (account m.message.from) knows sender)
                    (All-In (Holds env s) known (user (to_int m.message.to)) knows receiver),
                tt,
              )
              h
      ]

  parties-Discipline : Discipline env Good (Holds env)
  parties-Discipline = record {
    kept_good = λ s t e h. (
      HasOwners-kept env s t e h.0,
      subst (λ d. HasParties sqlite (sqlite.rows d)) (sym (ap (λ p. p.0) e)) h.1,
    );
    stays = Holds-Change env;
    performed =
        λ o s knows h. (perform-HasOwners env o s knows h.0, perform-HasParties o s knows h.1);
    answered = λ q a s t e h. answered env q a s t e h.0;
  }

  -- However the steps of the workers, the connections and the senders interleave, the receiver
  -- of every stored message is a user of the table, and its sender is a user of the table or
  -- 0, the number of an unknown token: if no worker was under way at first, every token stood
  -- for a user and the stored messages were such. SQLite does not check the foreign keys that
  -- say so.
  pub Interleaves-HasParties :
      {c : Crew env} (s : System env) (n : ℕ)
      → Interleaves env (record { system = s; workers = idle_workers env n }) c
      → HasOwners env s.server
      → HasParties sqlite (sqlite.rows s.server.db)
      → HasParties sqlite (sqlite.rows c.system.server.db)
  Interleaves-HasParties s n steps owners h =
      (Interleaves-Good env Good (Holds env) parties-Discipline s n steps (owners, h)).1
