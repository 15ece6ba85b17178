-- ===== src/Server/Workers/Numbers.antt =====
-- The internal ids of a conversation when several workers store messages in it at once: each reads the
-- largest id and stores the next, in two steps, with any steps of the others between them.
use net_chat.Prelude.{
  none, some, ℕ, suc, ◌+◌, ◌<◌, ◌≤◌, ◌≡◌, sym, ap, subst, ◌∙◌, List, [], ◌∷◌, ◌++◌, length,
  length-append, arith, ℤ, pos, inc, to_int-id, int_max_suc, All,
}
use net_chat.Exec.{ok}
use net_chat.Proto.{Message}
use net_chat.Sql.{Row, messages}
use net_chat.DataAccess.{get_all_messages, max_internal_id}
use net_chat.DataAccess.Changes.{Change}
use net_chat.DataAccess.History.{Change-step}
use net_chat.DataAccess.Numbering.{chat, stored}
use net_chat.DataAccess.Bounded.{
  IsBounded, IsBounded-added, IsUpTo, length-chat_grown, length-chat_le, get_all_messages-IsUpTo,
}
use net_chat.Server.State.{Env, Server, on_db}
use net_chat.Server.State.Inversion.{on_db-inv}
use net_chat.Server.EventLoop.{System}
use net_chat.Server.Threads.{
  Fact, user, account, ids_up_to, Query, by_name, by_id, conversation, owner, Answer, learnt, ask,
  Op, perform,
}
use net_chat.Server.Workers.{Crew, idle_workers, Interleaves}
use net_chat.Server.Workers.Storing.{left_alone, stores, perform-messages}
use net_chat.Server.Workers.Changes.{perform-Change}
use net_chat.Server.Workers.Knowledge.{All-In, Discipline, Interleaves-Good}

module _ (env : Env) where
  open env use {sqlite}

  abbrev stored_messages : Server env → List Row
  stored_messages s = sqlite.rows s.db messages

  abbrev chat_of : ℤ → ℤ → Server env → ℕ
  chat_of from to s = length (chat from to (stored_messages s))

  -- Fewer messages than an `int` can count.
  abbrev Few : Server env → Type 0
  Few s = length (stored_messages s) < int_max_suc

  -- While the messages are few, the ids are bounded.
  abbrev Good : Server env → Type 0
  Good s = Few s → IsBounded (stored_messages s)

  -- What a worker has learnt of the messages.
  abbrev Holds : Server env → Fact → Type 0
  Holds s (user id) = Unit
  Holds s (account id) = Unit
  Holds s (ids_up_to from to z) = Few s → IsUpTo (chat_of from to s) z

  -- The messages that a statement adds.
  grown :
      (s t : Server env)
      → Change sqlite s.db t.db
      → (more : List Row) × (stored_messages t ≡ stored_messages s ++ more)
  grown s t c = (Change-step sqlite s.db t.db c).messages_kept

  Few-before : (s t : Server env) → Change sqlite s.db t.db → Few t → Few s
  Few-before s t c few =
      let (more, e) = grown s t c in
      omega (arith, ap {B = ℕ} length e, length-append (stored_messages s) more, few)

  chat_of-grown :
      (from to : ℤ) (s t : Server env)
      → Change sqlite s.db t.db
      → chat_of from to s ≤ chat_of from to t
  chat_of-grown from to s t c =
      let (more, e) = grown s t c in rw e (length-chat_grown from to (stored_messages s) more)

  Holds-Change : (s t : Server env) → Change sqlite s.db t.db → (f : Fact) → Holds s f → Holds t f
  Holds-Change s t c (user id) h = tt
  Holds-Change s t c (account id) h = tt
  Holds-Change s t c (ids_up_to from to z) h = λ few.
      let u = h (Few-before s t c few) in
      record {
        value = u.value;
        is = u.is;
        small = omega (arith, u.small, chat_of-grown from to s t c);
      }

  Good-same : (s t : Server env) → stored_messages t ≡ stored_messages s → Good s → Good t
  Good-same s t e h = λ few. rw e (h (rw e at few))

  inc-pos : (k : ℕ) → k + 1 < int_max_suc → inc (pos k) ≡ pos (suc k)
  unfolding inc
  inc-pos k small = to_int-id (pos (k + 1)) small ∙ ap pos (omega arith)

  Good-added :
      (s t : Server env) (m : Message) (z : ℤ) (id : ℕ)
      → m.internal_id ≡ inc z
      → stored_messages t ≡ stored_messages s ++ stored id m ∷ []
      → Holds s (ids_up_to m.message.from m.message.to z)
      → Change sqlite s.db t.db
      → Good s
      → Good t
  Good-added s t m z id next added read c h = λ few.
      let few_before = Few-before s t c few in
      let u = read few_before in
      let below : u.value + 1 < int_max_suc = omega (
        arith,
        few,
        u.small,
        length-chat_le m.message.from m.message.to (stored_messages s),
        ap {B = ℕ} length added,
        length-append (stored_messages s) (stored id m ∷ []),
      ) in
      subst IsBounded (sym added) (
        IsBounded-added (stored_messages s) id m u.value
          (next ∙ ap inc u.is ∙ inc-pos u.value below) u.small (h few_before))

  performed :
      {known : List Fact} {B : Type 0} (o : Op env known B) (s : Server env)
      → All (Holds s) known
      → Good s
      → Good (perform env o s).1
  performed {known} o s knows h = elim (perform-messages env o s) [
    | left_alone e ↦ Good-same s (perform env o s).1 e h
    | stores m z id read next sender receiver added ↦
        Good-added s (perform env o s).1 m z id next added
          (All-In (Holds s) known (ids_up_to m.message.from m.message.to z) knows read)
          (perform-Change env o s) h
  ]

  reads :
      (from to : ℤ) (msgs : List Message) (s t : Server env)
      → on_db env (get_all_messages sqlite from to) s ≡ (ok msgs, t)
      → Good s
      → Holds s (ids_up_to from to (max_internal_id (pos 0) msgs))
  reads from to msgs s t e h = λ few.
      let (d, found, put) = on_db-inv env (get_all_messages sqlite from to) s t msgs e in
      get_all_messages-IsUpTo sqlite from to s.db d msgs (h few) few found

  answered :
      (q : Query) (a : Answer q) (s t : Server env)
      → ask env q s ≡ (ok a, t)
      → Good s
      → All (Holds s) (learnt q a)
  unfolding ask
  answered (by_name name) none s t e h = tt
  answered (by_name name) (some u) s t e h = (tt, tt)
  answered (by_id id) none s t e h = tt
  answered (by_id id) (some u) s t e h = (tt, tt)
  answered (conversation from to) msgs s t e h = (reads from to msgs s t e h, tt)
  answered (owner token) id s t e h = (tt, tt)

  numbers-Discipline : Discipline env Good Holds
  numbers-Discipline = record {
    kept_good = λ s t e h. Good-same s t (ap (λ p. sqlite.rows p.0 messages) e) h;
    stays = Holds-Change;
    performed = performed;
    answered = answered;
  }

  -- With any number of workers, however their reading of a conversation and their storing of a
  -- message interleave, the internal ids of each conversation are among 1, …, n for its n
  -- messages, so that ids may be given twice but no id is ever above the count: if no worker
  -- was under way and it was so at first, and the table stays below 2^31 messages.
  pub Interleaves-IsBounded :
      {c : Crew env} (s : System env) (n : ℕ)
      → Interleaves env (record { system = s; workers = idle_workers env n }) c
      → IsBounded (sqlite.rows s.server.db messages)
      → length (sqlite.rows c.system.server.db messages) < int_max_suc
      → IsBounded (sqlite.rows c.system.server.db messages)
  Interleaves-IsBounded s n steps h few =
      Interleaves-Good env Good Holds numbers-Discipline s n steps (λ _. h) few
