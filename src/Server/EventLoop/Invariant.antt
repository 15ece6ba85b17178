-- ===== src/Server/EventLoop/Invariant.antt =====
-- The numbering of the stored messages over the life of the system.
use net_chat.Prelude.{
  ℕ, ◌+◌, ◌<◌, ◌≤◌, ◌≡◌, refl, sym, ◌∙◌, ap, subst, List, none, some, ℤ, int_max_suc, length,
  length-filter_le, arith,
}
use net_chat.Exec.{ok}
use net_chat.Exec.Preserves.{Preserves, Preserves-bind, Preserves-pure}
use net_chat.Sql.{Row}
use net_chat.DataAccess.Numbering.{IsNumbered, chat}
use net_chat.Server.State.{Env}
use net_chat.Server.Process.{process_recv_socket}
use net_chat.Server.Process.Quiet.{log}
use net_chat.Server.Process.Numbered.{
  HasRoom, process_recv_socket-IsNumbered, process_recv_socket-length,
}
use net_chat.Server.EventLoop.{
  Event, accepted, readable, hung_up, System, handle_event, Evolves, rest, event, work_done,
}

length-chat : (from to : ℤ) (rs : List Row) → length (chat from to rs) ≤ length rs
unfolding chat
length-chat from to rs = length-filter_le _ rs

room : (rs : List Row) → length rs + 1 < int_max_suc → HasRoom rs
room rs h from to = omega (arith, length-chat from to rs)

module _ (env : Env) where
  -- the stored messages of a system
  abbrev pub stored_log : System env → List Row
  stored_log s = log env s.server

  handle_event-Preserves : (e : Event) → Preserves stored_log (handle_event env e)
  unfolding handle_event
  handle_event-Preserves (accepted none) = Preserves-pure _
  handle_event-Preserves (accepted (some (ip_port, fd))) =
      Preserves-bind _ _ (record { at = λ s. refl }) (λ _. record { at = λ s. refl })
  handle_event-Preserves (readable fd) = record { at = λ s. refl }
  handle_event-Preserves (hung_up fd) =
      Preserves-bind _ _ (record { at = λ s. refl })
        (λ _. Preserves-bind _ _ (record { at = λ s. refl }) (λ _. Preserves-pure _))

  event-log :
      (e : Event) (s t : System env)
      → handle_event env e s ≡ (ok tt, t)
      → stored_log t ≡ stored_log s
  event-log e s t h = ap (λ p. stored_log p.1) (sym h) ∙ (handle_event-Preserves e).at s

  -- Over any life of the system in which no thread ends the process, connections and hang-ups
  -- included, in which workers answer n sockets one at a time, a database whose conversations
  -- are numbered 1, 2, 3, … stays so, if the table has room for n more messages below 2^31.
  pub Evolves-IsNumbered :
      {s u : System env} {n : ℕ}
      → Evolves env s u n
      → IsNumbered (stored_log s)
      → length (stored_log s) + n < int_max_suc
      → IsNumbered (stored_log u)
  Evolves-IsNumbered rest h small = h
  Evolves-IsNumbered (event {s = s} {t = t} {n = n} e run more) h small =
      let same = event-log e s t run in
      Evolves-IsNumbered more (subst IsNumbered (sym same) h)
        (subst (λ l. length l + n < int_max_suc) (sym same) small)
  Evolves-IsNumbered (work_done {s = s} {n = n} fd left t w run more) h small =
      let after : (process_recv_socket env fd s.server).1 ≡ t = ap (λ p. p.1) run in
      let kept =
        process_recv_socket-IsNumbered env fd s.server h (room (stored_log s) (omega arith)) in
      let grown = process_recv_socket-length env fd s.server in
      Evolves-IsNumbered more (subst (λ x. IsNumbered (log env x)) after kept)
        (subst (λ x. length (log env x) + n < int_max_suc) after (omega (arith, grown)))
