-- ===== src/DataAccess/Conversation.antt =====
-- Reading a conversation back: `getMessage`, and the size of `getAllMessages`.
use mathlib.Core.Path.{subst₂}
use net_chat.Prelude.{
  ℕ, suc, ◌+◌, ◌<◌, ◌≡◌, sym, ◌∙◌, ap, fun_ext, inl, inr, List, [], ◌∷◌, ◌++◌, some, true, ◌&&◌,
  filter, filter-append_last, count, count-filter, count-map, length, length-map, arith, ℤ, pos,
  int_eq_iff, int_max_suc, to_int, to_int-id, to_int-IsInt, IsInt,
}
use net_chat.Exec.{ok}
use net_chat.Proto.{RawMessage, Message}
use net_chat.Sql.{
  Sqlite, messages, Row, Binding, integer, value_eq, select, matches, new_row, internal_id,
  sender_id, receiver_id,
}
use net_chat.Sql.Steps.{perm-singleton, length-perm}
use net_chat.DataAccess.{
  get_message, get_all_messages, create_msg_by_raw_msg, between, read_message, max_internal_id,
  get_timestamp,
}
use net_chat.DataAccess.Select.{
  answer-perm, select_first-answer, select_all-inv, select_all-unchanged,
}
use net_chat.DataAccess.MaxId.{count-ids_above, max_internal_id-ids}
use net_chat.DataAccess.Numbering.{chat, IsNumbered, stored, create_msg_by_raw_msg-cases}

-- The WHERE of `getMessage`.
abbrev pub one_message : ℤ → ℤ → ℤ → List Binding
one_message from to id =
    (sender_id, integer from) ∷ (receiver_id, integer to) ∷ (internal_id, integer id) ∷ []

one_message-between :
    (from to id : ℤ)
    → matches (one_message from to id)
      ≡ (λ r. matches (between from to) r && value_eq (r internal_id) (integer id))
unfolding matches
one_message-between from to id = fun_ext λ r. ground arith

-- The next number is not in use.
count-one_message :
    (from to : ℤ) (rs : List Row)
    → IsNumbered rs
    → count (matches (one_message from to (pos (suc (length (chat from to rs)))))) rs ≡ 0
unfolding chat
count-one_message from to rs h =
    let old = filter (matches (between from to)) rs in
    let next = integer (pos (suc (length old))) in
    rw (one_message-between from to (pos (suc (length old)))) (
      sym (count-filter (λ r. value_eq (r internal_id) next) (matches (between from to)) rs)
      ∙ sym (count-map (λ v. value_eq v next) (λ r. r internal_id) old)
      ∙ ap (count (λ v. value_eq v next)) (h from to)
      ∙ count-ids_above (length old) (suc (length old)) (omega arith))

stored-one_message :
    (id : ℕ) (m : Message)
    → matches (one_message m.message.from m.message.to m.internal_id) (stored id m) ≡ true
unfolding matches stored new_row value_eq
stored-one_message id m = ground (
  arith,
  int_eq_iff m.message.from m.message.from,
  int_eq_iff m.message.to m.message.to,
  int_eq_iff m.internal_id m.internal_id,
)

get_timestamp-IsInt : (seconds : ℕ) → IsInt (get_timestamp seconds)
unfolding get_timestamp
get_timestamp-IsInt seconds = to_int-IsInt (pos seconds)

module _ (q : Sqlite) where
  open q use {Db, rows, healthy, last_insert_rowid}

  read_message-stored :
      (id : ℕ) (m : Message)
      → IsInt m.message.from
      → IsInt m.message.to
      → IsInt m.message.message_type
      → IsInt m.internal_id
      → IsInt m.timestamp
      → read_message q (stored id m) ≡ record m { id = to_int (pos id) }
  unfolding read_message stored new_row
  read_message-stored id m f t y i s = rw (
    to_int-id m.message.from f,
    to_int-id m.message.to t,
    to_int-id m.message.message_type y,
    to_int-id m.internal_id i,
    to_int-id m.timestamp s,
  )

  get_message-stored :
      (db db' : Db) (id : ℕ) (m : Message)
      → IsNumbered (rows db messages)
      → m.internal_id ≡ pos (suc (length (chat m.message.from m.message.to (rows db messages))))
      → rows db' messages ≡ rows db messages ++ stored id m ∷ []
      → read_message q (stored id m) ≡ record m { id = to_int (pos id) }
      → healthy (select messages (one_message m.message.from m.message.to m.internal_id)) db' ≡ true
      → get_message q m.message.from m.message.to m.internal_id db'
        ≡ (ok (some (record m { id = to_int (pos id) })), db')
  unfolding get_message
  get_message-stored db db' id m h next added read well =
      let conds = one_message m.message.from m.message.to m.internal_id in
      let unused : count (matches conds) (rows db messages) ≡ 0 =
        rw next (count-one_message m.message.from m.message.to (rows db messages) h) in
      let only =
        filter-append_last (matches conds) (rows db messages) (stored id m) unused
          (stored-one_message id m) in
      let found =
        perm-singleton {a = stored id m} (answer-perm q messages conds db' well) (rw added only) in
      select_first-answer q messages conds db' well (read_message q) ∙ rw (found, read)

  -- What a successful call returns is what `getMessage` finds under its number.
  pub get_message-create_msg_by_raw_msg :
      (m : RawMessage) (seconds : ℕ) (db db' : Db) (msg : Message)
      → IsNumbered (rows db messages)
      → length (chat m.from m.to (rows db messages)) + 1 < int_max_suc
      → IsInt m.from
      → IsInt m.to
      → IsInt m.message_type
      → create_msg_by_raw_msg q m seconds db ≡ (ok (some msg), db')
      → healthy (select messages (one_message m.from m.to msg.internal_id)) db' ≡ true
      → get_message q m.from m.to msg.internal_id db' ≡ (ok (some msg), db')
  get_message-create_msg_by_raw_msg m seconds db db' msg h small f t y e well =
      elim (create_msg_by_raw_msg-cases q m seconds db h small) [
        | inr e' ↦ cc (e, e')
        | inl (db'', m0, e', same, next, time, added) ↦
            let d : db'' ≡ db' = cc (e, e') in
            let g : record m0 { id = to_int (pos (last_insert_rowid db'')) } ≡ msg = cc (e, e') in
            let well' =
              subst₂
                (λ (x : Message) z.
                  healthy (select messages (one_message m.from m.to x.internal_id)) z ≡ true)
                (sym g) (sym d) well in
            subst₂ (λ (x : Message) z. get_message q m.from m.to x.internal_id z ≡ (ok (some x), z))
              g d
              (rw (← same) (
                get_message-stored db db'' (last_insert_rowid db'') m0 h (rw same next) added
                  (read_message-stored (last_insert_rowid db'') m0 (rw same f) (rw same t)
                    (rw same y) (rw next (omega arith)) (rw time (get_timestamp-IsInt seconds)))
                  (rw same well')))
      ]

  -- In a database whose conversations are numbered, with this conversation below 2^31, the
  -- size of what getAllMessages returns, which SetupChannel sends as the last internal id, is
  -- the largest internal id in it.
  pub length-get_all_messages :
      (from to : ℤ) (db db' : Db) (msgs : List Message)
      → IsNumbered (rows db messages)
      → length (chat from to (rows db messages)) < int_max_suc
      → get_all_messages q from to db ≡ (ok msgs, db')
      → max_internal_id (pos 0) msgs ≡ pos (length msgs)
  unfolding get_all_messages chat
  length-get_all_messages from to db db' msgs h small e =
      let (rs, perm, same) =
        select_all-inv q messages (between from to) (read_message q) db db' e in
      let n = length (filter (matches (between from to)) (rows db messages)) in
      let size : length msgs ≡ n =
        omega (arith, ap length same, length-map rs (read_message q), length-perm perm) in
      rw same (
        max_internal_id-ids q n perm (h from to) small
        ∙ ap pos (omega (arith, size, ap length same)))

  -- how many messages come back, and that reading changes nothing
  pub get_all_messages-length :
      (from to : ℤ) (db db' : Db) (msgs : List Message)
      → get_all_messages q from to db ≡ (ok msgs, db')
      → (length msgs ≡ length (chat from to (rows db messages))) × (db' ≡ db)
  unfolding get_all_messages chat
  get_all_messages-length from to db db' msgs e =
      let (rs, perm, same) =
        select_all-inv q messages (between from to) (read_message q) db db' e in
      let stays = select_all-unchanged q messages (between from to) (read_message q) db in
      (
        omega (arith, ap length same, length-map rs (read_message q), length-perm perm),
        sym (ap (λ p. p.1) e) ∙ stays,
      )
