-- ===== src/DataAccess/Numbering.antt =====
-- The internal ids of a conversation, as `createMsgByRawMsg` gives them out.
use mathlib.Core.List.{append-nil, map-append}
use mathlib.Core.Path.{subst₂}
use net_chat.Prelude.{
  ℕ, suc, ◌+◌, ◌<◌, ◌≡◌, refl, sym, ◌∙◌, ap, ◌⊎◌, inl, inr, List, [], ◌∷◌, ◌++◌, map, some, true,
  ◌&&◌, filter, filter-append, length, length-snoc, arith, if◌then◌else◌, ℤ, pos, int_eq,
  int_eq_iff, int_max_suc, inc, to_int, to_int-id, Bool-cases, Option-cases,
}
use net_chat.Exec.{ok, threw}
use net_chat.Proto.{RawMessage, Message}
use net_chat.Sql.{Sqlite, messages, Row, integer, value_eq, insert, matches, new_row, internal_id}
use net_chat.DataAccess.{
  prepare, execute, get_all_messages, create_msg, create_msg_by_raw_msg, numbered, between,
  message_values, read_message, get_timestamp,
}
use net_chat.DataAccess.Select.{select_all-inv, select_all-cases}
use net_chat.DataAccess.MaxId.{ids, max_internal_id-ids}

-- The messages from one user to another, as stored.
unfoldable pub chat : ℤ → ℤ → List Row → List Row
chat from to rs = filter (matches (between from to)) rs

-- Each ordered pair of users numbers its messages 1, 2, 3, …
abbrev pub IsNumbered : List Row → Type 0
IsNumbered rs =
    (from to : ℤ) → map (λ r. r internal_id) (chat from to rs) ≡ ids (length (chat from to rs))

-- The stored row of a message.
unfoldable pub stored : ℕ → Message → Row
stored id m = new_row messages id (message_values m)

between_iff :
    (from to : ℤ) (id : ℕ) (m : Message)
    → matches (between from to) (stored id m)
      ≡ (int_eq m.message.from from && int_eq m.message.to to)
unfolding matches stored new_row value_eq
between_iff from to id m = ground arith

pub internal_id-stored : (id : ℕ) (m : Message) → stored id m internal_id ≡ integer m.internal_id
unfolding stored new_row
internal_id-stored id m = refl

pub chat-added :
    (from to : ℤ) (rs : List Row) (id : ℕ) (m : Message)
    → chat from to (rs ++ stored id m ∷ [])
      ≡ chat from to rs
        ++ (if int_eq m.message.from from && int_eq m.message.to to then stored id m ∷ [] else [])
unfolding chat
chat-added from to rs id m =
    filter-append (matches (between from to)) rs (stored id m ∷ []) ∙ rw (between_iff from to id m)

pub chat-added_self :
    (rs : List Row) (id : ℕ) (m : Message)
    → chat m.message.from m.message.to (rs ++ stored id m ∷ [])
      ≡ chat m.message.from m.message.to rs ++ stored id m ∷ []
chat-added_self rs id m =
    chat-added m.message.from m.message.to rs id m
    ∙ rw (
      (int_eq_iff m.message.from m.message.from).1 refl,
      (int_eq_iff m.message.to m.message.to).1 refl,
    )

-- One more message, under the next number of its conversation.
IsNumbered-added_self :
    (rs : List Row) (id : ℕ) (m : Message)
    → IsNumbered rs
    → m.internal_id ≡ pos (suc (length (chat m.message.from m.message.to rs)))
    → let rs' = chat m.message.from m.message.to (rs ++ stored id m ∷ []) in
      map (λ r. r internal_id) rs' ≡ ids (length rs')
IsNumbered-added_self rs id m h e =
    let old = chat m.message.from m.message.to rs in
    rw (chat-added_self rs id m, length-snoc old (stored id m))
      (map-append (λ r. r internal_id) old (stored id m ∷ [])
        ∙ rw (h m.message.from m.message.to, internal_id-stored id m, e))

pub same_chat : (a b c d : ℤ) → int_eq a b && int_eq c d ≡ true → (a ≡ b) × (c ≡ d)
same_chat a b c d h = ground (arith, int_eq_iff a b, int_eq_iff c d)

pub IsNumbered-added :
    (rs : List Row) (id : ℕ) (m : Message)
    → IsNumbered rs
    → m.internal_id ≡ pos (suc (length (chat m.message.from m.message.to rs)))
    → IsNumbered (rs ++ stored id m ∷ [])
IsNumbered-added rs id m h e from to =
    elim (Bool-cases (int_eq m.message.from from && int_eq m.message.to to)) [
      | inr other ↦
          let same : chat from to (rs ++ stored id m ∷ []) ≡ chat from to rs =
            chat-added from to rs id m ∙ rw other (append-nil _) in
          rw same (h from to)
      | inl mine ↦
          let (f, g) = same_chat m.message.from from m.message.to to mine in
          subst₂
            (λ x y.
              map (λ r. r internal_id) (chat x y (rs ++ stored id m ∷ []))
              ≡ ids (length (chat x y (rs ++ stored id m ∷ []))))
            f g (IsNumbered-added_self rs id m h e)
    ]

last_eq : {A : Type 0} (xs ys : List A) {a b : A} → xs ++ a ∷ [] ≡ ys ++ b ∷ [] → xs ≡ ys → a ≡ b
last_eq [] [] e f = cc e
last_eq [] (y ∷ ys) e f = cc f
last_eq (x ∷ xs) [] e f = cc f
last_eq (x ∷ xs) (y ∷ ys) e f = last_eq xs ys (cc e) (cc f)

-- And under no other number.
pub IsNumbered-added-inv :
    (rs : List Row) (id : ℕ) (m : Message)
    → IsNumbered rs
    → IsNumbered (rs ++ stored id m ∷ [])
    → m.internal_id ≡ pos (suc (length (chat m.message.from m.message.to rs)))
IsNumbered-added-inv rs id m h k =
    let old = chat m.message.from m.message.to rs in
    let k' =
      rw (chat-added_self rs id m, length-snoc old (stored id m)) at
        (k m.message.from m.message.to) in
    let grown =
      rw internal_id-stored at
        (sym (map-append (λ r. r internal_id) old (stored id m ∷ [])) ∙ k') in
    cc (
      last_eq (map (λ r. r internal_id) old) (ids (length old)) grown
        (h m.message.from m.message.to))

pub length-chat_added :
    (rs : List Row) (id : ℕ) (m : Message)
    → length (chat m.message.from m.message.to (rs ++ stored id m ∷ []))
      ≡ suc (length (chat m.message.from m.message.to rs))
length-chat_added rs id m =
    rw (chat-added_self rs id m) (length-snoc (chat m.message.from m.message.to rs) (stored id m))

module _ (q : Sqlite) where
  open q use {Db, rows, steps, prepares, exec, last_insert_rowid, steps-Selected, exec-Inserted}

  -- An INSERT either adds one row or leaves the database alone.
  pub create_msg-cases :
      (m : Message) (db : Db)
      → ((db' : Db) × (create_msg q m db ≡ (ok (some (to_int (pos (last_insert_rowid db')))), db'))
          × (rows db' messages ≡ rows db messages ++ stored (last_insert_rowid db') m ∷ []))
        ⊎ (create_msg q m db ≡ (threw, db))
  unfolding create_msg prepare execute stored
  create_msg-cases m db = elim (Bool-cases (prepares (insert messages (message_values m)) db)) [
    | inr p ↦ inr (ground arith)
    | inl p ↦ elim (Option-cases (exec (insert messages (message_values m)) db)) [
      | inl e ↦ inr (ground arith)
      | inr ((db', n), e) ↦
          let i = exec-Inserted messages (message_values m) db db' n e in
          inl (db', ground (arith, i.one), i.added)
    ]
  ]

  pub numbered-message :
      (m : RawMessage) (msgs : List Message) (seconds : ℕ) → (numbered m msgs seconds).message ≡ m
  unfolding numbered
  numbered-message m msgs seconds = refl

  numbered-timestamp :
      (m : RawMessage) (msgs : List Message) (seconds : ℕ)
      → (numbered m msgs seconds).timestamp ≡ get_timestamp seconds
  unfolding numbered
  numbered-timestamp m msgs seconds = refl

  pub get_all_messages-cases :
      (from to : ℤ) (db : Db)
      → ((msgs : List Message) × (get_all_messages q from to db ≡ (ok msgs, db)))
        ⊎ (get_all_messages q from to db ≡ (threw, db))
  unfolding get_all_messages
  get_all_messages-cases from to db =
      select_all-cases q messages (between from to) (read_message q) db

  pub numbered-next :
      (m : RawMessage) (seconds : ℕ) (db : Db) {msgs : List Message}
      → IsNumbered (rows db messages)
      → length (chat m.from m.to (rows db messages)) + 1 < int_max_suc
      → get_all_messages q m.from m.to db ≡ (ok msgs, db)
      → (numbered m msgs seconds).internal_id
        ≡ pos (suc (length (chat m.from m.to (rows db messages))))
  unfolding numbered get_all_messages chat inc
  numbered-next m seconds db h small e =
      let old = length (filter (matches (between m.from m.to)) (rows db messages)) in
      let (rs, perm, same) =
        select_all-inv q messages (between m.from m.to) (read_message q) db db e in
      rw (same, max_internal_id-ids q old perm (h m.from m.to) (omega arith))
        (to_int-id (pos (old + 1)) small ∙ ap pos (omega arith))

  -- What one call stores: the message under the next number of its conversation, or nothing.
  pub create_msg_by_raw_msg-cases :
      (m : RawMessage) (seconds : ℕ) (db : Db)
      → IsNumbered (rows db messages)
      → length (chat m.from m.to (rows db messages)) + 1 < int_max_suc
      → ((db' : Db) × (msg : Message) × (create_msg_by_raw_msg q m seconds db
            ≡ (ok (some (record msg { id = to_int (pos (last_insert_rowid db')) })), db'))
          × (msg.message ≡ m)
          × (msg.internal_id ≡ pos (suc (length (chat m.from m.to (rows db messages)))))
          × (msg.timestamp ≡ get_timestamp seconds)
          × (rows db' messages ≡ rows db messages ++ stored (last_insert_rowid db') msg ∷ []))
        ⊎ (create_msg_by_raw_msg q m seconds db ≡ (threw, db))
  unfolding create_msg_by_raw_msg
  create_msg_by_raw_msg-cases m seconds db h small = elim (get_all_messages-cases m.from m.to db) [
    | inr e ↦ inr (ground arith)
    | inl (msgs, e) ↦ elim (create_msg-cases (numbered m msgs seconds) db) [
      | inr f ↦ inr (ground arith)
      | inl (db', f, added) ↦ inl (
        db',
        numbered m msgs seconds,
        ground arith,
        numbered-message m msgs seconds,
        numbered-next m seconds db h small e,
        numbered-timestamp m msgs seconds,
        added,
      )
    ]
  ]

  -- Every conversation stays numbered 1, 2, 3, …, whether the call succeeds or throws.
  pub create_msg_by_raw_msg-IsNumbered :
      (m : RawMessage) (seconds : ℕ) (db : Db)
      → IsNumbered (rows db messages)
      → length (chat m.from m.to (rows db messages)) + 1 < int_max_suc
      → IsNumbered (rows (create_msg_by_raw_msg q m seconds db).1 messages)
  create_msg_by_raw_msg-IsNumbered m seconds db h small =
      elim (create_msg_by_raw_msg-cases m seconds db h small) [
        | inr e ↦ rw e h
        | inl (db', msg, e, same, next, _, added) ↦
            rw (e, added) (IsNumbered-added (rows db messages) _ msg h (rw same next))
      ]
