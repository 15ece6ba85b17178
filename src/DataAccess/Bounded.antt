-- ===== src/DataAccess/Bounded.antt =====
-- How far the internal ids of a conversation go, however the loop of `createMsgByRawMsg` and its INSERT
-- are separated.
use mathlib.Core.List.{Permᴰ, append-nil}
use mathlib.Core.Path.{subst₂}
use net_chat.Prelude.{
  ℕ, suc, ◌<◌, ◌≤◌, ◌≡◌, refl, sym, ◌∙◌, ap, subst, List, [], ◌∷◌, ◌++◌, map, filter, filter-append,
  length, length-append, length-snoc, length-filter_le, arith, ℤ, pos, int_lt, int_eq, int_max_suc,
  ◌&&◌, if◌then◌else◌, Bool-cases, inl, inr, All, All-map, All-append,
}
use net_chat.Exec.{ok}
use net_chat.Proto.{Message}
use net_chat.Sql.{Sqlite, Row, Value, integer, internal_id, matches, messages}
use net_chat.DataAccess.{max_internal_id, get_int, read_message, between, get_all_messages}
use net_chat.DataAccess.Select.{select_all-inv}
use net_chat.DataAccess.MaxId.{get_int-pos}
use net_chat.DataAccess.Numbering.{
  chat, chat-added, chat-added_self, same_chat, stored, internal_id-stored,
}

-- One of 1, …, n.
pub record WithinValue (n : ℕ) (v : Value) : Type 0 where
  pub number : ℕ
  pub is : v ≡ integer (pos number)
  pub least : 0 < number
  pub most : number ≤ n

abbrev Within : ℕ → Row → Type 0
Within n r = WithinValue n (r internal_id)

-- In each conversation, the internal ids are among 1, …, n, for its n messages.
pub record IsBounded (rs : List Row) : Type 0 where
  pub bounded : (from to : ℤ) → All (Within (length (chat from to rs))) (chat from to rs)

Within-mono : (n m : ℕ) → n ≤ m → (r : Row) → Within n r → Within m r
Within-mono n m le r w = record {
  number = w.number;
  is = w.is;
  least = w.least;
  most = omega (arith, w.most, le);
}

pub length-chat_grown :
    (from to : ℤ) (rs more : List Row)
    → length (chat from to rs) ≤ length (chat from to (rs ++ more))
unfolding chat
length-chat_grown from to rs more =
    let c = matches (between from to) in
    rw (filter-append c rs more) (omega (arith, length-append (filter c rs) (filter c more)))

-- A conversation with one message more, under a number of the longer one.
Within-added :
    (rs : List Row) (id : ℕ) (m : Message) (k : ℕ)
    → m.internal_id ≡ pos (suc k)
    → k ≤ length (chat m.message.from m.message.to rs)
    → All
        (Within (length (chat m.message.from m.message.to rs)))
        (chat m.message.from m.message.to rs)
    → let rs' = chat m.message.from m.message.to (rs ++ stored id m ∷ []) in
      All (Within (length rs')) rs'
Within-added rs id m k next small h =
    let old = chat m.message.from m.message.to rs in
    let new = stored id m in
    rw (chat-added_self rs id m, length-snoc old new)
      (All-append (Within (suc (length old))) old (new ∷ [])
        (All-map (Within (length old)) (Within (suc (length old))) old
          (Within-mono (length old) (suc (length old)) (omega arith)) h)
        (
          record {
            number = suc k;
            is = internal_id-stored id m ∙ ap integer next;
            least = omega arith;
            most = omega (arith, small);
          },
          tt,
        ))

pub length-chat_le : (from to : ℤ) (rs : List Row) → length (chat from to rs) ≤ length rs
unfolding chat
length-chat_le from to rs = length-filter_le (matches (between from to)) rs

pub IsBounded-added :
    (rs : List Row) (id : ℕ) (m : Message) (k : ℕ)
    → m.internal_id ≡ pos (suc k)
    → k ≤ length (chat m.message.from m.message.to rs)
    → IsBounded rs
    → IsBounded (rs ++ stored id m ∷ [])
IsBounded-added rs id m k next small h = record {
  bounded = λ from to. elim (Bool-cases (int_eq m.message.from from && int_eq m.message.to to)) [
    | inr other ↦
        let same : chat from to (rs ++ stored id m ∷ []) ≡ chat from to rs =
          chat-added from to rs id m ∙ rw other (append-nil _) in
        rw same (h.bounded from to)
    | inl mine ↦
        let (f, g) = same_chat m.message.from from m.message.to to mine in
        subst₂
          (λ x y.
            All (Within (length (chat x y (rs ++ stored id m ∷ []))))
              (chat x y (rs ++ stored id m ∷ [])))
          f g (Within-added rs id m k next small (h.bounded m.message.from m.message.to))
  ];
}

All-perm : {A : Type 0} (P : A → Type 0) {xs ys : List A} → Permᴰ xs ys → All P ys → All P xs
All-perm P Permᴰ.nil h = h
All-perm P (Permᴰ.cons e p) h = (subst P (sym e) h.0, All-perm P p h.1)
All-perm P (Permᴰ.swap e f) h = (subst P (sym e) h.1.0, (subst P (sym f) h.0, h.1.1))
All-perm P (Permᴰ.trans p r) h = All-perm P p (All-perm P r h)

-- A number that is no larger than n.
pub record IsUpTo (n : ℕ) (z : ℤ) : Type 0 where
  pub value : ℕ
  pub is : z ≡ pos value
  pub small : value ≤ n

module _ (q : Sqlite) where
  open q use {Db, rows}

  larger-IsUpTo :
      (n : ℕ) (best : ℤ) (r : Row)
      → n < int_max_suc
      → Within n r
      → IsUpTo n best
      → IsUpTo n
          (if int_lt best (get_int q (r internal_id)) then get_int q (r internal_id) else best)
  larger-IsUpTo n best r small w b =
      let id : get_int q (r internal_id) ≡ pos w.number =
        ap (get_int q) w.is ∙ get_int-pos q w.number (omega (arith, w.most)) in
      elim (Bool-cases (int_lt best (get_int q (r internal_id)))) [
        | inl e ↦ rw e (record { value = w.number; is = id; small = w.most })
        | inr e ↦ rw e b
      ]

  -- The loop stays within what it reads.
  max_internal_id-IsUpTo :
      (n : ℕ) (best : ℤ) (rs : List Row)
      → n < int_max_suc
      → All (Within n) rs
      → IsUpTo n best
      → IsUpTo n (max_internal_id best (map (read_message q) rs))
  unfolding max_internal_id read_message
  max_internal_id-IsUpTo n best [] small h b = b
  max_internal_id-IsUpTo n best (r ∷ rs) small h b =
      max_internal_id-IsUpTo n
        (if int_lt best (get_int q (r internal_id)) then get_int q (r internal_id) else best) rs
        small h.1 (larger-IsUpTo n best r small h.0 b)

  pub get_all_messages-IsUpTo :
      (from to : ℤ) (db db' : Db) (msgs : List Message)
      → IsBounded (rows db messages)
      → length (rows db messages) < int_max_suc
      → get_all_messages q from to db ≡ (ok msgs, db')
      → IsUpTo (length (chat from to (rows db messages))) (max_internal_id (pos 0) msgs)
  unfolding get_all_messages chat
  get_all_messages-IsUpTo from to db db' msgs h small e =
      let old = chat from to (rows db messages) in
      let (rs, perm, same) =
        select_all-inv q messages (between from to) (read_message q) db db' e in
      rw same (
        max_internal_id-IsUpTo (length old) (pos 0) rs
          (omega (arith, small, length-filter_le (matches (between from to)) (rows db messages)))
          (All-perm (Within (length old)) perm (h.bounded from to))
          (record { value = 0; is = refl; small = omega arith }))
