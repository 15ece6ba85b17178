-- ===== src/DataAccess/Keys.antt =====
-- The keys of the tables: what the schema of include/db_access.h declares UNIQUE or PRIMARY KEY stays so
-- under all that the program does.
use net_chat.Prelude.{
  ℕ, ◌≤◌, ◌≡◌, refl, sym, ap, subst, fun_ext, ◌∙◌, List, [], ◌∷◌, ◌++◌, map, Bool, true, false,
  ◌&&◌, not, ◌==◌, count, count-append, count-map, arith, Str, str_eq_iff, int_eq, int_eq_iff, ℤ,
  pos, Bool-cases, inl, inr,
}
use net_chat.Proto.{Message}
use net_chat.Entities.{User, StoredFile}
use net_chat.Sql.{
  Sqlite, Table, Column, Row, Value, Binding, file_id, users, messages, files, user_id, message_id,
  text, integer, value_eq, null, violates, new_row, id_below, update_row, Inserted, Updated,
}
use net_chat.DataAccess.{user_values, message_values}
use net_chat.DataAccess.Users.{has_name, violates-has_name}
use net_chat.DataAccess.Files.{has_file, file_sets, by_id}
use net_chat.DataAccess.Changes.{Change, unchanged, user_added, message_added, file_added, file_set}

-- Whether a row has this number in a column.
unfoldable pub has_number : Column → ℕ → Row → Bool
unfolding value_eq
has_number c n r = value_eq (r c) (integer (pos n))

-- No two users share a name or an id, no two messages an id, and no two files an id.
pub record HasKeys (rows : Table → List Row) : Type 0 where
  pub names : (name : Str) → count (has_name name) (rows users) ≤ 1
  pub user_ids : (n : ℕ) → count (has_number user_id n) (rows users) ≤ 1
  pub message_ids : (n : ℕ) → count (has_number message_id n) (rows messages) ≤ 1
  pub file_ids : (id : Str) → count (has_file id) (rows files) ≤ 1

violates-has_file :
    (id : Str) (rs : List Row) → violates files (by_id id) rs ≡ not (count (has_file id) rs == 0)
unfolding violates has_file
violates-has_file id rs = ap (λ (p : Row → Bool). not (count p rs == 0)) (fun_ext λ r. ground arith)

count_none :
    (p q : Row → Bool) (rs : List Row)
    → ((r : Row) → p r ≡ true → q r ≡ true)
    → count q rs ≡ 0
    → count p rs ≡ 0
count_none p q [] h e = refl
count_none p q (r ∷ rs) h e = ground (arith, h r, count_none p q rs h)

-- One more row, whose key no row had.
count-added :
    (p : Row → Bool) (rs : List Row) (r : Row)
    → count p rs ≤ 1
    → (p r ≡ true → count p rs ≡ 0)
    → count p (rs ++ r ∷ []) ≤ 1
count-added p rs r few new = elim (Bool-cases (p r)) [
  | inl e ↦ ground (arith, count-append p rs (r ∷ []), new e)
  | inr e ↦ ground (arith, count-append p rs (r ∷ []))
]

value_eq-integer : (v : Value) (z : ℤ) → value_eq v (integer z) ≡ true → v ≡ integer z
unfolding value_eq
value_eq-integer null z h = cc h
value_eq-integer (integer y) z h = ap integer ((int_eq_iff y z).0 h)
value_eq-integer (text s) z h = cc h

value_eq-text : (v : Value) (s : Str) → value_eq v (text s) ≡ true → v ≡ text s
unfolding value_eq
value_eq-text null s h = cc h
value_eq-text (integer y) s h = cc h
value_eq-text (text t) s h = ap text ((str_eq_iff t s).0 h)

-- A number that is above all others is new.
number_not_below :
    (c : Column) (n : ℕ) (r : Row) → has_number c n r ≡ true → not (id_below n (r c)) ≡ true
unfolding has_number id_below
number_not_below c n r h =
    subst (λ v. not (id_below n v) ≡ true) (sym (value_eq-integer (r c) (pos n) h)) (ground arith)

new_number :
    (c : Column) (id n : ℕ) (rs : List Row)
    → int_eq (pos id) (pos n) ≡ true
    → count (λ r. not (id_below id (r c))) rs ≡ 0
    → count (has_number c n) rs ≡ 0
new_number c id n rs e above =
    let same : id ≡ n = cc ((int_eq_iff (pos id) (pos n)).0 e) in
    subst (λ k. count (has_number c k) rs ≡ 0) same
      (count_none (has_number c id) _ rs (λ r. number_not_below c id r) above)

has_file-update_row :
    (f : StoredFile) (id : Str) (r : Row)
    → has_file id (update_row (file_sets f) (by_id f.id) r) ≡ has_file id r
unfolding has_file update_row
has_file-update_row f id r = elim (Bool-cases (value_eq (r file_id) (text f.id) && true)) [
  | inl e ↦ rw e refl
  | inr e ↦ rw e refl
]

count-kept : (p : Row → Bool) (rs rs' : List Row) → rs' ≡ rs → count p rs ≤ 1 → count p rs' ≤ 1
count-kept p rs rs' e few = subst (λ x. count p x ≤ 1) (sym e) few

number-added :
    (t : Table) (c : Column) (vals : List Binding) (id : ℕ) (rs rs' : List Row) (n : ℕ)
    → rs' ≡ rs ++ new_row t id vals ∷ []
    → new_row t id vals c ≡ integer (pos id)
    → count (λ r. not (id_below id (r c))) rs ≡ 0
    → count (has_number c n) rs ≤ 1
    → count (has_number c n) rs' ≤ 1
unfolding has_number value_eq
number-added t c vals id rs rs' n added own above few =
    count-kept (has_number c n) (rs ++ new_row t id vals ∷ []) rs' added (
      count-added (has_number c n) rs (new_row t id vals) few
        (λ h. new_number c id n rs (rw own at h) above))

name-added :
    (u : User) (id : ℕ) (rs rs' : List Row) (name : Str)
    → rs' ≡ rs ++ new_row users id (user_values u) ∷ []
    → violates users (user_values u) rs ≡ false
    → count (has_name name) rs ≤ 1
    → count (has_name name) rs' ≤ 1
unfolding has_name new_row
name-added u id rs rs' name added allowed few =
    let free : count (has_name u.username) rs ≡ 0 =
      ground (arith, rw (violates-has_name u rs) at allowed) in
    count-kept (has_name name) (rs ++ new_row users id (user_values u) ∷ []) rs' added (
      count-added (has_name name) rs (new_row users id (user_values u)) few (λ h.
        let same : u.username ≡ name = (str_eq_iff u.username name).0 h in
        subst (λ x. count (has_name x) rs ≡ 0) same free))

file-added :
    (uuid : Str) (id : ℕ) (rs rs' : List Row) (wanted : Str)
    → rs' ≡ rs ++ new_row files id (by_id uuid) ∷ []
    → violates files (by_id uuid) rs ≡ false
    → count (has_file wanted) rs ≤ 1
    → count (has_file wanted) rs' ≤ 1
unfolding has_file new_row
file-added uuid id rs rs' wanted added allowed few =
    let free : count (has_file uuid) rs ≡ 0 =
      ground (arith, rw (violates-has_file uuid rs) at allowed) in
    count-kept (has_file wanted) (rs ++ new_row files id (by_id uuid) ∷ []) rs' added (
      count-added (has_file wanted) rs (new_row files id (by_id uuid)) few (λ h.
        let same : uuid ≡ wanted = (str_eq_iff uuid wanted).0 h in
        subst (λ x. count (has_file x) rs ≡ 0) same free))

file-set :
    (f : StoredFile) (rs rs' : List Row) (wanted : Str)
    → rs' ≡ map (update_row (file_sets f) (by_id f.id)) rs
    → count (has_file wanted) rs ≤ 1
    → count (has_file wanted) rs' ≤ 1
file-set f rs rs' wanted e few =
    let same : count (has_file wanted) (map (update_row (file_sets f) (by_id f.id)) rs)
        ≡ count (has_file wanted) rs =
      count-map (has_file wanted) (update_row (file_sets f) (by_id f.id)) rs
      ∙ ap (λ p. count p rs) (fun_ext λ r. has_file-update_row f wanted r) in
    subst (λ x. count (has_file wanted) x ≤ 1) (sym e) (omega (arith, same, few))

module _ (q : Sqlite) where
  open q use {Db, rows, last_insert_rowid}

  HasKeys-user_added :
      (db db' : Db) (u : User) (n : ℕ)
      → Inserted (rows db) (rows db') users (user_values u) (last_insert_rowid db') n
      → HasKeys (rows db)
      → HasKeys (rows db')
  unfolding new_row
  HasKeys-user_added db db' u n i h = record {
    names = λ name.
        name-added u (last_insert_rowid db') (rows db users) (rows db' users) name i.added i.allowed
          (h.names name);
    user_ids = λ k.
        number-added users user_id (user_values u) (last_insert_rowid db') (rows db users)
          (rows db' users) k i.added refl (i.above user_id refl) (h.user_ids k);
    message_ids = λ k. count-kept _ _ _ (i.kept messages (λ e. cc e)) (h.message_ids k);
    file_ids = λ id. count-kept _ _ _ (i.kept files (λ e. cc e)) (h.file_ids id);
  }

  HasKeys-message_added :
      (db db' : Db) (m : Message) (n : ℕ)
      → Inserted (rows db) (rows db') messages (message_values m) (last_insert_rowid db') n
      → HasKeys (rows db)
      → HasKeys (rows db')
  unfolding new_row
  HasKeys-message_added db db' m n i h = record {
    names = λ name. count-kept _ _ _ (i.kept users (λ e. cc e)) (h.names name);
    user_ids = λ k. count-kept _ _ _ (i.kept users (λ e. cc e)) (h.user_ids k);
    message_ids = λ k.
        number-added messages message_id (message_values m) (last_insert_rowid db')
          (rows db messages) (rows db' messages) k i.added refl (i.above message_id refl)
          (h.message_ids k);
    file_ids = λ id. count-kept _ _ _ (i.kept files (λ e. cc e)) (h.file_ids id);
  }

  HasKeys-file_added :
      (db db' : Db) (uuid : Str) (n : ℕ)
      → Inserted (rows db) (rows db') files (by_id uuid) (last_insert_rowid db') n
      → HasKeys (rows db)
      → HasKeys (rows db')
  HasKeys-file_added db db' uuid n i h = record {
    names = λ name. count-kept _ _ _ (i.kept users (λ e. cc e)) (h.names name);
    user_ids = λ k. count-kept _ _ _ (i.kept users (λ e. cc e)) (h.user_ids k);
    message_ids = λ k. count-kept _ _ _ (i.kept messages (λ e. cc e)) (h.message_ids k);
    file_ids = λ id.
        file-added uuid (last_insert_rowid db') (rows db files) (rows db' files) id i.added
          i.allowed (h.file_ids id);
  }

  HasKeys-file_set :
      (db db' : Db) (f : StoredFile) (n : ℕ)
      → Updated (rows db) (rows db') files (file_sets f) (by_id f.id) n
      → HasKeys (rows db)
      → HasKeys (rows db')
  HasKeys-file_set db db' f n u h = record {
    names = λ name. count-kept _ _ _ (u.kept users (λ e. cc e)) (h.names name);
    user_ids = λ k. count-kept _ _ _ (u.kept users (λ e. cc e)) (h.user_ids k);
    message_ids = λ k. count-kept _ _ _ (u.kept messages (λ e. cc e)) (h.message_ids k);
    file_ids = λ id. file-set f (rows db files) (rows db' files) id u.rewritten (h.file_ids id);
  }

  -- Every statement of the program keeps the keys.
  pub Change-HasKeys : (db db' : Db) → Change q db db' → HasKeys (rows db) → HasKeys (rows db')
  Change-HasKeys db db' (unchanged e) h = subst (λ d. HasKeys (rows d)) (sym e) h
  Change-HasKeys db db' (user_added u n i) h = HasKeys-user_added db db' u n i h
  Change-HasKeys db db' (message_added m n i) h = HasKeys-message_added db db' m n i h
  Change-HasKeys db db' (file_added uuid n i) h = HasKeys-file_added db db' uuid n i h
  Change-HasKeys db db' (file_set f n u) h = HasKeys-file_set db db' f n u h
