-- ===== src/Sql/Memory.antt =====
-- An engine that keeps its tables in memory: it shows that the laws of `Sqlite` can be met, and runs
-- the model in tests. `broken` is a disk that is gone: every statement fails.
use mathlib.Core.Logic.{ite, if_pos, if_neg}
use mathlib.Core.Path.{subst₂}
use mathlib.Core.Option.{some-injective}
use native.Mathlib.Nat.{le_refl}
use mathlib.Core.List.Permᴰ as PermD
use net_chat.Prelude.{
  ℕ, suc, ◌≤◌, ◌≡◌, ◌≢◌, refl, Bool, true, false, not, List, [], ◌∷◌, ◌++◌, map, Option, none, some,
  subst, pos, if◌then◌else◌, filter, count, arith, ltb,
}
use net_chat.Sql.Steps.{Cursor, cursor}
use net_chat.Sql.{
  Sqlite, Table, Table-discrete, Column, Row, Binding, Value, integer, Statement, select, insert,
  update, Selected, Inserted, Updated, violates, new_row, update_row, matches, key_column, id_below,
}

pub record Store : Type 0 where
  pub table : Table → List Row
  pub last : ℕ
  pub broken : Bool

abbrev pub empty_store : Store
empty_store = record { table = λ t. []; last = 0; broken = false }

put_table : Table → List Row → (Table → List Row) → Table → List Row
put_table t rs f u = ite (Table-discrete u t) rs (f u)

id_of : Value → ℕ
id_of (integer (pos k)) = k
id_of _ = 0

-- One more than every id of a column.
next_id : Option Column → List Row → ℕ
unfolding id_of
next_id none rs = 1
next_id (some c) [] = 1
next_id (some c) (r ∷ rs) =
    let n = next_id (some c) rs in if ltb (id_of (r c)) n then n else suc (id_of (r c))

next_id-above :
    (c : Column) (rs : List Row) (n : ℕ)
    → next_id (some c) rs ≤ n
    → count (λ r. not (id_below n (r c))) rs ≡ 0
unfolding next_id id_below
next_id-above c [] n h = refl
next_id-above c (r ∷ rs) n h = ground (arith, next_id-above c rs n)

unfoldable pub store_steps : Table → List Binding → Store → Cursor Row
unfolding cursor matches
store_steps t conds s =
    cursor (if s.broken then some 0 else none) (filter (matches conds) (s.table t))

insert_row : Table → List Binding → Store → Store
unfolding put_table next_id
insert_row t vals s =
    let id = next_id (key_column t) (s.table t) in
    record s { table = put_table t (s.table t ++ new_row t id vals ∷ []) s.table; last = id }

run_insert : Table → List Binding → Store → Option (Store × ℕ)
run_insert t vals s =
    if s.broken
    then none
    else if violates t vals (s.table t)
    then none
    else some (insert_row t vals s, 1)

update_rows : Table → List Binding → List Binding → Store → Store
unfolding put_table
update_rows t sets conds s = record s {
  table = put_table t (map (update_row sets conds) (s.table t)) s.table;
}

run_update : Table → List Binding → List Binding → Store → Option (Store × ℕ)
run_update t sets conds s =
    if s.broken then none else some (update_rows t sets conds s, count (matches conds) (s.table t))

unfoldable pub store_exec : Statement → Store → Option (Store × ℕ)
unfolding run_insert run_update insert_row update_rows violates new_row update_row Table-discrete
store_exec (select t conds) s = if s.broken then none else some (s, 0)
store_exec (insert t vals) s = run_insert t vals s
store_exec (update t sets conds) s = run_update t sets conds s

pub store_steps-Selected :
    (t : Table) (conds : List Binding) (s : Store)
    → Selected s.table t conds (not s.broken) (store_steps t conds s)
unfolding store_steps
store_steps-Selected t conds s = record {
  fault = if s.broken then some 0 else none;
  found = filter (matches conds) (s.table t);
  steps = refl;
  entries = PermD.refl _;
  complete = λ h. ground arith;
}

put_table_self : (t : Table) (rs : List Row) (f : Table → List Row) → put_table t rs f t ≡ rs
unfolding put_table
put_table_self t rs f = rw (if_pos _ refl)

put_table_ne :
    (t u : Table) (rs : List Row) (f : Table → List Row) → u ≢ t → put_table t rs f u ≡ f u
unfolding put_table
put_table_ne t u rs f h = rw (if_neg _ h)

next_id-fresh :
    (k : Option Column) (rs : List Row) (c : Column)
    → k ≡ some c
    → count (λ r. not (id_below (next_id k rs) (r c))) rs ≡ 0
next_id-fresh none rs c e = cc
next_id-fresh (some d) rs c e =
    subst (λ x. count (λ r. not (id_below (next_id (some d) rs) (r x))) rs ≡ 0)
      (some-injective d c e) (next_id-above d rs _ (le_refl _))

insert_row-Inserted :
    (t : Table) (vals : List Binding) (s : Store)
    → violates t vals (s.table t) ≡ false
    → Inserted s.table (insert_row t vals s).table t vals (insert_row t vals s).last 1
unfolding insert_row
insert_row-Inserted t vals s ok = record {
  one = refl;
  added = put_table_self t _ s.table;
  kept = λ u h. put_table_ne t u _ s.table h;
  allowed = ok;
  above = next_id-fresh (key_column t) (s.table t);
}

run_insert-inv :
    (t : Table) (vals : List Binding) (s s' : Store) (n : ℕ)
    → run_insert t vals s ≡ some (s', n)
    → (violates t vals (s.table t) ≡ false) × (insert_row t vals s ≡ s') × (1 ≡ n)
unfolding run_insert
run_insert-inv t vals s s' n h = ground arith

run_insert-Inserted :
    (t : Table) (vals : List Binding) (s s' : Store) (n : ℕ)
    → run_insert t vals s ≡ some (s', n)
    → Inserted s.table s'.table t vals s'.last n
run_insert-Inserted t vals s s' n h =
    let (v, e, o) = run_insert-inv t vals s s' n h in
    subst₂ (λ x k. Inserted s.table x.table t vals x.last k) e o (insert_row-Inserted t vals s v)

run_insert_healthy :
    (t : Table) (vals : List Binding) (s : Store)
    → not s.broken ≡ true
    → violates t vals (s.table t) ≡ false
    → (r : Store × ℕ) × (run_insert t vals s ≡ some r)
unfolding run_insert
run_insert_healthy t vals s h v = ((insert_row t vals s, 1), ground arith)

update_rows-Updated :
    (t : Table) (sets conds : List Binding) (s : Store)
    → Updated s.table
        (update_rows t sets conds s).table
        t
        sets
        conds
        (count (matches conds) (s.table t))
unfolding update_rows
update_rows-Updated t sets conds s = record {
  changes = refl;
  rewritten = put_table_self t _ s.table;
  kept = λ u h. put_table_ne t u _ s.table h;
}

run_update-inv :
    (t : Table) (sets conds : List Binding) (s s' : Store) (n : ℕ)
    → run_update t sets conds s ≡ some (s', n)
    → (update_rows t sets conds s ≡ s') × (count (matches conds) (s.table t) ≡ n)
unfolding run_update
run_update-inv t sets conds s s' n h = ground arith

run_update-Updated :
    (t : Table) (sets conds : List Binding) (s s' : Store) (n : ℕ)
    → run_update t sets conds s ≡ some (s', n)
    → Updated s.table s'.table t sets conds n
run_update-Updated t sets conds s s' n h =
    let (e, o) = run_update-inv t sets conds s s' n h in
    subst₂ (λ x k. Updated s.table x.table t sets conds k) e o (update_rows-Updated t sets conds s)

run_update_healthy :
    (t : Table) (sets conds : List Binding) (s : Store)
    → not s.broken ≡ true
    → (r : Store × ℕ) × (run_update t sets conds s ≡ some r)
unfolding run_update
run_update_healthy t sets conds s h =
    ((update_rows t sets conds s, count (matches conds) (s.table t)), ground arith)

pub store_exec-Inserted :
    (t : Table) (vals : List Binding) (s s' : Store) (n : ℕ)
    → store_exec (insert t vals) s ≡ some (s', n)
    → Inserted s.table s'.table t vals s'.last n
unfolding store_exec
store_exec-Inserted = run_insert-Inserted

pub store_exec-insert_healthy :
    (t : Table) (vals : List Binding) (s : Store)
    → not s.broken ≡ true
    → violates t vals (s.table t) ≡ false
    → (r : Store × ℕ) × (store_exec (insert t vals) s ≡ some r)
unfolding store_exec
store_exec-insert_healthy = run_insert_healthy

pub store_exec-Updated :
    (t : Table) (sets conds : List Binding) (s s' : Store) (n : ℕ)
    → store_exec (update t sets conds) s ≡ some (s', n)
    → Updated s.table s'.table t sets conds n
unfolding store_exec
store_exec-Updated = run_update-Updated

pub store_exec-update_healthy :
    (t : Table) (sets conds : List Binding) (s : Store)
    → not s.broken ≡ true
    → (r : Store × ℕ) × (store_exec (update t sets conds) s ≡ some r)
unfolding store_exec
store_exec-update_healthy = run_update_healthy

abbrev pub memory : Sqlite
memory = record {
  Db = Store;
  rows = λ s. s.table;
  healthy = λ st s. not s.broken;
  prepares = λ st s. not s.broken;
  steps = store_steps;
  exec = store_exec;
  last_insert_rowid = λ s. s.last;
  int_of_text = λ s. pos 0;
  text_of_int = λ z. [];
  prepares-healthy = λ st s h. h;
  steps-Selected = store_steps-Selected;
  exec-Inserted = store_exec-Inserted;
  exec-insert_healthy = store_exec-insert_healthy;
  exec-Updated = store_exec-Updated;
  exec-update_healthy = λ t sets conds s h c. store_exec-update_healthy t sets conds s h;
}
