-- ===== src/DataAccess/Untouched.antt =====
-- Which tables an operation leaves as they were, whether it succeeds or fails.
use net_chat.Prelude.{ap, ◌≢◌, List, Option-cases, inl, inr, arith, Str}
use net_chat.Exec.Preserves.{
  Preserves, Preserves-pure, Preserves-bind, Preserves-try_catch, Preserves-no_except,
}
use net_chat.Entities.{User, StoredFile}
use net_chat.Sql.{Sqlite, Table, Row, Binding, Statement, insert, update, users, files}
use net_chat.DataAccess.{
  prepare, execute, select_first, select_all, create_user, create_file, update_file,
}
use net_chat.DataAccess.Select.{select_first-unchanged, select_all-unchanged}

module _ (q : Sqlite) (u : Table) where
  open q use {Db, rows, prepares, exec, exec-Inserted, exec-Updated}

  abbrev pub table : Db → List Row
  table db = rows db u

  prepare-Preserves : (st : Statement) → Preserves table (prepare q st)
  unfolding prepare
  prepare-Preserves st = record { at = λ db. ground arith }

  execute-insert-Preserves :
      (t : Table) (vals : List Binding) → u ≢ t → Preserves table (execute q (insert t vals))
  unfolding execute
  execute-insert-Preserves t vals h = record {
    at = λ db. elim (Option-cases (exec (insert t vals) db)) [
      | inl e ↦ ground arith
      | inr ((db', n), e) ↦ ground (arith, (exec-Inserted t vals db db' n e).kept u h)
    ];
  }

  execute-update-Preserves :
      (t : Table) (sets conds : List Binding)
      → u ≢ t
      → Preserves table (execute q (update t sets conds))
  unfolding execute
  execute-update-Preserves t sets conds h = record {
    at = λ db. elim (Option-cases (exec (update t sets conds) db)) [
      | inl e ↦ ground arith
      | inr ((db', n), e) ↦ ground (arith, (exec-Updated t sets conds db db' n e).kept u h)
    ];
  }

  pub select_first-Preserves :
      {A : Type 0} (t : Table) (conds : List Binding) (read : Row → A)
      → Preserves table (select_first q t conds read)
  select_first-Preserves t conds read = record {
    at = λ db. ap table (select_first-unchanged q t conds read db);
  }

  pub select_all-Preserves :
      {A : Type 0} (t : Table) (conds : List Binding) (read : Row → A)
      → Preserves table (select_all q t conds read)
  select_all-Preserves t conds read = record {
    at = λ db. ap table (select_all-unchanged q t conds read db);
  }

  pub create_user-Preserves : (x : User) → u ≢ users → Preserves table (create_user q x)
  unfolding create_user
  create_user-Preserves x h =
      Preserves-try_catch _ _
        (Preserves-bind _ _ (prepare-Preserves _)
          (λ _. Preserves-bind _ _ (execute-insert-Preserves _ _ h) (λ n. Preserves-pure _)))
        (Preserves-pure _)

  pub create_file-Preserves : (uuid : Str) → u ≢ files → Preserves table (create_file q uuid)
  unfolding create_file
  create_file-Preserves uuid h = Preserves-no_except _ (
      Preserves-bind _ _ (prepare-Preserves _) (λ _.
        Preserves-try_catch _ _
          (Preserves-bind _ _ (execute-insert-Preserves _ _ h) (λ n. Preserves-pure _))
          (Preserves-pure _)))

  pub update_file-Preserves : (f : StoredFile) → u ≢ files → Preserves table (update_file q f)
  unfolding update_file
  update_file-Preserves f h = Preserves-no_except _ (
      Preserves-bind _ _ (prepare-Preserves _) (λ _.
        Preserves-try_catch _ _
          (Preserves-bind _ _ (execute-update-Preserves _ _ _ h) (λ n. Preserves-pure _))
          (Preserves-pure _)))
