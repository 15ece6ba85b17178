-- ===== src/DataAccess/Opening.antt =====
-- The constructor of `DataAccess` and `checkAndCreateTables` (include/db_access.h).
use net_chat.Prelude.{
  ◌≡◌, ◌≢◌, refl, sym, ap, subst, ◌∙◌, inl, inr, [], Bool, true, false, Option, none, some, Str,
  Bool-cases, Option-cases, arith, if◌then◌else◌,
}
use net_chat.Exec.{Exec, Result, ok, threw, aborted, ◌>>◌}
use net_chat.Exec.Inversion.{bind-inv, ok-injective}
use net_chat.Exec.Preserves.{Preserves, Preserves-bind}
use net_chat.Sql.{Sqlite, Table, Table-discrete, users, groups, user_group, files, messages}

-- What the start needs of SQLite: opening the file, and the tables of the schema. `none` is an exception.
pub record Schema (q : Sqlite) : Type 1 where
  pub open_file : Str → Option q.Db
  pub exists : q.Db → Table → Bool
  pub create_table : Table → q.Db → Option q.Db
  -- a table that is not there has no rows
  pub rows-absent : (db : q.Db) (t : Table) → exists db t ≡ false → q.rows db t ≡ []
  -- CREATE TABLE makes an empty table, and touches no other
  pub created :
      (db db' : q.Db) (t : Table)
      → create_table t db ≡ some db'
      → (exists db' t ≡ true) × (q.rows db' t ≡ [])
  pub others :
      (db db' : q.Db) (t u : Table)
      → create_table t db ≡ some db'
      → u ≢ t
      → (exists db' u ≡ exists db u) × (q.rows db' u ≡ q.rows db u)

module _ (q : Sqlite) (schema : Schema q) where
  open q use {Db, rows}
  open schema use {open_file, exists, create_table, rows-absent, created, others}

  -- `if (!db_.tableExists(…)) db_.exec("CREATE TABLE …")`
  unfoldable pub create_if_absent : Table → Exec Db (Unit {0})
  create_if_absent t db =
      if exists db t
      then (ok tt, db)
      else elim (create_table t db) [ none ↦ (threw, db) | some db' ↦ (ok tt, db') ]

  unfoldable pub check_and_create_tables : Exec Db (Unit {0})
  unfolding create_if_absent
  check_and_create_tables = do
    create_if_absent users
    create_if_absent groups
    create_if_absent user_group
    create_if_absent files
    create_if_absent messages

  opened : Result (Unit {0}) → Db → Result Db
  opened (ok u) db = ok db
  opened r db = threw

  -- the constructor
  unfoldable pub data_access : Str → Result Db
  unfolding opened check_and_create_tables
  data_access path = elim (open_file path) [
    | none ↦ threw
    | some db ↦ let (r, db') = check_and_create_tables db in opened r db'
  ]

  -- Whether the schema is complete.
  HasTables : Db → Type 0
  HasTables db = (t : Table) → exists db t ≡ true

  created-rows :
      (t u : Table) (db db' : Db)
      → exists db t ≡ false
      → create_table t db ≡ some db'
      → rows db' u ≡ rows db u
  created-rows t u db db' absent e = elim (Table-discrete u t) [
    | yes same ↦
        subst (λ x. rows db' x ≡ rows db x) (sym same)
          ((created db db' t e).1 ∙ sym (rows-absent db t absent))
    | no other ↦ (others db db' t u e other).1
  ]

  create_if_absent-Preserves : (t u : Table) → Preserves (λ db. rows db u) (create_if_absent t)
  unfolding create_if_absent
  create_if_absent-Preserves t u = record {
    at = λ db. elim (Bool-cases (exists db t)) [
      | inl there ↦ rw there refl
      | inr absent ↦ elim (Option-cases (create_table t db)) [
        | inl e ↦ ground arith
        | inr (db', e) ↦ ground (arith, created-rows t u db db' absent e)
      ]
    ];
  }

  -- No row of any table is lost or made, whether the tables can be created or not.
  pub check_and_create_tables-Preserves :
      (u : Table) → Preserves (λ db. rows db u) check_and_create_tables
  unfolding check_and_create_tables
  check_and_create_tables-Preserves u =
      Preserves-bind _ _ (create_if_absent-Preserves users u) (λ _.
        Preserves-bind _ _ (create_if_absent-Preserves groups u) (λ _.
          Preserves-bind _ _ (create_if_absent-Preserves user_group u) (λ _.
            Preserves-bind _ _ (create_if_absent-Preserves files u)
              (λ _. create_if_absent-Preserves messages u))))

  create_if_absent-exists :
      (t u : Table) (db db' : Db)
      → create_if_absent t db ≡ (ok tt, db')
      → (exists db' t ≡ true) × (exists db u ≡ true → exists db' u ≡ true)
  unfolding create_if_absent
  create_if_absent-exists t u db db' e = elim (Bool-cases (exists db t)) [
    | inl there ↦ let same : db ≡ db' = ground arith in rw (← same) (there, λ h. h)
    | inr absent ↦ elim (Option-cases (create_table t db)) [
      | inl none_made ↦ ground arith
      | inr (d, made) ↦
          let same : d ≡ db' = ground arith in
          let new : exists d t ≡ true = (created db d t made).0 in
          rw (← same) (
            new,
            λ h. elim (Table-discrete u t) [
              | yes is ↦ rw is new
              | no other ↦ (others db d t u made other).0 ∙ h
            ],
          )
    ]
  ]

  made : (t : Table) (db db' : Db) → create_if_absent t db ≡ (ok tt, db') → exists db' t ≡ true
  made t db db' e = (create_if_absent-exists t t db db' e).0

  still :
      (t u : Table) (db db' : Db)
      → create_if_absent t db ≡ (ok tt, db')
      → exists db u ≡ true
      → exists db' u ≡ true
  still t u db db' e = (create_if_absent-exists t u db db' e).1

  -- the five statements in turn
  five_tables :
      (a b c d e f : Db)
      → create_if_absent users a ≡ (ok tt, b)
      → create_if_absent groups b ≡ (ok tt, c)
      → create_if_absent user_group c ≡ (ok tt, d)
      → create_if_absent files d ≡ (ok tt, e)
      → create_if_absent messages e ≡ (ok tt, f)
      → HasTables f
  unfolding HasTables
  five_tables a b c d e f p q r s t users = still messages users e f t (
      still files users d e s
        (still user_group users c d r (still groups users b c q (made users a b p))))
  five_tables a b c d e f p q r s t groups =
      still messages groups e f t
        (still files groups d e s (still user_group groups c d r (made groups b c q)))
  five_tables a b c d e f p q r s t user_group =
      still messages user_group e f t (still files user_group d e s (made user_group c d r))
  five_tables a b c d e f p q r s t files = still messages files e f t (made files d e s)
  five_tables a b c d e f p q r s t messages = made messages e f t

  check_and_create_tables-HasTables :
      (db db' : Db) → check_and_create_tables db ≡ (ok tt, db') → HasTables db'
  unfolding check_and_create_tables
  check_and_create_tables-HasTables db db' run =
      let (_, b, p, run_b) = bind-inv _ _ db db' tt run in
      let (_, c, q, run_c) = bind-inv _ _ b db' tt run_b in
      let (_, d, r, run_d) = bind-inv _ _ c db' tt run_c in
      let (_, e, s, t) = bind-inv _ _ d db' tt run_d in five_tables db b c d e db' p q r s t

  opened-inv : (r : Result (Unit {0})) (d db' : Db) → opened r d ≡ ok db' → (r ≡ ok tt) × (d ≡ db')
  unfolding opened
  opened-inv (ok tt) d db' e = (refl, ok-injective d db' e)
  opened-inv threw d db' e = cc e
  opened-inv aborted d db' e = cc e

  -- When the constructor of DataAccess returns, the file could be opened, all five tables
  -- exist, and every table has the rows that it had before: none is lost or made.
  pub data_access_lem :
      (path : Str) (db' : Db)
      → data_access path ≡ ok db'
      → (db : Db) × (open_file path ≡ some db)
        × ((t : Table) → (exists db' t ≡ true) × (rows db' t ≡ rows db t))
  unfolding data_access HasTables
  data_access_lem path db' e = elim (Option-cases (open_file path)) [
    | inl closed ↦ ground arith
    | inr (db, open_ok) ↦
        let (all, last) =
          opened-inv (check_and_create_tables db).0 (check_and_create_tables db).1 db'
            (rw (data_access, open_ok) at e) in
        let run : check_and_create_tables db ≡ (ok tt, db') =
          ap (λ r. (r, (check_and_create_tables db).1)) all ∙ ap (λ d. (ok tt, d)) last in
        (
          db,
          open_ok,
          λ t. (
            check_and_create_tables-HasTables db db' run t,
            ap (λ d. rows d t) (sym last) ∙ (check_and_create_tables-Preserves t).at db,
          ),
        )
  ]
