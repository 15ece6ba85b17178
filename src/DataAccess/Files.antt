-- ===== src/DataAccess/Files.antt =====
-- The files table: `createFile`, `updateFile` and `getFile`.
use net_chat.Prelude.{
  ℕ, ◌≤◌, ◌≡◌, ◌≢◌, refl, ◌∙◌, ap, subst, fun_ext, ◌⊎◌, inl, inr, List, [], ◌∷◌, ◌++◌, map, none,
  some, Bool, true, false, filter, count, length, length-filter, arith, Str, str_eq_iff, c_str,
  Bool-cases, Option-cases,
}
use net_chat.Exec.{ok, aborted}
use net_chat.Entities.{StoredFile}
use net_chat.Sql.{
  Sqlite, files, Row, Binding, Value, text, null, integer, value_eq, select, insert, update,
  matches, new_row, file_id, filename, hash, update_row, set_columns,
}
use net_chat.Sql.Steps.{perm-singleton}
use net_chat.DataAccess.{
  prepare, execute, create_file, update_file, get_file, read_file, get_string,
}
use net_chat.DataAccess.Select.{answer-perm, select_first-answer}

-- Whether a row of `files` has this id.
unfoldable pub has_file : Str → Row → Bool
unfolding value_eq
has_file id r = value_eq (r file_id) (text id)

matches-has_file : (id : Str) → matches ((file_id, text id) ∷ []) ≡ has_file id
unfolding matches has_file
matches-has_file id = fun_ext λ r. ground arith

-- An UPDATE that keeps the rows that its WHERE finds.
filter-update_row :
    (sets conds : List Binding) (rs : List Row)
    → ((r : Row) → matches conds (set_columns sets r) ≡ matches conds r)
    → filter (matches conds) (map (update_row sets conds) rs)
      ≡ map (set_columns sets) (filter (matches conds) rs)
unfolding update_row
filter-update_row sets conds [] h = refl
filter-update_row sets conds (r ∷ rs) h = ground (arith, h r, filter-update_row sets conds rs h)

abbrev pub file_sets : StoredFile → List Binding
file_sets f = (filename, text f.name) ∷ (hash, text f.hash) ∷ []

abbrev pub by_id : Str → List Binding
by_id id = (file_id, text id) ∷ []

set_columns-has_file :
    (f : StoredFile) (id : Str) (r : Row)
    → matches (by_id id) (set_columns (file_sets f) r) ≡ matches (by_id id) r
unfolding matches set_columns
set_columns-has_file f id r = refl

singleton_of_count :
    (p : Row → Bool) (rs : List Row) → count p rs ≡ 1 → (r : Row) × (filter p rs ≡ r ∷ [])
singleton_of_count p rs h = go (filter p rs) (omega (arith, length-filter p rs, h))
  where
    go : (l : List Row) → length l ≡ 1 → (r : Row) × (l ≡ r ∷ [])
    go [] e = absurd (omega arith)
    go (r ∷ []) e = (r, refl)
    go (r ∷ s ∷ l) e = absurd (omega arith)

filter_passes : (p : Row → Bool) (rs : List Row) (r : Row) → filter p rs ≡ r ∷ [] → p r ≡ true
filter_passes p [] r e = cc e
filter_passes p (x ∷ rs) r e = elim (Bool-cases (p x)) [
  | inl t ↦ subst (λ y. p y ≡ true) (cc (rw t at e)) t
  | inr t ↦ filter_passes p rs r (rw t at e)
]

count_one :
    (f : StoredFile) (rs : List Row) (n : ℕ)
    → count (has_file f.id) rs ≤ 1
    → n ≢ 0
    → n ≡ count (matches (by_id f.id)) rs
    → count (matches (by_id f.id)) rs ≡ 1
count_one f rs n few changed e =
    let e' = rw (matches-has_file f.id) at e in rw (matches-has_file f.id) (omega arith)

module _ (q : Sqlite) where
  open q use {Db, rows, healthy, prepares, exec, last_insert_rowid, exec-Inserted, exec-Updated}

  -- `createFile` adds one row, under an id that no row had; or returns nothing; or ends the process.
  pub create_file-cases :
      (uuid : Str) (db : Db)
      → ((db' : Db) × (create_file q uuid db ≡ (ok (some uuid), db'))
          × (rows db' files
              ≡ rows db files ++ new_row files (last_insert_rowid db') (by_id uuid) ∷ []))
        ⊎ (create_file q uuid db ≡ (ok none, db))
        ⊎ ((create_file q uuid db ≡ (aborted, db))
            × (prepares (insert files (by_id uuid)) db ≡ false))
  unfolding create_file prepare execute
  create_file-cases uuid db = elim (Bool-cases (prepares (insert files (by_id uuid)) db)) [
    | inr p ↦ inr (inr (ground arith, p))
    | inl p ↦ elim (Option-cases (exec (insert files (by_id uuid)) db)) [
      | inl e ↦ inr (inl (ground arith))
      | inr ((db', n), e) ↦
          let i = exec-Inserted files (by_id uuid) db db' n e in
          inl (db', ground (arith, i.one), i.added)
    ]
  ]

  update_file-inv :
      (f : StoredFile) (db db' : Db)
      → update_file q f db ≡ (ok true, db')
      → (n : ℕ) × (exec (update files (file_sets f) (by_id f.id)) db ≡ some (db', n)) × (n ≢ 0)
  unfolding update_file prepare execute
  update_file-inv f db db' e =
      elim (Bool-cases (prepares (update files (file_sets f) (by_id f.id)) db)) [
        | inr p ↦ ground arith
        | inl p ↦ elim (Option-cases (exec (update files (file_sets f) (by_id f.id)) db)) [
          | inl x ↦ ground arith
          | inr ((db'', n), x) ↦ (n, ground arith, ground arith)
        ]
      ]

  get_string-eq : (v : Value) (id : Str) → value_eq v (text id) ≡ true → get_string q v ≡ id
  unfolding value_eq get_string
  get_string-eq null id h = cc
  get_string-eq (integer z) id h = cc
  get_string-eq (text s) id h = (str_eq_iff s id).0 h

  read_file-set :
      (f : StoredFile) (r : Row)
      → has_file f.id r ≡ true
      → read_file q (set_columns (file_sets f) r) ≡ f
  unfolding read_file set_columns has_file
  read_file-set f r h = ap (λ (x : Str). record f { id = x }) (get_string-eq (r file_id) f.id h)

  -- After a successful update, a lookup of the id finds the new name and hash.
  pub get_file-update_file :
      (f : StoredFile) (db db' : Db)
      → c_str f.id ≡ f.id
      → count (has_file f.id) (rows db files) ≤ 1
      → update_file q f db ≡ (ok true, db')
      → healthy (select files (by_id f.id)) db' ≡ true
      → get_file q f.id db' ≡ (ok (some f), db')
  unfolding get_file
  get_file-update_file f db db' z unique e well =
      let (n, x, changed) = update_file-inv f db db' e in
      let u = exec-Updated files (file_sets f) (by_id f.id) db db' n x in
      let one : count (matches (by_id f.id)) (rows db files) ≡ 1 =
        count_one f (rows db files) n unique changed u.changes in
      let (r, only) = singleton_of_count (matches (by_id f.id)) (rows db files) one in
      let after : filter (matches (by_id f.id)) (rows db' files)
          ≡ set_columns (file_sets f) r ∷ [] =
        rw (
          u.rewritten,
          filter-update_row (file_sets f) (by_id f.id) (rows db files)
              (set_columns-has_file f f.id),
          only,
        ) in
      let kept_id : has_file f.id r ≡ true =
        filter_passes (has_file f.id) (rows db files) r (rw (← matches-has_file f.id) only) in
      let found =
        perm-singleton {a = set_columns (file_sets f) r} (answer-perm q files (by_id f.id) db' well)
          after in
      rw z (
        select_first-answer q files (by_id f.id) db' well (read_file q)
        ∙ rw found (ap (λ x. (ok (some x), db')) (read_file-set f r kept_id)))
