-- ===== src/DataAccess/Select.antt =====
-- What the SELECTs of src/db/db_access.cpp return, when SQLite reports no failure.
use mathlib.Core.List.{append_assoc, append-nil, Permᴰ}
use mathlib.Core.Option
use net_chat.Prelude.{
  ℕ, zero, suc, ◌≡◌, ◌⊎◌, inl, inr, Bool-cases, refl, ◌∙◌, ap, List, [], ◌∷◌, ◌++◌, map, Option,
  none, some, Bool, true, ◌&&◌, ◌≤◌, ◌<◌, filter, count, count-filter, head?, arith, length,
  length-filter,
}
use net_chat.Exec.{ok, threw}
use net_chat.Sql.{Sqlite, Table, Row, Binding, select, matches}
use net_chat.Sql.Steps.{Cursor, cursor, done, row, failed, count-perm, length-perm}
use net_chat.DataAccess.{prepare, first_row, all_rows, select_first, select_all}

count_le : (p q : Row → Bool) (rs : List Row) → count (λ x. p x && q x) rs ≤ count q rs
count_le p q [] = omega arith
count_le p q (r ∷ rs) = ground (arith, count_le p q rs)

module _ (q : Sqlite) where
  open q use {Db, rows, healthy, steps, prepares, steps-Selected, prepares-healthy}

  first_row-cursor :
      {A : Type 0} (read : Row → A) (rs : List Row) (db : Db)
      → first_row q read (cursor none rs) db ≡ (ok (Option.map read (head? rs)), db)
  unfolding first_row cursor
  first_row-cursor read [] db = refl
  first_row-cursor read (r ∷ rs) db = refl

  all_rows-cursor :
      {A : Type 0} (read : Row → A) (xs : List A) (rs : List Row) (db : Db)
      → all_rows q read xs (cursor none rs) db ≡ (ok (xs ++ map read rs), db)
  unfolding all_rows cursor
  all_rows-cursor read xs [] db = rw append-nil
  all_rows-cursor read xs (r ∷ rs) db =
      all_rows-cursor read (xs ++ read r ∷ []) rs db
      ∙ ap (λ ys. (ok ys, db)) (append_assoc xs (read r ∷ []) (map read rs))

  module _ (t : Table) (conds : List Binding) (db : Db)
      (well : healthy (select t conds) db ≡ true) where
    -- The rows that a healthy statement gives, in some order.
    pub answer : List Row
    answer = (steps-Selected t conds db).found

    pub answer-perm : Permᴰ answer (filter (matches conds) (rows db t))
    unfolding answer
    answer-perm = (steps-Selected t conds db).entries

    steps-answer : steps t conds db ≡ cursor none answer
    unfolding answer
    steps-answer =
        let s = steps-Selected t conds db in s.steps ∙ ap (λ k. cursor k s.found) (s.complete well)

    pub select_first-answer :
        {A : Type 0} (read : Row → A)
        → select_first q t conds read db ≡ (ok (Option.map read (head? answer)), db)
    unfolding select_first
    select_first-answer read =
        rw (prepares-healthy (select t conds) db well, steps-answer)
          (first_row-cursor read answer db)

    pub select_all-answer :
        {A : Type 0} (read : Row → A) → select_all q t conds read db ≡ (ok (map read answer), db)
    unfolding select_all
    select_all-answer read =
        rw (prepares-healthy (select t conds) db well, steps-answer)
          (all_rows-cursor read [] answer db)

  -- A SELECT leaves the database alone, failing or not.
  first_row-unchanged :
      {A : Type 0} (read : Row → A) (c : Cursor Row) (db : Db) → (first_row q read c db).1 ≡ db
  unfolding first_row
  first_row-unchanged read c db = ground arith

  all_rows-unchanged :
      {A : Type 0} (read : Row → A) (xs : List A) (c : Cursor Row) (db : Db)
      → (all_rows q read xs c db).1 ≡ db
  unfolding all_rows
  all_rows-unchanged read xs done db = refl
  all_rows-unchanged read xs (row r rest) db = all_rows-unchanged read (xs ++ read r ∷ []) rest db
  all_rows-unchanged read xs failed db = refl

  pub select_first-unchanged :
      {A : Type 0} (t : Table) (conds : List Binding) (read : Row → A) (db : Db)
      → (select_first q t conds read db).1 ≡ db
  unfolding select_first prepare
  select_first-unchanged t conds read db =
      ground (arith, first_row-unchanged read (steps t conds db) db)

  pub select_all-unchanged :
      {A : Type 0} (t : Table) (conds : List Binding) (read : Row → A) (db : Db)
      → (select_all q t conds read db).1 ≡ db
  unfolding select_all prepare
  select_all-unchanged t conds read db =
      ground (arith, all_rows-unchanged read [] (steps t conds db) db)

  all_rows-inv :
      {A : Type 0} (read : Row → A) (k : Option ℕ) (rs : List Row) (xs ys : List A) (db db' : Db)
      → all_rows q read xs (cursor k rs) db ≡ (ok ys, db')
      → ys ≡ xs ++ map read rs
  unfolding all_rows cursor
  all_rows-inv read none [] xs ys db db' e = cc (append-nil xs)
  all_rows-inv read (some zero) rs xs ys db db' e = cc
  all_rows-inv read (some (suc n)) [] xs ys db db' e = cc (append-nil xs)
  all_rows-inv read none (r ∷ rs) xs ys db db' e =
      all_rows-inv read none rs (xs ++ read r ∷ []) ys db db' e
      ∙ append_assoc xs (read r ∷ []) (map read rs)
  all_rows-inv read (some (suc n)) (r ∷ rs) xs ys db db' e =
      all_rows-inv read (some n) rs (xs ++ read r ∷ []) ys db db' e
      ∙ append_assoc xs (read r ∷ []) (map read rs)

  select_all-loop :
      {A : Type 0} (t : Table) (conds : List Binding) (read : Row → A) (db db' : Db) {ys : List A}
      → select_all q t conds read db ≡ (ok ys, db')
      → all_rows q read [] (steps t conds db) db ≡ (ok ys, db')
  unfolding select_all prepare
  select_all-loop t conds read db db' e = ground arith

  -- A SELECT that returns has returned every row that matches.
  pub select_all-inv :
      {A : Type 0} (t : Table) (conds : List Binding) (read : Row → A) (db db' : Db) {ys : List A}
      → select_all q t conds read db ≡ (ok ys, db')
      → (rs : List Row) × Permᴰ rs (filter (matches conds) (rows db t)) × (ys ≡ map read rs)
  select_all-inv t conds read db db' {ys} e =
      let s = steps-Selected t conds db in
      (
        s.found,
        s.entries,
        all_rows-inv read s.fault s.found [] ys db db'
            (rw s.steps at (select_all-loop t conds read db db' e)),
      )

  -- A SELECT returns rows or throws, and leaves the database alone.
  all_rows-cases :
      {A : Type 0} (read : Row → A) (xs : List A) (c : Cursor Row) (db : Db)
      → ((ys : List A) × (all_rows q read xs c db ≡ (ok ys, db)))
        ⊎ (all_rows q read xs c db ≡ (threw, db))
  unfolding all_rows
  all_rows-cases read xs done db = inl (xs, refl)
  all_rows-cases read xs (row r rest) db = all_rows-cases read (xs ++ read r ∷ []) rest db
  all_rows-cases read xs failed db = inr refl

  pub select_all-cases :
      {A : Type 0} (t : Table) (conds : List Binding) (read : Row → A) (db : Db)
      → ((ys : List A) × (select_all q t conds read db ≡ (ok ys, db)))
        ⊎ (select_all q t conds read db ≡ (threw, db))
  unfolding select_all prepare
  select_all-cases t conds read db = elim (Bool-cases (prepares (select t conds) db)) [
    | inl p ↦ rw p (all_rows-cases read [] (steps t conds db) db)
    | inr p ↦ inr (rw p)
  ]

  first_row-cases :
      {A : Type 0} (read : Row → A) (c : Cursor Row) (db : Db)
      → ((o : Option A) × (first_row q read c db ≡ (ok o, db)))
        ⊎ (first_row q read c db ≡ (threw, db))
  unfolding first_row
  first_row-cases read done db = inl (none, refl)
  first_row-cases read (row r rest) db = inl (some (read r), refl)
  first_row-cases read failed db = inr refl

  pub select_first-cases :
      {A : Type 0} (t : Table) (conds : List Binding) (read : Row → A) (db : Db)
      → ((o : Option A) × (select_first q t conds read db ≡ (ok o, db)))
        ⊎ (select_first q t conds read db ≡ (threw, db))
  unfolding select_first prepare
  select_first-cases t conds read db = elim (Bool-cases (prepares (select t conds) db)) [
    | inl p ↦ rw p (first_row-cases read (steps t conds db) db)
    | inr p ↦ inr (rw p)
  ]

  first_row-inv :
      {A : Type 0} (read : Row → A) (k : Option ℕ) (rs : List Row) (a : A) (db db' : Db)
      → first_row q read (cursor k rs) db ≡ (ok (some a), db')
      → (r : Row) × (rest : List Row) × (rs ≡ r ∷ rest) × (a ≡ read r)
  unfolding first_row cursor
  first_row-inv read none [] a db db' e = cc e
  first_row-inv read none (r ∷ rs) a db db' e = (r, rs, refl, cc e)
  first_row-inv read (some zero) rs a db db' e = cc e
  first_row-inv read (some (suc n)) [] a db db' e = cc e
  first_row-inv read (some (suc n)) (r ∷ rs) a db db' e = (r, rs, refl, cc e)

  select_first-row :
      {A : Type 0} (t : Table) (conds : List Binding) (read : Row → A) (db db' : Db) (a : A)
      → select_first q t conds read db ≡ (ok (some a), db')
      → first_row q read (steps t conds db) db ≡ (ok (some a), db')
  unfolding select_first prepare
  select_first-row t conds read db db' a e = ground arith

  -- What a SELECT for one row returns was read from a row of the table.
  pub select_first-inv :
      {A : Type 0} (t : Table) (conds : List Binding) (read : Row → A) (db db' : Db) (a : A)
      → select_first q t conds read db ≡ (ok (some a), db')
      → (r : Row) × (a ≡ read r) × ((p : Row → Bool) → p r ≡ true → 0 < count p (rows db t))
  select_first-inv t conds read db db' a e =
      let s = steps-Selected t conds db in
      let (r, rest, found, is) =
        first_row-inv read s.fault s.found a db db'
          (rw s.steps at (select_first-row t conds read db db' a e)) in
      (
        r,
        is,
        λ p pr.
            let here : 0 < count p s.found = rw found (ground arith) in
            let among : count p s.found ≡ count (λ x. matches conds x && p x) (rows db t) =
              count-perm p s.entries ∙ count-filter p (matches conds) (rows db t) in
            omega (arith, here, among, count_le (matches conds) p (rows db t)),
      )

  -- And it stands where a row matches.
  pub select_first-matched :
      {A : Type 0} (t : Table) (conds : List Binding) (read : Row → A) (db db' : Db) (a : A)
      → select_first q t conds read db ≡ (ok (some a), db')
      → 0 < count (matches conds) (rows db t)
  select_first-matched t conds read db db' a e =
      let s = steps-Selected t conds db in
      let (r, rest, found, is) =
        first_row-inv read s.fault s.found a db db'
          (rw s.steps at (select_first-row t conds read db db' a e)) in
      omega (
        arith,
        ap {B = ℕ} length found,
        length-perm s.entries,
        length-filter (matches conds) (rows db t),
      )
