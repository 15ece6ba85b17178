-- ===== src/DataAccess/Users.antt =====
-- The users table: `createUser` against `getUser`.
use net_chat.Prelude.{
  ◌≡◌, ◌≢◌, refl, ◌∙◌, ap, subst, fun_ext, ◌⊎◌, inl, inr, List, [], ◌∷◌, ◌++◌, some, Bool, true,
  false, not, ◌==◌, filter-append_last, count, arith, Str, str_eq_iff, c_str, pos, to_int,
  Bool-cases, Option-cases,
}
use net_chat.Exec.{ok}
use net_chat.Entities.{User}
use net_chat.Sql.{
  Sqlite, users, Row, Binding, text, value_eq, Statement, select, insert, matches, username,
  new_row, violates,
}
use net_chat.Sql.Steps.{perm-singleton}
use net_chat.DataAccess.{prepare, execute, create_user, user_values, get_user_by_name, read_user}
use net_chat.DataAccess.Select.{answer, answer-perm, select_first-answer}

-- Whether a row of `users` has this name.
unfoldable pub has_name : Str → Row → Bool
unfolding value_eq
has_name name r = value_eq (r username) (text name)

pub violates-has_name :
    (u : User) (rs : List Row)
    → violates users (user_values u) rs ≡ not (count (has_name u.username) rs == 0)
unfolding violates has_name
violates-has_name u rs = ap (λ (p : Row → Bool). not (count p rs == 0)) (fun_ext λ r. ground arith)

matches-has_name : (name : Str) → matches ((username, text name) ∷ []) ≡ has_name name
unfolding matches has_name
matches-has_name name = fun_ext λ r. ground arith

module _ (q : Sqlite) (u : User) where
  open q use {
    Db, rows, healthy, prepares, exec, last_insert_rowid, exec-Inserted, exec-insert_healthy,
    prepares-healthy,
  }

  abbrev statement : Statement
  statement = insert users (user_values u)

  -- the row under which the user is stored
  pub created : Db → Row
  created db' = new_row users (last_insert_rowid db') (user_values u)

  created-has_name : (db' : Db) → has_name u.username (created db') ≡ true
  unfolding created has_name new_row
  created-has_name db' = (str_eq_iff u.username u.username).1 refl

  read_user-created :
      (db' : Db)
      → c_str u.username ≡ u.username
      → c_str u.password ≡ u.password
      → read_user q (created db') ≡ record u { id = to_int (pos (last_insert_rowid db')) }
  unfolding created read_user new_row
  read_user-created db' n p = ground arith

  -- createUser returns whatever SQLite throws: with true after exactly one new row, at the end
  -- of the table, whose name no row had; and otherwise with false and the database as it was.
  pub create_user-refines :
      (db : Db)
      → ((db' : Db) × (create_user q u db ≡ (ok true, db'))
          × (count (has_name u.username) (rows db users) ≡ 0)
          × (rows db' users ≡ rows db users ++ created db' ∷ []))
        ⊎ (create_user q u db ≡ (ok false, db))
  unfolding create_user prepare execute created
  create_user-refines db = elim (Bool-cases (prepares statement db)) [
    | inr p ↦ inr (rw p)
    | inl p ↦ elim (Option-cases (exec statement db)) [
      | inl e ↦ inr (ground arith)
      | inr ((db', n), e) ↦
          let i = exec-Inserted users (user_values u) db db' n e in
          inl (
            db',
            ground (arith, i.one),
            ground (arith, i.allowed, violates-has_name u (rows db users)),
            i.added,
          )
    ]
  ]

  -- It succeeds exactly when SQLite can write and no user has the name.
  pub create_user_free :
      (db : Db)
      → healthy statement db ≡ true
      → count (has_name u.username) (rows db users) ≡ 0
      → (create_user q u db).0 ≡ ok true
  unfolding create_user prepare execute
  create_user_free db h free =
      let v : violates users (user_values u) (rows db users) ≡ false =
        rw (violates-has_name u (rows db users), free) refl in
      let (r, e) = exec-insert_healthy users (user_values u) db h v in
      ground (
        arith,
        prepares-healthy statement db h,
        e,
        (exec-Inserted users (user_values u) db r.0 r.1 e).one,
      )

  -- what a success has done
  pub create_user-true :
      (db db' : Db)
      → create_user q u db ≡ (ok true, db')
      → (count (has_name u.username) (rows db users) ≡ 0)
        × (rows db' users ≡ rows db users ++ created db' ∷ [])
  create_user-true db db' e = elim (create_user-refines db) [
    | inr e' ↦ absurd (cc (e, e'))
    | inl (d, e', free, added) ↦
        let same : d ≡ db' = cc (e, e') in
        (free, subst (λ x. rows x users ≡ rows db users ++ created x ∷ []) same added)
  ]

  -- what a name in use comes to
  pub create_user_taken :
      (db : Db)
      → count (has_name u.username) (rows db users) ≢ 0
      → create_user q u db ≡ (ok false, db)
  create_user_taken db taken = elim (create_user-refines db) [
    | inl (db', e, free, _) ↦ absurd (taken free)
    | inr e ↦ e
  ]

  -- With SQLite able to write, the result says whether the name was free.
  pub create_user_healthy :
      (db : Db)
      → healthy statement db ≡ true
      → (create_user q u db).0 ≡ ok (count (has_name u.username) (rows db users) == 0)
  create_user_healthy db h = elim (Bool-cases (count (has_name u.username) (rows db users) == 0)) [
    | inl free ↦ rw free (create_user_free db h (ground arith))
    | inr taken ↦ rw taken (ap (λ x. x.0) (create_user_taken db (ground arith)))
  ]

  abbrev by_name : List Binding
  by_name = (username, text u.username) ∷ []

  answer-created :
      (db db' : Db) (h : healthy (select users by_name) db' ≡ true)
      → count (has_name u.username) (rows db users) ≡ 0
      → rows db' users ≡ rows db users ++ created db' ∷ []
      → answer q users by_name db' h ≡ created db' ∷ []
  answer-created db db' h free added = perm-singleton (answer-perm q users by_name db' h) (
      rw (added, matches-has_name u.username)
        (filter-append_last (has_name u.username) (rows db users) (created db') free
          (created-has_name db')))

  -- The user that createUser stored is the one that getUser finds by name, under the new row
  -- id: if name and password have no zero byte and SQLite can read.
  pub get_user_by_name-create_user :
      (db db' : Db)
      → create_user q u db ≡ (ok true, db')
      → c_str u.username ≡ u.username
      → c_str u.password ≡ u.password
      → healthy (select users by_name) db' ≡ true
      → get_user_by_name q u.username db'
        ≡ (ok (some (record u { id = to_int (pos (last_insert_rowid db')) })), db')
  unfolding get_user_by_name
  get_user_by_name-create_user db db' e n p h =
      let (free, added) = create_user-true db db' e in
      rw n (
        select_first-answer q users by_name db' h (read_user q)
        ∙ rw (answer-created db db' h free added)
            (ap (λ x. (ok (some x), db')) (read_user-created db' n p)))
