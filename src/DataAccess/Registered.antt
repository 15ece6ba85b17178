-- ===== src/DataAccess/Registered.antt =====
-- Whether the users table has a user, and that `getUser` finds only such users.
use net_chat.Prelude.{
  ◌<◌, ◌≡◌, refl, List, [], ◌∷◌, some, Bool, true, ◌&&◌, count, count_mono, arith, Str, ℤ, int_eq,
  int_eq_iff, to_int,
}
use net_chat.Exec.{ok}
use net_chat.Entities.{User, make_user}
use net_chat.Sql.{Sqlite, Row, Value, null, integer, text, value_eq, matches, user_id, users}
use net_chat.DataAccess.{get_user_by_name, get_user, get_int, read_user}
use net_chat.DataAccess.Select.{select_first-inv, select_first-matched}

-- Whether a row is that of the user with this id, as `getUser` reads it.
unfoldable pub is_user : (q : Sqlite) → ℤ → Row → Bool
is_user q id r = int_eq (read_user q r).id id

-- Some row of the users table has this id.
abbrev pub HasUser : (q : Sqlite) → List Row → ℤ → Type 0
HasUser q rs id = 0 < count (is_user q id) rs

module _ (q : Sqlite) where
  value-is_user :
      (v : Value) (id : ℤ)
      → value_eq v (integer id) && true ≡ true
      → int_eq (get_int q v) (to_int id) ≡ true
  unfolding value_eq get_int
  value-is_user null id h = cc h
  value-is_user (text s) id h = cc h
  value-is_user (integer z) id h =
      let same : z ≡ id = (int_eq_iff z id).0 (ground arith) in
      rw same ((int_eq_iff (to_int id) (to_int id)).1 refl)

  matches-is_user :
      (id : ℤ) (r : Row)
      → matches ((user_id, integer id) ∷ []) r ≡ true
      → is_user q (to_int id) r ≡ true
  unfolding matches is_user read_user make_user
  matches-is_user id r h = value-is_user (r user_id) id h

  -- The user that getUser finds by id.
  pub get_user-HasUser :
      (id : ℤ) (db db' : q.Db) (u : User)
      → get_user q id db ≡ (ok (some u), db')
      → HasUser q (q.rows db users) (to_int id)
  unfolding get_user
  get_user-HasUser id db db' u e = omega (
    arith,
    select_first-matched q users _ (read_user q) db db' u e,
    count_mono (matches ((user_id, integer id) ∷ [])) (is_user q (to_int id)) (q.rows db users)
        (matches-is_user id),
  )

  -- The user that getUser finds by name.
  pub get_user_by_name-HasUser :
      (name : Str) (db db' : q.Db) (u : User)
      → get_user_by_name q name db ≡ (ok (some u), db')
      → HasUser q (q.rows db users) u.id
  unfolding get_user_by_name is_user
  get_user_by_name-HasUser name db db' u e =
      let (r, is, counted) = select_first-inv q users _ (read_user q) db db' u e in
      counted (λ x. int_eq (read_user q x).id u.id) (rw (← is) ((int_eq_iff u.id u.id).1 refl))
