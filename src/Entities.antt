-- ===== src/Entities.antt =====
-- The value classes: include/user.h, include/group.h, and the fields of `FileStorage` in
-- include/file_storage.h. A getter is the record's field.
use net_chat.Prelude.{Str, ℤ, [], c_str}

pub record User : Type 0 where
  pub id : ℤ
  pub username : Str
  pub password : Str

pub record Group : Type 0 where
  pub id : ℤ
  pub name : Str

pub record StoredFile : Type 0 where
  pub id : Str
  pub name : Str
  pub hash : Str

-- `User(int, string_view, string_view)` goes through `data()`, so a zero byte ends both texts.
unfoldable pub make_user : ℤ → Str → Str → User
make_user id name word = record { id = id; username = c_str name; password = c_str word }

-- `Group(int, string_view)` copies the whole view.
unfoldable pub make_group : ℤ → Str → Group
make_group id name = record { id = id; name = name }

-- `FileStorage()`
abbrev pub new_file : StoredFile
new_file = record { id = []; name = []; hash = [] }
