-- ===== src/DataAccess/History.antt =====
-- What the program never takes back: a stored user or message stays as it was stored, and a file keeps
-- its id.
use mathlib.Core.List.{append-nil, append_assoc, map-append}
use net_chat.Prelude.{
  ◌≡◌, refl, sym, ap, subst, ◌∙◌, List, [], ◌∷◌, ◌++◌, map, Bool-cases, inl, inr,
}
use net_chat.Entities.{StoredFile}
use net_chat.Sql.{
  Sqlite, Table, Row, Value, users, files, messages, file_id, update_row, set_columns, matches,
}
use net_chat.DataAccess.Files.{file_sets, by_id}
use net_chat.DataAccess.Changes.{Change, unchanged, user_added, message_added, file_added, file_set}

abbrev pub Begins : {A : Type 0} → List A → List A → Type 0
Begins {A} xs ys = (more : List A) × (ys ≡ xs ++ more)

pub Begins-refl : {A : Type 0} (xs ys : List A) → ys ≡ xs → Begins xs ys
Begins-refl xs ys e = ([], e ∙ sym (append-nil xs))

pub Begins-trans : {A : Type 0} (xs ys zs : List A) → Begins xs ys → Begins ys zs → Begins xs zs
Begins-trans xs ys zs (a, e) (b, f) = (a ++ b, f ∙ ap (λ l. l ++ b) e ∙ append_assoc xs a b)

-- The ids of the files, in order.
abbrev pub ids_of_files : List Row → List Value
ids_of_files rs = map (λ r. r file_id) rs

-- Tables that have only grown, but for the names and hashes of files.
pub record Extends (before after : Table → List Row) : Type 0 where
  pub users_kept : Begins (before users) (after users)
  pub messages_kept : Begins (before messages) (after messages)
  pub files_kept : Begins (ids_of_files (before files)) (ids_of_files (after files))

pub Extends-refl : (rows : Table → List Row) → Extends rows rows
Extends-refl rows = record {
  users_kept = Begins-refl _ _ refl;
  messages_kept = Begins-refl _ _ refl;
  files_kept = Begins-refl _ _ refl;
}

Extends-trans : (a b c : Table → List Row) → Extends a b → Extends b c → Extends a c
Extends-trans a b c h k = record {
  users_kept = Begins-trans _ _ _ h.users_kept k.users_kept;
  messages_kept = Begins-trans _ _ _ h.messages_kept k.messages_kept;
  files_kept = Begins-trans _ _ _ h.files_kept k.files_kept;
}

file_id-update :
    (f : StoredFile) (r : Row) → update_row (file_sets f) (by_id f.id) r file_id ≡ r file_id
unfolding update_row set_columns
file_id-update f r = elim (Bool-cases (matches (by_id f.id) r)) [
  | inl e ↦ rw e refl
  | inr e ↦ rw e refl
]

ids_of_files-update :
    (f : StoredFile) (rs : List Row)
    → ids_of_files (map (update_row (file_sets f) (by_id f.id)) rs) ≡ ids_of_files rs
ids_of_files-update f [] = refl
ids_of_files-update f (r ∷ rs) = rw (file_id-update f r, ids_of_files-update f rs) refl

module _ (q : Sqlite) where
  open q use {Db, rows}

  pub Change-step : (db db' : Db) → Change q db db' → Extends (rows db) (rows db')
  Change-step db db' (unchanged e) =
      subst (λ d. Extends (rows db) (rows d)) (sym e) (Extends-refl _)
  Change-step db db' (user_added u n i) = record {
    users_kept = (_, i.added);
    messages_kept = Begins-refl _ _ (i.kept messages (λ e. cc e));
    files_kept = Begins-refl _ _ (ap ids_of_files (i.kept files (λ e. cc e)));
  }
  Change-step db db' (message_added m n i) = record {
    users_kept = Begins-refl _ _ (i.kept users (λ e. cc e));
    messages_kept = (_, i.added);
    files_kept = Begins-refl _ _ (ap ids_of_files (i.kept files (λ e. cc e)));
  }
  Change-step db db' (file_added uuid n i) = record {
    users_kept = Begins-refl _ _ (i.kept users (λ e. cc e));
    messages_kept = Begins-refl _ _ (i.kept messages (λ e. cc e));
    files_kept = (_, ap ids_of_files i.added ∙ map-append (λ r. r file_id) (rows db files) _);
  }
  Change-step db db' (file_set f n u) = record {
    users_kept = Begins-refl _ _ (u.kept users (λ e. cc e));
    messages_kept = Begins-refl _ _ (u.kept messages (λ e. cc e));
    files_kept =
        Begins-refl _ _ (ap ids_of_files u.rewritten ∙ ids_of_files-update f (rows db files));
  }

  -- Every statement of the program only adds.
  pub Change-Extends :
      (start : Table → List Row) (db db' : Db)
      → Change q db db'
      → Extends start (rows db)
      → Extends start (rows db')
  Change-Extends start db db' c h =
      Extends-trans start (rows db) (rows db') h (Change-step db db' c)
