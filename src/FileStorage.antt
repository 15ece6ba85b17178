-- ===== src/FileStorage.antt =====
-- The methods of `FileStorage` in src/file/file_storage.cpp that touch the disk, over the file system
-- as an interface. (Its fields are `StoredFile` of Entities.)
pub mod RoundTrip
use net_chat.Prelude.{
  ℕ, ◌≡◌, ◌≢◌, refl, Bool, true, false, List, [], ◌∷◌, ◌++◌, Option, none, some, Str, codes, ◌==◌,
  if◌then◌else◌,
}
use net_chat.Exec.{Exec, Result, ok, threw, pure, gets, ◌>>=◌, ◌>>◌}
use net_chat.Proto.{File}
use net_chat.Entities.{StoredFile}

-- What <filesystem> and <fstream> do. `open_out` is the constructor of an `ofstream`, which empties
-- the file; `write` tells whether the stream is still good.
pub record FileSystem : Type 1 where
  pub Disk : Type 0
  pub exists : Str → Disk → Bool
  -- `none` is an exception
  pub create_directory : Str → Disk → Option Disk
  pub open_out : Str → Disk → Option Disk
  pub write : Str → Str → Disk → Disk × Bool
  -- the whole file through an `ifstream`; `none` if it is not open
  pub read : Str → Disk → Option Str
  pub read-write :
      (p s : Str) (d d' : Disk)
      → write p s d ≡ (d', true)
      → (read p d' ≡ some s) × (exists p d' ≡ true)
  pub read-write_ne : (p r s : Str) (d : Disk) → r ≢ p → read r (write p s d).0 ≡ read r d
  pub read-open_out_ne :
      (p r : Str) (d d' : Disk) → open_out p d ≡ some d' → r ≢ p → read r d' ≡ read r d
  pub read-create_directory :
      (p r : Str) (d d' : Disk) → create_directory p d ≡ some d' → read r d' ≡ read r d

-- path_prefix_
unfoldable pub path_prefix : Str
path_prefix = codes "files"

starts_with_slash : Str → Bool
starts_with_slash [] = false
starts_with_slash (c ∷ cs) = c == b'/'

-- `path_prefix_ / std::filesystem::path(id_)`: an absolute path stands for itself.
unfoldable pub disk_path : Str → Str
unfolding starts_with_slash path_prefix
disk_path id = if starts_with_slash id then id else path_prefix ++ codes "/" ++ id

module _ (fs : FileSystem) where
  open fs use {Disk, exists, create_directory, open_out, write, read}

  make_prefix : Exec Disk (Unit {0})
  unfolding path_prefix
  make_prefix d =
      if exists path_prefix d
      then (ok tt, d)
      else elim (create_directory path_prefix d) [ none ↦ (threw, d) | some d' ↦ (ok tt, d') ]

  unfoldable pub check_disk_existence : StoredFile → Exec Disk Bool
  unfolding ◌>>=◌ make_prefix
  check_disk_existence f = do make_prefix; gets (exists (disk_path f.id))

  write_out : Str → Str → Option Disk → Disk → Result Bool × Disk
  write_out p s none d = (ok false, d)
  write_out p s (some opened) d = let (d', good) = write p s opened in (ok good, d')

  unfoldable pub save_to_disk : StoredFile → File → Exec Disk Bool
  unfolding write_out
  save_to_disk f file d = write_out (disk_path f.id) file.content (open_out (disk_path f.id) d) d

  loaded : StoredFile → File → Option Str → Bool × File
  loaded f file none = (false, file)
  loaded f file (some content) = (true, record file { content = content; name = f.name })

  -- The message that is filled in comes back beside the result.
  unfoldable pub load_into_proto : StoredFile → File → Exec Disk (Bool × File)
  unfolding loaded
  load_into_proto f file d = (ok (loaded f file (read (disk_path f.id) d)), d)
