-- ===== src/FileStorage/RoundTrip.antt =====
-- What was saved is what is loaded.
use net_chat.Prelude.{◌≡◌, ◌≢◌, true, some, arith, Str, Option-cases, inl, inr}
use net_chat.Exec.{ok}
use net_chat.Proto.{File}
use net_chat.Entities.{StoredFile}
use net_chat.FileStorage.{FileSystem, disk_path, save_to_disk, load_into_proto}

module _ (fs : FileSystem) (f : StoredFile) where
  open fs use {Disk, exists, open_out, write, read, read-write, read-write_ne, read-open_out_ne}

  save_to_disk-inv :
      (file : File) (d d' : Disk)
      → save_to_disk fs f file d ≡ (ok true, d')
      → (opened : Disk) × (open_out (disk_path f.id) d ≡ some opened)
        × (write (disk_path f.id) file.content opened ≡ (d', true))
  unfolding save_to_disk
  save_to_disk-inv file d d' e = elim (Option-cases (open_out (disk_path f.id) d)) [
    | inl x ↦ ground arith
    | inr (opened, x) ↦ (opened, x, ground arith)
  ]

  -- After a save that succeeded, the file is there and loads with the same bytes, under the stored
  -- name.
  pub load_into_proto-save_to_disk :
      (file blank : File) (d d' : Disk)
      → save_to_disk fs f file d ≡ (ok true, d')
      → (exists (disk_path f.id) d' ≡ true)
        × (load_into_proto fs f blank d'
            ≡ (ok (true, record { name = f.name; content = file.content }), d'))
  unfolding load_into_proto
  load_into_proto-save_to_disk file blank d d' e =
      let (opened, o, w) = save_to_disk-inv file d d' e in
      let (back, there) = read-write (disk_path f.id) file.content opened d' w in (there, rw back)

  -- A save touches no other file, whether it succeeds or not.
  pub read-save_to_disk_ne :
      (file : File) (d : Disk) (p : Str)
      → p ≢ disk_path f.id
      → read p (save_to_disk fs f file d).1 ≡ read p d
  unfolding save_to_disk
  read-save_to_disk_ne file d p h = elim (Option-cases (open_out (disk_path f.id) d)) [
    | inl x ↦ ground arith
    | inr (opened, x) ↦ ground (
      arith,
      read-write_ne (disk_path f.id) p file.content opened h,
      read-open_out_ne (disk_path f.id) p d opened x h,
    )
  ]
