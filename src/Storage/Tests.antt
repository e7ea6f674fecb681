-- ===== src/Storage/Tests.antt =====
-- The writes of the stores at a concrete disk.
use remote_app_start_my_linu.Prelude.{
  Bytes, codes, true, false, [], ◌∷◌, none, ◌≡◌, ◌≢◌, refl, arith, eq_bytes,
}
use remote_app_start_my_linu.Prelude.Assoc.{lookup}
use remote_app_start_my_linu.Storage.{Disk, json, Grants, write_tokens_file, write_atomic}
use remote_app_start_my_linu.Storage.Atomic.{
  IsAtomic, write_tokens_file-IsAtomic, write_atomic-IsAtomic,
}

-- Everything is granted but the rename.
abbrev no_rename : Grants
no_rename = record {
  mkdirs = true;
  marshals = true;
  creates = true;
  writes = true;
  chmods = true;
  syncs = true;
  closes = true;
  renames = false;
  removes = true;
}

abbrev old_disk : Disk Bytes
old_disk = (codes "f", json (codes "old")) ∷ []

apart : codes "f.tmp" ≢ codes "f"
apart e = absurd (ground arith)

fresh : lookup (codes "f.tmp") old_disk ≡ none
unfolding lookup eq_bytes
fresh = refl

write_tokens_file-IsAtomic_example :
    IsAtomic no_rename
      (codes "f.tmp")
      (codes "f")
      (codes "new")
      old_disk
      (write_tokens_file no_rename (codes "f.tmp") (codes "f") (codes "new") old_disk)
write_tokens_file-IsAtomic_example =
    write_tokens_file-IsAtomic no_rename (codes "f.tmp") (codes "f") (codes "new") old_disk apart
      fresh

write_atomic-IsAtomic_example :
    IsAtomic no_rename
      (codes "f.tmp")
      (codes "f")
      (codes "new")
      old_disk
      (write_atomic no_rename (codes "f.tmp") (codes "f") (codes "new") old_disk)
write_atomic-IsAtomic_example =
    write_atomic-IsAtomic no_rename (codes "f.tmp") (codes "f") (codes "new") old_disk apart fresh
