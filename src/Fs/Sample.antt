-- ===== src/Fs/Sample.antt =====
-- The small tree mounted, with no handle and with one handle of its file.
use catfs.Common.{refl, false, some, [], ◌∷◌, lookup, number_key, arith}
use native.Mathlib.Decide.{ℕ_discrete}
use catfs.Stor.S3.Memory.{Memory}
use catfs.Writer.{new_writer}
use catfs.Writer.Holds.{nothing}
use catfs.Writer.Sample.{backend, backend-IsBucket}
use catfs.Meta.Local.Index.{HasInode}
use catfs.Meta.Sample.{local, name_b, file_dentry, file_inode, file_indexed}
use catfs.Meta.Impl.Sample.{state}
use catfs.Fs.{CatFs, OpenFile}
use catfs.Fs.Contents.{IsOpen}

abbrev pub mounted : CatFs Memory
mounted = record { meta = state; next_handle_id = 1; open_dirs = []; open_files = [] }

abbrev pub file : OpenFile
file = record {
  ino = 3;
  hno = 1;
  rtfile = record { path = name_b; size = 0 };
  writer = new_writer name_b;
  has_wrote = false;
}

abbrev pub one_open : CatFs Memory
one_open = record mounted { next_handle_id = 2; open_files = (1, some file) ∷ [] }

abbrev pub file-HasInode : HasInode local 3
file-HasInode = record {
  ptr = 6;
  dentry = file_dentry;
  inode = file_inode;
  entry = file_indexed;
  not_null = omega arith;
  holds_dentry = refl;
  inode_not_null = omega arith;
  holds_inode = refl;
}

pub file-IsOpen : IsOpen backend backend-IsBucket one_open 1 file []
unfolding lookup ℕ_discrete
file-IsOpen = record {
  opened = refl;
  number = refl;
  holds = nothing refl refl refl;
  next = refl;
  path = refl;
  size = refl;
  inode = file-HasInode;
}
