-- ===== src/Meta/Local/Merge/Sample.antt =====
-- The tree that the constructor of LocalMemMeta makes.
use catfs.Common.{◌≡◌, refl, none, some, [], ok, insert, number_key, ◌==◌, if◌then◌else◌}
use catfs.Meta.Heap.{
  Inode, fresh_inode, fresh_dentry, at, new_inode, new_dentry, write_inode, read_inode, read_dentry,
  now,
}
use catfs.Meta.Local.{LocalMemMeta, save_dentry_index, get_next_inode_id}
use catfs.Meta.Local.Merge.{new_local}
use catfs.Meta.Sample.{opt, clock}

abbrev pub first_inode : Inode
first_inode = record fresh_inode { ino = 1; mode = 0o40766; ctime = clock 0; mtime = clock 0 }

abbrev pub first : LocalMemMeta
first = record {
  opt = opt;
  next_inode_id = 2;
  root_dentry = 2;
  dentry_index = λ j. if j == 1 then insert 1 2 [] else [];
  heap = record {
    dentries = at (λ _. none) 2 (some (fresh_dentry [] 1));
    inodes =
        at
          (at (at (λ _. none) 1 (some fresh_inode)) 1
            (some (record fresh_inode { ino = 1; mode = 0o40766 })))
          1 (some first_inode);
    next_ptr = 3;
    clock_reads = 1;
  };
}

pub new_local-first : new_local clock opt ≡ ok tt first
unfolding new_local new_inode get_next_inode_id write_inode read_inode read_dentry new_dentry
    save_dentry_index now
new_local-first = refl
