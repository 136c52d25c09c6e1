-- ===== src/Meta/Local/Tree.antt =====
-- src/meta/meta_local_mem.cpp: what creating, removing and renaming leave in the tree and the index.
use catfs.Common.{
  ℕ, ◌≡◌, ◌≢◌, none, some, arith, Text, ok, fault, text_key, lookup, erase, lookup-erase,
}
use catfs.Meta.Heap.{
  Ptr, null, Inode, Dentry, at, read_dentry, read_inode, write_dentry, free_dentry, free_inode,
}
use catfs.Meta.Dentry
use catfs.Meta.Local.{LocalMemMeta, get_inode, get_dentry, find_dentry, remove_dentry, rename}
use catfs.Meta.Local.Index.{indexed, index_at-some}

-- A directory with its dentry, found under its inode number.
pub record IsParent (s : LocalMemMeta) (pino : ℕ) (parent : Ptr) (d : Dentry) : Type 0 where
  pub entry : indexed s pino ≡ some parent
  pub not_null : parent ≢ null
  pub holds : s.heap.dentries parent ≡ some d

-- A child of that name, with its dentry and inode.
pub record IsChild (s : LocalMemMeta) (d : Dentry) (name : Text) (c : Ptr) (cd : Dentry)
    (ci : Inode) : Type 0 where
  pub linked : lookup name d.children ≡ some c
  pub not_null : c ≢ null
  pub holds : s.heap.dentries c ≡ some cd
  pub inode : s.heap.inodes cd.inode ≡ some ci

pub find_dentry-some :
    (s : LocalMemMeta) (pino : ℕ) (name : Text) (parent c : Ptr) (d cd : Dentry) (ci : Inode)
    → IsParent s pino parent d
    → IsChild s d name c cd ci
    → find_dentry pino name s ≡ ok c s
unfolding find_dentry get_dentry Dentry.get_child read_dentry
find_dentry-some s pino name parent c d cd ci is_parent is_child =
    ground (arith, index_at-some s pino parent is_parent.entry)

-- Removing a child frees its dentry and inode, but leaves its index entry: the next lookup of its
-- inode number uses the freed dentry.
pub remove_dentry_dangling :
    (s : LocalMemMeta) (pino : ℕ) (name : Text) (parent c : Ptr) (d cd : Dentry) (ci : Inode)
    → IsParent s pino parent d
    → IsChild s d name c cd ci
    → c ≢ parent
    → indexed s ci.ino ≡ some c
    → (s' : LocalMemMeta) × (remove_dentry pino name s ≡ ok tt s')
      × (find_dentry pino name s' ≡ ok null s')
      × (indexed s' ci.ino ≡ some c)
      × (get_inode ci.ino s' ≡ fault)
unfolding remove_dentry find_dentry get_inode get_dentry Dentry.remove_child Dentry.get_child
    read_dentry read_inode write_dentry free_dentry free_inode
remove_dentry_dangling s pino name parent c d cd ci is_parent is_child other entry =
    let s' : LocalMemMeta = record s {
      heap = record s.heap {
        inodes = at s.heap.inodes cd.inode none;
        dentries =
            at (at s.heap.dentries c none) parent
              (some (record d { children = erase name d.children }));
      };
    } in
    (
      s',
      ground (arith, index_at-some s pino parent is_parent.entry),
      ground
          (arith, index_at-some s' pino parent is_parent.entry, lookup-erase name name d.children),
      entry,
      ground (arith, index_at-some s' ci.ino c entry),
    )

-- Renaming an entry that exists frees its dentry and then reads it.
pub rename-fault :
    (s : LocalMemMeta) (src_pino dst_pino : ℕ) (src_name dst_name : Text) (src dst c : Ptr)
    (d dd cd : Dentry) (ci : Inode)
    → IsParent s src_pino src d
    → IsParent s dst_pino dst dd
    → IsChild s d src_name c cd ci
    → c ≢ src
    → rename src_pino src_name dst_pino dst_name s ≡ fault
unfolding rename get_dentry Dentry.remove_child Dentry.get_child read_dentry read_inode write_dentry
    free_dentry free_inode
rename-fault s src_pino dst_pino src_name dst_name src dst c d dd cd ci is_src is_dst is_child
      other =
    ground
      (arith, index_at-some s src_pino src is_src.entry, index_at-some s dst_pino dst is_dst.entry)
