-- ===== src/Meta/Local/Index.antt =====
-- src/meta/meta_local_mem.cpp: the 64 segments of the index as one map from inode numbers.
use catfs.Common.{
  ℕ, ◌%◌, ◌≡◌, ◌≢◌, refl, Option, none, some, arith, ok, number_key, lookup, insert, erase,
  lookup-insert, lookup-erase, ◌==◌, if◌then◌else◌,
}
use catfs.Meta.Heap.{Ptr, null, Inode, Dentry, at, read_dentry, read_inode, write_inode}
use catfs.Meta.Local.{
  LocalMemMeta, lock_count, index_at, save_dentry_index, remove_inode, InodeUpdateAttr,
  update_inode, updated, get_inode, set_segment,
}

-- The entry for an inode number.
abbrev pub indexed : LocalMemMeta → ℕ → Option Ptr
indexed s ino = lookup ino (s.dentry_index (ino % lock_count))

-- Saving a dentry sets the entry for its inode number, and no other.
pub save_dentry_index-indexed :
    (s : LocalMemMeta) (p : Ptr) (d : Dentry) (i : Inode)
    → s.heap.dentries p ≡ some d
    → s.heap.inodes d.inode ≡ some i
    → (s' : LocalMemMeta) × (save_dentry_index p s ≡ ok tt s')
      × ((ino : ℕ) → indexed s' ino ≡ (if i.ino == ino then some p else indexed s ino))
      × (s'.heap ≡ s.heap)
unfolding save_dentry_index read_dentry read_inode
save_dentry_index-indexed s p d i at_p at_i = (
  record s {
    dentry_index = λ j.
        if j == i.ino % lock_count
        then insert i.ino p (s.dentry_index (i.ino % lock_count))
        else s.dentry_index j;
  },
  ground arith,
  λ ino. ground (arith, lookup-insert ino i.ino p (s.dentry_index (i.ino % lock_count))),
  refl,
)

-- Of two inode numbers, removing one clears its entry and leaves the other's.
pub remove_inode-indexed :
    (s : LocalMemMeta) (ino : ℕ)
    → (s' : LocalMemMeta) × (remove_inode ino s ≡ ok tt s')
      × ((j : ℕ) → indexed s' j ≡ (if ino == j then none else indexed s j))
      × (s'.heap ≡ s.heap)
unfolding remove_inode
remove_inode-indexed s ino = (
  record s {
    dentry_index = λ j.
        if j == ino % lock_count
        then erase ino (s.dentry_index (ino % lock_count))
        else s.dentry_index j;
  },
  refl,
  λ j. ground (arith, lookup-erase j ino (s.dentry_index (ino % lock_count))),
  refl,
)

-- An inode number that is indexed is looked up without a change.
pub index_at-some :
    (s : LocalMemMeta) (ino : ℕ) (p : Ptr) → indexed s ino ≡ some p → index_at ino s ≡ ok p s
unfolding index_at
index_at-some s ino p e = ground arith

-- A number without an entry gets a null pointer as its entry, and that is the answer.
pub index_at-none :
    (s : LocalMemMeta) (ino : ℕ)
    → indexed s ino ≡ none
    → (s' : LocalMemMeta) × (index_at ino s ≡ ok null s')
unfolding index_at
index_at-none s ino e = (
  record s {
    dentry_index =
        set_segment s.dentry_index (ino % lock_count)
          (insert ino null (s.dentry_index (ino % lock_count)));
  },
  ground arith,
)

-- The value that is given, or the one that was there.
abbrev pub given : Option ℕ → ℕ → ℕ
given none old = old
given (some v) old = v

-- The inode with the fields that are given, and the others as they were.
abbrev pub with_given : InodeUpdateAttr → Inode → Inode
with_given u i = record i {
  size = given u.size i.size;
  mode = given u.mode i.mode;
  uid = given u.uid i.uid;
  gid = given u.gid i.gid;
}

set_given :
    (g o m z : Option ℕ) (i : Inode)
    → updated (record { gid = g; uid = o; mode = m; size = z }) i
      ≡ with_given (record { gid = g; uid = o; mode = m; size = z }) i
unfolding updated
set_given none none none none i = refl
set_given none none none (some z) i = refl
set_given none none (some m) none i = refl
set_given none none (some m) (some z) i = refl
set_given none (some o) none none i = refl
set_given none (some o) none (some z) i = refl
set_given none (some o) (some m) none i = refl
set_given none (some o) (some m) (some z) i = refl
set_given (some g) none none none i = refl
set_given (some g) none none (some z) i = refl
set_given (some g) none (some m) none i = refl
set_given (some g) none (some m) (some z) i = refl
set_given (some g) (some o) none none i = refl
set_given (some g) (some o) none (some z) i = refl
set_given (some g) (some o) (some m) none i = refl
set_given (some g) (some o) (some m) (some z) i = refl

-- Of an indexed inode number the inode is changed in place, by the fields that are given.
pub update_inode-indexed :
    (s : LocalMemMeta) (ino : ℕ) (u : InodeUpdateAttr) (p : Ptr) (d : Dentry) (i : Inode)
    → indexed s ino ≡ some p
    → p ≢ null
    → s.heap.dentries p ≡ some d
    → d.inode ≢ null
    → s.heap.inodes d.inode ≡ some i
    → update_inode ino u s
      ≡ ok d.inode (record s {
        heap = record s.heap { inodes = at s.heap.inodes d.inode (some (with_given u i)) };
      })
unfolding update_inode get_inode read_dentry read_inode write_inode
update_inode-indexed s ino u p d i entry ne at_p ne' at_i =
    ground (arith, index_at-some s ino p entry, set_given u.gid u.uid u.mode u.size i)

-- An inode number with a dentry and an inode.
pub record HasInode (s : LocalMemMeta) (ino : ℕ) : Type 0 where
  pub ptr : Ptr
  pub dentry : Dentry
  pub inode : Inode
  pub entry : indexed s ino ≡ some ptr
  pub not_null : ptr ≢ null
  pub holds_dentry : s.heap.dentries ptr ≡ some dentry
  pub inode_not_null : dentry.inode ≢ null
  pub holds_inode : s.heap.inodes dentry.inode ≡ some inode

pub update_inode-HasInode :
    (s : LocalMemMeta) (ino : ℕ) (u : InodeUpdateAttr)
    → (h : HasInode s ino)
    → (p : Ptr) × (s' : LocalMemMeta) × (update_inode ino u s ≡ ok p s')
      × (has : HasInode s' ino) × (has.inode ≡ with_given u h.inode)
update_inode-HasInode s ino u h = (
  h.dentry.inode,
  record s {
    heap = record s.heap { inodes = at s.heap.inodes h.dentry.inode (some (with_given u h.inode)) };
  },
  update_inode-indexed s ino u h.ptr h.dentry h.inode h.entry h.not_null h.holds_dentry
      h.inode_not_null h.holds_inode,
  record {
    ptr = h.ptr;
    dentry = h.dentry;
    inode = with_given u h.inode;
    entry = h.entry;
    not_null = h.not_null;
    holds_dentry = h.holds_dentry;
    inode_not_null = h.inode_not_null;
    holds_inode = ground arith;
  },
  refl,
)
