-- ===== src/Meta/Local.antt =====
-- src/meta/meta_local.h, meta_local_mem.h and meta_local_mem.cpp: the tree of dentries with its
-- index, in 64 segments, by inode number. src/types/ftreenode.h: the listings that are merged in.
-- The locks are left out: an operation is one step.
pub mod Absent
pub mod Create
pub mod Fresh
pub mod Index
pub mod Invariant
pub mod Merge
pub mod Modes
pub mod Tree
use Prim.Native.Nat.{bit_and, bit_or}
use catfs.Common.{
  ℕ, zero, suc, ◌+◌, ◌-◌, ◌%◌, ◌^◌, Bool, true, false, not, Option, none, some, List, [], ◌∷◌, ◌++◌,
  Text, text_key, number_key, lookup, insert, erase, Cmd, ok, throw, invalid_inode_id, fault,
  out_of_fuel, pure, modify, reads, ◌>>=◌, ◌>>◌, zoom, ◌==◌, if◌then◌else◌, add64,
}
use catfs.Stor.{Timespec, ObjInfo}
use catfs.Meta.Heap.{
  Ptr, null, root_inode_id, Inode, Dentry, Heap, fresh_dentry, fresh_inode, read_dentry, read_inode,
  write_dentry, write_inode, new_dentry, new_inode, now,
}
use catfs.Meta.Dentry
use catfs.Meta.Dentry.{s_ifdir}

abbrev pub s_ifreg : ℕ
s_ifreg = 0o100000

abbrev pub lock_count : ℕ
lock_count = 64

pub record MetaOpt : Type 0 where
  pub gid : ℕ
  pub uid : ℕ
  pub dcache_timeout : ℕ
  pub bucket : Text
  pub bucket_prefix : Text

pub record InodeUpdateAttr : Type 0 where
  pub size : Option ℕ
  pub mode : Option ℕ
  pub uid : Option ℕ
  pub gid : Option ℕ

-- A node of a listing, and the map of a node's children by key.
mutual
  pub data FTreeNode : Type 0 where
    node : (name : Text) → (is_dir : Bool) → FTreeNodes → (oinfo : ObjInfo) → FTreeNode

  pub data FTreeNodes : Type 0 where
    nil : FTreeNodes
    cons : (key : Text) → FTreeNode → FTreeNodes → FTreeNodes

pub record LocalMemMeta : Type 0 where
  pub opt : MetaOpt
  pub next_inode_id : ℕ
  pub root_dentry : Ptr
  pub dentry_index : ℕ → List (ℕ × Ptr)
  pub heap : Heap

-- A method of Dentry or a use of the allocator.
abbrev pub on_heap : {A : Type 0} → Cmd Heap A → Cmd LocalMemMeta A
on_heap = zoom (λ s. s.heap) (λ h s. record s { heap = h })

abbrev pub set_segment : (ℕ → List (ℕ × Ptr)) → ℕ → List (ℕ × Ptr) → ℕ → List (ℕ × Ptr)
set_segment index k entries j = if j == k then entries else index j

-- dentry_index[ino % LOCK_COUNT][ino] as a value: `[]` of a std::map enters NULL for a new key.
pub index_at : ℕ → Cmd LocalMemMeta Ptr
index_at ino s = elim (lookup ino (s.dentry_index (ino % lock_count))) [
  | some p ↦ ok p s
  | none ↦ ok null (record s {
    dentry_index =
        set_segment s.dentry_index (ino % lock_count)
          (insert ino null (s.dentry_index (ino % lock_count)));
  })
]

pub save_dentry_index : Ptr → Cmd LocalMemMeta (Unit {0})
save_dentry_index p = do
  d ← on_heap (read_dentry p)
  i ← on_heap (read_inode d.inode)
  modify (λ s. record s {
    dentry_index =
        set_segment s.dentry_index (i.ino % lock_count)
          (insert i.ino p (s.dentry_index (i.ino % lock_count)));
  })

pub get_next_inode_id : Cmd LocalMemMeta ℕ
get_next_inode_id s = ok s.next_inode_id (record s { next_inode_id = add64 s.next_inode_id 1 })

-- The address of the inode, or null.
unfoldable pub get_inode : ℕ → Cmd LocalMemMeta Ptr
unfolding index_at
get_inode ino = do
  p ← index_at ino
  if p == null then pure null else do d ← on_heap (read_dentry p); pure d.inode

abbrev set_if : Option ℕ → (ℕ → Inode → Inode) → Inode → Inode
set_if none f i = i
set_if (some v) f i = f v i

unfoldable pub updated : InodeUpdateAttr → Inode → Inode
updated u i =
    set_if u.gid (λ v i. record i { gid = v })
      (set_if u.uid (λ v i. record i { uid = v })
        (set_if u.mode (λ v i. record i { mode = v })
          (set_if u.size (λ v i. record i { size = v }) i)))

unfoldable pub update_inode : ℕ → InodeUpdateAttr → Cmd LocalMemMeta Ptr
unfolding get_inode updated
update_inode ino updater = do
  p ← get_inode ino
  if p == null
      then throw (invalid_inode_id ino)
      else do on_heap (write_inode p (updated updater)); pure p

pub remove_inode : ℕ → Cmd LocalMemMeta (Unit {0})
remove_inode ino = modify (λ s. record s {
  dentry_index =
      set_segment s.dentry_index (ino % lock_count) (erase ino (s.dentry_index (ino % lock_count)));
})

unfoldable pub get_dentry : ℕ → Cmd LocalMemMeta Ptr
unfolding index_at
get_dentry ino = index_at ino

-- The parent that an operation works under, or the exception.
abbrev the_parent : ℕ → Cmd LocalMemMeta Ptr
the_parent pino = do
  parent ← get_dentry pino
  if parent == null then throw (invalid_inode_id pino) else pure parent

pub add_child_for_dentry : Ptr → Text → (inode : Ptr) → Cmd LocalMemMeta Ptr
unfolding save_dentry_index
add_child_for_dentry parent name inode = do
  child ← on_heap (Dentry.add_child parent name inode)
  save_dentry_index child
  pure child

pub create_dentry : ℕ → Text → (inode : Ptr) → Cmd LocalMemMeta Ptr
unfolding get_dentry add_child_for_dentry
create_dentry pino name inode = do parent ← the_parent pino; add_child_for_dentry parent name inode

pub find_dentry : ℕ → Text → Cmd LocalMemMeta Ptr
unfolding get_dentry
find_dentry pino name = do parent ← the_parent pino; on_heap (Dentry.get_child parent name)

pub remove_dentry : ℕ → Text → Cmd LocalMemMeta (Unit {0})
unfolding get_dentry
remove_dentry pino name = do parent ← the_parent pino; on_heap (Dentry.remove_child parent name)

pub rename : (src_pino : ℕ) → Text → (dst_pino : ℕ) → Text → Cmd LocalMemMeta (Unit {0})
unfolding get_dentry add_child_for_dentry
rename src_pino src_name dst_pino dst_name = do
  src_parent ← the_parent src_pino
  dst_parent ← the_parent dst_pino
  src ← on_heap (Dentry.get_child src_parent src_name)
  if src == null then pure tt else do
    on_heap (Dentry.remove_child src_parent src_name)
    d ← on_heap (read_dentry src)
    _ ← add_child_for_dentry dst_parent dst_name d.inode
    pure tt

-- (mode & ~0777) | (perm & 0777)
pub with_permissions : (mode perm : ℕ) → ℕ
with_permissions mode perm = bit_or (bit_and mode (2 ^ 32 - 1 - 0o777)) (bit_and perm 0o777)

abbrev value_or : Option ℕ → ℕ → ℕ
value_or none d = d
value_or (some v) d = v

-- The mode that obj2inode gives.
pub obj_mode : ObjInfo → (is_dir : Bool) → ℕ
unfolding with_permissions
obj_mode obj is_dir =
    let mode = if is_dir then bit_or s_ifdir 0o766 else bit_or s_ifreg 0o644 in
    elim obj.mode [ none ↦ mode | some perm ↦ with_permissions mode perm ]

module _ (clock : ℕ → Timespec) where
  pub obj2inode : ObjInfo → (is_dir : Bool) → Cmd LocalMemMeta Ptr
  unfolding get_next_inode_id obj_mode
  obj2inode obj is_dir = do
    p ← on_heap (new_inode fresh_inode)
    ino ← get_next_inode_id
    on_heap (write_inode p (λ i. record i { ino = ino; size = obj.size }))
    (if is_dir
        then (do
          mtime ← on_heap (now clock)
          on_heap (write_inode p (λ i. record i { mtime = mtime }))
          ctime ← on_heap (now clock)
          on_heap (write_inode p (λ i. record i { ctime = ctime })))
        else pure tt)
    opt ← reads (λ s. s.opt)
    on_heap (
        write_inode p (λ i. record i {
          uid = value_or obj.uid opt.uid;
          gid = value_or obj.gid opt.gid;
          mode = obj_mode obj is_dir;
        }))
    pure p

  pub create_dentry_from_obj : ℕ → Text → ObjInfo → (is_dir : Bool) → Cmd LocalMemMeta Ptr
  unfolding get_dentry obj2inode add_child_for_dentry
  create_dentry_from_obj pino name obj is_dir = do
    parent ← the_parent pino
    inode ← obj2inode obj is_dir
    add_child_for_dentry parent name inode

  pub create_new_inode : (mode gid uid : ℕ) → Cmd LocalMemMeta Ptr
  unfolding get_next_inode_id
  create_new_inode mode gid uid = do
    p ← on_heap (new_inode fresh_inode)
    ino ← get_next_inode_id
    on_heap (write_inode p (λ i. record i { ino = ino; mode = mode; gid = gid; uid = uid }))
    ctime ← on_heap (now clock)
    on_heap (write_inode p (λ i. record i { ctime = ctime }))
    mtime ← on_heap (now clock)
    on_heap (write_inode p (λ i. record i { mtime = mtime }))
    pure p
