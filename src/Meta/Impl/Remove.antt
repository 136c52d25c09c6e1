-- ===== src/Meta/Impl/Remove.antt =====
-- src/meta/meta_impl.cpp: remove_dentry on a name that the tree has.
use catfs.Common.{
  ℕ, ◌≡◌, ◌≢◌, refl, Bool, true, false, some, List, ◌++◌, arith, Text, bytes, ok, throw, enotempty,
  length,
}
use catfs.Stor.{Stor, Timespec, ObjInfo}
use catfs.Meta.Heap.{Ptr, null, Inode, Dentry, read_dentry, read_inode}
use catfs.Meta.Dentry
use catfs.Meta.Dentry.FullPath.{key_prefix, get_full_path-Chain}
use catfs.Meta.Local
use catfs.Meta.Local.{LocalMemMeta}
use catfs.Meta.Local.Index.{indexed}
use catfs.Meta.Local.Tree.{remove_dentry_dangling}
use catfs.Meta.Impl.{MetaImpl, remove_dentry}
use catfs.Meta.Impl.Lookup.{IsCached, ticked, IsParent-ticked, IsChild-ticked, find_dentry_cached}

-- The key of the object that stands for an entry.
abbrev pub entry_key : List Text → Text → (is_dir : Bool) → Text
entry_key ns name true = (key_prefix ns ++ name) ++ bytes "/"
entry_key ns name false = key_prefix ns ++ name

module _ (stor : Stor) (clock : ℕ → Timespec) (junk : ObjInfo) where
  -- A directory that has entries is not removed: the call fails with ENOTEMPTY, and neither the
  -- tree nor the backend changes.
  pub remove_dentry_not_empty :
      (s : MetaImpl stor.State) (pino : ℕ) (name : Text) (ns : List Text) (parent c : Ptr)
      (d cd : Dentry) (ci : Inode)
      → IsCached clock s pino name ns parent c d cd ci false
      → Dentry.is_dir c s.local.heap ≡ ok true s.local.heap
      → length cd.children ≢ 0
      → remove_dentry stor clock junk pino name s ≡ throw enotempty (ticked s)
  unfolding remove_dentry Dentry.child_count Dentry.is_dir read_dentry read_inode
  remove_dentry_not_empty s pino name ns parent c d cd ci h dir children = ground (
    arith,
    find_dentry_cached stor clock junk s pino name false parent c d cd ci h.is_parent h.is_child
        h.expiry,
    get_full_path-Chain {h = (ticked s).local.heap} {parent = parent} {ns = ns} c cd ci
        h.is_child.holds h.is_child.inode h.not_root h.up h.is_parent.not_null h.chain h.short,
  )

  -- A file, or a directory without entries, is deleted in the backend under its key, and then the
  -- tree no longer has its name.
  pub remove_dentry_deletes :
      (s : MetaImpl stor.State) (pino : ℕ) (name : Text) (ns : List Text) (parent c : Ptr)
      (d cd : Dentry) (ci : Inode) (dir : Bool) (b : stor.State)
      → IsCached clock s pino name ns parent c d cd ci false
      → Dentry.is_dir c s.local.heap ≡ ok dir s.local.heap
      → (dir ≡ true → length cd.children ≡ 0)
      → stor.delete_file (record { obj_key = entry_key ns cd.name dir }) s.backend ≡ ok tt b
      → c ≢ parent
      → indexed s.local ci.ino ≡ some c
      → (s' : MetaImpl stor.State) × (remove_dentry stor clock junk pino name s ≡ ok tt s')
        × (s'.backend ≡ b)
        × (Local.find_dentry pino name s'.local ≡ ok null s'.local)
  unfolding remove_dentry Dentry.child_count Dentry.is_dir read_dentry read_inode
  remove_dentry_deletes s pino name ns parent c d cd ci true b h dir empty deleted other entry =
      let (t, removed, found, _, _) =
        remove_dentry_dangling (ticked s).local pino name parent c d cd ci
          (IsParent-ticked s h.is_parent) (IsChild-ticked s h.is_child) other entry in
      (
        record s { local = t; backend = b },
        ground (
          arith,
          find_dentry_cached stor clock junk s pino name false parent c d cd ci h.is_parent
              h.is_child h.expiry,
          get_full_path-Chain {h = (ticked s).local.heap} {parent = parent} {ns = ns} c cd ci
              h.is_child.holds h.is_child.inode h.not_root h.up h.is_parent.not_null h.chain
              h.short,
          empty refl,
          removed,
          deleted,
        ),
        refl,
        found,
      )
  remove_dentry_deletes s pino name ns parent c d cd ci false b h dir empty deleted other entry =
      let (t, removed, found, _, _) =
        remove_dentry_dangling (ticked s).local pino name parent c d cd ci
          (IsParent-ticked s h.is_parent) (IsChild-ticked s h.is_child) other entry in
      (
        record s { local = t; backend = b },
        ground (
          arith,
          find_dentry_cached stor clock junk s pino name false parent c d cd ci h.is_parent
              h.is_child h.expiry,
          get_full_path-Chain {h = (ticked s).local.heap} {parent = parent} {ns = ns} c cd ci
              h.is_child.holds h.is_child.inode h.not_root h.up h.is_parent.not_null h.chain
              h.short,
          removed,
          deleted,
        ),
        refl,
        found,
      )
