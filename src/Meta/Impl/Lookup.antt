-- ===== src/Meta/Impl/Lookup.antt =====
-- src/meta/meta_impl.cpp: find_dentry on a name that the tree has.
use catfs.Common.{ℕ, suc, ◌≡◌, ◌≢◌, ◌≤◌, length, Bool, false, List, arith, Text, ok}
use catfs.Stor.{Stor, Timespec, ObjInfo}
use catfs.Meta.Heap.{Ptr, root_inode_id, Inode, Dentry, now, read_dentry}
use catfs.Meta.Dentry
use catfs.Meta.Dentry.FullPath.{Chain}
use catfs.Meta.Local.Tree.{IsParent, IsChild, find_dentry-some}
use catfs.Meta.Impl.{MetaImpl, find_dentry}

-- The state after one more reading of the clock.
abbrev pub ticked : {W : Type 0} → MetaImpl W → MetaImpl W
ticked s = record s {
  local = record s.local {
    heap = record s.local.heap { clock_reads = suc s.local.heap.clock_reads };
  };
}

-- An entry that the tree has, in the directory `parent` at the path `ns` from the root. `expired`
-- says whether its time is up.
pub record IsCached {W : Type 0} (clock : ℕ → Timespec) (s : MetaImpl W) (pino : ℕ) (name : Text)
    (ns : List Text) (parent c : Ptr) (d cd : Dentry) (ci : Inode) (expired : Bool) : Type 0 where
  pub is_parent : IsParent s.local pino parent d
  pub is_child : IsChild s.local d name c cd ci
  pub expiry : Dentry.expired_at (clock s.local.heap.clock_reads) cd.ttl ≡ expired
  pub not_root : ci.ino ≢ root_inode_id
  pub up : cd.parent ≡ parent
  pub chain : Chain (ticked s).local.heap parent ns
  pub short : length ns ≤ s.local.heap.next_ptr

module _ {W : Type 0} (s : MetaImpl W) where
  pub IsParent-ticked :
      {pino : ℕ} {parent : Ptr} {d : Dentry}
      → IsParent s.local pino parent d
      → IsParent (ticked s).local pino parent d
  IsParent-ticked h = record { entry = h.entry; not_null = h.not_null; holds = h.holds }

  pub IsChild-ticked :
      {d cd : Dentry} {name : Text} {c : Ptr} {ci : Inode}
      → IsChild s.local d name c cd ci
      → IsChild (ticked s).local d name c cd ci
  IsChild-ticked h = record {
    linked = h.linked;
    not_null = h.not_null;
    holds = h.holds;
    inode = h.inode;
  }

module _ (stor : Stor) (clock : ℕ → Timespec) (junk : ObjInfo) where
  -- A name that the tree has, and whose time is not up, is answered from the tree: the backend is
  -- not asked, and nothing but the clock's count changes.
  pub find_dentry_cached :
      (s : MetaImpl stor.State) (pino : ℕ) (name : Text) (only_local : Bool) (parent c : Ptr)
      (d cd : Dentry) (ci : Inode)
      → IsParent s.local pino parent d
      → IsChild s.local d name c cd ci
      → Dentry.expired_at (clock s.local.heap.clock_reads) cd.ttl ≡ false
      → find_dentry stor clock junk pino name only_local s ≡ ok c (ticked s)
  unfolding find_dentry Dentry.is_expired now read_dentry
  find_dentry_cached s pino name only_local parent c d cd ci is_parent is_child valid =
      ground (arith, find_dentry-some s.local pino name parent c d cd ci is_parent is_child)
