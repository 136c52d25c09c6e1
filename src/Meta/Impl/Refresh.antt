-- ===== src/Meta/Impl/Refresh.antt =====
-- src/meta/meta_impl.cpp: find_dentry on an entry whose time is up.
use catfs.Common.{
  ℕ, suc, ◌+◌, ◌≡◌, ◌≢◌, refl, Bool, true, false, none, some, List, ◌∷◌, ◌++◌, arith, Text, ok,
  if◌then◌else◌,
}
use catfs.Stor.{Stor, Timespec, ObjInfo, HeadFileResp}
use catfs.Meta.Heap.{
  Ptr, null, Inode, Dentry, at, now, read_dentry, read_inode, write_dentry, write_inode,
}
use catfs.Meta.Dentry
use catfs.Meta.Dentry.FullPath.{
  Chain, below, get_full_path-Chain, get_full_path_with_slash-Chain, key_prefix,
}
use catfs.Meta.Local
use catfs.Meta.Local.{LocalMemMeta}
use catfs.Meta.Local.Index.{indexed, given, with_given, update_inode-indexed}
use catfs.Meta.Local.Tree.{find_dentry-some}
use catfs.Meta.Impl.{MetaImpl, find_dentry, refresh_dentry, refreshed_mode}
use catfs.Meta.Impl.Lookup.{IsCached, ticked}

-- The key under which an entry is looked up.
abbrev pub key_of : List Text → Text → (is_dir : Bool) → Text
key_of ns name true = key_prefix (name ∷ ns)
key_of ns name false = key_prefix ns ++ name

module _ (stor : Stor) (clock : ℕ → Timespec) (junk : ObjInfo) where
  -- The state after the refresh.
  abbrev refreshed :
      MetaImpl stor.State
      → Ptr
      → Dentry
      → Inode
      → Local.InodeUpdateAttr
      → stor.State
      → MetaImpl stor.State
  refreshed s c cd ci u b =
      let t = clock (suc s.local.heap.clock_reads) in
      record s {
        local = record s.local {
          heap = record s.local.heap {
            dentries =
                at s.local.heap.dentries c (
                  some (Dentry.set_ttl (record t { tv_sec = t.tv_sec + s.opt.dcache_timeout }) cd));
            inodes = at s.local.heap.inodes cd.inode (some (with_given u ci));
            clock_reads = suc (suc s.local.heap.clock_reads);
          };
        };
        backend = b;
      }

  -- An entry whose time is up, and whose object the backend finds without a mode, as S3 does: it is
  -- answered, and its inode gets the size of the object, its owner where it has one, and the mode
  -- 0644 of a file, without the bit S_IFREG, or 0755 with S_IFDIR for a directory. Its number and
  -- its times stay.
  pub find_dentry_refreshed :
      (s : MetaImpl stor.State) (pino : ℕ) (name : Text) (ns : List Text) (parent c : Ptr)
      (d cd : Dentry) (ci : Inode) (dir : Bool) (resp : HeadFileResp) (b : stor.State)
      → IsCached clock s pino name ns parent c d cd ci true
      → Dentry.is_dir c s.local.heap ≡ ok dir s.local.heap
      → indexed s.local ci.ino ≡ some c
      → cd.inode ≢ null
      → stor.head_file
          (record { obj_key = key_of ns cd.name dir })
          (record { exist = false; obj = junk })
          s.backend
        ≡ ok resp b
      → resp.exist ≡ true
      → resp.obj.mode ≡ none
      → (s' : MetaImpl stor.State) × (find_dentry stor clock junk pino name false s ≡ ok c s')
        × (s'.backend ≡ b)
        × (s'.local.heap.inodes cd.inode
            ≡ some (record ci {
              size = resp.obj.size;
              mode = if dir then 0o40755 else 0o644;
              uid = given resp.obj.uid ci.uid;
              gid = given resp.obj.gid ci.gid;
            }))
  unfolding find_dentry refresh_dentry refreshed_mode Dentry.is_expired Dentry.is_dir Dentry.inc_ttl
      Dentry.set_ttl now read_dentry read_inode write_dentry write_inode
  find_dentry_refreshed s pino name ns parent c d cd ci true resp b h dir entry not_null found exist
        no_mode =
      let s1 = ticked s in
      let u : Local.InodeUpdateAttr = record {
        size = some resp.obj.size;
        mode = some (refreshed_mode none true);
        uid = resp.obj.uid;
        gid = resp.obj.gid;
      } in
      let below_c : Chain s1.local.heap c (cd.name ∷ ns) =
        below cd ci cd.name parent h.is_child.holds h.is_child.inode h.not_root refl h.up
          h.is_parent.not_null h.chain in
      (
        refreshed s c cd ci u b,
        ground (
          arith,
          find_dentry-some s.local pino name parent c d cd ci h.is_parent h.is_child,
          get_full_path_with_slash-Chain below_c (omega (arith, h.short)),
          update_inode-indexed s1.local ci.ino u c cd ci entry h.is_child.not_null h.is_child.holds
              not_null h.is_child.inode,
          found,
        ),
        refl,
        ground arith,
      )
  find_dentry_refreshed s pino name ns parent c d cd ci false resp b h dir entry not_null found
        exist no_mode =
      let s1 = ticked s in
      let u : Local.InodeUpdateAttr = record {
        size = some resp.obj.size;
        mode = some (refreshed_mode none false);
        uid = resp.obj.uid;
        gid = resp.obj.gid;
      } in
      (
        refreshed s c cd ci u b,
        ground (
          arith,
          find_dentry-some s.local pino name parent c d cd ci h.is_parent h.is_child,
          get_full_path-Chain {h = s1.local.heap} {parent = parent} {ns = ns} c cd ci
              h.is_child.holds h.is_child.inode h.not_root h.up h.is_parent.not_null h.chain
              h.short,
          update_inode-indexed s1.local ci.ino u c cd ci entry h.is_child.not_null h.is_child.holds
              not_null h.is_child.inode,
          found,
        ),
        refl,
        ground arith,
      )
