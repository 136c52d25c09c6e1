-- ===== src/Meta/Impl/Located.antt =====
-- src/meta/meta_impl.cpp: find_dentry on a name that only the backend has.
use catfs.Common.{
  ℕ, suc, ◌+◌, ◌≡◌, ◌≢◌, ◌<◌, refl, Bool, true, false, some, List, ◌++◌, arith, Text, bytes, ok,
}
use catfs.Stor.{Stor, Timespec, ObjInfo, HeadFileResp}
use catfs.Meta.Heap.{Ptr, null, Inode, Dentry, at, now, read_dentry, write_dentry}
use catfs.Meta.Dentry
use catfs.Meta.Dentry.FullPath.{key_prefix, get_full_path_with_slash-Chain}
use catfs.Meta.Local
use catfs.Meta.Local.{LocalMemMeta}
use catfs.Meta.Local.Absent.{find_dentry-none, get_dentry-some}
use catfs.Meta.Local.Fresh.{IsFrom, create_dentry_from_obj-IsChild}
use catfs.Meta.Local.Tree.{find_dentry-some}
use catfs.Meta.Impl.{MetaImpl, find_dentry}
use catfs.Meta.Impl.Absent.{IsAbsent}

-- The backend has an object of the name under a key prefix, which is a file, or else one with a
-- slash behind the name, which is a directory: the calls by which find_dentry learns of it.
pub data IsLocated (stor : Stor) (junk : ObjInfo) (prefix name : Text) (b b' : stor.State)
    : Bool → ObjInfo → Type 0 where
  a_file :
      (resp : HeadFileResp)
      → stor.head_file
          (record { obj_key = prefix ++ name })
          (record { exist = false; obj = junk })
          b
        ≡ ok resp b'
      → resp.exist ≡ true
      → IsLocated stor junk prefix name b b' false resp.obj
  a_dir :
      (resp as_dir : HeadFileResp) (between : stor.State)
      → stor.head_file
          (record { obj_key = prefix ++ name })
          (record { exist = false; obj = junk })
          b
        ≡ ok resp between
      → resp.exist ≡ false
      → stor.head_file (record { obj_key = (prefix ++ name) ++ bytes "/" }) resp between
        ≡ ok as_dir b'
      → as_dir.exist ≡ true
      → IsLocated stor junk prefix name b b' true as_dir.obj

module _ (stor : Stor) (clock : ℕ → Timespec) (junk : ObjInfo) where
  -- The entry with its time set.
  abbrev timed : MetaImpl stor.State → LocalMemMeta → Ptr → Dentry → LocalMemMeta
  timed s u q qd =
      let t = clock u.heap.clock_reads in
      record u {
        heap = record u.heap {
          dentries =
              at u.heap.dentries q
                (some (Dentry.set_ttl (record t { tv_sec = t.tv_sec + s.opt.dcache_timeout }) qd));
          clock_reads = suc u.heap.clock_reads;
        };
      }

  located_run :
      (s : MetaImpl stor.State) (pino : ℕ) (name : Text) (ns : List Text) (parent q : Ptr)
      (d qd : Dentry) (dir : Bool) (obj : ObjInfo) (b : stor.State) (u : LocalMemMeta)
      → IsAbsent s pino name ns parent d
      → IsLocated stor junk (key_prefix ns) name s.backend b dir obj
      → Local.create_dentry_from_obj clock pino name obj dir s.local ≡ ok q u
      → u.heap.dentries q ≡ some qd
      → find_dentry stor clock junk pino name false s
        ≡ ok q (record s { local = timed s u q qd; backend = b })
  unfolding find_dentry Dentry.inc_ttl Dentry.set_ttl now write_dentry read_dentry
  located_run s pino name ns parent q d qd _ _ b u absent (a_file resp e exist) created at_q =
      ground (
        arith,
        find_dentry-none s.local pino name parent d absent.is_parent absent.unlinked,
        get_dentry-some s.local pino parent d absent.is_parent,
        get_full_path_with_slash-Chain {h = s.local.heap} {p = parent} {ns = ns} absent.chain
            (omega (arith, absent.short)),
        absent.is_parent.not_null,
      )
  located_run s pino name ns parent q d qd _ _ b u absent (a_dir resp as_dir m e none e' exist)
        created at_q =
      ground (
        arith,
        find_dentry-none s.local pino name parent d absent.is_parent absent.unlinked,
        get_dentry-some s.local pino parent d absent.is_parent,
        get_full_path_with_slash-Chain {h = s.local.heap} {p = parent} {ns = ns} absent.chain
            (omega (arith, absent.short)),
        absent.is_parent.not_null,
      )

  -- A name that the directory in the tree does not have, where the directory is at the end of a
  -- chain of parents, at an address that was given out, and has not the number that is next: when
  -- the backend has an object under the key of the name, or else one under that key with a slash,
  -- the call answers a dentry that the tree then finds by the name. Its inode, of a file in the
  -- first case and of a directory in the second, has the next number, the size of the object,
  -- its nine permission bits, or 0644 for a file and 0766 for a directory where it has none, and its
  -- owner, or the owner of the options where it has none.
  pub find_dentry_located :
      (s : MetaImpl stor.State) (pino : ℕ) (name : Text) (ns : List Text) (parent : Ptr)
      (d : Dentry) (dir : Bool) (obj : ObjInfo) (b : stor.State)
      → IsAbsent s pino name ns parent d
      → IsLocated stor junk (key_prefix ns) name s.backend b dir obj
      → parent < s.local.heap.next_ptr
      → s.local.next_inode_id ≢ pino
      → (s' : MetaImpl stor.State) × (q : Ptr) × (qd : Dentry) × (i : Inode) × (find_dentry stor
            clock junk pino name false s
          ≡ ok q s')
        × (q ≢ null)
        × (s'.backend ≡ b)
        × (Local.find_dentry pino name s'.local ≡ ok q s'.local)
        × (s'.local.heap.dentries q ≡ some qd)
        × (s'.local.heap.inodes qd.inode ≡ some i)
        × IsFrom s.local obj dir i
  unfolding Dentry.set_ttl
  find_dentry_located s pino name ns parent d dir obj b absent located old other =
      let (u, q, d', qd, i, created, is_parent, is_child, apart, from) =
        create_dentry_from_obj-IsChild clock obj dir s.local pino name parent d absent.is_parent old
          other in
      let w = timed s u q qd in
      let t = clock u.heap.clock_reads in
      let qd' = Dentry.set_ttl (record t { tv_sec = t.tv_sec + s.opt.dcache_timeout }) qd in
      (
        record s { local = w; backend = b },
        q,
        qd',
        i,
        located_run s pino name ns parent q d qd dir obj b u absent located created is_child.holds,
        is_child.not_null,
        refl,
        find_dentry-some w pino name parent q d' qd' i
            (record {
              entry = is_parent.entry;
              not_null = is_parent.not_null;
              holds = ground (arith, is_parent.holds);
            })
            (record {
              linked = is_child.linked;
              not_null = is_child.not_null;
              holds = ground arith;
              inode = is_child.inode;
            }),
        ground arith,
        is_child.inode,
        from,
      )
