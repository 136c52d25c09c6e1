-- ===== src/Meta/Impl/Absent.antt =====
-- src/meta/meta_impl.cpp: find_dentry and create_dentry on a name that the tree does not have.
use Prim.Native.Nat.{bit_and}
use catfs.Common.{
  ℕ, ◌≡◌, ◌≢◌, ◌≤◌, ◌<◌, refl, Bool, true, false, not, none, some, List, [], ◌∷◌, ◌%◌, ◌++◌, arith,
  Text, bytes, ok, length, lookup, text_key, insert, ◌==◌,
}
use catfs.Stor.{Stor, Timespec, ObjInfo, HeadFileResp, ListObjectsResp, empty_listing}
use catfs.Meta.Heap.{Ptr, null, Inode, Dentry, fresh_dentry, read_dentry, read_inode}
use catfs.Meta.Dentry
use catfs.Meta.Dentry.{s_ifdir}
use catfs.Meta.Dentry.FullPath.{
  Chain, root, below, key_prefix, key_prefix_top, key_prefix_below, get_full_path-Chain,
  get_full_path_with_slash-Chain,
}
use catfs.Meta.Local
use catfs.Meta.Local.{LocalMemMeta}
use catfs.Meta.Local.Tree.{IsParent}
use catfs.Meta.Local.Absent.{find_dentry-none, get_dentry-some}
use catfs.Meta.Local.Fresh.{next_inode, new_entry-find_dentry}
use catfs.Meta.Impl.{MetaImpl, find_dentry, create_dentry, new_key}
use catfs.Meta.Impl.Remove.{entry_key}

-- A name that the directory `parent`, at the path `ns` from the root, does not have.
pub record IsAbsent {W : Type 0} (s : MetaImpl W) (pino : ℕ) (name : Text) (ns : List Text)
    (parent : Ptr) (d : Dentry) : Type 0 where
  pub is_parent : IsParent s.local pino parent d
  pub unlinked : lookup name d.children ≡ none
  pub chain : Chain s.local.heap parent ns
  pub short : length ns ≤ s.local.heap.next_ptr

-- The backend has neither an object of the name under a key prefix, nor one of its directory, nor
-- one in its directory: the three calls by which find_dentry asks for them, from `b` to `b'`.
pub record IsUnknown (stor : Stor) (junk : ObjInfo) (prefix name : Text) (b b' : stor.State)
    : Type 0 where
  pub as_file : HeadFileResp
  pub as_dir : HeadFileResp
  pub within : ListObjectsResp
  pub after_file : stor.State
  pub after_dir : stor.State
  pub head_file :
      stor.head_file (record { obj_key = prefix ++ name }) (record { exist = false; obj = junk }) b
      ≡ ok as_file after_file
  pub no_file : as_file.exist ≡ false
  pub head_dir :
      stor.head_file (record { obj_key = (prefix ++ name) ++ bytes "/" }) as_file after_file
      ≡ ok as_dir after_dir
  pub no_dir : as_dir.exist ≡ false
  pub list_within :
      stor.list_objects
        (record { delimiter = []; prefix = prefix ++ (name ++ bytes "/"); max = 1; marker = [] })
        empty_listing
        after_dir
      ≡ ok within b'
  pub none_within : length within.objs ≡ 0

module _ (stor : Stor) (clock : ℕ → Timespec) (junk : ObjInfo) where
  -- A name that neither the tree nor the backend has is answered null after three calls of the
  -- backend, and the tree stays as it is.
  find_dentry_unknown :
      (s : MetaImpl stor.State) (pino : ℕ) (name : Text) (ns : List Text) (parent : Ptr)
      (d : Dentry) (b : stor.State)
      → IsAbsent s pino name ns parent d
      → IsUnknown stor junk (key_prefix ns) name s.backend b
      → find_dentry stor clock junk pino name false s ≡ ok null (record s { backend = b })
  unfolding find_dentry
  find_dentry_unknown s pino name ns parent d b h u = ground (
    arith,
    find_dentry-none s.local pino name parent d h.is_parent h.unlinked,
    get_dentry-some s.local pino parent d h.is_parent,
    get_full_path_with_slash-Chain {h = s.local.heap} {p = parent} {ns = ns} h.chain
        (omega (arith, h.short)),
    u.head_file,
    u.no_file,
    u.head_dir,
    u.no_dir,
    u.list_within,
    u.none_within,
  )

  new_key_lem :
      (s : MetaImpl stor.State) (name : Text) (mode : ℕ) (ns : List Text) (parent : Ptr)
      (dir : Bool)
      → (bit_and mode s_ifdir == 0) ≡ not dir
      → Chain s.local.heap parent ns
      → length ns ≤ s.local.heap.next_ptr
      → new_key stor clock junk parent name mode s ≡ ok (entry_key ns name dir) s
  unfolding new_key Dentry.is_root read_dentry read_inode
  new_key_lem s name mode _ parent true type (root d i at_p at_i top) short =
      ground (arith, key_prefix_top name)
  new_key_lem s name mode _ parent false type (root d i at_p at_i top) short =
      ground (arith, key_prefix_top name)
  new_key_lem s name mode _ parent true type
        (below {ns = ns} d i n up at_p at_i not_top named linked not_null chain) short =
      ground (
        arith,
        get_full_path-Chain {h = s.local.heap} {ns = ns} parent d i at_p at_i not_top linked
            not_null chain (omega (arith, short)),
        named,
        key_prefix_below n name ns,
      )
  new_key_lem s name mode _ parent false type
        (below {ns = ns} d i n up at_p at_i not_top named linked not_null chain) short =
      ground (
        arith,
        get_full_path-Chain {h = s.local.heap} {ns = ns} parent d i at_p at_i not_top linked
            not_null chain (omega (arith, short)),
        named,
        key_prefix_below n name ns,
      )

  -- Creating a name that neither the directory in the tree nor the backend has, where the directory
  -- is at the end of a chain of parents, at an address that was given out, and has not the number
  -- that is next: when the backend takes an empty object under the key under which remove_dentry
  -- would delete the entry (entry_key), with the lowest byte of the mode and of each number of
  -- the directory's owner as its metadata, the call answers a dentry that the tree then finds by the name, with a new inode of the next number,
  -- the mode and the owner, which is found by its number.
  pub create_dentry_new :
      (s : MetaImpl stor.State) (pino : ℕ) (name : Text) (mode : ℕ) (ns : List Text) (parent : Ptr)
      (d : Dentry) (i : Inode) (dir : Bool) (b b' : stor.State)
      → IsAbsent s pino name ns parent d
      → IsUnknown stor junk (key_prefix ns) name s.backend b
      → s.local.heap.inodes d.inode ≡ some i
      → (bit_and mode s_ifdir == 0) ≡ not dir
      → parent < s.local.heap.next_ptr
      → s.local.next_inode_id ≢ pino
      → stor.put_file
          (record {
            obj_key = entry_key ns name dir;
            buf = none;
            meta_data = insert (bytes "gid") ((i.gid % 256) ∷ []) (
                insert
                  (bytes "uid")
                  ((i.uid % 256) ∷ [])
                  (insert (bytes "mode") ((mode % 256) ∷ []) []));
          })
          b
        ≡ ok tt b'
      → (s' : MetaImpl stor.State) × (q : Ptr) × (qd : Dentry) × (create_dentry stor clock junk pino
            name mode s
          ≡ ok q s')
        × (q ≢ null)
        × (s'.backend ≡ b')
        × (Local.find_dentry pino name s'.local ≡ ok q s'.local)
        × (s'.local.heap.dentries q ≡ some qd)
        × (s'.local.heap.inodes qd.inode ≡ some (next_inode clock mode i.gid i.uid s.local))
        × (Local.get_inode s.local.next_inode_id s'.local ≡ ok qd.inode s'.local)
        × (qd.inode ≢ null)
  unfolding create_dentry read_dentry read_inode
  create_dentry_new s pino name mode ns parent d i dir b b' h u at_i type old other stored =
      let (t, v, q, made, created, not_null, at_q, found, at_number, kept) =
        new_entry-find_dentry clock mode i.gid i.uid s.local pino name parent d h.is_parent old
          other in
      (
        record s { local = v; backend = b' },
        q,
        record (fresh_dentry name s.local.heap.next_ptr) { parent = parent },
        ground (
          arith,
          find_dentry_unknown s pino name ns parent d b h u,
          get_dentry-some s.local pino parent d h.is_parent,
          new_key_lem (record s { backend = b }) name mode ns parent dir type h.chain h.short,
          h.is_parent.holds,
          stored,
          made,
          created,
        ),
        not_null,
        refl,
        found,
        at_q,
        kept,
        at_number,
        (λ e. absurd (omega (arith, e, old))),
      )
