-- ===== src/Fuse/Names.antt =====
-- src/fs/fsa.cpp: what mkdir and lookup answer with, by name.
use Prim.Native.Nat.{bit_and, bit_or}
use catfs.Common.{
  ℕ, ◌≡◌, ◌≢◌, ◌<◌, ◌%◌, suc, Bool, true, false, none, some, List, [], ◌∷◌, arith, Text, bytes, ok,
  insert, text_key, bit_or-Has, ◌==◌,
}
use catfs.Stor.{Stor, Timespec, ObjInfo}
use catfs.Meta.Heap.{Ptr, Inode, Dentry, read_dentry, read_inode}
use catfs.Meta.Dentry.{s_ifdir}
use catfs.Meta.Dentry.FullPath.{key_prefix}
use catfs.Meta.Local.Index.{given}
use catfs.Meta.Local.Modes.{s_ifmt, file_type, permissions}
use catfs.Meta.Impl
use catfs.Meta.Impl.Absent.{IsAbsent, IsUnknown, create_dentry_new}
use catfs.Meta.Impl.Located.{IsLocated, find_dentry_located}
use catfs.Meta.Impl.Remove.{entry_key}
use catfs.Fs.{CatFs}
use catfs.Fs
use catfs.Fuse.{
  Stat, entry, attr, fill_inode_attr, inode_of, reply_inode, try_catch, catch_run, mkdir, lookup,
  getattr,
}

module _ (stor : Stor) (malloc : ℕ → List ℕ) (clock : ℕ → Timespec) (junk : ObjInfo) where
  -- mkdir of a name that neither the directory in the tree nor the backend has, where the directory
  -- is at the end of a chain of parents, at an address that was given out, and has not the number
  -- that is next: when the backend takes an empty object under the key of the name with a slash,
  -- with the lowest byte of the mode and of each number of the directory's owner as its metadata,
  -- the handler replies with the next number, the mode with the directory bit set, the owner of the
  -- directory, the size 0 and the times of two readings of the clock, and getattr then replies the
  -- same attributes for the number.
  pub mkdir_new :
      (s : CatFs stor.State) (pino : ℕ) (name : Text) (mode : ℕ) (ns : List Text) (parent : Ptr)
      (d : Dentry) (i : Inode) (b b' : stor.State)
      → IsAbsent s.meta pino name ns parent d
      → IsUnknown stor junk (key_prefix ns) name s.meta.backend b
      → s.meta.local.heap.inodes d.inode ≡ some i
      → parent < s.meta.local.heap.next_ptr
      → s.meta.local.next_inode_id ≢ pino
      → stor.put_file
          (record {
            obj_key = entry_key ns name true;
            buf = none;
            meta_data = insert (bytes "gid") ((i.gid % 256) ∷ []) (
                insert
                  (bytes "uid")
                  ((i.uid % 256) ∷ [])
                  (insert (bytes "mode") ((bit_or mode s_ifdir % 256) ∷ []) []));
          })
          b
        ≡ ok tt b'
      → let made : Stat = record {
        st_ino = s.meta.local.next_inode_id;
        st_mode = bit_or mode s_ifdir;
        st_gid = i.gid;
        st_uid = i.uid;
        st_size = 0;
        st_ctim = clock s.meta.local.heap.clock_reads;
        st_mtim = clock (suc s.meta.local.heap.clock_reads);
      } in
        (s' : CatFs stor.State) × (mkdir stor malloc clock junk pino name mode s
          ≡ ok (entry made ∷ []) s')
        × (s'.meta.backend ≡ b')
        × (getattr stor malloc clock junk s.meta.local.next_inode_id s' ≡ ok (attr made ∷ []) s')
  unfolding fill_inode_attr mkdir getattr reply_inode inode_of try_catch catch_run Fs.create_dentry
      Fs.lookup_inode Impl.get_inode read_dentry read_inode
  mkdir_new s pino name mode ns parent d i b b' absent unknown at_i old other stored =
      let dir : (bit_and (bit_or mode s_ifdir) s_ifdir == 0) ≡ false =
        ground (arith, bit_or-Has 14 mode) in
      let (m, q, qd, created, not_null, kept, found, at_q, at_inode, at_number, is_inode) =
        create_dentry_new stor clock junk s.meta pino name (bit_or mode s_ifdir) ns parent d i true
          b b' absent unknown at_i dir old other stored in
      (
        record s { meta = m },
        ground (arith, created, not_null, at_q, at_inode),
        kept,
        ground (arith, at_number, is_inode, at_inode),
      )

  -- lookup of a name that the directory in the tree does not have, where the directory is at the
  -- end of a chain of parents, at an address that was given out, and has not the number that is
  -- next: when the backend has an object under the key of the name, or else one under that key
  -- with a slash, the handler replies with the next number, the size of the object, the type
  -- of a file in the first case and of a directory in the second, the nine permission bits of the
  -- object, or 0644 for a file and 0766 for a directory where it has none, and its owner, or the
  -- owner of the options where it has none.
  pub lookup_located :
      (s : CatFs stor.State) (pino : ℕ) (name : Text) (ns : List Text) (parent : Ptr) (d : Dentry)
      (dir : Bool) (obj : ObjInfo) (b : stor.State)
      → IsAbsent s.meta pino name ns parent d
      → IsLocated stor junk (key_prefix ns) name s.meta.backend b dir obj
      → parent < s.meta.local.heap.next_ptr
      → s.meta.local.next_inode_id ≢ pino
      → (s' : CatFs stor.State) × (st : Stat) × (lookup stor malloc clock junk pino name s
          ≡ ok (entry st ∷ []) s')
        × (s'.meta.backend ≡ b)
        × (st.st_ino ≡ s.meta.local.next_inode_id)
        × (st.st_size ≡ obj.size)
        × (bit_and st.st_mode s_ifmt ≡ file_type dir)
        × (bit_and st.st_mode 0o777 ≡ permissions obj dir)
        × (st.st_uid ≡ given obj.uid s.meta.local.opt.uid)
        × (st.st_gid ≡ given obj.gid s.meta.local.opt.gid)
  unfolding fill_inode_attr lookup reply_inode inode_of try_catch catch_run Fs.find_dentry
      read_dentry read_inode
  lookup_located s pino name ns parent d dir obj b absent located old other =
      let (m, q, qd, i, answered, not_null, kept, found, at_q, at_inode, from) =
        find_dentry_located stor clock junk s.meta pino name ns parent d dir obj b absent located
          old other in
      (
        record s { meta = m },
        fill_inode_attr i,
        ground (arith, answered, not_null, at_q, at_inode),
        kept,
        from.ino,
        from.size,
        from.type,
        from.perm,
        from.uid,
        from.gid,
      )
