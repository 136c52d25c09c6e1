-- ===== src/Meta/Local/Fresh.antt =====
-- src/meta/meta_local_mem.cpp: the inode that create_new_inode makes, and the entry with it.
use catfs.Common.{
  sym, insert, lookup-insert, text_key, Bool, true, false, ◌%◌, ◌∙◌, ap, number_key, ℕ, suc, ◌≡◌,
  ◌≢◌, ◌<◌, refl, Option, none, some, arith, Text, ok, add64, lookup,
}
use catfs.Stor.{Timespec, ObjInfo}
use catfs.Meta.Heap.{
  Ptr, null, Inode, Dentry, fresh_inode, fresh_dentry, at, new_inode, read_inode, write_inode, now,
}
use catfs.Meta.Local.{
  LocalMemMeta, obj2inode, obj_mode, value_or, create_dentry_from_obj, create_new_inode, get_inode,
  create_dentry, find_dentry,
}
use Prim.Native.Nat.{bit_and}
use catfs.Meta.Local.Index.{given}
use catfs.Meta.Local.Modes.{s_ifmt, file_type, permissions, obj_mode_bits}
use catfs.Meta.Local.Tree.{IsParent, IsChild}
use catfs.Meta.Local.Absent.{get_dentry-some}
use catfs.Meta.Local.Create.{
  create_dentry-find_dentry, create_dentry-inodes, create_dentry-new, create_dentry_lem, entered,
  entered-IsParent, entered-new,
}

-- The inode that is made next, at the next address.
abbrev pub next_inode : (clock : ℕ → Timespec) → (mode gid uid : ℕ) → LocalMemMeta → Inode
next_inode clock mode gid uid s = record fresh_inode {
  ino = s.next_inode_id;
  mode = mode;
  gid = gid;
  uid = uid;
  ctime = clock s.heap.clock_reads;
  mtime = clock (suc s.heap.clock_reads);
}

pub create_new_inode-next :
    (clock : ℕ → Timespec) (mode gid uid : ℕ) (s : LocalMemMeta)
    → (t : LocalMemMeta) × (create_new_inode clock mode gid uid s ≡ ok s.heap.next_ptr t)
      × (t.heap.inodes s.heap.next_ptr ≡ some (next_inode clock mode gid uid s))
      × (t.heap.dentries ≡ s.heap.dentries)
      × (t.heap.next_ptr ≡ suc s.heap.next_ptr)
      × (t.dentry_index ≡ s.dentry_index)
unfolding create_new_inode new_inode read_inode write_inode now
create_new_inode-next clock mode gid uid s =
    let p = s.heap.next_ptr in
    let last = next_inode clock mode gid uid s in
    let first = record fresh_inode { ino = s.next_inode_id; mode = mode; gid = gid; uid = uid } in
    let t : LocalMemMeta = record s {
      next_inode_id = add64 s.next_inode_id 1;
      heap = record s.heap {
        inodes =
            at
              (at (at (at s.heap.inodes p (some fresh_inode)) p (some first)) p
                (some (record first { ctime = clock s.heap.clock_reads })))
              p (some last);
        next_ptr = suc p;
        clock_reads = suc (suc s.heap.clock_reads);
      };
    } in
    (t, ground arith, ground arith, refl, refl, refl)

-- Under a directory, an entry with a new inode is found under its name, and its inode under the
-- number that was next; the entries of other names stay as they were.
pub new_entry-find_dentry :
    (clock : ℕ → Timespec) (mode gid uid : ℕ) (s : LocalMemMeta) (pino : ℕ) (name : Text)
    (parent : Ptr) (d : Dentry)
    → IsParent s pino parent d
    → parent < s.heap.next_ptr
    → s.next_inode_id ≢ pino
    → (t u : LocalMemMeta) × (q : Ptr) × (create_new_inode clock mode gid uid s
        ≡ ok s.heap.next_ptr t)
      × (create_dentry pino name s.heap.next_ptr t ≡ ok q u)
      × (q ≢ null)
      × (u.heap.dentries q ≡ some (record (fresh_dentry name s.heap.next_ptr) { parent = parent }))
      × (find_dentry pino name u ≡ ok q u)
      × (get_inode s.next_inode_id u ≡ ok s.heap.next_ptr u)
      × (u.heap.inodes s.heap.next_ptr ≡ some (next_inode clock mode gid uid s))
new_entry-find_dentry clock mode gid uid s pino name parent d is_parent old other =
    let (t, made, at_inode, same, next, index) = create_new_inode-next clock mode gid uid s in
    let old' : parent < t.heap.next_ptr = omega (arith, next, old) in
    let is_parent' : IsParent t pino parent d = record {
      entry = ap (λ index. lookup pino (index (pino % 64))) index ∙ is_parent.entry;
      not_null = is_parent.not_null;
      holds = ap (λ dentries. dentries parent) same ∙ is_parent.holds;
    } in
    let (u, created, found, indexed, others, _) =
      create_dentry-find_dentry t pino name parent s.heap.next_ptr d _ is_parent' at_inode other
        old' in
    let kept =
      create_dentry-inodes t u pino name parent s.heap.next_ptr t.heap.next_ptr d _ is_parent'
        at_inode old' created in
    (
      t,
      u,
      t.heap.next_ptr,
      made,
      created,
      (λ e. absurd (omega (arith, e, old'))),
      create_dentry-new t u pino name parent s.heap.next_ptr t.heap.next_ptr d _ is_parent' at_inode
          old' created,
      found,
      indexed,
      ap (λ inodes. inodes s.heap.next_ptr) kept ∙ at_inode,
    )

-- What an inode that is made from an object takes from it, and from the options where it has none.
pub record IsFrom (s : LocalMemMeta) (obj : ObjInfo) (is_dir : Bool) (i : Inode) : Type 0 where
  pub ino : i.ino ≡ s.next_inode_id
  pub size : i.size ≡ obj.size
  pub type : bit_and i.mode s_ifmt ≡ file_type is_dir
  pub perm : bit_and i.mode 0o777 ≡ permissions obj is_dir
  pub uid : i.uid ≡ given obj.uid s.opt.uid
  pub gid : i.gid ≡ given obj.gid s.opt.gid

given-value_or : (v : Option ℕ) (d : ℕ) → value_or v d ≡ given v d
given-value_or none d = refl
given-value_or (some v) d = refl

obj2inode-IsFrom :
    (clock : ℕ → Timespec) (obj : ObjInfo) (is_dir : Bool) (s : LocalMemMeta)
    → (t : LocalMemMeta) × (i : Inode) × (obj2inode clock obj is_dir s ≡ ok s.heap.next_ptr t)
      × (t.heap.inodes s.heap.next_ptr ≡ some i)
      × IsFrom s obj is_dir i
      × (t.heap.dentries ≡ s.heap.dentries)
      × (t.heap.next_ptr ≡ suc s.heap.next_ptr)
      × (t.dentry_index ≡ s.dentry_index)
unfolding obj2inode new_inode read_inode write_inode now
obj2inode-IsFrom clock obj true s =
    let p = s.heap.next_ptr in
    let i0 = record fresh_inode { ino = s.next_inode_id; size = obj.size } in
    let i1 = record i0 { mtime = clock s.heap.clock_reads } in
    let i2 = record i1 { ctime = clock (suc s.heap.clock_reads) } in
    let i3 = record i2 {
      uid = value_or obj.uid s.opt.uid;
      gid = value_or obj.gid s.opt.gid;
      mode = obj_mode obj true;
    } in
    let t : LocalMemMeta = record s {
      next_inode_id = add64 s.next_inode_id 1;
      heap = record s.heap {
        inodes =
            at
              (at (at (at (at s.heap.inodes p (some fresh_inode)) p (some i0)) p (some i1)) p
                (some i2))
              p (some i3);
        next_ptr = suc p;
        clock_reads = suc (suc s.heap.clock_reads);
      };
    } in
    (
      t,
      i3,
      ground arith,
      ground arith,
      record {
        ino = refl;
        size = refl;
        type = (obj_mode_bits obj true).0;
        perm = (obj_mode_bits obj true).1;
        uid = given-value_or obj.uid s.opt.uid;
        gid = given-value_or obj.gid s.opt.gid;
      },
      refl,
      refl,
      refl,
    )
obj2inode-IsFrom clock obj false s =
    let p = s.heap.next_ptr in
    let i0 = record fresh_inode { ino = s.next_inode_id; size = obj.size } in
    let i3 = record i0 {
      uid = value_or obj.uid s.opt.uid;
      gid = value_or obj.gid s.opt.gid;
      mode = obj_mode obj false;
    } in
    let t : LocalMemMeta = record s {
      next_inode_id = add64 s.next_inode_id 1;
      heap = record s.heap {
        inodes = at (at (at s.heap.inodes p (some fresh_inode)) p (some i0)) p (some i3);
        next_ptr = suc p;
      };
    } in
    (
      t,
      i3,
      ground arith,
      ground arith,
      record {
        ino = refl;
        size = refl;
        type = (obj_mode_bits obj false).0;
        perm = (obj_mode_bits obj false).1;
        uid = given-value_or obj.uid s.opt.uid;
        gid = given-value_or obj.gid s.opt.gid;
      },
      refl,
      refl,
      refl,
    )

-- Under a directory, an entry that is made from an object has an inode with the object's data.
pub create_dentry_from_obj-IsChild :
    (clock : ℕ → Timespec) (obj : ObjInfo) (is_dir : Bool) (s : LocalMemMeta) (pino : ℕ)
    (name : Text) (parent : Ptr) (d : Dentry)
    → IsParent s pino parent d
    → parent < s.heap.next_ptr
    → s.next_inode_id ≢ pino
    → (u : LocalMemMeta) × (q : Ptr) × (d' qd : Dentry) × (i : Inode) × (create_dentry_from_obj
          clock pino name obj is_dir s
        ≡ ok q u)
      × IsParent u pino parent d'
      × IsChild u d' name q qd i
      × (q ≢ parent)
      × IsFrom s obj is_dir i
unfolding create_dentry_from_obj create_dentry
create_dentry_from_obj-IsChild clock obj is_dir s pino name parent d is_parent old other =
    let (t, i, made, at_inode, from, same, next, index) = obj2inode-IsFrom clock obj is_dir s in
    let old' : parent < t.heap.next_ptr = omega (arith, next, old) in
    let is_parent' : IsParent t pino parent d = record {
      entry = ap (λ index. lookup pino (index (pino % 64))) index ∙ is_parent.entry;
      not_null = is_parent.not_null;
      holds = ap (λ dentries. dentries parent) same ∙ is_parent.holds;
    } in
    let inode = s.heap.next_ptr in
    let c = t.heap.next_ptr in
    let created = create_dentry_lem t pino name parent inode d i is_parent' at_inode old' in
    (
      entered t name parent inode d i,
      c,
      record d { children = insert name c d.children },
      record (fresh_dentry name inode) { parent = parent },
      i,
      ground (
        arith,
        get_dentry-some s pino parent d is_parent,
        get_dentry-some t pino parent d is_parent',
        made,
        created,
      ),
      entered-IsParent t pino name parent inode d i is_parent' (λ e. other (sym from.ino ∙ e)),
      record {
        linked = ground (arith, lookup-insert name name c d.children);
        not_null = λ e. absurd (omega (arith, e, old'));
        holds = entered-new t pino name parent inode d i is_parent' old';
        inode = at_inode;
      },
      (λ e. absurd (omega (arith, e, old'))),
      from,
    )
