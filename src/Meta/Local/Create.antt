-- ===== src/Meta/Local/Create.antt =====
-- src/meta/meta_local_mem.cpp: what create_dentry adds to the tree and the index, and how the
-- lookups of the new entry answer.
use catfs.Common.{
  ℕ, suc, ◌%◌, ◌≡◌, ◌≢◌, ◌<◌, some, arith, Text, ok, text_key, number_key, lookup, insert,
  lookup-insert, ◌==◌, if◌then◌else◌,
}
use catfs.Meta.Heap.{
  Ptr, Inode, Dentry, fresh_dentry, at, read_dentry, read_inode, write_dentry, new_dentry,
}
use catfs.Meta.Dentry
use catfs.Meta.Local.{
  LocalMemMeta, lock_count, get_inode, get_dentry, add_child_for_dentry, create_dentry, find_dentry,
  save_dentry_index,
}
use catfs.Meta.Local.Index.{indexed, index_at-some}
use catfs.Meta.Local.Tree.{IsParent}

-- The state after a new entry: its dentry is at the next address.
abbrev pub entered : LocalMemMeta → Text → (parent inode : Ptr) → Dentry → Inode → LocalMemMeta
entered s name parent inode d i =
    let c = s.heap.next_ptr in
    let seg = s.dentry_index (i.ino % lock_count) in
    record s {
      dentry_index = λ j. if j == i.ino % lock_count then insert i.ino c seg else s.dentry_index j;
      heap = record s.heap {
        dentries =
            at
              (at (at s.heap.dentries c (some (fresh_dentry name inode))) c
                (some (record (fresh_dentry name inode) { parent = parent })))
              parent (some (record d { children = insert name c d.children }));
        next_ptr = suc c;
      };
    }

pub create_dentry_lem :
    (s : LocalMemMeta) (pino : ℕ) (name : Text) (parent inode : Ptr) (d : Dentry) (i : Inode)
    → IsParent s pino parent d
    → s.heap.inodes inode ≡ some i
    → parent < s.heap.next_ptr
    → create_dentry pino name inode s ≡ ok s.heap.next_ptr (entered s name parent inode d i)
unfolding create_dentry add_child_for_dentry save_dentry_index get_dentry Dentry.add_child
    read_dentry read_inode write_dentry new_dentry
create_dentry_lem s pino name parent inode d i is_parent at_i fresh =
    ground (arith, index_at-some s pino parent is_parent.entry)

module _ (s : LocalMemMeta) (pino : ℕ) (name : Text) (parent inode : Ptr) (d : Dentry) (i : Inode)
    (is_parent : IsParent s pino parent d) where
  -- The directory has the new entry.
  pub entered-IsParent :
      i.ino ≢ pino
      → IsParent
          (entered s name parent inode d i)
          pino
          parent
          (record d { children = insert name s.heap.next_ptr d.children })
  entered-IsParent other_ino =
      let seg = s.dentry_index (i.ino % lock_count) in
      record {
        entry = ground (arith, is_parent.entry, lookup-insert pino i.ino s.heap.next_ptr seg);
        not_null = is_parent.not_null;
        holds = ground arith;
      }

  pub entered-new :
      parent < s.heap.next_ptr
      → (entered s name parent inode d i).heap.dentries s.heap.next_ptr
        ≡ some (record (fresh_dentry name inode) { parent = parent })
  entered-new old = ground arith

-- What a new entry is.
pub create_dentry-new :
    (s u : LocalMemMeta) (pino : ℕ) (name : Text) (parent inode q : Ptr) (d : Dentry) (i : Inode)
    → IsParent s pino parent d
    → s.heap.inodes inode ≡ some i
    → parent < s.heap.next_ptr
    → create_dentry pino name inode s ≡ ok q u
    → u.heap.dentries q ≡ some (record (fresh_dentry name inode) { parent = parent })
create_dentry-new s u pino name parent inode q d i is_parent at_i fresh e =
    let e' = create_dentry_lem s pino name parent inode d i is_parent at_i fresh in
    let new = entered-new s pino name parent inode d i is_parent fresh in cc

-- A new entry leaves the inodes as they are.
pub create_dentry-inodes :
    (s u : LocalMemMeta) (pino : ℕ) (name : Text) (parent inode q : Ptr) (d : Dentry) (i : Inode)
    → IsParent s pino parent d
    → s.heap.inodes inode ≡ some i
    → parent < s.heap.next_ptr
    → create_dentry pino name inode s ≡ ok q u
    → u.heap.inodes ≡ s.heap.inodes
create_dentry-inodes s u pino name parent inode q d i is_parent at_i fresh e =
    let e' = create_dentry_lem s pino name parent inode d i is_parent at_i fresh in cc

-- Under a directory, at an address that is not yet given out and with an inode number that is not
-- the directory's, a new entry is found under its name and its inode number; the entries of other
-- names and the index of other inode numbers stay as they were.
pub create_dentry-find_dentry :
    (s : LocalMemMeta) (pino : ℕ) (name : Text) (parent inode : Ptr) (d : Dentry) (i : Inode)
    → IsParent s pino parent d
    → s.heap.inodes inode ≡ some i
    → i.ino ≢ pino
    → parent < s.heap.next_ptr
    → (s' : LocalMemMeta) × (create_dentry pino name inode s ≡ ok s.heap.next_ptr s')
      × (find_dentry pino name s' ≡ ok s.heap.next_ptr s')
      × (get_inode i.ino s' ≡ ok inode s')
      × ((other : Text)
          → other ≢ name
          → find_dentry pino other s' ≡ ok (Dentry.or_null (lookup other d.children)) s')
      × ((ino : ℕ) → ino ≢ i.ino → indexed s' ino ≡ indexed s ino)
unfolding find_dentry get_inode get_dentry Dentry.get_child read_dentry
create_dentry-find_dentry s pino name parent inode d i is_parent at_i other_ino fresh =
    let c = s.heap.next_ptr in
    let seg = s.dentry_index (i.ino % lock_count) in
    let s' = entered s name parent inode d i in
    let entry : indexed s' pino ≡ some parent = ground (arith, lookup-insert pino i.ino c seg) in
    let new_entry : indexed s' i.ino ≡ some c = ground (arith, lookup-insert i.ino i.ino c seg) in
    (
      s',
      create_dentry_lem s pino name parent inode d i is_parent at_i fresh,
      ground (arith, index_at-some s' pino parent entry, lookup-insert name name c d.children),
      ground (arith, index_at-some s' i.ino c new_entry),
      λ other ne.
          ground (arith, index_at-some s' pino parent entry, lookup-insert other name c d.children),
      λ ino ne. ground (arith, lookup-insert ino i.ino c seg),
    )
