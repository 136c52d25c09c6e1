-- ===== src/Meta/Local/Invariant/Creation.antt =====
-- src/meta/meta_local_mem.cpp: making an inode, and an entry from an object, keep the tree and its
-- index sound.
use Prim.Native.Nat.{max}
use catfs.Common.{
  ℕ, suc, ◌≡◌, refl, sym, subst, Bool, some, Text, arith, text_key, number_key, Run, ok, Ends,
  Ends-as, ends_ok, Ends-then, Ends-map, Ends-if, add64,
}
use catfs.Stor.{Timespec, ObjInfo}
use catfs.Meta.Heap.{Ptr, Inode, fresh_inode, at, read_inode, write_inode, new_inode}
use catfs.Meta.Local.{
  LocalMemMeta, on_heap, get_next_inode_id, obj2inode, create_dentry_from_obj, create_new_inode,
}
use catfs.Meta.Local.Invariant.{grown-IsSound, lower-IsSound}
use catfs.Meta.Local.Invariant.Changes.{new_inode-IsSound}
use catfs.Meta.Local.Invariant.Dentries.{write_inode-Ends, now-Ends}
use catfs.Meta.Local.Invariant.Methods.{
  on_heap-Sound, lower-Ends, the_parent-Sound, add_child_for_dentry-Sound, Sound,
}

-- The first steps of making an inode: at a new address, with the next number.
abbrev allocated : LocalMemMeta → (number : ℕ) → Inode → LocalMemMeta
allocated s number i = record s {
  next_inode_id = number;
  heap = record s.heap {
    inodes = at s.heap.inodes s.heap.next_ptr (some i);
    next_ptr = suc s.heap.next_ptr;
  };
}

module _ {F : Type 0} {least : Ptr} (s : LocalMemMeta) (sound : Sound least s) (number : ℕ)
    (i : Inode) (f : Inode → Inode) where
  numbered-Sound :
      Ends F
        (λ _. Sound (max least (suc s.heap.next_ptr)))
        (Sound (max least (suc s.heap.next_ptr)))
        (on_heap (write_inode s.heap.next_ptr f) (allocated s number i))
  unfolding write_inode read_inode
  numbered-Sound =
      let run : on_heap (write_inode s.heap.next_ptr f) (allocated s number i)
          ≡ ok tt (record (allocated s number i) {
            heap = record (allocated s number i).heap {
              inodes = at (allocated s number i).heap.inodes s.heap.next_ptr (some (f i));
            };
          }) =
        ground arith in
      Ends-as run (
        ends_ok (
          grown-IsSound (new_inode-IsSound sound i (f i)) (max least (suc s.heap.next_ptr))
            (omega (arith, sound.grown))))

-- What ends with the address `p` of a new inode.
made-Ends :
    {F : Type 0} {least : Ptr} (p : Ptr) {r : Run LocalMemMeta Ptr}
    → Ends F (λ q s. (q ≡ p) × Sound (max least (suc p)) s) (Sound (max least (suc p))) r
    → Ends F (λ q. Sound (max least (suc q))) (Sound least) r
made-Ends {least} p h =
    Ends-map h (λ q s (e, k). subst (λ q. Sound (max least (suc q)) s) (sym e) k)
      (λ s k. lower-IsSound k least (omega arith))

module _ {F : Type 0} {least : Ptr} (clock : ℕ → Timespec) (s : LocalMemMeta)
    (sound : Sound least s) where
  -- The inode that is made here is at an address that no dentry had.
  pub create_new_inode-Sound :
      (mode gid uid : ℕ)
      → Ends F
          (λ p. Sound (max least (suc p)))
          (Sound least)
          (create_new_inode clock mode gid uid s)
  unfolding create_new_inode get_next_inode_id new_inode
  create_new_inode-Sound mode gid uid =
      let p = s.heap.next_ptr in
      made-Ends p (
        Ends-then
          (numbered-Sound s sound (add64 s.next_inode_id 1) fresh_inode
            (λ i. record i { ino = s.next_inode_id; mode = mode; gid = gid; uid = uid }))
          (λ _ s h. Ends-then (on_heap-Sound s (now-Ends s.heap h clock)) (λ t s h.
            Ends-then (on_heap-Sound s (write_inode-Ends s.heap h p _ (λ i. refl))) (λ _ s h.
              Ends-then (on_heap-Sound s (now-Ends s.heap h clock)) (λ t s h.
                Ends-then (on_heap-Sound s (write_inode-Ends s.heap h p _ (λ i. refl)))
                  (λ _ s h. ends_ok (refl, h)))))))

  obj2inode-Sound :
      (obj : ObjInfo) (is_dir : Bool)
      → Ends F (λ p. Sound (max least (suc p))) (Sound least) (obj2inode clock obj is_dir s)
  unfolding obj2inode get_next_inode_id new_inode
  obj2inode-Sound obj is_dir =
      let p = s.heap.next_ptr in
      made-Ends p (
        Ends-then
          (numbered-Sound s sound (add64 s.next_inode_id 1) fresh_inode
            (λ i. record i { ino = s.next_inode_id; size = obj.size }))
          (λ _ s h.
            Ends-then
              (Ends-if is_dir _ _ _
                (Ends-then (on_heap-Sound s (now-Ends s.heap h clock)) (λ t s h.
                  Ends-then (on_heap-Sound s (write_inode-Ends s.heap h p _ (λ i. refl))) (λ _ s h.
                    Ends-then (on_heap-Sound s (now-Ends s.heap h clock))
                      (λ t s h. on_heap-Sound s (write_inode-Ends s.heap h p _ (λ i. refl))))))
                (ends_ok h))
              (λ _ s h.
                Ends-then (on_heap-Sound s (write_inode-Ends s.heap h p _ (λ i. refl)))
                  (λ _ s h. ends_ok (refl, h)))))

module _ {F : Type 0} {least : Ptr} (clock : ℕ → Timespec) (s : LocalMemMeta)
    (sound : Sound least s) where
  pub create_dentry_from_obj-Sound :
      (pino : ℕ) (name : Text) (obj : ObjInfo) (is_dir : Bool)
      → Ends F
          (λ _. Sound least)
          (Sound least)
          (create_dentry_from_obj clock pino name obj is_dir s)
  unfolding create_dentry_from_obj
  create_dentry_from_obj-Sound pino name obj is_dir =
      Ends-then (the_parent-Sound s sound pino) (λ parent s h. lower-Ends least (omega arith) (
        Ends-then (obj2inode-Sound clock s h obj is_dir) (λ i s k.
          lower-Ends (max least (suc parent)) (omega arith)
            (add_child_for_dentry-Sound s k parent name i (omega arith) (omega arith)))))
