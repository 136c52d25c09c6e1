-- ===== src/Meta/Local/Merge/Kept.antt =====
-- src/meta/meta_local_mem.cpp: merging a listing and dropping entries keep the tree and its index
-- sound, and the constructor makes a sound tree.
use catfs.Common.{
  ℕ, zero, suc, ◌≡◌, refl, Bool, not, ◌&&◌, List, [], ◌∷◌, ◌++◌, Text, arith, lookup, number_key,
  text_key, insert, none, Once, ok, Ends, ends_ok, ends_fault, ends_out_of_fuel, Ends-then,
  Ends-fuel, Ends-if, ◌==◌, if◌then◌else◌,
}
use catfs.Stor.{Timespec}
use catfs.Meta.Heap.{
  Ptr, null, fresh_dentry, read_dentry, new_inode, new_dentry, write_inode, write_dentry,
  read_inode, now,
}
use catfs.Meta.Dentry
use catfs.Meta.Local.{
  LocalMemMeta, MetaOpt, FTreeNode, node, FTreeNodes, nil, cons, on_heap, get_dentry,
  save_dentry_index, get_next_inode_id,
}
use catfs.Meta.Local.Invariant.{lower-IsSound}
use catfs.Meta.Local.Invariant.Changes.{at-some}
use catfs.Meta.Local.Invariant.Dentries.{
  write_dentry-Ends, get_child-Ends, remove_child-Ends, update-Ends, inc_ttl-Ends, is_dir-Ends,
  child_count-Ends,
}
use catfs.Meta.Local.Invariant.Methods.{
  Sound, on_heap-Sound, read_dentry-then, read_inode-then, index_at-Sound,
}
use catfs.Meta.Local.Invariant.Creation.{create_dentry_from_obj-Sound}
use catfs.Meta.Local.Merge.Queue.{clear_unsync_dentry-Ends}
use catfs.Meta.Local.Merge.{
  new_local, mark_synced, build_node, build_loop, build_dentries, keep_child, clear_loop, clear_one,
  clear_queue, clear_unsync_dentry,
}

module _ {F : Type 0} {least : Ptr} (clock : ℕ → Timespec) where
  mark_synced-Sound :
      (p : Ptr) (s : LocalMemMeta)
      → Sound least s
      → Ends F (λ _. Sound least) (Sound least) (mark_synced clock p s)
  mark_synced-Sound p s h =
      on_heap-Sound s (write_dentry-Ends s.heap h p _ (λ d. (refl, refl, refl, refl)))

  mutual
    unfolding build_node build_loop

    build_node-Sound :
        (parent : Ptr) (n : FTreeNode) (s : LocalMemMeta)
        → Sound least s
        → Ends F (λ _. Sound least) (Sound least) (build_node clock parent n s)
    build_node-Sound parent (node name is_dir children oinfo) s h =
        Ends-then (on_heap-Sound s (get_child-Ends s.heap h parent name)) (λ found s h.
          Ends-then
            (Ends-if (found == null) _ _ _
              (read_dentry-then parent s _ (λ d e.
                read_inode-then d.inode s _
                  (λ i f. create_dentry_from_obj-Sound clock s h i.ino name oinfo is_dir)))
              (Ends-then
                (on_heap-Sound s (update-Ends s.heap h found oinfo.size oinfo.ctime oinfo.mtime))
                (λ _ s h. ends_ok h)))
            (λ child s h.
              Ends-then
                (Ends-if is_dir _ _ _
                  (Ends-then (mark_synced-Sound child s h)
                    (λ _ s h. build_loop-Sound child children s h))
                  (ends_ok h))
                (λ _ s h. mark_synced-Sound child s h)))

    build_loop-Sound :
        (parent : Ptr) (ns : FTreeNodes) (s : LocalMemMeta)
        → Sound least s
        → Ends F (λ _. Sound least) (Sound least) (build_loop clock parent ns s)
    build_loop-Sound parent nil s h = ends_ok h
    build_loop-Sound parent (cons _ child rest) s h =
        Ends-then (build_node-Sound parent child s h) (λ _ s h. build_loop-Sound parent rest s h)

  pub build_dentries-Sound :
      (pino : ℕ) (children : FTreeNodes) (s : LocalMemMeta)
      → Sound least s
      → Ends F (λ _. Sound least) (Sound least) (build_dentries clock pino children s)
  unfolding build_dentries get_dentry
  build_dentries-Sound pino children s h = Ends-then (index_at-Sound s h pino) (λ parent s h.
      let low = lower-IsSound h least (omega arith) in
      Ends-then (mark_synced-Sound parent s low) (λ _ s h. build_loop-Sound parent children s h))

  complete_if-Sound :
      (b : Bool) (p : Ptr) (s : LocalMemMeta)
      → Sound least s
      → Ends F
          (λ _. Sound least)
          (Sound least)
          ((if b then on_heap (write_dentry p Dentry.complete) else ok tt) s)
  unfolding Dentry.complete
  complete_if-Sound b p s h =
      Ends-if b _ _ _
        (on_heap-Sound s
          (write_dentry-Ends s.heap h p Dentry.complete (λ d. (refl, refl, refl, refl))))
        (ends_ok h)

  clear_loop-Sound :
      (d : Ptr) (cs : List (Text × Ptr)) (q : List Ptr) (s : LocalMemMeta)
      → Sound least s
      → Ends F (λ _. Sound least) (Sound least) (clear_loop clock d cs q s)
  unfolding clear_loop keep_child
  clear_loop-Sound d [] q s h = ends_ok h
  clear_loop-Sound d ((_, child) ∷ rest) q s h = read_dentry-then child s _ (λ c e.
      Ends-if (not c.synced) _ _ _
        (Ends-then (on_heap-Sound s (remove_child-Ends s.heap h d c.name)) (λ _ s h. ends_fault))
        (Ends-then
          (on_heap-Sound s (write_dentry-Ends s.heap h child _ (λ d. (refl, refl, refl, refl))))
          (λ _ t h. Ends-then (on_heap-Sound t (is_dir-Ends t.heap h child)) (λ dir s h.
            Ends-then (on_heap-Sound s (inc_ttl-Ends s.heap h clock child t.opt.dcache_timeout))
              (λ _ s h. Ends-then (on_heap-Sound s (child_count-Ends s.heap h child)) (λ count s h.
                Ends-then (complete_if-Sound (dir && not (count == 0)) child s h)
                  (λ _ s h. clear_loop-Sound d rest (if dir then q ++ child ∷ [] else q) s h)))))))

  clear_one-Sound :
      (p : Ptr) (q : List Ptr) (s : LocalMemMeta)
      → Sound least s
      → Ends F (λ _. Sound least) (Sound least) (clear_one clock p q s)
  unfolding clear_one
  clear_one-Sound p q s h = Ends-then (mark_synced-Sound p s h) (λ _ s h.
      Ends-then (on_heap-Sound s (inc_ttl-Ends s.heap h clock p s.opt.dcache_timeout)) (λ _ s h.
        Ends-then (on_heap-Sound s (child_count-Ends s.heap h p)) (λ count s h.
          Ends-then (complete_if-Sound (not (count == 0)) p s h)
            (λ _ s h. read_dentry-then p s _ (λ d e. clear_loop-Sound p d.children q s h)))))

module _ {least : Ptr} (clock : ℕ → Timespec) where
  clear_queue-Sound :
      (fuel : ℕ) (q : List Ptr) (s : LocalMemMeta)
      → Sound least s
      → Ends (Unit {0}) (λ _. Sound least) (Sound least) (clear_queue clock fuel q s)
  unfolding clear_queue
  clear_queue-Sound zero q s h = ends_out_of_fuel tt
  clear_queue-Sound (suc fuel) [] s h = ends_ok h
  clear_queue-Sound (suc fuel) (p ∷ q) s h =
      Ends-then (clear_one-Sound clock p q s h) (λ q' s h. clear_queue-Sound fuel q' s h)

module _ {F : Type 0} {least : Ptr} (clock : ℕ → Timespec) where
  -- With the walk over the tree that ends.
  pub clear_unsync_dentry-Sound :
      (p : Ptr) (s : LocalMemMeta)
      → Sound least s
      → Ends F (λ _. Sound least) (Sound least) (clear_unsync_dentry clock p s)
  unfolding clear_unsync_dentry
  clear_unsync_dentry-Sound p s h =
      Ends-fuel (clear_queue-Sound clock (suc (suc s.heap.next_ptr)) (p ∷ []) s h)
        (clear_unsync_dentry-Ends {Q = λ _. Unit {0}} clock p s h)

module _ {F : Type 0} (clock : ℕ → Timespec) where
  -- The constructor makes a sound tree.
  pub new_local-Sound : (opt : MetaOpt) → Ends F (λ _. Sound 0) (λ _. ⊥) (new_local clock opt)
  unfolding new_local save_dentry_index get_next_inode_id new_inode new_dentry write_inode
      read_inode read_dentry now lookup insert
  new_local-Sound opt = ends_ok (record {
    positive = omega arith;
    grown = omega arith;
    dentry_below = λ p d e. ground arith;
    parent_below = λ p d e. ground arith;
    child_below = λ p c d n e f. ground arith;
    child_once =
        λ p d. at-some (λ _. none) 2 p (fresh_dentry [] 1) d (λ d. Once d.children) tt (λ f. cc);
    child_linked = λ p c d cd n e f g. ground arith;
    index_below = λ ino p e. ground arith;
    index_true = λ ino p d i e f g. ground arith;
  })

module _ (clock : ℕ → Timespec) where
  pub new_local_returns : (opt : MetaOpt) → (t : LocalMemMeta) × (new_local clock opt ≡ ok tt t)
  unfolding new_local save_dentry_index get_next_inode_id new_inode new_dentry write_inode
      read_inode read_dentry now
  new_local_returns opt = (_, refl)
