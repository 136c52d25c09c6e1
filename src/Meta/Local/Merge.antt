-- ===== src/Meta/Local/Merge.antt =====
-- src/meta/meta_local_mem.cpp, the other half: the constructor, and how a listing is merged into
-- the tree and what it does not name is dropped.
pub mod Clear
pub mod Kept
mod Queue
mod Walk
pub mod Sample
use Prim.Native.Nat.{bit_or}
use catfs.Common.{
  ℕ, zero, suc, true, false, not, ◌&&◌, none, List, [], ◌∷◌, ◌++◌, Text, Cmd, Run, fault,
  out_of_fuel, pure, reads, modify, ◌>>=◌, ◌>>◌, ◌==◌, if◌then◌else◌,
}
use catfs.Stor.{Timespec}
use catfs.Meta.Heap.{
  Ptr, null, root_inode_id, Heap, fresh_dentry, fresh_inode, read_dentry, read_inode, write_dentry,
  write_inode, new_dentry, new_inode, now,
}
use catfs.Meta.Dentry
use catfs.Meta.Dentry.{s_ifdir}
use catfs.Meta.Local.{
  FTreeNode, node, FTreeNodes, nil, cons, MetaOpt, LocalMemMeta, on_heap, save_dentry_index,
  get_next_inode_id, get_dentry, create_dentry_from_obj,
}

abbrev empty_heap : Heap
empty_heap = record { dentries = λ _. none; inodes = λ _. none; next_ptr = 1; clock_reads = 0 }

module _ (clock : ℕ → Timespec) where
  -- The constructor. It takes the root's gid from the uid of the options, as the source does.
  pub new_local : MetaOpt → Run LocalMemMeta (Unit {0})
  new_local opt =
      (do
        p ← on_heap (new_inode fresh_inode)
        ino ← get_next_inode_id
        on_heap (
            write_inode p (λ i. record i {
              ino = ino;
              mode = bit_or s_ifdir 0o766;
              uid = opt.uid;
              gid = opt.uid;
            }))
        ts ← on_heap (now clock)
        on_heap (write_inode p (λ i. record i { ctime = ts; mtime = ts }))
        root ← on_heap (new_dentry (fresh_dentry [] p))
        modify (λ s. record s { root_dentry = root })
        save_dentry_index root)
        (record {
          opt = opt;
          next_inode_id = root_inode_id;
          root_dentry = null;
          dentry_index = λ _. [];
          heap = empty_heap;
        })

  abbrev mark_synced : Ptr → Cmd LocalMemMeta (Unit {0})
  mark_synced p = on_heap (write_dentry p (λ d. record d { synced = true }))

  -- The loop of the local function `build`, and its body for one node.
  mutual
    unfolding create_dentry_from_obj

    pub build_node : Ptr → FTreeNode → Cmd LocalMemMeta (Unit {0})
    build_node parent (node name is_dir children oinfo) = do
      found ← on_heap (Dentry.get_child parent name)
      child ←
          (if found == null
            then (do
              d ← on_heap (read_dentry parent)
              i ← on_heap (read_inode d.inode)
              create_dentry_from_obj clock i.ino name oinfo is_dir)
            else (do on_heap (Dentry.update found oinfo.size oinfo.ctime oinfo.mtime); pure found))
      (if is_dir then mark_synced child >> build_loop child children else pure tt)
      mark_synced child

    pub build_loop : Ptr → FTreeNodes → Cmd LocalMemMeta (Unit {0})
    build_loop parent nil = pure tt
    build_loop parent (cons _ child rest) = do build_node parent child; build_loop parent rest

  pub build_dentries : (pino : ℕ) → FTreeNodes → Cmd LocalMemMeta (Unit {0})
  unfolding build_loop get_dentry
  build_dentries pino children = do
    parent ← get_dentry pino
    mark_synced parent
    build_loop parent children

  -- A child that was seen is unmarked and kept; `rest` is the loop on the children after it.
  pub keep_child :
      (child : Ptr)
      → List Ptr
      → (List Ptr → Cmd LocalMemMeta (List Ptr))
      → Cmd LocalMemMeta (List Ptr)
  keep_child child q rest = do
    on_heap (write_dentry child (λ c. record c { synced = false }))
    opt ← reads (λ s. s.opt)
    dir ← on_heap (Dentry.is_dir child)
    on_heap (Dentry.inc_ttl clock child opt.dcache_timeout)
    count ← on_heap (Dentry.child_count child)
    (if dir && not (count == 0) then on_heap (write_dentry child Dentry.complete) else pure tt)
    rest (if dir then q ++ child ∷ [] else q)

  -- The loop over the children of `d`, which collects the directories that are pushed. Removing a
  -- child invalidates the iterator, and the loop then advances it.
  pub clear_loop : (d : Ptr) → List (Text × Ptr) → List Ptr → Cmd LocalMemMeta (List Ptr)
  unfolding keep_child
  clear_loop d [] q = pure q
  clear_loop d ((_, child) ∷ rest) q = do
    c ← on_heap (read_dentry child)
    if not c.synced
        then (do on_heap (Dentry.remove_child d c.name); λ s. fault)
        else keep_child child q (clear_loop d rest)

  -- One dentry taken from the queue.
  pub clear_one : Ptr → List Ptr → Cmd LocalMemMeta (List Ptr)
  unfolding clear_loop
  clear_one p q = do
    mark_synced p
    opt ← reads (λ s. s.opt)
    on_heap (Dentry.inc_ttl clock p opt.dcache_timeout)
    count ← on_heap (Dentry.child_count p)
    (if not (count == 0) then on_heap (write_dentry p Dentry.complete) else pure tt)
    d ← on_heap (read_dentry p)
    clear_loop p d.children q

  pub clear_queue : ℕ → List Ptr → Cmd LocalMemMeta (Unit {0})
  unfolding clear_one
  clear_queue zero q = λ s. out_of_fuel
  clear_queue (suc fuel) [] = pure tt
  clear_queue (suc fuel) (p ∷ q) = do q' ← clear_one p q; clear_queue fuel q'

  -- In a tree each dentry is queued once, so the addresses given out bound the rounds.
  pub clear_unsync_dentry : Ptr → Cmd LocalMemMeta (Unit {0})
  unfolding clear_queue
  clear_unsync_dentry parent = do
    fuel ← reads (λ s. s.heap.next_ptr)
    clear_queue (suc (suc fuel)) (parent ∷ [])
