-- ===== src/Meta/Local/Invariant/Paths.antt =====
-- src/types/dentry.h: on a sound tree the walk up from a dentry ends.
use catfs.Common.{
  ℕ, Bool, zero, suc, ◌<◌, ◌≡◌, Option, some, Text, arith, Cmd, Finishes, finishes_ok,
  finishes_fault, Finishes-if, Option-cases, inl, inr, and_then, ◌==◌,
}
use catfs.Meta.Heap.{Ptr, null, root_inode_id, Inode, Dentry, Heap, read_dentry, read_inode}
use catfs.Meta.Dentry
use catfs.Meta.Local.Invariant.{IsSound}

module _ {B : Type 0} (p : Ptr) (h : Heap) where
  read_dentry-Finishes :
      (k : Dentry → Cmd Heap B)
      → ((d : Dentry) → h.dentries p ≡ some d → Finishes (k d h))
      → Finishes (and_then (read_dentry p h) k)
  unfolding read_dentry
  read_dentry-Finishes k next = elim (Option-cases (h.dentries p)) [
    | inl e ↦ rw e finishes_fault
    | inr (d, e) ↦ rw e (next d e)
  ]

  read_inode-Finishes :
      (k : Inode → Cmd Heap B)
      → ((i : Inode) → Finishes (k i h))
      → Finishes (and_then (read_inode p h) k)
  unfolding read_inode
  read_inode-Finishes k next = elim (Option-cases (h.inodes p)) [
    | inl e ↦ rw e finishes_fault
    | inr (i, e) ↦ rw e (next i)
  ]

  is_root-Finishes :
      (k : Bool → Cmd Heap B)
      → ((top : Bool) → Finishes (k top h))
      → Finishes (and_then (Dentry.is_root p h) k)
  unfolding Dentry.is_root read_dentry read_inode
  is_root-Finishes k next = elim (Option-cases (h.dentries p)) [
    | inl e ↦ rw e finishes_fault
    | inr (d, e) ↦ elim (Option-cases (h.inodes d.inode)) [
      | inl f ↦ rw (e, f) finishes_fault
      | inr (i, f) ↦ rw (e, f) (next (i.ino == root_inode_id))
    ]
  ]

module _ {least : Ptr} {index : ℕ → Option Ptr} (h : Heap) (sound : IsSound least index h) where
  path_loop-Finishes :
      (fuel : ℕ) (p : Ptr) (path : Text) → p < fuel → Finishes (Dentry.path_loop fuel p path h)
  unfolding Dentry.path_loop
  path_loop-Finishes zero p path below = absurd (omega arith)
  path_loop-Finishes (suc fuel) p path below = Finishes-if (p == null) _ _ h finishes_ok (
      is_root-Finishes p h _ (λ top. Finishes-if top _ _ h finishes_ok (
        read_dentry-Finishes p h _ (λ d at_p.
          path_loop-Finishes fuel d.parent _ (omega (arith, sound.parent_below p d at_p))))))

  pub get_full_path-Finishes : (p : Ptr) → Finishes (Dentry.get_full_path p h)
  unfolding Dentry.get_full_path
  get_full_path-Finishes p = is_root-Finishes p h _ (λ top. Finishes-if top _ _ h finishes_ok (
      read_dentry-Finishes p h _ (λ d at_p.
        path_loop-Finishes (suc h.next_ptr) d.parent d.name
          (omega (arith, sound.parent_below p d at_p, sound.dentry_below p d at_p)))))
