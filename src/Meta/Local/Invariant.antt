-- ===== src/Meta/Local/Invariant.antt =====
-- src/meta/meta_local_mem.cpp and src/types/dentry.h: what holds of the tree and its index between
-- any two operations, and that the changes of the heap which the code makes keep it.
pub mod Changes
pub mod Creation
pub mod Dentries
pub mod Methods
pub mod Paths
use catfs.Common.{
  ℕ, zero, suc, ◌+◌, ◌≤◌, ◌<◌, ◌≡◌, ◌≢◌, refl, sym, ap, ◌∙◌, Option, none, some, List, [], ◌∷◌,
  Text, arith, text_key, Once, lookup, insert, erase, lookup-insert, lookup-erase, text_discrete,
  ◌==◌, if◌then◌else◌,
}
use catfs.Meta.Heap.{Ptr, null, Inode, Dentry, Heap, fresh_dentry, at}

-- Addresses are given out from 1 to `next_ptr`, at least up to `least`. The parent of a live dentry
-- has an earlier address, so that no chain of parents has a cycle. A live child of a live
-- dentry has the name that it is found by, and that dentry as parent, and no name stands twice among
-- the children. What the index has for an
-- inode number, while it is live, is a dentry whose inode has this number.
pub record IsSound (least : Ptr) (index : ℕ → Option Ptr) (h : Heap) : Type 0 where
  pub positive : 0 < h.next_ptr
  pub grown : least ≤ h.next_ptr
  pub dentry_below :
      (p : Ptr) (d : Dentry)
      → h.dentries p ≡ some d
      → (0 < p) × (p < h.next_ptr) × (d.inode < h.next_ptr)
  pub parent_below : (p : Ptr) (d : Dentry) → h.dentries p ≡ some d → d.parent < p
  pub child_below :
      (p c : Ptr) (d : Dentry) (name : Text)
      → h.dentries p ≡ some d
      → lookup name d.children ≡ some c
      → (0 < c) × (c < h.next_ptr)
  pub child_once : (p : Ptr) (d : Dentry) → h.dentries p ≡ some d → Once d.children
  pub child_linked :
      (p c : Ptr) (d cd : Dentry) (name : Text)
      → h.dentries p ≡ some d
      → lookup name d.children ≡ some c
      → h.dentries c ≡ some cd
      → (cd.name ≡ name) × (cd.parent ≡ p)
  pub index_below : (ino : ℕ) (p : Ptr) → index ino ≡ some p → p < h.next_ptr
  pub index_true :
      (ino : ℕ) (p : Ptr) (d : Dentry) (i : Inode)
      → index ino ≡ some p
      → h.dentries p ≡ some d
      → h.inodes d.inode ≡ some i
      → i.ino ≡ ino

module _ {least : Ptr} {index : ℕ → Option Ptr} {h : Heap} (sound : IsSound least index h) where
  pub grown-IsSound : (n : Ptr) → n ≤ h.next_ptr → IsSound n index h
  grown-IsSound n le = record {
    positive = sound.positive;
    grown = le;
    dentry_below = sound.dentry_below;
    parent_below = sound.parent_below;
    child_below = sound.child_below;
    child_once = sound.child_once;
    child_linked = sound.child_linked;
    index_below = sound.index_below;
    index_true = sound.index_true;
  }

  pub clock-IsSound : (n : ℕ) → IsSound least index (record h { clock_reads = n })
  clock-IsSound n = record {
    positive = sound.positive;
    grown = sound.grown;
    dentry_below = sound.dentry_below;
    parent_below = sound.parent_below;
    child_below = sound.child_below;
    child_once = sound.child_once;
    child_linked = sound.child_linked;
    index_below = sound.index_below;
    index_true = sound.index_true;
  }

  -- An inode that keeps its number.
  pub inode-IsSound :
      (p : Ptr) (i i' : Inode)
      → h.inodes p ≡ some i
      → i'.ino ≡ i.ino
      → IsSound least index (record h { inodes = at h.inodes p (some i') })
  inode-IsSound p i i' at_p same = record {
    positive = sound.positive;
    grown = sound.grown;
    dentry_below = sound.dentry_below;
    parent_below = sound.parent_below;
    child_below = sound.child_below;
    child_once = sound.child_once;
    child_linked = sound.child_linked;
    index_below = sound.index_below;
    index_true = λ ino q d j e at_q at_j.
        ground (arith, sound.index_true ino q d i e at_q, sound.index_true ino q d j e at_q);
  }

  pub lower-IsSound : (n : Ptr) → n ≤ least → IsSound n index h
  lower-IsSound n le = grown-IsSound n (omega (arith, sound.grown))

  pub same_index-IsSound :
      {index' : ℕ → Option Ptr} → ((ino : ℕ) → index ino ≡ index' ino) → IsSound least index' h
  same_index-IsSound same = record {
    positive = sound.positive;
    grown = sound.grown;
    dentry_below = sound.dentry_below;
    parent_below = sound.parent_below;
    child_below = sound.child_below;
    child_once = sound.child_once;
    child_linked = sound.child_linked;
    index_below = λ ino p e. sound.index_below ino p (same ino ∙ e);
    index_true = λ ino p d i e f g. sound.index_true ino p d i (same ino ∙ e) f g;
  }
