-- ===== src/Meta/Local/Invariant/Changes.antt =====
-- src/meta/meta_local_mem.cpp and src/types/dentry.h: what the code adds to the tree and its index,
-- and takes from them, keeps them sound.
use catfs.Common.{
  ℕ, suc, ◌<◌, ◌≡◌, ◌≢◌, refl, ap, Option, none, some, [], Text, arith, text_key, lookup, insert,
  erase, Once, insert-Once, erase-Once, lookup-insert, lookup-erase, subst, sym, inl, inr,
  Bool-cases, ◌==◌, if◌then◌else◌,
}
use catfs.Meta.Heap.{Ptr, null, Inode, Dentry, Heap, fresh_dentry, at}
use catfs.Meta.Local.Invariant.{IsSound}

no_children : (name : Text) → lookup {V = Ptr} name [] ≡ none
unfolding lookup
no_children name = refl

-- What holds of the cell that is written, and of all others, holds of each.
pub at-some :
    {A : Type 0} (cells : Ptr → Option A) (p q : Ptr) (a b : A) (P : A → Type 0)
    → P a
    → (cells q ≡ some b → P b)
    → at cells p (some a) q ≡ some b
    → P b
at-some cells p q a b P written others e = elim (Bool-cases (p == q)) [
  | inl same ↦ let here : a ≡ b = ground arith in subst P here written
  | inr other ↦ others (ground arith)
]

module _ {least : Ptr} {index : ℕ → Option Ptr} {h : Heap} (sound : IsSound least index h) where
  -- A new inode with its number, which no dentry has yet.
  pub new_inode-IsSound :
      (i i' : Inode)
      → IsSound (suc h.next_ptr) index (record h {
        inodes = at (at h.inodes h.next_ptr (some i)) h.next_ptr (some i');
        next_ptr = suc h.next_ptr;
      })
  new_inode-IsSound i i' = record {
    positive = omega arith;
    grown = omega arith;
    dentry_below =
        λ p d e. let (x, y, z) = sound.dentry_below p d e in (x, omega arith, omega arith);
    parent_below = sound.parent_below;
    child_below = λ p c d n e f. let (x, y) = sound.child_below p c d n e f in (x, omega arith);
    child_once = sound.child_once;
    child_linked = sound.child_linked;
    index_below = λ ino p e. omega (arith, sound.index_below ino p e);
    index_true = λ ino p d j e at_p at_j.
        ground (arith, sound.dentry_below p d at_p, sound.index_true ino p d j e at_p);
  }

  -- A dentry that keeps its name, its links and its inode.
  pub dentry-IsSound :
      (p : Ptr) (d d' : Dentry)
      → h.dentries p ≡ some d
      → d'.name ≡ d.name
      → d'.parent ≡ d.parent
      → d'.inode ≡ d.inode
      → d'.children ≡ d.children
      → IsSound least index (record h { dentries = at h.dentries p (some d') })
  dentry-IsSound p d d' at_p name parent inode children = record {
    positive = sound.positive;
    grown = sound.grown;
    dentry_below = λ q e f. ground (arith, sound.dentry_below p d at_p, sound.dentry_below q e);
    parent_below = λ q e f. ground (arith, sound.parent_below p d at_p, sound.parent_below q e);
    child_below = λ q c e n f g.
        ground (
          arith,
          sound.child_below p c d n at_p,
          sound.child_below q c e n,
          ap (lookup n) children,
        );
    child_once = λ q e f.
        at-some h.dentries p q d' e (λ d. Once d.children)
          (subst Once (sym children) (sound.child_once p d at_p)) (sound.child_once q e) f;
    child_linked = λ q c e ce n f g k. ground (
      arith,
      sound.child_linked q c e ce n,
      sound.child_linked p c d ce n at_p,
      sound.child_linked q c e d n,
      sound.child_linked p c d d n at_p,
      ap (lookup n) children,
    );
    index_below = sound.index_below;
    index_true =
        λ ino q e j f g k. ground (arith, sound.index_true ino p d j, sound.index_true ino q e j);
  }

  -- A dentry for the inode, under a name that its parent gets for it.
  pub child-IsSound :
      (p : Ptr) (d : Dentry) (name : Text) (inode : Ptr)
      → h.dentries p ≡ some d
      → inode < h.next_ptr
      → IsSound least index (record h {
        dentries =
            at
              (at
                (at h.dentries h.next_ptr (some (fresh_dentry name inode)))
                h.next_ptr
                (some (record (fresh_dentry name inode) { parent = p })))
              p
              (some (record d { children = insert name h.next_ptr d.children }));
        next_ptr = suc h.next_ptr;
      })
  child-IsSound p d name inode at_p below = record {
    positive = omega arith;
    grown = omega (arith, sound.grown);
    dentry_below = λ q e f.
        ground (arith, sound.positive, sound.dentry_below p d at_p, sound.dentry_below q e);
    parent_below = λ q e f.
        ground
          (arith, sound.dentry_below p d at_p, sound.parent_below p d at_p, sound.parent_below q e);
    child_below = λ q c e n f g. ground (
      arith,
      sound.positive,
      sound.child_below p c d n at_p,
      sound.child_below q c e n,
      lookup-insert n name h.next_ptr d.children,
      no_children n,
    );
    child_once = λ q e.
        let once = λ (d : Dentry). Once d.children in
        let new = at h.dentries h.next_ptr (some (fresh_dentry name inode)) in
        let linked : Dentry = record (fresh_dentry name inode) { parent = p } in
        at-some (at new h.next_ptr (some linked)) p q
          (record d { children = insert name h.next_ptr d.children }) e once
          (insert-Once name h.next_ptr d.children (sound.child_once p d at_p))
          (at-some new h.next_ptr q linked e once tt (
            at-some h.dentries h.next_ptr q (fresh_dentry name inode) e once tt
              (sound.child_once q e)));
    child_linked = λ q c e ce n f g k. ground (
      arith,
      sound.positive,
      sound.dentry_below p d at_p,
      sound.dentry_below q e,
      sound.child_below p c d n at_p,
      sound.child_below q c e n,
      sound.child_linked q c e ce n,
      sound.child_linked p c d ce n at_p,
      sound.child_linked q c e d n,
      sound.child_linked p c d d n at_p,
      lookup-insert n name h.next_ptr d.children,
      no_children n,
    );
    index_below = λ ino q e. omega (arith, sound.index_below ino q e);
    index_true = λ ino q e j f g k.
        ground (
          arith,
          sound.index_below ino q f,
          sound.index_true ino p d j,
          sound.index_true ino q e j,
        );
  }

  -- Without the child and its inode.
  pub erase-IsSound :
      (p c : Ptr) (d cd : Dentry) (name : Text)
      → h.dentries p ≡ some d
      → h.dentries c ≡ some cd
      → c ≢ p
      → IsSound least index (record h {
        inodes = at h.inodes cd.inode none;
        dentries =
            at (at h.dentries c none) p (some (record d { children = erase name d.children }));
      })
  erase-IsSound p c d cd name at_p at_c other = record {
    positive = sound.positive;
    grown = sound.grown;
    dentry_below = λ q e f. ground (arith, sound.dentry_below p d at_p, sound.dentry_below q e);
    parent_below = λ q e f. ground (arith, sound.parent_below p d at_p, sound.parent_below q e);
    child_below = λ q k e n f g. ground (
      arith,
      sound.child_below p k d n at_p,
      sound.child_below q k e n,
      lookup-erase n name d.children,
    );
    child_once = λ q e.
        at-some (at h.dentries c none) p q (record d { children = erase name d.children }) e
          (λ d. Once d.children) (erase-Once name d.children (sound.child_once p d at_p))
          (λ f. sound.child_once q e (ground arith));
    child_linked = λ q k e ke n f g l. ground (
      arith,
      sound.child_linked q k e ke n,
      sound.child_linked p k d ke n at_p,
      sound.child_linked q k e d n,
      sound.child_linked p k d d n at_p,
      lookup-erase n name d.children,
    );
    index_below = sound.index_below;
    index_true =
        λ ino q e j f g k. ground (arith, sound.index_true ino p d j, sound.index_true ino q e j);
  }

  pub save-IsSound :
      (p : Ptr) (d : Dentry) (i : Inode)
      → h.dentries p ≡ some d
      → h.inodes d.inode ≡ some i
      → IsSound least (λ j. if i.ino == j then some p else index j) h
  save-IsSound p d i at_p at_i = record {
    positive = sound.positive;
    grown = sound.grown;
    dentry_below = sound.dentry_below;
    parent_below = sound.parent_below;
    child_below = sound.child_below;
    child_once = sound.child_once;
    child_linked = sound.child_linked;
    index_below = λ ino q e. ground (arith, sound.dentry_below p d at_p, sound.index_below ino q);
    index_true = λ ino q e j f g k. ground (arith, sound.index_true ino q e j);
  }

  -- No dentry, or the null pointer, for a number.
  pub unindexed-IsSound :
      (ino : ℕ) (o : Option Ptr)
      → ((p : Ptr) → o ≡ some p → p ≡ null)
      → IsSound least (λ j. if ino == j then o else index j) h
  unindexed-IsSound ino o is_null = record {
    positive = sound.positive;
    grown = sound.grown;
    dentry_below = sound.dentry_below;
    parent_below = sound.parent_below;
    child_below = sound.child_below;
    child_once = sound.child_once;
    child_linked = sound.child_linked;
    index_below = λ k q e. ground (arith, sound.positive, is_null q, sound.index_below k q);
    index_true = λ k q e j f g l.
        ground (arith, is_null q, sound.dentry_below q e, sound.index_true k q e j);
  }
