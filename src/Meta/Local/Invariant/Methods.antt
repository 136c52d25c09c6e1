-- ===== src/Meta/Local/Invariant/Methods.antt =====
-- src/meta/meta_local_mem.cpp: the methods keep the tree and its index sound.
use Prim.Native.Nat.{max}
use catfs.Common.{
  ℕ, suc, ◌%◌, ◌≤◌, ◌<◌, ◌≡◌, refl, ◌∙◌, Option, none, some, Text, arith, text_key, number_key,
  insert, lookup-insert, lookup-erase, Cmd, Run, ok, Ends, Ends-as, ends_ok, ends_fault, ends_throw,
  Ends-then, Ends-map, Ends-if, Ends-back, zoom_back, Option-cases, inl, inr, and_then, pure, ◌>>=◌,
  ◌==◌,
}
use catfs.Meta.Heap.{Ptr, null, Inode, Dentry, Heap, read_dentry, read_inode}
use catfs.Meta.Local.{
  LocalMemMeta, InodeUpdateAttr, on_heap, lock_count, index_at, set_segment, save_dentry_index,
  the_parent, get_dentry, get_inode, add_child_for_dentry, create_dentry, find_dentry,
  remove_dentry, rename, remove_inode, update_inode, updated, set_if,
}
use catfs.Meta.Local.Index.{indexed, index_at-some}
use catfs.Meta.Local.Invariant.{IsSound, grown-IsSound, lower-IsSound, same_index-IsSound}
use catfs.Meta.Local.Invariant.Changes.{save-IsSound, unindexed-IsSound}
use catfs.Meta.Local.Invariant.Dentries.{
  get_child-Ends, add_child-Ends, remove_child-Ends, write_inode-Ends,
}

-- The tree in memory is sound, with at least `least` addresses given out.
abbrev pub Sound : Ptr → LocalMemMeta → Type 0
Sound least s = IsSound least (indexed s) s.heap

module _ {F : Type 0} {A : Type 0} {least : Ptr} where
  pub on_heap-Sound :
      (s : LocalMemMeta) {r : Run Heap A}
      → Ends F (λ _. IsSound least (indexed s)) (IsSound least (indexed s)) r
      → Ends F
          (λ _. Sound least)
          (Sound least)
          (zoom_back (λ s. s.heap) (λ h s. record s { heap = h }) s r)
  on_heap-Sound s h = Ends-back (λ s. s.heap) (λ h s. record s { heap = h }) s h

module _ {F : Type 0} {A : Type 0} {least : Ptr} where
  pub lower-Ends :
      {r : Run LocalMemMeta A} (n : Ptr)
      → n ≤ least
      → Ends F (λ _. Sound least) (Sound least) r
      → Ends F (λ _. Sound n) (Sound n) r
  lower-Ends n le h = Ends-map h (λ _ s k. lower-IsSound k n le) (λ s k. lower-IsSound k n le)

module _ {F : Type 0} {B : Type 0} {P : B → LocalMemMeta → Type 0} {Q : LocalMemMeta → Type 0}
    (p : Ptr) (s : LocalMemMeta) (k : Dentry → Cmd LocalMemMeta B) where
  pub read_dentry-then :
      ((d : Dentry) → s.heap.dentries p ≡ some d → Ends F P Q (k d s))
      → Ends F P Q (and_then (on_heap (read_dentry p) s) k)
  unfolding read_dentry
  read_dentry-then next = elim (Option-cases (s.heap.dentries p)) [
    | inl e ↦ rw e ends_fault
    | inr (d, e) ↦ rw e (next d e)
  ]

module _ {F : Type 0} {B : Type 0} {P : B → LocalMemMeta → Type 0} {Q : LocalMemMeta → Type 0}
    (p : Ptr) (s : LocalMemMeta) (k : Inode → Cmd LocalMemMeta B) where
  pub read_inode-then :
      ((i : Inode) → s.heap.inodes p ≡ some i → Ends F P Q (k i s))
      → Ends F P Q (and_then (on_heap (read_inode p) s) k)
  unfolding read_inode
  read_inode-then next = elim (Option-cases (s.heap.inodes p)) [
    | inl e ↦ rw e ends_fault
    | inr (i, e) ↦ rw e (next i e)
  ]

module _ {F : Type 0} {least : Ptr} (s : LocalMemMeta) (sound : Sound least s) where
  -- What the index answers is null, or the address of a dentry that was saved.
  pub index_at-Sound :
      (ino : ℕ) → Ends F (λ p. Sound (max least (suc p))) (Sound least) (index_at ino s)
  unfolding index_at
  index_at-Sound ino = elim (Option-cases (indexed s ino)) [
    | inl e ↦
        let seg = s.dentry_index (ino % lock_count) in
        let s' : LocalMemMeta = record s {
          dentry_index = set_segment s.dentry_index (ino % lock_count) (insert ino null seg);
        } in
        let run : index_at ino s ≡ ok null s' = ground arith in
        Ends-as run (
          ends_ok (
            grown-IsSound
              (same_index-IsSound (unindexed-IsSound sound ino (some null) (λ p e. ground arith))
                (λ j. ground (arith, lookup-insert j ino null seg)))
              (max least 1) (omega (arith, sound.positive, sound.grown))))
    | inr (p, e) ↦ Ends-as (index_at-some s ino p e) (
        ends_ok (
          grown-IsSound sound (max least (suc p))
            (omega (arith, sound.grown, sound.index_below ino p e))))
  ]

  pub save_dentry_index-Sound :
      (p : Ptr) → Ends F (λ _. Sound least) (Sound least) (save_dentry_index p s)
  unfolding save_dentry_index
  save_dentry_index-Sound p = read_dentry-then p s _ (λ d e. read_inode-then d.inode s _ (λ i f.
      ends_ok (
        same_index-IsSound (save-IsSound sound p d i e f)
          (λ j. ground (arith, lookup-insert j i.ino p (s.dentry_index (i.ino % lock_count)))))))

  pub remove_inode-Sound : (ino : ℕ) → Ends F (λ _. Sound least) (Sound least) (remove_inode ino s)
  unfolding remove_inode
  remove_inode-Sound ino = ends_ok (
      same_index-IsSound (unindexed-IsSound sound ino none (λ p e. cc))
        (λ j. ground (arith, lookup-erase j ino (s.dentry_index (ino % lock_count)))))

  pub the_parent-Sound :
      (pino : ℕ) → Ends F (λ p. Sound (max least (suc p))) (Sound least) (the_parent pino s)
  unfolding get_dentry
  the_parent-Sound pino = Ends-then (index_at-Sound pino) (λ p s h.
      Ends-if (p == null) _ _ _ (ends_throw (lower-IsSound h least (omega arith))) (ends_ok h))

  pub get_inode-Sound : (ino : ℕ) → Ends F (λ _. Sound least) (Sound least) (get_inode ino s)
  unfolding get_inode
  get_inode-Sound ino = Ends-then (index_at-Sound ino) (λ p s h.
      let low = lower-IsSound h least (omega arith) in
      Ends-if (p == null) _ _ _ (ends_ok low) (read_dentry-then p s _ (λ d e. ends_ok low)))

set_if_number :
    (o : Option ℕ) (f : ℕ → Inode → Inode) (i : Inode)
    → ((v : ℕ) → (f v i).ino ≡ i.ino)
    → (set_if o f i).ino ≡ i.ino
set_if_number none f i same = refl
set_if_number (some v) f i same = same v

updated_number : (u : InodeUpdateAttr) (i : Inode) → (updated u i).ino ≡ i.ino
unfolding updated
updated_number u i =
    set_if_number u.gid _ _ (λ v. refl)
    ∙ set_if_number u.uid _ _ (λ v. refl)
    ∙ set_if_number u.mode _ _ (λ v. refl)
    ∙ set_if_number u.size _ i (λ v. refl)

module _ {F : Type 0} {least : Ptr} (s : LocalMemMeta) (sound : Sound least s) where
  pub update_inode-Sound :
      (ino : ℕ) (u : InodeUpdateAttr)
      → Ends F (λ _. Sound least) (Sound least) (update_inode ino u s)
  unfolding update_inode updated
  update_inode-Sound ino u = Ends-then (get_inode-Sound s sound ino) (λ p s h.
      Ends-if (p == null) _ _ _ (ends_throw h) (
        Ends-then (on_heap-Sound s (write_inode-Ends s.heap h p (updated u) (updated_number u)))
          (λ _ s h. ends_ok h)))

  pub find_dentry-Sound :
      (pino : ℕ) (name : Text) → Ends F (λ _. Sound least) (Sound least) (find_dentry pino name s)
  unfolding find_dentry
  find_dentry-Sound pino name = Ends-then (the_parent-Sound s sound pino) (λ p s h.
      on_heap-Sound s (get_child-Ends s.heap (lower-IsSound h least (omega arith)) p name))

  pub remove_dentry-Sound :
      (pino : ℕ) (name : Text) → Ends F (λ _. Sound least) (Sound least) (remove_dentry pino name s)
  unfolding remove_dentry
  remove_dentry-Sound pino name = Ends-then (the_parent-Sound s sound pino) (λ p s h.
      on_heap-Sound s (remove_child-Ends s.heap (lower-IsSound h least (omega arith)) p name))

  pub add_child_for_dentry-Sound :
      (parent : Ptr) (name : Text) (inode : Ptr)
      → parent < least
      → inode < least
      → Ends F (λ _. Sound least) (Sound least) (add_child_for_dentry parent name inode s)
  unfolding add_child_for_dentry
  add_child_for_dentry-Sound parent name inode p i =
      Ends-then
        (on_heap-Sound s (
          add_child-Ends s.heap sound parent name inode (omega (arith, sound.grown))
            (omega (arith, sound.grown))))
        (λ c s h. Ends-then (save_dentry_index-Sound s h c) (λ _ s h. ends_ok h))

module _ {F : Type 0} {least : Ptr} where
  -- The source is freed by now, but if it is read, what is read has an inode that was given out.
  rename_end-Sound :
      (c dst : Ptr) (name : Text) (s : LocalMemMeta)
      → Sound least s
      → dst < least
      → Ends F
          (λ _. Sound least)
          (Sound least)
          ((do d ← on_heap (read_dentry c); _ ← add_child_for_dentry dst name d.inode; pure tt) s)
  rename_end-Sound c dst name s h below = read_dentry-then c s _ (λ d e.
      let k = max least (suc d.inode) in
      let h' = grown-IsSound h k (omega (arith, h.grown, h.dentry_below c d e)) in
      lower-Ends least (omega arith) (
        Ends-then (add_child_for_dentry-Sound s h' dst name d.inode (omega arith) (omega arith))
          (λ _ s h. ends_ok h)))

module _ {F : Type 0} {least : Ptr} (s : LocalMemMeta) (sound : Sound least s) where
  pub create_dentry-Sound :
      (pino : ℕ) (name : Text) (inode : Ptr)
      → inode < least
      → Ends F (λ _. Sound least) (Sound least) (create_dentry pino name inode s)
  unfolding create_dentry
  create_dentry-Sound pino name inode i = Ends-then (the_parent-Sound s sound pino) (λ p s h.
      lower-Ends least (omega arith)
        (add_child_for_dentry-Sound s h p name inode (omega arith) (omega arith)))

  pub rename-Sound :
      (src_pino : ℕ) (src_name : Text) (dst_pino : ℕ) (dst_name : Text)
      → Ends F (λ _. Sound least) (Sound least) (rename src_pino src_name dst_pino dst_name s)
  unfolding rename
  rename-Sound src_pino src_name dst_pino dst_name =
      Ends-then (the_parent-Sound s sound src_pino) (λ src s h.
        Ends-then (the_parent-Sound s (lower-IsSound h least (omega arith)) dst_pino) (λ dst s h.
          lower-Ends least (omega arith) (
            Ends-then (on_heap-Sound s (get_child-Ends s.heap h src src_name)) (λ c s h.
              Ends-if (c == null) _ _ _ (ends_ok h) (
                Ends-then (on_heap-Sound s (remove_child-Ends s.heap h src src_name))
                  (λ _ s h. rename_end-Sound c dst dst_name s h (omega arith)))))))
