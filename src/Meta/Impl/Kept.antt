-- ===== src/Meta/Impl/Kept.antt =====
-- src/meta/meta_impl.cpp: the metadata operations keep the tree and its index sound, whatever the
-- backend answers.
pub mod Finding
pub mod Listing
use catfs.Common.{
  ℕ, zero, suc, ◌≡◌, out_of_fuel, ◌≤◌, Bool, false, not, ◌&&◌, List, [], ◌∷◌, ◌++◌, Text, arith,
  bytes, Run, zoom_back, Ends, ends_ok, ends_throw, ends_out_of_fuel, Keeps, Ends-map, Ends-then,
  Ends-if, Ends-back, any_end, ◌==◌, ltb, length,
}
use catfs.Stor.{Stor, Timespec, ObjInfo, ListObjectsResp}
use catfs.Meta.Heap
use catfs.Meta.Heap.{Ptr, null, Dirent, read_dentry, read_inode}
use catfs.Meta.Dentry
use catfs.Meta.Dentry.{s_ifdir}
use catfs.Meta.Local
use catfs.Meta.Local.{LocalMemMeta, FTreeNodes, on_heap}
use catfs.Meta.Local.Index.{indexed}
use catfs.Meta.Local.Invariant.{IsSound, lower-IsSound}
use catfs.Meta.Local.Invariant.Dentries.{
  read_dentry-Ends, read_inode-Ends, is_dir-Ends, is_root-Ends, child_count-Ends, inc_ttl-Ends,
  is_expired-Ends, get_full_path-Ends, get_full_path_with_slash-Ends, children_list-Ends,
}
use catfs.Meta.Local.Invariant.Methods.{
  Sound, on_heap-Sound, index_at-Sound, get_inode-Sound, update_inode-Sound, find_dentry-Sound,
  remove_dentry-Sound, create_dentry-Sound,
}
use catfs.Meta.Local.Invariant.Creation.{create_new_inode-Sound, create_dentry_from_obj-Sound}
use catfs.Meta.Local.Merge.Kept.{build_dentries-Sound, clear_unsync_dentry-Sound}
use catfs.Meta.Impl.{
  on_local, MetaImpl, substr, dirs_loop, files_loop, build_ftree_from_listobjects, get_inode,
  get_dentry, get_remote_obj, is_remote_dir_exist, find_remote, refresh_dentry, find_dentry,
  new_key, create_dentry, remove_dentry, refresh_loop, refresh_sub_dentries, load_sub_dentries,
  update_inode_size,
}

-- The tree of the metadata is sound.
abbrev pub Tree : {W : Type 0} → Ptr → MetaImpl W → Type 0
Tree least s = Sound least s.local

module _ {F : Type 0} {W A : Type 0} where
  pub on_local-Ends :
      {P : A → LocalMemMeta → Type 0} {Q : LocalMemMeta → Type 0} (s : MetaImpl W)
      {r : Run LocalMemMeta A}
      → Ends F P Q r
      → Ends F
          (λ a s. P a s.local)
          (λ s. Q s.local)
          (zoom_back (λ s. s.local) (λ t s. record s { local = t }) s r)
  on_local-Ends s h = Ends-back (λ s. s.local) (λ t s. record s { local = t }) s h

  -- With what holds of the backend, which is not touched.
  pub on_local-beside :
      {P : A → LocalMemMeta → Type 0} {Q : LocalMemMeta → Type 0} (R : W → Type 0) (s : MetaImpl W)
      {r : Run LocalMemMeta A}
      → R s.backend
      → Ends F P Q r
      → Ends F
          (λ a s. P a s.local × R s.backend)
          (λ s. Q s.local)
          (zoom_back (λ s. s.local) (λ t s. record s { local = t }) s r)
  on_local-beside R s kept h =
      Ends-back (λ s. s.local) (λ t s. record s { local = t }) s
        (Ends-map h (λ a t p. (p, kept)) (λ t q. q))

  -- A method of Dentry.
  pub on_dentry-Tree :
      {least : Ptr} (s : MetaImpl W) {r : Run Heap.Heap A}
      → Ends F (λ _. IsSound least (indexed s.local)) (IsSound least (indexed s.local)) r
      → Ends F
          (λ _. Tree least)
          (Tree least)
          (zoom_back
            (λ s. s.local)
            (λ t s. record s { local = t })
            s
            (zoom_back (λ s. s.heap) (λ h s. record s { heap = h }) s.local r))
  on_dentry-Tree s h = on_local-Ends s (on_heap-Sound s.local h)

  pub lower-Tree :
      {least : Ptr} {r : Run (MetaImpl W) A} (n : Ptr)
      → n ≤ least
      → Ends F (λ _. Tree least) (Tree least) r
      → Ends F (λ _. Tree n) (Tree n) r
  lower-Tree n le h = Ends-map h (λ _ s k. lower-IsSound k n le) (λ s k. lower-IsSound k n le)

  pub on_backend-Tree :
      {least : Ptr} (s : MetaImpl W) (r : Run W A)
      → (r ≡ out_of_fuel → F)
      → Tree least s
      → Ends F
          (λ _. Tree least)
          (Tree least)
          (zoom_back (λ s. s.backend) (λ t s. record s { backend = t }) s r)
  on_backend-Tree s r ends h =
      any_end (λ s. s.backend) (λ t s. record s { backend = t }) s r ends (λ a t e. h) (λ t. h)

module _ {F : Type 0} (stor : Stor) (clock : ℕ → Timespec) (junk : ObjInfo) (least : Ptr) where
  -- The dentry of an inode number, asked of the tree.
  pub the_dentry-Tree :
      (ino : ℕ) → Keeps F (Tree least) (on_local {W = stor.State} (Local.get_dentry ino))
  unfolding Local.get_dentry
  the_dentry-Tree ino s h =
      Ends-map (on_local-Ends s (index_at-Sound s.local h ino))
        (λ p s k. lower-IsSound k least (omega arith)) (λ s k. k)

  pub get_inode-Tree : (ino : ℕ) → Keeps F (Tree least) (get_inode stor clock junk ino)
  unfolding get_inode
  get_inode-Tree ino s h = on_local-Ends s (get_inode-Sound s.local h ino)

  pub get_dentry-Tree : (ino : ℕ) → Keeps F (Tree least) (get_dentry stor clock junk ino)
  unfolding get_dentry
  get_dentry-Tree ino s h = the_dentry-Tree ino s h

  pub update_inode_size-Tree :
      (ino size : ℕ) → Keeps F (Tree least) (update_inode_size stor clock junk ino size)
  unfolding update_inode_size
  update_inode_size-Tree ino size s h =
      Ends-then (on_local-Ends s (update_inode-Sound s.local h ino _)) (λ _ s h. ends_ok h)
