-- ===== src/Meta/Impl/Kept/Listing.antt =====
-- src/meta/meta_impl.cpp: listing a directory keeps the tree and its index sound.
use catfs.Common.{
  ℕ, zero, suc, not, List, [], ◌∷◌, Text, Ends, ends_ok, ends_throw, ends_out_of_fuel, Ends-then,
  Ends-if, Ends-map, inl, inr, arith, any_end, true, ◌≡◌, Bool-cases, ◌==◌, ltb, length,
}
use catfs.Stor.{Stor, Timespec, ObjInfo, ListObjectsResp, empty_listing}
use catfs.Stor.Ending.{IsEnding, Pages, Listed, page_of}
use catfs.Meta.Heap.{Ptr, null, Dirent}
use catfs.Meta.Dentry
use catfs.Meta.Dentry.{s_ifdir}
use catfs.Meta.Local
use catfs.Meta.Local.{FTreeNodes}
use catfs.Meta.Local.Invariant.{lower-IsSound}
use catfs.Meta.Local.Invariant.Methods.{on_heap-Sound, index_at-Sound}
use catfs.Meta.Local.Invariant.Dentries.{
  read_dentry-Ends, read_inode-Ends, is_expired-Ends, get_full_path_with_slash-Ends,
  children_list-Ends,
}
use catfs.Meta.Local.Merge.Kept.{build_dentries-Sound, clear_unsync_dentry-Sound}
use catfs.Meta.Impl.{
  MetaImpl, substr, dirs_loop, files_loop, build_ftree_from_listobjects, refresh_loop,
  refresh_sub_dentries, load_sub_dentries,
}
use catfs.Meta.Impl.Kept.{Tree, on_local-Ends, on_local-beside, on_dentry-Tree}

module _ {F : Type 0} {S : Type 0} {I : S → Type 0} (s : S) (h : I s) where
  substr-Ends : (t : Text) (pos count : ℕ) → Ends F (λ _. I) I (substr t pos count s)
  unfolding substr
  substr-Ends t pos count = Ends-if (ltb (length t) pos) _ _ _ (ends_throw h) (ends_ok h)

module _ {F : Type 0} {S : Type 0} {I : S → Type 0} where
  dirs_loop-Ends :
      (prefix : Text) (ps : List Text) (children : FTreeNodes) (s : S)
      → I s
      → Ends F (λ _. I) I (dirs_loop prefix ps children s)
  unfolding dirs_loop
  dirs_loop-Ends prefix [] children s h = ends_ok h
  dirs_loop-Ends prefix (p ∷ ps) children s h =
      Ends-then (substr-Ends s h p _ _) (λ name s h. dirs_loop-Ends prefix ps _ s h)

  files_loop-Ends :
      (prefix : Text) (objs : List ObjInfo) (children : FTreeNodes) (s : S)
      → I s
      → Ends F (λ _. I) I (files_loop prefix objs children s)
  unfolding files_loop
  files_loop-Ends prefix [] children s h = ends_ok h
  files_loop-Ends prefix (o ∷ os) children s h =
      Ends-then (substr-Ends s h o.name _ _) (λ name s h. files_loop-Ends prefix os _ s h)

  build_ftree-Ends :
      (prefix : Text) (resp : ListObjectsResp) (s : S)
      → I s
      → Ends F (λ _. I) I (build_ftree_from_listobjects prefix resp s)
  unfolding build_ftree_from_listobjects
  build_ftree-Ends prefix resp s h =
      Ends-then (dirs_loop-Ends prefix resp.common_prefixes _ s h)
        (λ children s h. files_loop-Ends prefix resp.objs children s h)

module _ {F : Type 0} (stor : Stor) (clock : ℕ → Timespec) (junk : ObjInfo) (least : Ptr)
    ⦃ending : IsEnding F stor⦄ where
  refresh_loop-Tree :
      (fuel : ℕ) (dentry : Ptr) (prefix marker : Text) (s : MetaImpl stor.State)
      → Tree least s
      → Pages F stor fuel prefix marker s.backend
      → Ends F
          (λ _. Tree least)
          (Tree least)
          (refresh_loop stor clock junk fuel dentry prefix marker s)
  unfolding refresh_loop
  refresh_loop-Tree zero dentry prefix marker s h pages = ends_out_of_fuel pages
  refresh_loop-Tree (suc fuel) dentry prefix marker s h pages =
      Ends-then
        {P' = λ resp s.
          Tree least s
          × (resp.is_trunc ≡ true → Pages F stor fuel prefix resp.next_marker s.backend)}
        (any_end (λ s. s.backend) (λ t s. record s { backend = t }) s
          (stor.list_objects (page_of prefix marker) empty_listing s.backend)
          (ending.list_objects _ _ s.backend) (λ resp t e. (h, pages resp t e)) (λ t. h))
        (λ resp s (h, later).
          let R = λ (b : stor.State).
            resp.is_trunc ≡ true → Pages F stor fuel prefix resp.next_marker b in
          Ends-then
            (Ends-map
              (build_ftree-Ends {I = λ s. Tree least s × R s.backend} prefix resp s (h, later))
              (λ children s k. k) (λ s (h, _). h))
            (λ children s (h, later).
              Ends-then
                (on_local-beside R s later
                  (on_heap-Sound s.local (read_dentry-Ends s.local.heap h dentry)))
                (λ d s (h, later).
                  Ends-then
                    (on_local-beside R s later
                      (on_heap-Sound s.local (read_inode-Ends s.local.heap h d.inode)))
                    (λ i s (h, later).
                      Ends-then
                        (on_local-beside R s later
                          (build_dentries-Sound clock i.ino children s.local h))
                        (λ _ s (h, later). elim (Bool-cases resp.is_trunc) [
                          | inl more ↦ rw more (
                              refresh_loop-Tree fuel dentry prefix resp.next_marker s h
                                (later more))
                          | inr last ↦ rw last (ends_ok h)
                        ])))))

  refresh_sub_dentries-Tree :
      (fuel : ℕ) (dentry : Ptr) (s : MetaImpl stor.State)
      → Tree least s
      → Listed F stor fuel s.backend
      → Ends F (λ _. Tree least) (Tree least) (refresh_sub_dentries stor clock junk fuel dentry s)
  unfolding refresh_sub_dentries
  refresh_sub_dentries-Tree fuel dentry s h pages =
      Ends-then
        (on_local-beside (Listed F stor fuel) s pages
          (on_heap-Sound s.local (get_full_path_with_slash-Ends s.local.heap h dentry)))
        (λ prefix s (h, pages).
          Ends-then (refresh_loop-Tree fuel dentry prefix [] s h (pages prefix))
            (λ _ s h. on_local-Ends s (clear_unsync_dentry-Sound clock dentry s.local h)))

  pub load_sub_dentries-Tree :
      (fuel ino : ℕ) (ds : List Dirent) (s : MetaImpl stor.State)
      → Tree least s
      → Listed F stor fuel s.backend
      → Ends F (λ _. Tree least) (Tree least) (load_sub_dentries stor clock junk fuel ino ds s)
  unfolding load_sub_dentries Local.get_dentry
  load_sub_dentries-Tree fuel ino ds s h pages =
      Ends-then
        (on_local-beside (Listed F stor fuel) s pages (
          Ends-map (index_at-Sound s.local h ino) (λ p s k. lower-IsSound k least (omega arith))
            (λ s k. k)))
        (λ dentry s (h, pages). Ends-if (dentry == null) _ _ _ (ends_throw h) (
          Ends-then
            (on_local-beside (Listed F stor fuel) s pages
              (on_heap-Sound s.local (read_dentry-Ends s.local.heap h dentry)))
            (λ d s (h, pages).
              Ends-then
                (Ends-if (not (Dentry.is_complete d)) _ _ _
                  (refresh_sub_dentries-Tree fuel dentry s h pages)
                  (Ends-then
                    (on_local-beside (Listed F stor fuel) s pages
                      (on_heap-Sound s.local (is_expired-Ends s.local.heap h clock dentry)))
                    (λ expired s (h, pages).
                      Ends-if expired _ _ _ (refresh_sub_dentries-Tree fuel dentry s h pages)
                        (ends_ok h))))
                (λ _ s h. on_dentry-Tree s (children_list-Ends s.local.heap h dentry _)))))
