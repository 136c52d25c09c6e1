-- ===== src/Meta/Impl/Kept/Finding.antt =====
-- src/meta/meta_impl.cpp: finding, creating and removing an entry keep the tree and its index sound.
use catfs.Common.{
  ℕ, Bool, false, not, ◌&&◌, ◌++◌, Text, arith, bytes, ends_ok, ends_throw, Keeps, Ends-then,
  Ends-if, ◌==◌,
}
use catfs.Stor.{Stor, Timespec, ObjInfo}
use catfs.Stor.Ending.{IsEnding}
use catfs.Meta.Heap.{Ptr, null}
use catfs.Meta.Local.Invariant.Dentries.{
  read_dentry-Ends, read_inode-Ends, is_dir-Ends, is_root-Ends, child_count-Ends, inc_ttl-Ends,
  is_expired-Ends, get_full_path-Ends, get_full_path_with_slash-Ends,
}
use catfs.Meta.Local.Invariant.Methods.{
  update_inode-Sound, find_dentry-Sound, remove_dentry-Sound, create_dentry-Sound,
}
use catfs.Meta.Local.Invariant.Creation.{create_new_inode-Sound, create_dentry_from_obj-Sound}
use catfs.Meta.Impl.{
  get_remote_obj, is_remote_dir_exist, find_remote, refresh_dentry, find_dentry, new_key,
  create_dentry, remove_dentry,
}
use catfs.Meta.Impl.Kept.{
  Tree, on_local-Ends, on_dentry-Tree, lower-Tree, on_backend-Tree, the_dentry-Tree,
}

module _ {F : Type 0} (stor : Stor) (clock : ℕ → Timespec) (junk : ObjInfo) (least : Ptr)
    ⦃ending : IsEnding F stor⦄ where
  get_remote_obj-Tree :
      (parent : Ptr) (name : Text)
      → Keeps F (Tree least) (get_remote_obj stor clock junk parent name)
  unfolding get_remote_obj
  get_remote_obj-Tree parent name s h =
      Ends-then (on_dentry-Tree s (get_full_path_with_slash-Ends s.local.heap h parent))
        (λ path s h.
          Ends-then
            (on_backend-Tree s (stor.head_file _ _ s.backend) (ending.head_file _ _ s.backend) h)
            (λ resp s h. Ends-if resp.exist _ _ _ (ends_ok h) (
              Ends-then
                (on_backend-Tree s (stor.head_file _ _ s.backend) (ending.head_file _ _ s.backend)
                  h)
                (λ resp s h. ends_ok h))))

  is_remote_dir_exist-Tree :
      (path : Text) → Keeps F (Tree least) (is_remote_dir_exist stor clock junk path)
  unfolding is_remote_dir_exist
  is_remote_dir_exist-Tree path s h =
      Ends-then
        (on_backend-Tree s (stor.list_objects _ _ s.backend) (ending.list_objects _ _ s.backend) h)
        (λ resp s h. ends_ok h)

  find_remote-Tree :
      (pino : ℕ) (name : Text) → Keeps F (Tree least) (find_remote stor clock junk pino name)
  unfolding find_remote
  find_remote-Tree pino name s h =
      Ends-then (the_dentry-Tree stor clock junk least pino s h) (λ parent s h.
        Ends-if (parent == null) _ _ _ (ends_throw h) (
          Ends-then (get_remote_obj-Tree parent name s h) (λ remote s₀ h.
            Ends-if remote.exist _ _ _
              (Ends-then
                (on_local-Ends s₀ (
                  create_dentry_from_obj-Sound clock s₀.local h pino name remote.obj remote.is_dir))
                (λ dentry s h.
                  Ends-then
                    (on_dentry-Tree s
                      (inc_ttl-Ends s.local.heap h clock dentry s₀.opt.dcache_timeout))
                    (λ _ s h. ends_ok h)))
              (Ends-then (on_dentry-Tree s₀ (get_full_path_with_slash-Ends s₀.local.heap h parent))
                (λ path s h.
                  Ends-then (is_remote_dir_exist-Tree (path ++ (name ++ bytes "/")) s h)
                    (λ exist s h. Ends-if (not exist) _ _ _ (ends_ok h) (
                      Ends-then (on_dentry-Tree s (read_dentry-Ends s.local.heap h parent))
                        (λ d s h.
                          Ends-then (on_dentry-Tree s (read_inode-Ends s.local.heap h d.inode))
                            (λ i s h.
                              Ends-then
                                (on_local-Ends s
                                  (create_new_inode-Sound clock s.local h i.mode i.gid i.uid))
                                (λ inode s k. lower-Tree least (omega arith) (
                                  Ends-then
                                    (on_local-Ends s (
                                      create_dentry-Sound s.local k i.ino name inode (omega arith)))
                                    (λ dentry s k.
                                      Ends-then
                                        (on_dentry-Tree s (
                                          inc_ttl-Ends s.local.heap k clock dentry
                                            s₀.opt.dcache_timeout))
                                        (λ _ s k. ends_ok k)))))))))))))

  refresh_dentry-Tree :
      (dentry : Ptr) → Keeps F (Tree least) (refresh_dentry stor clock junk dentry)
  unfolding refresh_dentry
  refresh_dentry-Tree dentry s₀ h =
      Ends-then (on_dentry-Tree s₀ (is_dir-Ends s₀.local.heap h dentry)) (λ dir s h.
        Ends-then
          (on_dentry-Tree s (
            Ends-if dir _ _ _ (get_full_path_with_slash-Ends s.local.heap h dentry)
              (get_full_path-Ends s.local.heap h dentry)))
          (λ path s h.
            Ends-then
              (on_backend-Tree s (stor.head_file _ _ s.backend) (ending.head_file _ _ s.backend) h)
              (λ resp s h.
                Ends-if (not resp.exist && dir) _ _ _
                  (Ends-then
                    (on_dentry-Tree s
                      (inc_ttl-Ends s.local.heap h clock dentry s₀.opt.dcache_timeout))
                    (λ _ s h. ends_ok h))
                  (Ends-then (on_dentry-Tree s (read_dentry-Ends s.local.heap h dentry)) (λ d s h.
                    Ends-then (on_dentry-Tree s (read_inode-Ends s.local.heap h d.inode)) (λ i s h.
                      Ends-then (on_local-Ends s (update_inode-Sound s.local h i.ino _)) (λ _ s h.
                        Ends-then
                          (on_dentry-Tree s
                            (inc_ttl-Ends s.local.heap h clock dentry s₀.opt.dcache_timeout))
                          (λ _ s h. ends_ok h))))))))

  pub find_dentry-Tree :
      (pino : ℕ) (name : Text) (only_local : Bool)
      → Keeps F (Tree least) (find_dentry stor clock junk pino name only_local)
  unfolding find_dentry
  find_dentry-Tree pino name only_local s h =
      Ends-then (on_local-Ends s (find_dentry-Sound s.local h pino name)) (λ dentry s h.
        Ends-if (dentry == null) _ _ _
          (Ends-if only_local _ _ _ (ends_ok h) (find_remote-Tree pino name s h))
          (Ends-then (on_dentry-Tree s (is_expired-Ends s.local.heap h clock dentry))
            (λ expired s h.
              Ends-if (not expired) _ _ _ (ends_ok h) (refresh_dentry-Tree dentry s h))))

  new_key-Tree :
      (parent : Ptr) (name : Text) (mode : ℕ)
      → Keeps F (Tree least) (new_key stor clock junk parent name mode)
  unfolding new_key
  new_key-Tree parent name mode s h =
      Ends-then (on_dentry-Tree s (is_root-Ends s.local.heap h parent)) (λ top s h.
        Ends-then
          (Ends-if top _ _ _ (ends_ok h) (
            Ends-then (on_dentry-Tree s (get_full_path-Ends s.local.heap h parent))
              (λ path s h. ends_ok h)))
          (λ key s h. ends_ok h))

  pub create_dentry-Tree :
      (pino : ℕ) (name : Text) (mode : ℕ)
      → Keeps F (Tree least) (create_dentry stor clock junk pino name mode)
  unfolding create_dentry
  create_dentry-Tree pino name mode s h =
      Ends-then (find_dentry-Tree pino name false s h) (λ found s h.
        Ends-if (not (found == null)) _ _ _ (ends_ok h) (
          Ends-then (the_dentry-Tree stor clock junk least pino s h) (λ parent s h.
            Ends-then (new_key-Tree parent name mode s h) (λ key s h.
              Ends-then (on_dentry-Tree s (read_dentry-Ends s.local.heap h parent)) (λ d s h.
                Ends-then (on_dentry-Tree s (read_inode-Ends s.local.heap h d.inode)) (λ i s h.
                  Ends-then
                    (on_backend-Tree s (stor.put_file _ s.backend) (ending.put_file _ s.backend) h)
                    (λ _ s h.
                      Ends-then
                        (on_local-Ends s (create_new_inode-Sound clock s.local h mode i.gid i.uid))
                        (λ inode s k. lower-Tree least (omega arith) (
                          on_local-Ends s
                            (create_dentry-Sound s.local k pino name inode (omega arith)))))))))))

  pub remove_dentry-Tree :
      (pino : ℕ) (name : Text) → Keeps F (Tree least) (remove_dentry stor clock junk pino name)
  unfolding remove_dentry
  remove_dentry-Tree pino name s h = Ends-then (find_dentry-Tree pino name false s h) (λ dentry s h.
      Ends-if (dentry == null) _ _ _ (ends_ok h) (
        Ends-then (on_dentry-Tree s (get_full_path-Ends s.local.heap h dentry)) (λ path s h.
          Ends-then (on_dentry-Tree s (is_dir-Ends s.local.heap h dentry)) (λ dir s h.
            Ends-then
              (Ends-if (not dir) _ _ _
                (on_backend-Tree s (stor.delete_file _ s.backend) (ending.delete_file _ s.backend)
                  h)
                (Ends-then (on_dentry-Tree s (child_count-Ends s.local.heap h dentry)) (λ count s h.
                  Ends-if (not (count == 0)) _ _ _ (ends_throw h) (
                    on_backend-Tree s (stor.delete_file _ s.backend)
                      (ending.delete_file _ s.backend) h))))
              (λ _ s h. on_local-Ends s (remove_dentry-Sound s.local h pino name))))))
