-- ===== src/Fs/Kept/Operations.antt =====
-- src/fs/fs.cpp, fs_dir.cpp, fs_file.cpp and open_file.cpp: the operations keep what Kept says.
use catfs.Common.{
  number_key, ltb, length, ℕ, add64, ◌≡◌, ◌^◌, ◌≤◌, refl, false, some, List, [], ◌∷◌, Text, Cmd,
  lookup, insert, Keeps, Ends, ends_ok, ends_throw, ends_fault, Ends-then, Ends-if, Ends-map,
  Ends-option, Ends-option_at, Ends-back, ◌==◌,
}
use catfs.Stor.{Stor, Timespec, ObjInfo}
use catfs.Stor.Ending.{IsEnding, IsParted, Listed}
use catfs.Writer.{Session}
use catfs.Writer.Ending.{release-Ends, write-Ends}
use catfs.Writer.Ending.Kept.{IsMade, Made}
use catfs.Writer
use catfs.Meta.Heap.{null, Dirent}
use catfs.Meta.Local.Invariant.Dentries.{read_dentry-Ends, read_inode-Ends, get_full_path-Ends}
use catfs.Meta.Impl.Kept.{on_backend-Tree, get_inode-Tree, get_dentry-Tree, update_inode_size-Tree}
use catfs.Meta.Impl.Kept.Finding.{find_dentry-Tree, create_dentry-Tree, remove_dentry-Tree}
use catfs.Meta.Impl.Kept.Listing.{load_sub_dentries-Tree}
use catfs.Fs.{
  CatFs, OpenFile, OpenDir, get_next_handle_id, dir_at, on_writer, read_size, page, direct_read,
  file_read, file_write, openfile, readfile, writefile, release_file, opendir, loaded, read_dir,
  lookup_inode, find_dentry, create_dentry, remove_dentry,
}
use catfs.Fs.Kept.{
  Ready, insert-Opened, new_writer-IsMade, the-Found, on_meta-Ready, on_dentry-Ready, file_at-Ready,
  of-then,
}

module _ {F G : Type 0} (stor : Stor) (malloc : ℕ → List ℕ) (clock : ℕ → Timespec) (junk : ObjInfo)
    ⦃ending : IsEnding F stor⦄ where
  pub openfile-Ready : (ino : ℕ) → Keeps F (Ready G) (openfile stor malloc clock junk ino)
  unfolding openfile get_next_handle_id
  openfile-Ready ino s h =
      Ends-then (on_meta-Ready s h.1 (get_dentry-Tree stor clock junk 0 ino s.meta h.0)) (λ p s h.
        Ends-if (p == null) _ _ _ (ends_throw h) (
          Ends-then
            (on_dentry-Ready (record s { next_handle_id = add64 s.next_handle_id 1 }) h.1
              (get_full_path-Ends s.meta.local.heap h.0 p))
            (λ path s h.
              Ends-then (on_dentry-Ready s h.1 (read_dentry-Ends s.meta.local.heap h.0 p)) (λ d s h.
                Ends-then (on_dentry-Ready s h.1 (read_inode-Ends s.meta.local.heap h.0 d.inode))
                  (λ i s h. ends_ok (
                    h.0,
                    insert-Opened _ _ s.open_files (the-Found _ (new_writer-IsMade path)) h.1,
                  ))))))

  direct_read-Ready :
      (path : Text) (off size cap : ℕ)
      → Keeps F (Ready G) (direct_read stor malloc clock junk path off size cap)
  unfolding direct_read
  direct_read-Ready path off size cap s h =
      Ends-then
        (on_meta-Ready s h.1 (
          on_backend-Tree s.meta (stor.read_file _ _ s.meta.backend)
            (ending.read_file _ _ s.meta.backend) h.0))
        (λ resp s h. Ends-if (ltb cap (length resp.dst)) _ _ _ ends_fault (ends_ok h))

  file_read-Ready :
      (f : OpenFile) (off size : ℕ)
      → Keeps F (Ready G) (file_read stor malloc clock junk f off size)
  unfolding file_read
  file_read-Ready f off size s h =
      Ends-option_at (read_size f.rtfile.size off size) _ _ s (ends_ok h)
        (λ n. direct_read-Ready f.rtfile.path off n size s h)

  on_writer-Ready :
      {A : Type 0} (hno : ℕ) (f : OpenFile) (m : Cmd (Session stor.State) A)
      → IsMade G f.writer
      → Keeps F (Made G) m
      → Keeps F (Ready G) (on_writer stor malloc clock junk hno f m)
  on_writer-Ready hno f m made keeps s h =
      let back : (t : Session stor.State)
          → Made G t
          → Ready G (record s {
            meta = record s.meta { backend = t.backend };
            open_files = insert hno (some (record f { writer = t.writer })) s.open_files;
          }) =
        λ t k. (
          h.0,
          insert-Opened hno (some (record f { writer = t.writer })) s.open_files (the-Found _ k)
              h.1,
        ) in
      Ends-back (λ s. record { writer = f.writer; backend = s.meta.backend })
        (λ t s. record s {
          meta = record s.meta { backend = t.backend };
          open_files = insert hno (some (record f { writer = t.writer })) s.open_files;
        })
        s
        (Ends-map (keeps (record { writer = f.writer; backend = s.meta.backend }) made)
          (λ a t k. back t k) (λ t k. back t k))

  pub readfile-Ready :
      (hno off size : ℕ) → Keeps F (Ready G) (readfile stor malloc clock junk hno off size)
  unfolding readfile
  readfile-Ready hno off size s h =
      Ends-then (file_at-Ready s h hno) (λ of s (h, _).
        Ends-option_at of _ _ s (ends_throw h) (λ f. file_read-Ready f off size s h))

  pub release_file-Ready : (hno : ℕ) → Keeps F (Ready G) (release_file stor malloc clock junk hno)
  unfolding release_file
  release_file-Ready hno s h = Ends-then (file_at-Ready s h hno) (λ of s (h, found).
      of-then of _ _ s found (ends_throw h)
        (λ f made. on_writer-Ready hno f (Writer.release stor) made (release-Ends stor) s h))

  pub opendir-Ready : (ino : ℕ) → Keeps F (Ready G) (opendir stor malloc clock junk ino)
  unfolding opendir get_next_handle_id
  opendir-Ready ino s h =
      Ends-then (on_meta-Ready s h.1 (get_dentry-Tree stor clock junk 0 ino s.meta h.0)) (λ p s h.
        Ends-if (p == null) _ _ _ (ends_throw h) (
          Ends-then
            (on_dentry-Ready (record s { next_handle_id = add64 s.next_handle_id 1 }) h.1
              (read_dentry-Ends s.meta.local.heap h.0 p))
            (λ d s h.
              Ends-then (on_dentry-Ready s h.1 (read_inode-Ends s.meta.local.heap h.0 d.inode))
                (λ i s h. ends_ok h))))

  load_entries-Ready :
      (fuel hno : ℕ) (d : OpenDir) (es : List Dirent) (s : CatFs stor.State)
      → Ready G s
      → Listed F stor fuel s.meta.backend
      → d.dentries ≡ es
      → Ends F (λ _. Ready G) (Ready G) (loaded stor malloc clock junk fuel hno d s)
  unfolding loaded
  load_entries-Ready fuel hno d [] s h pages e = rw e (
      Ends-then
        (on_meta-Ready s h.1
          (load_sub_dentries-Tree stor clock junk 0 fuel d.ino [] s.meta h.0 pages))
        (λ entries s h. ends_ok h))
  load_entries-Ready fuel hno d (x ∷ es) s h pages e = rw e (ends_ok h)

  pub read_dir-Ready :
      (fuel hno off size : ℕ) (s : CatFs stor.State)
      → Ready G s
      → Listed F stor fuel s.meta.backend
      → Ends F (λ _. Ready G) (Ready G) (read_dir stor malloc clock junk fuel hno off size s)
  unfolding read_dir dir_at
  read_dir-Ready fuel hno off size s h pages =
      Ends-then {P' = λ _ s. Ready G s × Listed F stor fuel s.meta.backend}
        (Ends-option (lookup hno s.open_dirs) _ _ (ends_ok (h, pages)) (λ d. ends_ok (h, pages)))
        (λ od s (h, pages). Ends-option_at od _ _ s (ends_throw h) (λ d.
          Ends-then (load_entries-Ready fuel hno d d.dentries s h pages refl) (λ entries s h.
            Ends-option_at (page entries off size) _ _ s ends_fault (λ part. ends_ok h))))

  pub lookup_inode-Ready : (ino : ℕ) → Keeps F (Ready G) (lookup_inode stor malloc clock junk ino)
  unfolding lookup_inode
  lookup_inode-Ready ino s h = on_meta-Ready s h.1 (get_inode-Tree stor clock junk 0 ino s.meta h.0)

  pub find_dentry-Ready :
      (pino : ℕ) (name : Text) → Keeps F (Ready G) (find_dentry stor malloc clock junk pino name)
  unfolding find_dentry
  find_dentry-Ready pino name s h =
      on_meta-Ready s h.1 (find_dentry-Tree stor clock junk 0 pino name false s.meta h.0)

  pub create_dentry-Ready :
      (pino : ℕ) (name : Text) (mode : ℕ)
      → Keeps F (Ready G) (create_dentry stor malloc clock junk pino name mode)
  unfolding create_dentry
  create_dentry-Ready pino name mode s h =
      on_meta-Ready s h.1 (create_dentry-Tree stor clock junk 0 pino name mode s.meta h.0)

  pub remove_dentry-Ready :
      (pino : ℕ) (name : Text) → Keeps F (Ready G) (remove_dentry stor malloc clock junk pino name)
  unfolding remove_dentry
  remove_dentry-Ready pino name s h =
      on_meta-Ready s h.1 (remove_dentry-Tree stor clock junk 0 pino name s.meta h.0)

module _ {F G : Type 0} (stor : Stor) (malloc : ℕ → List ℕ) (clock : ℕ → Timespec) (junk : ObjInfo)
    ⦃ending : IsEnding F stor⦄ ⦃parted : IsParted G stor⦄ (grant : G → F) where
  file_write-Ready :
      (f : OpenFile) (off size : ℕ) (bytes : List ℕ)
      → IsMade G f.writer
      → (2 ^ 31 ≤ size → F)
      → Keeps F (Ready G) (file_write stor malloc clock junk f off size bytes)
  unfolding file_write
  file_write-Ready f off size bytes made large s h =
      Ends-then
        (on_writer-Ready stor malloc clock junk f.hno f (Writer.write stor malloc off size bytes)
          made (write-Ends stor malloc grant off size bytes large) s h)
        (λ _ s h. Ends-then (file_at-Ready s h f.hno) (λ f' s (h, found).
          of-then f' _ _ s found ends_fault (λ f made.
            ends_ok (h.0, insert-Opened f.hno (some _) s.open_files (the-Found _ made) h.1))))

  pub writefile-Ready :
      (hno off size : ℕ) (bytes : List ℕ)
      → (2 ^ 31 ≤ size → F)
      → Keeps F (Ready G) (writefile stor malloc clock junk hno off size bytes)
  unfolding writefile
  writefile-Ready hno off size bytes large s h =
      Ends-then (file_at-Ready s h hno) (λ of s (h, found).
        of-then of _ _ s found (ends_throw h) (λ f made.
          Ends-then (file_write-Ready f off size bytes made large s h) (λ f s h.
            Ends-then
              (Ends-if f.has_wrote _ _ _
                (on_meta-Ready s h.1
                  (update_inode_size-Tree stor clock junk 0 f.ino f.rtfile.size s.meta h.0))
                (ends_ok h))
              (λ _ s h. ends_ok h))))
