-- ===== src/Fuse/Answers.antt =====
-- src/fs/fsa.cpp: each handler sends one reply and keeps the tree sound.
use catfs.Common.{
  ◌^◌, ◌≤◌, ℕ, ◌≡◌, refl, List, Text, Cmd, Run, Exn, ok, throw, fault, out_of_fuel, length, Keeps,
  Ends, ends_ok, ends_throw, Ends-then, Ends-if, Ends-test, ◌==◌,
}
use catfs.Stor.{Stor, Timespec, ObjInfo}
use catfs.Meta.Heap.{Ptr, null}
use catfs.Meta.Local.Invariant.Dentries.{read_dentry-Ends, read_inode-Ends}
use catfs.Stor.Ending.{IsEnding, IsParted}
use catfs.Fs.{CatFs}
use catfs.Fs.Kept.{Ready, on_dentry-Ready}
use catfs.Fs.Kept.Operations.{
  openfile-Ready, readfile-Ready, writefile-Ready, release_file-Ready, opendir-Ready,
  lookup_inode-Ready, find_dentry-Ready, create_dentry-Ready, remove_dentry-Ready,
}
use catfs.Fuse.{Reply, try_catch, catch_run, is_std, to_eio, inode_of}
use catfs.Fuse
use catfs.Fs

-- One reply was sent, and the tree is sound.
abbrev pub Answered : Type 0 → {W : Type 0} → List Reply → CatFs W → Type 0
Answered G rs s = (length rs ≡ 1) × Ready G s

abbrev pub Answers : (F G : Type 0) → {W : Type 0} → Cmd (CatFs W) (List Reply) → Type 0
Answers F G {W} m = (s : CatFs W) → Ready G s → Ends F (Answered G) (Ready G) (m s)

module _ {F : Type 0} {S A : Type 0} {P : A → S → Type 0} {Q : S → Type 0} where
  pub caught :
      (r : Run S A) (handler : Exn → Cmd S A)
      → Ends F P Q r
      → ((e : Exn) (s : S) → Q s → Ends F P Q (handler e s))
      → Ends F P Q (catch_run r handler)
  unfolding catch_run
  caught (ok a s) handler h k = h
  caught (throw e s) handler (ends_throw h) k = Ends-test (is_std e) _ _ (k e s h) (ends_throw h)
  caught fault handler h k = h
  caught out_of_fuel handler h k = h

module _ {F G : Type 0} {W : Type 0} where
  pub to_eio-Answered :
      (e : Exn) (s : CatFs W) → Ready G s → Ends F (Answered G) (Ready G) (to_eio e s)
  to_eio-Answered e s h = ends_ok (refl, h)

module _ {F G : Type 0} (stor : Stor) (malloc : ℕ → List ℕ) (clock : ℕ → Timespec) (junk : ObjInfo)
    ⦃ending : IsEnding F stor⦄ where
  inode_of-Ready : (dentry : Ptr) → Keeps F (Ready G) (inode_of stor malloc clock junk dentry)
  unfolding inode_of
  inode_of-Ready dentry s h =
      Ends-then (on_dentry-Ready s h.1 (read_dentry-Ends s.meta.local.heap h.0 dentry))
        (λ d s h. on_dentry-Ready s h.1 (read_inode-Ends s.meta.local.heap h.0 d.inode))

  pub reply_inode-Answers :
      (dentry : Ptr) → Answers F G (Fuse.reply_inode stor malloc clock junk dentry)
  unfolding Fuse.reply_inode
  reply_inode-Answers dentry s h =
      Ends-then (inode_of-Ready dentry s h) (λ i s h. ends_ok (refl, h))

  pub lookup-Answers :
      (parent : ℕ) (name : Text) → Answers F G (Fuse.lookup stor malloc clock junk parent name)
  unfolding Fuse.lookup try_catch
  lookup-Answers parent name s h =
      caught _ to_eio
        (Ends-then (find_dentry-Ready stor malloc clock junk parent name s h) (λ dentry s h.
          Ends-if (dentry == null) _ _ _ (ends_ok (refl, h)) (reply_inode-Answers dentry s h)))
        to_eio-Answered

  pub getattr-Answers : (ino : ℕ) → Answers F G (Fuse.getattr stor malloc clock junk ino)
  unfolding Fuse.getattr try_catch
  getattr-Answers ino s h =
      caught _ to_eio
        (Ends-then (lookup_inode-Ready stor malloc clock junk ino s h) (λ p s h.
          Ends-if (p == null) _ _ _ (ends_ok (refl, h)) (
            Ends-then (on_dentry-Ready s h.1 (read_inode-Ends s.meta.local.heap h.0 p))
              (λ i s h. ends_ok (refl, h)))))
        to_eio-Answered

  pub mkdir-Answers :
      (parent : ℕ) (name : Text) (mode : ℕ)
      → Answers F G (Fuse.mkdir stor malloc clock junk parent name mode)
  unfolding Fuse.mkdir try_catch
  mkdir-Answers parent name mode s h =
      caught _ to_eio
        (Ends-then (create_dentry-Ready stor malloc clock junk parent name _ s h) (λ dentry s h.
          Ends-if (dentry == null) _ _ _ (ends_ok (refl, h)) (reply_inode-Answers dentry s h)))
        to_eio-Answered

  pub unlink-Answers :
      (parent : ℕ) (name : Text) → Answers F G (Fuse.unlink stor malloc clock junk parent name)
  unfolding Fuse.unlink try_catch
  unlink-Answers parent name s h =
      caught _ to_eio
        (Ends-then (remove_dentry-Ready stor malloc clock junk parent name s h)
          (λ _ s h. ends_ok (refl, h)))
        to_eio-Answered

  pub rmdir-Answers :
      (parent : ℕ) (name : Text) → Answers F G (Fuse.rmdir stor malloc clock junk parent name)
  unfolding Fuse.rmdir try_catch
  rmdir-Answers parent name s h =
      caught _ _
        (Ends-then (remove_dentry-Ready stor malloc clock junk parent name s h)
          (λ _ s h. ends_ok (refl, h)))
        (λ e s h. ends_ok (refl, h))

  pub open_file-Answers : (ino : ℕ) → Answers F G (Fuse.open_file stor malloc clock junk ino)
  unfolding Fuse.open_file try_catch
  open_file-Answers ino s h =
      caught _ _
        (Ends-then (openfile-Ready stor malloc clock junk ino s h) (λ _ s h. ends_ok (refl, h)))
        (λ e s h. ends_ok (refl, h))

  pub create-Answers :
      (parent : ℕ) (name : Text) (mode : ℕ)
      → Answers F G (Fuse.create stor malloc clock junk parent name mode)
  unfolding Fuse.create try_catch
  create-Answers parent name mode s h =
      caught _ to_eio
        (Ends-then (create_dentry-Ready stor malloc clock junk parent name mode s h) (λ dentry s h.
          Ends-if (dentry == null) _ _ _ (ends_ok (refl, h)) (
            Ends-then (inode_of-Ready dentry s h) (λ i s h.
              Ends-then (openfile-Ready stor malloc clock junk i.ino s h)
                (λ hno s h. Ends-then (inode_of-Ready dentry s h) (λ i s h. ends_ok (refl, h)))))))
        to_eio-Answered

  pub read-Answers : (fh off size : ℕ) → Answers F G (Fuse.read stor malloc clock junk fh off size)
  unfolding Fuse.read try_catch
  read-Answers fh off size s h =
      caught _ to_eio
        (Ends-then (readfile-Ready stor malloc clock junk fh off size s h)
          (λ _ s h. ends_ok (refl, h)))
        to_eio-Answered

  pub release-Answers : (fh : ℕ) → Answers F G (Fuse.release stor malloc clock junk fh)
  unfolding Fuse.release try_catch
  release-Answers fh s h =
      caught _ to_eio
        (Ends-then (release_file-Ready stor malloc clock junk fh s h) (λ _ s h. ends_ok (refl, h)))
        to_eio-Answered

  pub opendir-Answers : (ino : ℕ) → Answers F G (Fuse.opendir stor malloc clock junk ino)
  unfolding Fuse.opendir try_catch
  opendir-Answers ino s h =
      caught _ _
        (Ends-then (opendir-Ready stor malloc clock junk ino s h) (λ _ s h. ends_ok (refl, h)))
        (λ e s h. ends_ok (refl, h))

  pub releasedir-Ready :
      (fh : ℕ) (s : CatFs stor.State)
      → Ready G s
      → Ends F
          (λ rs s. (length rs ≡ 0) × Ready G s)
          (Ready G)
          (Fuse.releasedir stor malloc clock junk fh s)
  unfolding Fuse.releasedir Fs.release_dir
  releasedir-Ready fh s h = ends_ok (refl, h)

module _ {F G : Type 0} (stor : Stor) (malloc : ℕ → List ℕ) (clock : ℕ → Timespec) (junk : ObjInfo)
    ⦃ending : IsEnding F stor⦄ ⦃parted : IsParted G stor⦄ (grant : G → F) where
  pub write-Answers :
      (fh off : ℕ) (buf : List ℕ) (size : ℕ)
      → (2 ^ 31 ≤ size → F)
      → Answers F G (Fuse.write stor malloc clock junk fh off buf size)
  unfolding Fuse.write try_catch
  write-Answers fh off buf size large s h =
      caught _ to_eio
        (Ends-then (writefile-Ready stor malloc clock junk grant fh off size buf large s h)
          (λ _ s h. ends_ok (refl, h)))
        to_eio-Answered

  write_bufs-Ready :
      (fh off res : ℕ) (mem : List ℕ) (size : ℕ)
      → (2 ^ 31 ≤ size → F)
      → Keeps F (Ready G) (Fuse.write_bufs stor malloc clock junk fh off res mem size)
  unfolding Fuse.write_bufs
  write_bufs-Ready fh off res mem size large s h =
      Ends-then (writefile-Ready stor malloc clock junk grant fh off size mem large s h)
        (λ n s h. ends_ok h)

  pub write_buf-Answers :
      (fh off : ℕ) (first : List ℕ × ℕ) (more : List (List ℕ × ℕ))
      → (2 ^ 31 ≤ first.1 → F)
      → Answers F G (Fuse.write_buf stor malloc clock junk fh off first more)
  unfolding Fuse.write_buf try_catch
  write_buf-Answers fh off (mem, size) more large s h =
      caught _ to_eio
        (Ends-then (write_bufs-Ready fh off 0 mem size large s h) (λ _ s h. ends_ok (refl, h)))
        to_eio-Answered
