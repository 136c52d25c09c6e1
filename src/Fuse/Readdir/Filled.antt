-- ===== src/Fuse/Readdir/Filled.antt =====
-- src/fs/fsa.cpp: readdir and readdirplus send one reply and keep the tree sound.
use catfs.Common.{
  ℕ, ◌+◌, ◌-◌, refl, List, [], ◌∷◌, Text, Keeps, ends_ok, Ends, Ends-then, Ends-if, ltb,
}
use catfs.Stor.{Stor, Timespec, ObjInfo}
use catfs.Meta.Heap.{Dirent}
use catfs.Meta.Local.Invariant.Dentries.{read_inode-Ends}
use catfs.Stor.Ending.{IsEnding, Listed}
use catfs.Fs.{CatFs}
use catfs.Fs.Kept.{Ready, on_dentry-Ready}
use catfs.Fs.Kept.Operations.{read_dir-Ready}
use catfs.Fuse.{Direntry, DirentryPlus, try_catch, to_eio}
use catfs.Fuse.Readdir.{is_dot, plus_loop, readdir_loop}
use catfs.Fuse.Readdir
use catfs.Fuse.Answers.{Answered, caught, to_eio-Answered}

module _ {F G : Type 0} (stor : Stor) (malloc : ℕ → List ℕ) (clock : ℕ → Timespec) (junk : ObjInfo)
    ⦃ending : IsEnding F stor⦄ where
  plus_loop-Ready :
      (plus_size : Text → ℕ) (off idx rem : ℕ) (acc : List DirentryPlus) (ds : List Dirent)
      → Keeps F (Ready G) (plus_loop stor malloc clock junk plus_size off idx rem acc ds)
  unfolding plus_loop
  plus_loop-Ready plus_size off idx rem acc [] s h = ends_ok h
  plus_loop-Ready plus_size off idx rem acc (d ∷ ds) s h =
      Ends-then (on_dentry-Ready s h.1 (read_inode-Ends s.meta.local.heap h.0 d.inode)) (λ i s h.
        Ends-if (ltb rem (plus_size d.name)) _ _ _ (ends_ok h)
          (plus_loop-Ready plus_size off (idx + 1) (rem - plus_size d.name) _ ds s h))

  readdir_loop-Ready :
      (entry_size : Text → ℕ) (off idx rem : ℕ) (acc : List Direntry) (ds : List Dirent)
      → Keeps F (Ready G) (readdir_loop stor malloc clock junk entry_size off idx rem acc ds)
  unfolding readdir_loop
  readdir_loop-Ready entry_size off idx rem acc [] s h = ends_ok h
  readdir_loop-Ready entry_size off idx rem acc (d ∷ ds) s h =
      Ends-if (is_dot d.name) _ _ _ (readdir_loop-Ready entry_size off idx rem acc ds s h) (
        Ends-then (on_dentry-Ready s h.1 (read_inode-Ends s.meta.local.heap h.0 d.inode)) (λ i s h.
          Ends-if (ltb rem (entry_size d.name)) _ _ _ (ends_ok h)
            (readdir_loop-Ready entry_size off (idx + 1) (rem - entry_size d.name) _ ds s h)))

  pub readdir-Answers :
      (entry_size : Text → ℕ) (fuel fh size off : ℕ) (s : CatFs stor.State)
      → Ready G s
      → Listed F stor fuel s.meta.backend
      → Ends F
          (Answered G)
          (Ready G)
          (Readdir.readdir stor malloc clock junk entry_size fuel fh size off s)
  unfolding Readdir.readdir try_catch
  readdir-Answers entry_size fuel fh size off s h pages =
      caught _ to_eio
        (Ends-then (read_dir-Ready stor malloc clock junk fuel fh off size s h pages) (λ ds s h.
          Ends-then (readdir_loop-Ready entry_size off 0 size [] ds s h)
            (λ _ s h. ends_ok (refl, h))))
        to_eio-Answered

  pub readdirplus-Answers :
      (plus_size : Text → ℕ) (fuel fh size off : ℕ) (s : CatFs stor.State)
      → Ready G s
      → Listed F stor fuel s.meta.backend
      → Ends F
          (Answered G)
          (Ready G)
          (Readdir.readdirplus stor malloc clock junk plus_size fuel fh size off s)
  unfolding Readdir.readdirplus try_catch
  readdirplus-Answers plus_size fuel fh size off s h pages =
      caught _ to_eio
        (Ends-then (read_dir-Ready stor malloc clock junk fuel fh off size s h pages) (λ ds s h.
          Ends-then (plus_loop-Ready plus_size off 0 size [] ds s h) (λ _ s h. ends_ok (refl, h))))
        to_eio-Answered
