-- ===== src/Fuse/Readdir.antt =====
-- src/fs/fsa.cpp: the handlers readdir and readdirplus, which fill a buffer with the entries that
-- fit. `entry_size` and `plus_size` are what fuse_add_direntry and fuse_add_direntry_plus answer for
-- a name: the bytes that its entry takes. The entry is written only if they fit.
pub mod Cookies
pub mod Filled
use catfs.Common.{
  ℕ, ◌+◌, ◌-◌, Bool, true, false, List, [], ◌∷◌, ◌++◌, Text, bytes, text_discrete, Cmd, pure, ◌>>=◌,
  ltb, if◌then◌else◌,
}
use mathlib.Core.Logic.{ite}
use catfs.Stor.{Stor, Timespec, ObjInfo}
use catfs.Meta.Heap.{Inode, Dirent, read_inode}
use catfs.Meta.Impl
use catfs.Fs.{CatFs, on_meta}
use catfs.Fs
use catfs.Fuse.{
  Direntry, DirentryPlus, EntryParam, Stat, fill_inode_attr, Reply, listing, listing_plus,
  try_catch, to_eio, one,
}

-- The names that readdir passes over.
pub is_dot : Text → Bool
is_dot name =
    ite (text_discrete name (bytes ".")) true (ite (text_discrete name (bytes "..")) true false)

direntry : Dirent → Inode → (cookie : ℕ) → Direntry
direntry d i cookie = record { name = d.name; st_ino = i.ino; st_mode = i.mode; cookie = cookie }

fill_fuse_entry_param : Inode → EntryParam
unfolding fill_inode_attr
fill_fuse_entry_param i = record {
  ino = i.ino;
  attr_timeout = 1;
  entry_timeout = 1;
  attributes = fill_inode_attr i;
}

module _ (stor : Stor) (malloc : ℕ → List ℕ) (clock : ℕ → Timespec) (junk : ObjInfo) where
  -- The entries so far, and the bytes that remain.
  pub plus_loop :
      (plus_size : Text → ℕ)
      → (off idx rem : ℕ) → List DirentryPlus
      → List Dirent
      → Cmd (CatFs stor.State) (List DirentryPlus × ℕ)
  unfolding fill_fuse_entry_param
  plus_loop plus_size off idx rem acc [] = pure (acc, rem)
  plus_loop plus_size off idx rem acc (d ∷ ds) = do
    i ← on_meta (Impl.on_dentry (read_inode d.inode))
    let e : DirentryPlus = record {
      name = d.name;
      param = fill_fuse_entry_param i;
      cookie = off + idx + 1;
    }
    if ltb rem (plus_size d.name)
        then pure (acc, rem)
        else plus_loop plus_size off (idx + 1) (rem - plus_size d.name) (acc ++ e ∷ []) ds

  pub readdirplus :
      (plus_size : Text → ℕ) → (fuel fh size off : ℕ) → Cmd (CatFs stor.State) (List Reply)
  unfolding plus_loop try_catch
  readdirplus plus_size fuel fh size off =
      try_catch
        (do
          dirents ← Fs.read_dir stor malloc clock junk fuel fh off size
          (entries, rem) ← plus_loop plus_size off 0 size [] dirents
          one (listing_plus entries (size - rem)))
        to_eio

  -- The names "." and ".." are passed over, and not counted.
  pub readdir_loop :
      (entry_size : Text → ℕ)
      → (off idx rem : ℕ) → List Direntry
      → List Dirent
      → Cmd (CatFs stor.State) (List Direntry × ℕ)
  unfolding is_dot direntry
  readdir_loop entry_size off idx rem acc [] = pure (acc, rem)
  readdir_loop entry_size off idx rem acc (d ∷ ds) =
      if is_dot d.name then readdir_loop entry_size off idx rem acc ds else do
        i ← on_meta (Impl.on_dentry (read_inode d.inode))
        if ltb rem (entry_size d.name)
            then pure (acc, rem)
            else readdir_loop entry_size off (idx + 1) (rem - entry_size d.name)
                (acc ++ direntry d i (off + idx + 1) ∷ []) ds

  pub readdir :
      (entry_size : Text → ℕ) → (fuel fh size off : ℕ) → Cmd (CatFs stor.State) (List Reply)
  unfolding readdir_loop try_catch
  readdir entry_size fuel fh size off =
      try_catch
        (do
          dirents ← Fs.read_dir stor malloc clock junk fuel fh off size
          (entries, rem) ← readdir_loop entry_size off 0 size [] dirents
          one (listing entries (size - rem)))
        to_eio
