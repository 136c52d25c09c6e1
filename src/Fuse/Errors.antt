-- ===== src/Fuse/Errors.antt =====
-- src/fs/fsa.cpp: what the handlers answer when the operation under them fails.
use catfs.Common.{
  ℕ, suc, ◌≡◌, ◌≢◌, refl, ◌≤◌, Bool, true, false, Option, none, some, List, [], ◌∷◌, arith, Text,
  ok, throw, number, enotempty, insert, number_key, length, if◌then◌else◌,
}
use catfs.Common
use catfs.Stor.{Stor, Timespec, ObjInfo}
use catfs.Meta.Heap.{Ptr, Inode, Dentry}
use catfs.Meta.Dentry
use catfs.Meta.Impl.Lookup.{IsCached, ticked}
use catfs.Meta.Impl.Remove.{remove_dentry_not_empty}
use catfs.Fs.{CatFs, errno_enoent}
use catfs.Fs
use catfs.Fs.Handles.{unknown_handle}
use catfs.Fuse.{
  err, eio, enotempty_no, is_std, rmdir_error, try_catch, catch_run, rmdir, unlink, read, write,
  release,
}

module _ (stor : Stor) (malloc : ℕ → List ℕ) (clock : ℕ → Timespec) (junk : ObjInfo) where
  -- On a handle that was never given out, read, write and release send no reply: what they throw
  -- is no std::exception, and leaves the handler.
  pub unknown_handle_uncaught :
      (s : CatFs stor.State) (fh off size : ℕ) (buf : List ℕ)
      → Common.lookup fh s.open_files ≡ none
      → let s' : CatFs stor.State = record s { open_files = insert fh none s.open_files } in
        (read stor malloc clock junk fh off size s ≡ throw (number errno_enoent) s')
        × (write stor malloc clock junk fh off buf size s ≡ throw (number errno_enoent) s')
        × (release stor malloc clock junk fh s ≡ throw (number errno_enoent) s')
  unfolding read write release try_catch catch_run is_std
  unknown_handle_uncaught s fh off size buf e =
      let (r, w, c) = unknown_handle stor malloc clock junk s fh off size buf e in
      (rw r refl, rw w refl, rw c refl)

  -- On a cached directory that has entries, rmdir answers ENOTEMPTY and unlink EIO; neither
  -- changes the tree or the backend.
  pub not_empty_replies :
      (s : CatFs stor.State) (pino : ℕ) (name : Text) (ns : List Text) (parent c : Ptr)
      (d cd : Dentry) (ci : Inode)
      → IsCached clock s.meta pino name ns parent c d cd ci false
      → Dentry.is_dir c s.meta.local.heap ≡ ok true s.meta.local.heap
      → length cd.children ≢ 0
      → let s' : CatFs stor.State = record s { meta = ticked s.meta } in
        (rmdir stor malloc clock junk pino name s ≡ ok (err enotempty_no ∷ []) s')
        × (unlink stor malloc clock junk pino name s ≡ ok (err eio ∷ []) s')
  unfolding rmdir unlink try_catch catch_run is_std rmdir_error Fs.remove_dentry
  not_empty_replies s pino name ns parent c d cd ci h dir children =
      let e =
        remove_dentry_not_empty stor clock junk s.meta pino name ns parent c d cd ci h dir
          children in
      (ground (arith, e), ground (arith, e))
