-- ===== src/Fuse.antt =====
-- src/fs/fsa.h and fsa.cpp: the handlers of the FUSE adapter. A handler's value is the list of the
-- replies that it sends; a `throw` is an exception that it does not catch, which ends the process.
pub mod Answers
pub mod Dispatch
pub mod Errors
mod Examples
pub mod Names
pub mod Readdir
use catfs.Common.{
  ℕ, suc, ◌+◌, ◌-◌, ◌*◌, ◌/◌, ◌%◌, ◌^◌, Bool, true, false, ◌||◌, List, [], ◌∷◌, ◌++◌, Text, bytes,
  text_discrete, Run, Cmd, Exn, ok, throw, enotempty, enoent, number, literal, text, fault,
  out_of_fuel, pure, ◌>>=◌, ◌>>◌, ltb, ◌==◌, if◌then◌else◌, add64, and_then,
}
use Prim.Native.Nat.{bit_or}
use mathlib.Core.Logic.{ite}
use catfs.Stor.{Stor, Timespec, ObjInfo}
use catfs.Meta.Heap.{Ptr, null, Inode, Dirent, read_dentry, read_inode}
use catfs.Meta.Dentry.{s_ifdir}
use catfs.Meta.Impl
use catfs.Fs.{CatFs, on_meta}
use catfs.Fs

abbrev pub enoent_no : ℕ
enoent_no = 2

abbrev pub eio : ℕ
eio = 5

abbrev pub eperm : ℕ
eperm = 1

abbrev pub enosys : ℕ
enosys = 38

abbrev pub enotempty_no : ℕ
enotempty_no = 39

-- struct stat, as far as it is filled in
pub record Stat : Type 0 where
  pub st_ino : ℕ
  pub st_mode : ℕ
  pub st_gid : ℕ
  pub st_uid : ℕ
  pub st_size : ℕ
  pub st_ctim : Timespec
  pub st_mtim : Timespec

-- An entry of the directory buffer of readdir, as fuse_add_direntry takes it: the cookie is the
-- offset at which the next call goes on. Of the attributes it has the two that are set.
pub record Direntry : Type 0 where
  pub name : Text
  pub st_ino : ℕ
  pub st_mode : ℕ
  pub cookie : ℕ

-- struct fuse_entry_param, as far as it is filled in; the timeouts are in seconds.
pub record EntryParam : Type 0 where
  pub ino : ℕ
  pub attr_timeout : ℕ
  pub entry_timeout : ℕ
  pub attributes : Stat

-- An entry of the directory buffer of readdirplus, as fuse_add_direntry_plus takes it.
pub record DirentryPlus : Type 0 where
  pub name : Text
  pub param : EntryParam
  pub cookie : ℕ

pub record StatVfs : Type 0 where
  pub f_bsize : ℕ
  pub f_frsize : ℕ
  pub f_blocks : ℕ
  pub f_bfree : ℕ
  pub f_bavail : ℕ
  pub f_files : ℕ
  pub f_ffree : ℕ
  pub f_favail : ℕ

-- The calls fuse_reply_*, with what they carry.
pub data Reply : Type 0 where
  err : (errno : ℕ) → Reply
  entry : Stat → Reply
  attr : Stat → Reply
  opened : (fh : ℕ) → Reply
  created : Stat → (fh : ℕ) → Reply
  buffer : ℕ × List ℕ → Reply
  written : ℕ → Reply
  listing : List Direntry → (filled : ℕ) → Reply
  listing_plus : List DirentryPlus → (filled : ℕ) → Reply
  statvfs : StatVfs → Reply

-- Whether `catch (std::exception &)` sees it.
unfoldable pub is_std : Exn → Bool
is_std (number _) = false
is_std (literal _) = false
is_std (text _) = false
is_std _ = true

module _ {S A : Type 0} where
  unfoldable pub catch_run : Run S A → (Exn → Cmd S A) → Run S A
  unfolding is_std
  catch_run (ok a s) handler = ok a s
  catch_run (throw e s) handler = if is_std e then handler e s else throw e s
  catch_run fault handler = fault
  catch_run out_of_fuel handler = out_of_fuel

  -- try { body } catch (std::exception &e) { handler }
  unfoldable pub try_catch : Cmd S A → (Exn → Cmd S A) → Cmd S A
  unfolding catch_run
  try_catch body handler s = catch_run (body s) handler

abbrev pub one : {S : Type 0} → Reply → Cmd S (List Reply)
one r = pure (r ∷ [])

-- The catch clauses of most handlers, of rmdir, and of open and opendir.
abbrev pub to_eio : {S : Type 0} → Exn → Cmd S (List Reply)
to_eio e = one (err eio)

pub rmdir_error : Exn → ℕ
rmdir_error enotempty = enotempty_no
rmdir_error _ = eio

pub open_error : Exn → ℕ
open_error enoent = enoent_no
open_error _ = eio

pub fill_inode_attr : Inode → Stat
fill_inode_attr i = record {
  st_ino = i.ino;
  st_mode = i.mode;
  st_gid = i.gid;
  st_uid = i.uid;
  st_size = i.size;
  st_ctim = i.ctime;
  st_mtim = i.mtime;
}

abbrev block_size : ℕ
block_size = 4096

abbrev total_space : ℕ
total_space = 2 ^ 30

-- The constants TOTAL_BLOCKS and INODES are of 32 bits.
abbrev total_blocks : ℕ
total_blocks = total_space / block_size % 2 ^ 32

abbrev max_inodes : ℕ
max_inodes = 1 * 1000 * 1000 * 1000 % 2 ^ 32

pub statfs : Reply
statfs = statvfs (record {
  f_bsize = block_size;
  f_frsize = block_size;
  f_blocks = total_blocks;
  f_bfree = total_blocks;
  f_bavail = total_blocks;
  f_files = max_inodes;
  f_ffree = max_inodes;
  f_favail = max_inodes;
})

-- The handlers that only answer ENOSYS: fsyncdir, setxattr, getxattr, listxattr, removexattr,
-- access, getlk, setlk, bmap, poll, retrieve_reply, forget_multi, flock, fallocate,
-- copy_file_range and lseek.
pub unsupported : {S : Type 0} → Cmd S (List Reply)
unsupported = one (err enosys)

-- The handlers that write the log and send nothing: forget, mknod, symlink, rename, link and fsync.
pub unanswered : {S : Type 0} → Cmd S (List Reply)
unanswered = pure []

pub readlink : {S : Type 0} → Cmd S (List Reply)
readlink = one (err eperm)

pub flush : {S : Type 0} → Cmd S (List Reply)
flush = one (err 0)

-- setattr changes nothing and answers with the attributes that it was sent.
pub setattr : {S : Type 0} → Stat → Cmd S (List Reply)
setattr a = one (attr a)

module _ (stor : Stor) (malloc : ℕ → List ℕ) (clock : ℕ → Timespec) (junk : ObjInfo) where
  inode_of : Ptr → Cmd (CatFs stor.State) Inode
  inode_of dentry = do
    d ← on_meta (Impl.on_dentry (read_dentry dentry))
    on_meta (Impl.on_dentry (read_inode d.inode))

  pub reply_inode : (dentry : Ptr) → Cmd (CatFs stor.State) (List Reply)
  unfolding fill_inode_attr inode_of
  reply_inode dentry = do i ← inode_of dentry; one (entry (fill_inode_attr i))

  pub lookup : (parent : ℕ) → Text → Cmd (CatFs stor.State) (List Reply)
  unfolding reply_inode try_catch
  lookup parent name =
      try_catch
        (do
          dentry ← Fs.find_dentry stor malloc clock junk parent name
          if dentry == null then one (err enoent_no) else reply_inode dentry)
        to_eio

  pub getattr : (ino : ℕ) → Cmd (CatFs stor.State) (List Reply)
  unfolding fill_inode_attr try_catch
  getattr ino =
      try_catch
        (do
          p ← Fs.lookup_inode stor malloc clock junk ino
          if p == null
              then one (err enoent_no)
              else do i ← on_meta (Impl.on_dentry (read_inode p)); one (attr (fill_inode_attr i)))
        to_eio

  pub mkdir : (parent : ℕ) → Text → (mode : ℕ) → Cmd (CatFs stor.State) (List Reply)
  unfolding reply_inode try_catch
  mkdir parent name mode =
      try_catch
        (do
          dentry ← Fs.create_dentry stor malloc clock junk parent name (bit_or mode s_ifdir)
          if dentry == null then one (err eio) else reply_inode dentry)
        to_eio

  pub unlink : (parent : ℕ) → Text → Cmd (CatFs stor.State) (List Reply)
  unfolding try_catch
  unlink parent name =
      try_catch (do Fs.remove_dentry stor malloc clock junk parent name; one (err 0)) to_eio

  pub rmdir : (parent : ℕ) → Text → Cmd (CatFs stor.State) (List Reply)
  unfolding try_catch rmdir_error
  rmdir parent name =
      try_catch (do Fs.remove_dentry stor malloc clock junk parent name; one (err 0))
        (λ e. one (err (rmdir_error e)))

  pub open_file : (ino : ℕ) → Cmd (CatFs stor.State) (List Reply)
  unfolding try_catch open_error
  open_file ino =
      try_catch (do hno ← Fs.openfile stor malloc clock junk ino; one (opened hno))
        (λ e. one (err (open_error e)))

  pub create : (parent : ℕ) → Text → (mode : ℕ) → Cmd (CatFs stor.State) (List Reply)
  unfolding fill_inode_attr inode_of try_catch
  create parent name mode =
      try_catch
        (do
          dentry ← Fs.create_dentry stor malloc clock junk parent name mode
          if dentry == null then one (err eio) else do
            i ← inode_of dentry
            hno ← Fs.openfile stor malloc clock junk i.ino
            i ← inode_of dentry
            one (created (fill_inode_attr i) hno))
        to_eio

  pub read : (fh off size : ℕ) → Cmd (CatFs stor.State) (List Reply)
  unfolding try_catch
  read fh off size =
      try_catch (do answer ← Fs.readfile stor malloc clock junk fh off size; one (buffer answer))
        to_eio

  pub write : (fh off : ℕ) → List ℕ → (size : ℕ) → Cmd (CatFs stor.State) (List Reply)
  unfolding try_catch
  write fh off buf size =
      try_catch (do n ← Fs.writefile stor malloc clock junk fh off size buf; one (written n)) to_eio

  -- The loop over the member `buf` of a fuse_bufvec, which is an array of one element, with its size.
  pub write_bufs : (fh offset res : ℕ) → (mem : List ℕ) (size : ℕ) → Cmd (CatFs stor.State) ℕ
  write_bufs fh offset res mem size = do
    n ← Fs.writefile stor malloc clock junk fh offset size mem
    pure (add64 res n)

  -- The buffers that follow the first in a longer vector are not looked at.
  pub write_buf :
      (fh off : ℕ)
      → (first : List ℕ × ℕ) (more : List (List ℕ × ℕ)) → Cmd (CatFs stor.State) (List Reply)
  unfolding try_catch write_bufs
  write_buf fh off (mem, size) more =
      try_catch (do res ← write_bufs fh off 0 mem size; one (written res)) to_eio

  pub release : (fh : ℕ) → Cmd (CatFs stor.State) (List Reply)
  unfolding try_catch
  release fh = try_catch (do Fs.release_file stor malloc clock junk fh; one (err 0)) to_eio

  pub opendir : (ino : ℕ) → Cmd (CatFs stor.State) (List Reply)
  unfolding try_catch open_error
  opendir ino =
      try_catch (do hno ← Fs.opendir stor malloc clock junk ino; one (opened hno))
        (λ e. one (err (open_error e)))

  -- The handler sends no reply.
  pub releasedir : (fh : ℕ) → Cmd (CatFs stor.State) (List Reply)
  releasedir fh = do Fs.release_dir fh; pure []
