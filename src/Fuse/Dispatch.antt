-- ===== src/Fuse/Dispatch.antt =====
-- src/fs/fsa.h: the requests that the adapter declares a handler for, and the table catfs_oper,
-- which gives each its handler. init and destroy, which answer no request, are left out.
mod Examples
pub mod Ending
pub mod Numbers
pub mod Paths
pub mod Reach
pub mod Replies
use catfs.Common.{ℕ, Bool, true, false, Option, none, some, List, [], ◌∷◌, Text, Cmd}
use catfs.Stor.{Stor, Timespec, ObjInfo}
use catfs.Fs.{CatFs}
use catfs.Fuse.{Stat, Reply, one}
use catfs.Fuse
use catfs.Fuse.Readdir

-- A request, with what its handler reads of it. `fh` is the handle in the fuse_file_info.
pub data Request : Type 0 where
  statfs : Request
  lookup : (parent : ℕ) → (name : Text) → Request
  forget : Request
  getattr : (ino : ℕ) → Request
  setattr : (attr : Stat) → Request
  readlink mknod : Request
  mkdir : (parent : ℕ) → (name : Text) → (mode : ℕ) → Request
  unlink rmdir : (parent : ℕ) → (name : Text) → Request
  symlink rename link : Request
  open_file : (ino : ℕ) → Request
  create : (parent : ℕ) → (name : Text) → (mode : ℕ) → Request
  read : (fh off size : ℕ) → Request
  write : (fh off : ℕ) → (buf : List ℕ) → (size : ℕ) → Request
  write_buf : (fh off : ℕ) → (first : List ℕ × ℕ) → (more : List (List ℕ × ℕ)) → Request
  flush : Request
  release : (fh : ℕ) → Request
  fsync : Request
  opendir : (ino : ℕ) → Request
  readdir readdirplus : (fh size off : ℕ) → Request
  releasedir : (fh : ℕ) → Request
  fsyncdir setxattr getxattr listxattr removexattr access getlk setlk bmap poll : Request
  retrieve_reply forget_multi flock fallocate copy_file_range lseek : Request

module _ (stor : Stor) (malloc : ℕ → List ℕ) (clock : ℕ → Timespec) (junk : ObjInfo)
    (entry_size plus_size : Text → ℕ) (fuel : ℕ) where
  -- catfs_oper
  pub answer : Request → Cmd (CatFs stor.State) (List Reply)
  answer statfs = one Fuse.statfs
  answer (lookup parent name) = Fuse.lookup stor malloc clock junk parent name
  answer forget = Fuse.unanswered
  answer (getattr ino) = Fuse.getattr stor malloc clock junk ino
  answer (setattr attr) = Fuse.setattr attr
  answer readlink = Fuse.readlink
  answer mknod = Fuse.unanswered
  answer (mkdir parent name mode) = Fuse.mkdir stor malloc clock junk parent name mode
  answer (unlink parent name) = Fuse.unlink stor malloc clock junk parent name
  answer (rmdir parent name) = Fuse.rmdir stor malloc clock junk parent name
  answer symlink = Fuse.unanswered
  answer rename = Fuse.unanswered
  answer link = Fuse.unanswered
  answer (open_file ino) = Fuse.open_file stor malloc clock junk ino
  answer (create parent name mode) = Fuse.create stor malloc clock junk parent name mode
  answer (read fh off size) = Fuse.read stor malloc clock junk fh off size
  answer (write fh off buf size) = Fuse.write stor malloc clock junk fh off buf size
  answer (write_buf fh off first more) = Fuse.write_buf stor malloc clock junk fh off first more
  answer flush = Fuse.flush
  answer (release fh) = Fuse.release stor malloc clock junk fh
  answer fsync = Fuse.unanswered
  answer (opendir ino) = Fuse.opendir stor malloc clock junk ino
  answer (readdir fh size off) = Readdir.readdir stor malloc clock junk entry_size fuel fh size off
  answer (readdirplus fh size off) =
      Readdir.readdirplus stor malloc clock junk plus_size fuel fh size off
  answer (releasedir fh) = Fuse.releasedir stor malloc clock junk fh
  answer fsyncdir = Fuse.unsupported
  answer setxattr = Fuse.unsupported
  answer getxattr = Fuse.unsupported
  answer listxattr = Fuse.unsupported
  answer removexattr = Fuse.unsupported
  answer access = Fuse.unsupported
  answer getlk = Fuse.unsupported
  answer setlk = Fuse.unsupported
  answer bmap = Fuse.unsupported
  answer poll = Fuse.unsupported
  answer retrieve_reply = Fuse.unsupported
  answer forget_multi = Fuse.unsupported
  answer flock = Fuse.unsupported
  answer fallocate = Fuse.unsupported
  answer copy_file_range = Fuse.unsupported
  answer lseek = Fuse.unsupported
