-- ===== src/Fuse/Dispatch/Replies.antt =====
-- src/fs/fsa.h: each request gets one reply, or is one of those that get none, and keeps the tree
-- sound; and what holds of any history of requests.
use catfs.Common.{
  ℕ, ◌≡◌, refl, Bool, true, false, List, Text, length, Ends, Ends-map, ends_ok, ◌^◌, ◌≤◌, [],
  if◌then◌else◌,
}
use catfs.Stor.{Stor, Timespec, ObjInfo}
use catfs.Stor.Ending.{IsEnding, IsParted, Listed, any-IsEnding, any-IsParted, any-Pages}
use catfs.Fs.{CatFs}
use catfs.Fs.Kept.{Mounted, Ready, any-Ready}
use catfs.Fuse.{Reply, Direntry, try_catch, catch_run, is_std, to_eio, inode_of}
use catfs.Fuse
use catfs.Fuse.Dispatch.{
  Request, statfs, lookup, forget, getattr, setattr, readlink, mknod, mkdir, unlink, rmdir, symlink,
  rename, link, open_file, create, read, write, write_buf, flush, release, fsync, opendir, readdir,
  readdirplus, releasedir, fsyncdir, setxattr, getxattr, listxattr, removexattr, access, getlk,
  setlk, bmap, poll, retrieve_reply, forget_multi, flock, fallocate, copy_file_range, lseek, answer,
}
use catfs.Fuse.Answers
use catfs.Fuse.Readdir.Filled.{readdir-Answers, readdirplus-Answers}

-- The requests whose handlers send nothing.
pub silent : Request → Bool
silent forget = true
silent mknod = true
silent symlink = true
silent rename = true
silent link = true
silent fsync = true
silent (releasedir _) = true
silent _ = false

-- A write has less than 2 GiB, unless `F` holds.
abbrev pub Fits : Type 0 → Request → Type 0
Fits F (write _ _ _ size) = 2 ^ 31 ≤ size → F
Fits F (write_buf _ _ (_, size) _) = 2 ^ 31 ≤ size → F
Fits F _ = Unit {0}

pub any-Fits : (r : Request) → Fits (Unit {0}) r
any-Fits (write fh off buf size) = λ _. tt
any-Fits (write_buf fh off (mem, size) more) = λ _. tt
any-Fits _ = tt

-- The number of replies that the kernel waits for, or none from a handler that sends none.
abbrev pub Sent : Request → List Reply → Type 0
Sent r rs = length rs ≡ (if silent r then 0 else 1)

module _ {F G : Type 0} (stor : Stor) (malloc : ℕ → List ℕ) (clock : ℕ → Timespec) (junk : ObjInfo)
    (entry_size plus_size : Text → ℕ) (fuel : ℕ) ⦃ending : IsEnding F stor⦄
    ⦃parted : IsParted G stor⦄ (grant : G → F) where
  pub answer-Ready :
      (r : Request) (s : CatFs stor.State)
      → Ready G s
      → Fits F r
      → Listed F stor fuel s.meta.backend
      → Ends F
          (λ rs s. Sent r rs × Ready G s)
          (Ready G)
          (answer stor malloc clock junk entry_size plus_size fuel r s)
  unfolding answer silent Fuse.statfs Fuse.unanswered Fuse.unsupported Fuse.setattr Fuse.readlink
      Fuse.flush
  answer-Ready statfs s h fit pages = ends_ok (refl, h)
  answer-Ready (lookup parent name) s h fit pages =
      Answers.lookup-Answers stor malloc clock junk parent name s h
  answer-Ready forget s h fit pages = ends_ok (refl, h)
  answer-Ready (getattr ino) s h fit pages = Answers.getattr-Answers stor malloc clock junk ino s h
  answer-Ready (setattr attr) s h fit pages = ends_ok (refl, h)
  answer-Ready readlink s h fit pages = ends_ok (refl, h)
  answer-Ready mknod s h fit pages = ends_ok (refl, h)
  answer-Ready (mkdir parent name mode) s h fit pages =
      Answers.mkdir-Answers stor malloc clock junk parent name mode s h
  answer-Ready (unlink parent name) s h fit pages =
      Answers.unlink-Answers stor malloc clock junk parent name s h
  answer-Ready (rmdir parent name) s h fit pages =
      Answers.rmdir-Answers stor malloc clock junk parent name s h
  answer-Ready symlink s h fit pages = ends_ok (refl, h)
  answer-Ready rename s h fit pages = ends_ok (refl, h)
  answer-Ready link s h fit pages = ends_ok (refl, h)
  answer-Ready (open_file ino) s h fit pages =
      Answers.open_file-Answers stor malloc clock junk ino s h
  answer-Ready (create parent name mode) s h fit pages =
      Answers.create-Answers stor malloc clock junk parent name mode s h
  answer-Ready (read fh off size) s h fit pages =
      Answers.read-Answers stor malloc clock junk fh off size s h
  answer-Ready (write fh off buf size) s h fit pages =
      Answers.write-Answers stor malloc clock junk grant fh off buf size fit s h
  answer-Ready (write_buf fh off (mem, size) more) s h fit pages =
      Answers.write_buf-Answers stor malloc clock junk grant fh off (mem, size) more fit s h
  answer-Ready flush s h fit pages = ends_ok (refl, h)
  answer-Ready (release fh) s h fit pages = Answers.release-Answers stor malloc clock junk fh s h
  answer-Ready fsync s h fit pages = ends_ok (refl, h)
  answer-Ready (opendir ino) s h fit pages = Answers.opendir-Answers stor malloc clock junk ino s h
  answer-Ready (readdir fh size off) s h fit pages =
      readdir-Answers stor malloc clock junk entry_size fuel fh size off s h pages
  answer-Ready (readdirplus fh size off) s h fit pages =
      readdirplus-Answers stor malloc clock junk plus_size fuel fh size off s h pages
  answer-Ready (releasedir fh) s h fit pages =
      Answers.releasedir-Ready stor malloc clock junk fh s h
  answer-Ready fsyncdir s h fit pages = ends_ok (refl, h)
  answer-Ready setxattr s h fit pages = ends_ok (refl, h)
  answer-Ready getxattr s h fit pages = ends_ok (refl, h)
  answer-Ready listxattr s h fit pages = ends_ok (refl, h)
  answer-Ready removexattr s h fit pages = ends_ok (refl, h)
  answer-Ready access s h fit pages = ends_ok (refl, h)
  answer-Ready getlk s h fit pages = ends_ok (refl, h)
  answer-Ready setlk s h fit pages = ends_ok (refl, h)
  answer-Ready bmap s h fit pages = ends_ok (refl, h)
  answer-Ready poll s h fit pages = ends_ok (refl, h)
  answer-Ready retrieve_reply s h fit pages = ends_ok (refl, h)
  answer-Ready forget_multi s h fit pages = ends_ok (refl, h)
  answer-Ready flock s h fit pages = ends_ok (refl, h)
  answer-Ready fallocate s h fit pages = ends_ok (refl, h)
  answer-Ready copy_file_range s h fit pages = ends_ok (refl, h)
  answer-Ready lseek s h fit pages = ends_ok (refl, h)

module _ (stor : Stor) (malloc : ℕ → List ℕ) (clock : ℕ → Timespec) (junk : ObjInfo)
    (entry_size plus_size : Text → ℕ) (fuel : ℕ) where
  -- As many replies as the kernel waits for, or none from a handler that sends none.
  abbrev pub Replied : Request → List Reply → CatFs stor.State → Type 0
  Replied r rs s = (length rs ≡ (if silent r then 0 else 1)) × Mounted s

  -- On a sound tree each handler that returns has sent exactly one reply, or none if it is forget,
  -- mknod, symlink, rename, link, fsync or releasedir, and the tree is sound again, also when the
  -- handler throws.
  pub answer-Replied :
      (r : Request) (s : CatFs stor.State)
      → Mounted s
      → Ends
          (Unit {0})
          (Replied r)
          Mounted
          (answer stor malloc clock junk entry_size plus_size fuel r s)
  answer-Replied r s h =
      Ends-map
        (answer-Ready stor malloc clock junk entry_size plus_size fuel ⦃ending = any-IsEnding stor⦄
          ⦃parted = any-IsParted stor⦄ (λ x. x) r s (any-Ready s h) (any-Fits r)
          (λ prefix. any-Pages stor fuel prefix [] s.meta.backend))
        (λ rs s (sent, ready). (sent, ready.0)) (λ s ready. ready.0)
