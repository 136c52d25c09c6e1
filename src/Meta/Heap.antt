-- ===== src/Meta/Heap.antt =====
-- The objects that the metadata code allocates, by address: src/types/dentry.h (the fields of a
-- Dentry) and inode.h. A freed address is never given out again, so that any use of it is a fault.
-- util::now() (src/util/time.h) reads a clock that is a parameter: its n-th reading.
use catfs.Common.{
  ℕ, suc, Bool, false, Option, none, some, List, [], Text, Cmd, ok, fault, modify, ◌>>=◌, ◌==◌,
  if◌then◌else◌,
}
use catfs.Stor.{Timespec}

abbrev pub Ptr : Type 0
Ptr = ℕ

abbrev pub null : Ptr
null = 0

abbrev pub root_inode_id : ℕ
root_inode_id = 1

pub record Inode : Type 0 where
  pub ino : ℕ
  pub size : ℕ
  pub ctime : Timespec
  pub mtime : Timespec
  pub mode : ℕ
  pub uid : ℕ
  pub gid : ℕ

-- `inode` and `parent` are addresses. The order of `children` stands for the map's own order.
pub record Dentry : Type 0 where
  pub name : Text
  pub parent : Ptr
  pub inode : Ptr
  pub ttl : Timespec
  pub flags : ℕ
  pub synced : Bool
  pub children : List (Text × Ptr)

pub record Dirent : Type 0 where
  pub name : Text
  pub inode : Ptr

pub record Heap : Type 0 where
  pub dentries : Ptr → Option Dentry
  pub inodes : Ptr → Option Inode
  pub next_ptr : Ptr
  pub clock_reads : ℕ

abbrev pub epoch : Timespec
epoch = record { tv_sec = 0; tv_nsec = 0 }

-- new Dentry(name, inode), before it is linked
abbrev pub fresh_dentry : Text → Ptr → Dentry
fresh_dentry name inode = record {
  name = name;
  parent = null;
  inode = inode;
  ttl = epoch;
  flags = 0;
  synced = false;
  children = [];
}

-- new Inode(), which is all zero
abbrev pub fresh_inode : Inode
fresh_inode = record { ino = 0; size = 0; ctime = epoch; mtime = epoch; mode = 0; uid = 0; gid = 0 }

abbrev pub at : {A : Type 0} → (Ptr → Option A) → Ptr → Option A → Ptr → Option A
at cells p c q = if p == q then c else cells q

abbrev live : {A : Type 0} → Option A → Cmd Heap A
live none h = fault
live (some a) h = ok a h

unfoldable pub read_dentry : Ptr → Cmd Heap Dentry
read_dentry p h = live (h.dentries p) h

unfoldable pub read_inode : Ptr → Cmd Heap Inode
read_inode p h = live (h.inodes p) h

unfoldable pub write_dentry : Ptr → (Dentry → Dentry) → Cmd Heap (Unit {0})
unfolding read_dentry
write_dentry p f = do
  d ← read_dentry p
  modify (λ h. record h { dentries = at h.dentries p (some (f d)) })

unfoldable pub write_inode : Ptr → (Inode → Inode) → Cmd Heap (Unit {0})
unfolding read_inode
write_inode p f = do
  i ← read_inode p
  modify (λ h. record h { inodes = at h.inodes p (some (f i)) })

unfoldable pub new_dentry : Dentry → Cmd Heap Ptr
new_dentry d h =
    ok h.next_ptr
      (record h { dentries = at h.dentries h.next_ptr (some d); next_ptr = suc h.next_ptr })

unfoldable pub new_inode : Inode → Cmd Heap Ptr
new_inode i h =
    ok h.next_ptr (record h { inodes = at h.inodes h.next_ptr (some i); next_ptr = suc h.next_ptr })

unfoldable pub free_dentry : Ptr → Cmd Heap (Unit {0})
unfolding read_dentry
free_dentry p = do _ ← read_dentry p; modify (λ h. record h { dentries = at h.dentries p none })

unfoldable pub free_inode : Ptr → Cmd Heap (Unit {0})
unfolding read_inode
free_inode p = do _ ← read_inode p; modify (λ h. record h { inodes = at h.inodes p none })

module _ (clock : ℕ → Timespec) where
  unfoldable pub now : Cmd Heap Timespec
  now h = ok (clock h.clock_reads) (record h { clock_reads = suc h.clock_reads })
