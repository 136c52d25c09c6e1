-- ===== src/Meta/Dentry.antt =====
-- src/types/dentry.h: the methods of Dentry, on the address of the object.
pub mod Expiry
pub mod FullPath
use Prim.Native.Nat.{bit_and, bit_or}
use catfs.Common.{
  ℕ, zero, suc, ◌+◌, ◌-◌, ◌^◌, Bool, not, Option, none, some, List, [], ◌∷◌, ◌++◌, Text, bytes,
  text_key, lookup, insert, erase, Cmd, out_of_fuel, pure, reads, ◌>>=◌, ◌>>◌, length, ltb, ◌==◌,
  if◌then◌else◌,
}
use catfs.Stor.{Timespec}
use catfs.Meta.Heap.{
  Ptr, null, root_inode_id, Dentry, Dirent, Heap, fresh_dentry, read_dentry, read_inode,
  write_dentry, write_inode, new_dentry, free_dentry, free_inode, now,
}

abbrev pub s_ifdir : ℕ
s_ifdir = 0o40000

abbrev pub d_complete : ℕ
d_complete = 1

unfoldable pub is_root : Ptr → Cmd Heap Bool
is_root this = do d ← read_dentry this; i ← read_inode d.inode; pure (i.ino == root_inode_id)

-- The loop of get_full_path; `fuel` is spent on each parent.
unfoldable pub path_loop : ℕ → Ptr → Text → Cmd Heap Text
unfolding is_root
path_loop zero parent fullpath = λ h. out_of_fuel
path_loop (suc fuel) parent fullpath = if parent == null then pure fullpath else do
  top ← is_root parent
  if top
      then pure fullpath
      else do d ← read_dentry parent; path_loop fuel d.parent (d.name ++ (bytes "/" ++ fullpath))

-- No chain of parents without a cycle is longer than the addresses given out.
unfoldable pub get_full_path : Ptr → Cmd Heap Text
unfolding path_loop
get_full_path this = do
  top ← is_root this
  if top then pure [] else do
    d ← read_dentry this
    fuel ← reads (λ h. h.next_ptr)
    path_loop (suc fuel) d.parent d.name

unfoldable pub get_full_path_with_slash : Ptr → Cmd Heap Text
unfolding get_full_path
get_full_path_with_slash this = do
  top ← is_root this
  if top then pure [] else do path ← get_full_path this; pure (path ++ bytes "/")

abbrev pub or_null : Option Ptr → Ptr
or_null none = null
or_null (some p) = p

unfoldable pub get_child : Ptr → Text → Cmd Heap Ptr
get_child this name = do d ← read_dentry this; pure (or_null (lookup name d.children))

unfoldable pub add_child : Ptr → Text → (inode : Ptr) → Cmd Heap Ptr
add_child this name inode = do
  child ← new_dentry (fresh_dentry name inode)
  write_dentry child (λ d. record d { parent = this })
  write_dentry this (λ d. record d { children = insert name child d.children })
  pure child

-- `new` and `free` are taken for one allocator.
unfoldable pub remove_child : Ptr → Text → Cmd Heap (Unit {0})
remove_child this name = do
  d ← read_dentry this
  elim (lookup name d.children) [
    | none ↦ pure tt
    | some target ↦ do
      t ← read_dentry target
      free_inode t.inode
      free_dentry target
      write_dentry this (λ d. record d { children = erase name d.children })
  ]

pub is_complete : Dentry → Bool
is_complete d = bit_and d.flags d_complete == d_complete

unfoldable pub complete : Dentry → Dentry
complete d = record d { flags = bit_or d.flags d_complete }

pub clear_complete : Dentry → Dentry
clear_complete d = record d { flags = bit_and d.flags (2 ^ 32 - 1 - d_complete) }

unfoldable pub is_dir : Ptr → Cmd Heap Bool
is_dir this = do
  d ← read_dentry this
  i ← read_inode d.inode
  pure (not (bit_and i.mode s_ifdir == 0))

unfoldable pub set_ttl : Timespec → Dentry → Dentry
set_ttl ttl d = record d { ttl = ttl }

unfoldable pub update : Ptr → (size : ℕ) → (ctime mtime : Timespec) → Cmd Heap (Unit {0})
update this size ctime mtime = do
  d ← read_dentry this
  write_inode d.inode (λ i. record i { size = size })
  write_inode d.inode (λ i. record i { ctime = ctime })
  write_inode d.inode (λ i. record i { mtime = mtime })

unfoldable pub list_loop : List (Text × Ptr) → List Dirent → Cmd Heap (List Dirent)
list_loop [] dirents = pure dirents
list_loop ((_, v) ∷ rest) dirents = do
  d ← read_dentry v
  list_loop rest (dirents ++ record { name = d.name; inode = d.inode } ∷ [])

unfoldable pub children_list : Ptr → List Dirent → Cmd Heap (List Dirent)
unfolding list_loop
children_list this dirents = do d ← read_dentry this; list_loop d.children dirents

unfoldable pub child_count : Ptr → Cmd Heap ℕ
child_count this = do d ← read_dentry this; pure (length d.children)

-- The test of is_expired, at the time `now`.
unfoldable pub expired_at : Timespec → Timespec → Bool
expired_at now ttl =
    if ttl.tv_sec == now.tv_sec then ltb ttl.tv_nsec now.tv_nsec else ltb ttl.tv_sec now.tv_sec

module _ (clock : ℕ → Timespec) where
  unfoldable pub is_expired : Ptr → Cmd Heap Bool
  unfolding expired_at
  is_expired this = do t ← now clock; d ← read_dentry this; pure (expired_at t d.ttl)

  unfoldable pub inc_ttl : Ptr → (duration : ℕ) → Cmd Heap (Unit {0})
  unfolding set_ttl
  inc_ttl this duration = do
    t ← now clock
    write_dentry this (set_ttl (record t { tv_sec = t.tv_sec + duration }))
