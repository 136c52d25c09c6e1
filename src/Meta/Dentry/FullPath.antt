-- ===== src/Meta/Dentry/FullPath.antt =====
-- src/types/dentry.h: the full path of a dentry by the names on the way up to the root.
use catfs.Common.{
  ℕ, zero, suc, ◌≤◌, ◌<◌, ◌≡◌, ◌≢◌, refl, sym, ap, ◌∙◌, some, List, [], ◌∷◌, ◌++◌, append_assoc,
  arith, Text, bytes, ok, length,
}
use catfs.Meta.Heap.{Ptr, null, root_inode_id, Inode, Dentry, Heap, read_dentry, read_inode}
use catfs.Meta.Dentry.{is_root, path_loop, get_full_path, get_full_path_with_slash}

-- From `p` the parents lead up to the root, by dentries of these names, the innermost first.
pub data Chain (h : Heap) : Ptr → List Text → Type 0 where
  root :
      {p : Ptr} (d : Dentry) (i : Inode)
      → h.dentries p ≡ some d
      → h.inodes d.inode ≡ some i
      → i.ino ≡ root_inode_id
      → Chain h p []
  below :
      {p : Ptr} {ns : List Text} (d : Dentry) (i : Inode) (name : Text) (parent : Ptr)
      → h.dentries p ≡ some d
      → h.inodes d.inode ≡ some i
      → i.ino ≢ root_inode_id
      → d.name ≡ name
      → d.parent ≡ parent
      → parent ≢ null
      → Chain h parent ns
      → Chain h p (name ∷ ns)

-- The key prefix of a directory: each name followed by a slash, from the root down.
unfoldable pub key_prefix : List Text → Text
key_prefix [] = []
key_prefix (n ∷ ns) = key_prefix ns ++ (n ++ bytes "/")

-- The key of a name in the root, and in another directory by that directory's path.
pub key_prefix_top : (name : Text) → key_prefix [] ++ name ≡ name
unfolding key_prefix
key_prefix_top name = refl

pub key_prefix_below :
    (n name : Text) (ns : List Text)
    → (key_prefix ns ++ n) ++ (bytes "/" ++ name) ≡ key_prefix (n ∷ ns) ++ name
unfolding key_prefix
key_prefix_below n name ns = simp (
  append_assoc (key_prefix ns) n (bytes "/" ++ name),
  append_assoc (key_prefix ns) (n ++ bytes "/") name,
  append_assoc n (bytes "/") name,
)

path_loop-Chain :
    (fuel : ℕ) {h : Heap} {p : Ptr} {ns : List Text} (path : Text)
    → Chain h p ns
    → p ≢ null
    → length ns < fuel
    → path_loop fuel p path h ≡ ok (key_prefix ns ++ path) h
unfolding path_loop is_root read_dentry read_inode key_prefix
path_loop-Chain zero path c ne enough = absurd (omega arith)
path_loop-Chain (suc fuel) path (root d i at_p at_i is_top) ne enough = ground arith
path_loop-Chain (suc fuel) path (below {ns} d i name parent at_p at_i not_top named up ne' c) ne
      enough =
    ground (arith, path_loop-Chain fuel (name ++ (bytes "/" ++ path)) c ne' (omega arith), regroup)
  where
    regroup :
        key_prefix ns ++ (name ++ (bytes "/" ++ path))
        ≡ (key_prefix ns ++ (name ++ bytes "/")) ++ path
    regroup =
        ap (◌++◌ (key_prefix ns)) (sym (append_assoc name (bytes "/") path))
        ∙ sym (append_assoc (key_prefix ns) (name ++ bytes "/") path)

-- Of a dentry other than the root the path is the prefix of its directory and its name.
pub get_full_path-Chain :
    {h : Heap} {parent : Ptr} {ns : List Text} (p : Ptr) (d : Dentry) (i : Inode)
    → h.dentries p ≡ some d
    → h.inodes d.inode ≡ some i
    → i.ino ≢ root_inode_id
    → d.parent ≡ parent
    → parent ≢ null
    → Chain h parent ns
    → length ns ≤ h.next_ptr
    → get_full_path p h ≡ ok (key_prefix ns ++ d.name) h
unfolding get_full_path is_root read_dentry read_inode
get_full_path-Chain {h} p d i at_p at_i not_top up ne c enough =
    ground (arith, path_loop-Chain (suc h.next_ptr) d.name c ne (omega arith))

-- The path with a slash of any dentry is the key prefix of the names above it and its own.
pub get_full_path_with_slash-Chain :
    {h : Heap} {p : Ptr} {ns : List Text}
    → Chain h p ns
    → length ns ≤ suc h.next_ptr
    → get_full_path_with_slash p h ≡ ok (key_prefix ns) h
unfolding get_full_path_with_slash is_root read_dentry read_inode key_prefix
get_full_path_with_slash-Chain (root d i at_p at_i is_top) enough = ground arith
get_full_path_with_slash-Chain (below {p} {ns} d i name parent at_p at_i not_top named up ne c)
      enough =
    ground (
      arith,
      get_full_path-Chain p d i at_p at_i not_top up ne c (omega arith),
      append_assoc (key_prefix ns) d.name (bytes "/"),
    )
