-- ===== src/Meta/Local/Absent.antt =====
-- src/meta/meta_local_mem.cpp: lookups in a directory that the tree has.
use catfs.Common.{ℕ, ◌≡◌, none, arith, Text, ok, lookup, text_key}
use catfs.Meta.Heap.{Ptr, null, Dentry, read_dentry}
use catfs.Meta.Dentry
use catfs.Meta.Local.{LocalMemMeta, get_dentry, find_dentry}
use catfs.Meta.Local.Index.{index_at-some}
use catfs.Meta.Local.Tree.{IsParent}

pub get_dentry-some :
    (s : LocalMemMeta) (pino : ℕ) (parent : Ptr) (d : Dentry)
    → IsParent s pino parent d
    → get_dentry pino s ≡ ok parent s
unfolding get_dentry
get_dentry-some s pino parent d is_parent = index_at-some s pino parent is_parent.entry

pub find_dentry-none :
    (s : LocalMemMeta) (pino : ℕ) (name : Text) (parent : Ptr) (d : Dentry)
    → IsParent s pino parent d
    → lookup name d.children ≡ none
    → find_dentry pino name s ≡ ok null s
unfolding find_dentry Dentry.get_child read_dentry
find_dentry-none s pino name parent d is_parent absent =
    ground (arith, get_dentry-some s pino parent d is_parent)
