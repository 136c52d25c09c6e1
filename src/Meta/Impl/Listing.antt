-- ===== src/Meta/Impl/Listing.antt =====
-- src/meta/meta_impl.cpp: build_ftree_from_listobjects, on keys that begin with the prefix asked for.
use mathlib.Core.List.{map}
use mathlib.Core.Logic.{ite}
use catfs.Common.{
  text_discrete, Option, Option-cases, inl, inr, none, some, if◌then◌else◌, ℕ, ◌+◌, ◌-◌, ◌^◌, ◌≡◌,
  ◌≢◌, refl, ◌<◌, ◌≤◌, length, Bool, true, false, List, [], ◌∷◌, ◌++◌, arith, Text, bytes, ok,
  length-append, take-append, drop-append, sub64, take_all,
}
use catfs.Stor.{ObjInfo}
use catfs.Meta.Local.{FTreeNode, cons, node, FTreeNodes, nil}
use catfs.Meta.Impl.{
  substr, no_obj, insert_node, dirs_loop, files_loop, build_ftree_from_listobjects,
}

sub64_lem : (a b : ℕ) → b ≤ a → a < 2 ^ 64 → sub64 a b ≡ a - b
sub64_lem a b le lt = omega arith

module _ (prefix : Text) where
  -- The key of the prefix that stands for a directory of that name.
  abbrev pub dir_key : Text → Text
  dir_key name = prefix ++ (name ++ bytes "/")

  -- Names of directories, none of them empty, with keys whose length is a uint64_t.
  unfoldable pub DirNames : List Text → Type 0
  DirNames [] = Unit
  DirNames (n ∷ ns) = (n ≢ []) × (length prefix + length n + 1 < 2 ^ 64) × DirNames ns

  abbrev pub file_obj : Text × ObjInfo → ObjInfo
  file_obj (name, obj) = record obj { name = prefix ++ name }

  unfoldable pub FileNames : List (Text × ObjInfo) → Type 0
  FileNames [] = Unit
  FileNames ((n, _) ∷ ns) = (length prefix + length n < 2 ^ 64) × FileNames ns

  with_dirs : List Text → FTreeNodes → FTreeNodes
  with_dirs [] children = children
  with_dirs (n ∷ ns) children = with_dirs ns (insert_node n (node n true nil no_obj) children)

  with_files : List (Text × ObjInfo) → FTreeNodes → FTreeNodes
  with_files [] children = children
  with_files ((n, obj) ∷ ns) children =
      with_files ns (insert_node n (node n false nil (file_obj (n, obj))) children)

-- The node of that key.
pub find_node : Text → FTreeNodes → Option FTreeNode
find_node key nil = none
find_node key (cons k n rest) =
    let later = find_node key rest in ite (text_discrete k key) (some n) later

find_node-insert_node :
    (name key : Text) (child : FTreeNode) (children : FTreeNodes)
    → find_node name (insert_node key child children)
      ≡ ite (text_discrete key name) (some child) (find_node name children)
unfolding find_node insert_node
find_node-insert_node name key child nil = refl
find_node-insert_node name key child (cons k n rest) =
    ground (arith, find_node-insert_node name key child rest)

-- The last object of that name.
pub last_of : Text → List (Text × ObjInfo) → Option ObjInfo
last_of name [] = none
last_of name ((n, obj) ∷ ns) = elim (last_of name ns) [
  | some later ↦ some later
  | none ↦ ite (text_discrete n name) (some obj) none
]

-- Whether a directory has that name.
pub has_name : Text → List Text → Bool
has_name name [] = false
has_name name (n ∷ ns) = let rest = has_name name ns in ite (text_discrete n name) true rest

-- The node of a name that an object has, or a directory, or neither.
abbrev pub expected : (prefix name : Text) → Option ObjInfo → (is_dir : Bool) → Option FTreeNode
expected prefix name (some obj) is_dir =
    some (node name false nil (record obj { name = prefix ++ name }))
expected prefix name none true = some (node name true nil no_obj)
expected prefix name none false = none

module _ (prefix : Text) where
  -- The node of the object, or what stands there where there is none.
  abbrev file_or : Text → Option ObjInfo → Option FTreeNode → Option FTreeNode
  file_or name none other = other
  file_or name (some obj) other = some (node name false nil (file_obj prefix (name, obj)))

  file_or-expected :
      (name : Text) (o : Option ObjInfo) (is_dir : Bool)
      → file_or name o (if is_dir then some (node name true nil no_obj) else none)
        ≡ expected prefix name o is_dir
  file_or-expected name (some obj) is_dir = refl
  file_or-expected name none true = refl
  file_or-expected name none false = refl

  with_dirs-find_node :
      (name : Text) (ns : List Text) (children : FTreeNodes)
      → find_node name (with_dirs prefix ns children)
        ≡ (if has_name name ns then some (node name true nil no_obj) else find_node name children)
  unfolding with_dirs has_name
  with_dirs-find_node name [] children = refl
  with_dirs-find_node name (n ∷ ns) children = ground (
    arith,
    with_dirs-find_node name ns (insert_node n (node n true nil no_obj) children),
    find_node-insert_node name n (node n true nil no_obj) children,
  )

  with_files-find_node :
      (name : Text) (ns : List (Text × ObjInfo)) (children : FTreeNodes)
      → find_node name (with_files prefix ns children)
        ≡ file_or name (last_of name ns) (find_node name children)
  unfolding with_files last_of
  with_files-find_node name [] children = refl
  with_files-find_node name ((n, obj) ∷ ns) children =
      let child = node n false nil (file_obj prefix (n, obj)) in
      elim (Option-cases (last_of name ns)) [
        | inl e ↦ elim (text_discrete n name) [
          | yes same ↦ ground (
            arith,
            with_files-find_node name ns (insert_node n child children),
            find_node-insert_node name n child children,
          )
          | no other ↦ ground (
            arith,
            with_files-find_node name ns (insert_node n child children),
            find_node-insert_node name n child children,
          )
        ]
        | inr (later, e) ↦
            ground (arith, with_files-find_node name ns (insert_node n child children))
      ]

module _ {S : Type 0} (s : S) (prefix : Text) where
  substr_dir :
      (n : Text)
      → length prefix + length n + 1 < 2 ^ 64
      → substr
          (dir_key prefix n)
          (length prefix)
          (sub64 (sub64 (length (dir_key prefix n)) (length prefix)) 1)
          s
        ≡ ok n s
  unfolding substr
  substr_dir n short =
      let len : length (dir_key prefix n) ≡ length prefix + length n + 1 =
        omega (arith, length-append prefix (n ++ bytes "/"), length-append n (bytes "/")) in
      let count : sub64 (sub64 (length (dir_key prefix n)) (length prefix)) 1 ≡ length n =
        omega (arith, len) in
      ground (
        arith,
        len,
        count,
        drop-append (length prefix) prefix (n ++ bytes "/") refl,
        take-append (length n) n (bytes "/") refl,
      )

  substr_file :
      (n : Text)
      → length prefix + length n < 2 ^ 64
      → substr (prefix ++ n) (length prefix) (sub64 (length (prefix ++ n)) (length prefix)) s
        ≡ ok n s
  unfolding substr
  substr_file n short =
      let len : length (prefix ++ n) ≡ length prefix + length n = length-append prefix n in
      let count : sub64 (length (prefix ++ n)) (length prefix) ≡ length n = omega (arith, len) in
      ground (
        arith,
        len,
        count,
        drop-append (length prefix) prefix n refl,
        take_all (length n) n (omega arith),
      )

  dirs_loop-with_dirs :
      (ns : List Text) (children : FTreeNodes)
      → DirNames prefix ns
      → dirs_loop prefix (map (dir_key prefix) ns) children s ≡ ok (with_dirs prefix ns children) s
  unfolding dirs_loop with_dirs DirNames
  dirs_loop-with_dirs [] children h = refl
  dirs_loop-with_dirs (n ∷ ns) children (ne, short, rest) = ground (
    arith,
    substr_dir n short,
    dirs_loop-with_dirs ns (insert_node n (node n true nil no_obj) children) rest,
  )

  files_loop-with_files :
      (ns : List (Text × ObjInfo)) (children : FTreeNodes)
      → FileNames prefix ns
      → files_loop prefix (map (file_obj prefix) ns) children s
        ≡ ok (with_files prefix ns children) s
  unfolding files_loop with_files FileNames
  files_loop-with_files [] children h = refl
  files_loop-with_files ((n, obj) ∷ ns) children (short, rest) = ground (
    arith,
    substr_file n short,
    files_loop-with_files ns (insert_node n (node n false nil (file_obj prefix (n, obj))) children)
        rest,
  )

  -- A listing whose keys are a prefix and names, where the key of a directory has a slash after the
  -- name, gives for each name the node of the last object of that name, if there is one, or else
  -- that of a directory, if there is one of that name, and for no other name a node.
  pub build_ftree-names :
      (dirs : List Text) (files : List (Text × ObjInfo)) (trunc : Bool) (next : Text)
      → DirNames prefix dirs
      → FileNames prefix files
      → (children : FTreeNodes) × (build_ftree_from_listobjects prefix
            (record {
              is_trunc = trunc;
              next_marker = next;
              objs = map (file_obj prefix) files;
              common_prefixes = map (dir_key prefix) dirs;
            })
            s
          ≡ ok children s)
        × ((name : Text)
            → find_node name children
              ≡ expected prefix name (last_of name files) (has_name name dirs))
  unfolding build_ftree_from_listobjects find_node
  build_ftree-names dirs files trunc next d f = (
    with_files prefix files (with_dirs prefix dirs nil),
    ground (
      arith,
      dirs_loop-with_dirs dirs nil d,
      files_loop-with_files files (with_dirs prefix dirs nil) f,
    ),
    λ name. ground (
      arith,
      with_files-find_node prefix name files (with_dirs prefix dirs nil),
      with_dirs-find_node prefix name dirs nil,
      file_or-expected prefix name (last_of name files) (has_name name dirs),
    ),
  )
