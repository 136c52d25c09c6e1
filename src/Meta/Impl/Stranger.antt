-- ===== src/Meta/Impl/Stranger.antt =====
-- A name that the small tree does not have, and what S3 has where it has no object of it, or one.
use native.Mathlib.Decide.{ℕ_discrete}
use catfs.Common.{
  Text, lookup, insert, text_key, text_discrete, refl, none, ◌≡◌, ◌%◌, true, false, [], ◌∷◌, bytes,
  arith, ok,
}
use catfs.Stor.{PutFileReq, ObjInfo, empty_listing}
use catfs.Stor.S3.{head_file, list_objects, put_file}
use catfs.Meta.Impl.{MetaImpl}
use catfs.Stor.S3.Memory.{Memory, blank}
use catfs.Writer.Sample.{backend, junk}
use catfs.Meta.Dentry.FullPath.{key_prefix}
use catfs.Meta.Sample.{name_a, dir_dentry, dir-IsParent, dir-Chain}
use catfs.Meta.Impl.Absent.{IsAbsent, IsUnknown}
use catfs.Meta.Impl.Located.{IsLocated, a_dir}
use catfs.Meta.Impl.Remove.{entry_key}
use catfs.Meta.Impl.Sample.{state}

abbrev pub name_c : Text
name_c = bytes "c"

-- What S3 has after an empty object was put under the key of the directory "c".
abbrev pub with_dir : Memory
with_dir = record blank { objects = insert (entry_key (name_a ∷ []) name_c true) [] [] }

pub c-IsAbsent : IsAbsent state 2 name_c (name_a ∷ []) 4 dir_dentry
unfolding lookup text_discrete ℕ_discrete
c-IsAbsent = record {
  is_parent = dir-IsParent;
  unlinked = refl;
  chain = dir-Chain;
  short = omega arith;
}

pub c-IsUnknown : IsUnknown backend junk (key_prefix (name_a ∷ [])) name_c blank blank
unfolding head_file list_objects key_prefix lookup
c-IsUnknown = record {
  as_file = record { exist = false; obj = junk };
  as_dir = record { exist = false; obj = junk };
  within = empty_listing;
  after_file = blank;
  after_dir = blank;
  head_file = refl;
  no_file = refl;
  head_dir = refl;
  no_dir = refl;
  list_within = refl;
  none_within = refl;
}

abbrev pub c_put : PutFileReq
c_put = record {
  obj_key = entry_key (name_a ∷ []) name_c true;
  buf = none;
  meta_data =
      insert (bytes "gid") (0 ∷ [])
        (insert (bytes "uid") (0 ∷ []) (insert (bytes "mode") ((0o40755 % 256) ∷ []) []));
}

pub c-put : backend.put_file c_put blank ≡ ok tt with_dir
unfolding put_file
c-put = refl

-- S3 has the object of the directory "c" in the directory "a", of three bytes, and nothing else.
abbrev pub has_c : Memory
has_c = record blank { objects = (bytes "a/c/", 1 ∷ 2 ∷ 3 ∷ []) ∷ [] }

abbrev pub with_c : MetaImpl Memory
with_c = record state { backend = has_c }

-- The object as S3Stor::head_file gives it: without an owner and a mode.
abbrev pub c_object : ObjInfo
c_object = record junk { size = 3 }

pub with_c-IsAbsent : IsAbsent with_c 2 name_c (name_a ∷ []) 4 dir_dentry
unfolding lookup text_discrete ℕ_discrete
with_c-IsAbsent = record {
  is_parent = dir-IsParent;
  unlinked = refl;
  chain = dir-Chain;
  short = omega arith;
}

pub c-IsLocated : IsLocated backend junk (key_prefix (name_a ∷ [])) name_c has_c has_c true c_object
unfolding head_file key_prefix lookup text_discrete ℕ_discrete
c-IsLocated =
    a_dir (record { exist = false; obj = junk }) (record { exist = true; obj = c_object }) has_c
      refl refl refl refl
