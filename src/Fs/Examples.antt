-- ===== src/Fs/Examples.antt =====
-- The theorems about files and handles, on the small tree and a backend in memory.
use Prim.Native.Nat.{min}
use native.Mathlib.Decide.{ℕ_discrete}
use mathlib.Core.List.{flatten}
use catfs.Common.{
  ℕ, ◌-◌, ◌≡◌, ◌≢◌, refl, none, some, List, [], ◌∷◌, ◌++◌, arith, ok, lookup, number_key, take,
  drop, through_int, ◌>>◌, ap, ◌∙◌, Text,
}
use catfs.Stor.S3.Memory.{Memory}
use catfs.Writer.Sample.{
  backend, backend-IsBucket, zeroed, zeroed_size, junk, two_blocks, two_blocks_nonempty,
}
use catfs.Meta.Dentry.FullPath.{key_prefix, get_full_path-Chain}
use catfs.Meta.Sample.{clock, name_a, name_b, file_dentry, file_inode, dir-Chain}
use catfs.Fs.{CatFs, OpenFile, openfile, readfile, writefile, release_file}
use catfs.Fs.Handles.{readfile_range}
use catfs.Fs.Contents.{
  IsOpen, writefile_append, release_file_stores, write_blocks, write_release_read,
}
use catfs.Fs.Open.{openfile-IsOpen}
use catfs.Fs.Sample.{mounted, file, one_open, file-HasInode, file-IsOpen}

abbrev path_b : Text
path_b = key_prefix (name_a ∷ []) ++ name_b

openfile-IsOpen_example :
    (s : CatFs Memory) × (f : OpenFile) × (openfile backend zeroed clock junk 3 mounted ≡ ok 1 s)
    × IsOpen backend backend-IsBucket s 1 f []
    × (f.rtfile.path ≡ path_b)
    × (s.next_handle_id ≡ 2)
openfile-IsOpen_example =
    openfile-IsOpen backend backend-IsBucket zeroed clock junk mounted 3 path_b file-HasInode refl
      refl
      (get_full_path-Chain 6 file_dentry file_inode refl refl (omega arith) refl (omega arith)
        dir-Chain (omega arith))

writefile_append_example :
    (s : CatFs Memory) × (f : OpenFile) × (writefile backend zeroed clock junk 1 0 2
        (5 ∷ 6 ∷ [])
        one_open
      ≡ ok (through_int 2) s)
    × (is_open : IsOpen backend backend-IsBucket s 1 f (5 ∷ 6 ∷ [])) × (is_open.inode.inode.size
        ≡ 2)
    × (f.rtfile.path ≡ name_b)
writefile_append_example =
    writefile_append backend backend-IsBucket zeroed zeroed_size clock junk one_open 1 file []
      (5 ∷ 6 ∷ []) file-IsOpen (omega arith) (omega arith)

-- The state after that write.
abbrev written : CatFs Memory
written =
    (writefile_append backend backend-IsBucket zeroed zeroed_size clock junk one_open 1 file []
      (5 ∷ 6 ∷ []) file-IsOpen (omega arith) (omega arith)).0

abbrev written_file : OpenFile
written_file =
    (writefile_append backend backend-IsBucket zeroed zeroed_size clock junk one_open 1 file []
      (5 ∷ 6 ∷ []) file-IsOpen (omega arith) (omega arith)).1

written-IsOpen : IsOpen backend backend-IsBucket written 1 written_file (5 ∷ 6 ∷ [])
written-IsOpen =
    (writefile_append backend backend-IsBucket zeroed zeroed_size clock junk one_open 1 file []
      (5 ∷ 6 ∷ []) file-IsOpen (omega arith) (omega arith)).3

two_bytes_nonempty : ◌≢◌ {A = List ℕ} (5 ∷ 6 ∷ []) []
two_bytes_nonempty e = cc

release_file_stores_example :
    (s : CatFs Memory) × (f : OpenFile) × (release_file backend zeroed clock junk 1 written
      ≡ ok tt s)
    × (backend-IsBucket.object s.meta.backend written_file.rtfile.path ≡ some (5 ∷ 6 ∷ []))
    × (lookup 1 s.open_files ≡ some (some f))
    × (f.rtfile ≡ written_file.rtfile)
release_file_stores_example =
    release_file_stores backend backend-IsBucket zeroed zeroed_size clock junk written 1
      written_file (5 ∷ 6 ∷ []) written-IsOpen two_bytes_nonempty (omega arith)

write_release_read_example :
    (s : CatFs Memory) × ((write_blocks backend backend-IsBucket zeroed zeroed_size clock junk 1 0
            two_blocks
          >> release_file backend zeroed clock junk 1
          >> readfile backend zeroed clock junk 1 1 3)
        one_open
      ≡ ok (through_int 2, 2 ∷ 3 ∷ []) s)
unfolding flatten
write_release_read_example =
    write_release_read backend backend-IsBucket zeroed zeroed_size clock junk one_open 1 file
      two_blocks 1 3 file-IsOpen two_blocks_nonempty (omega arith) (omega arith)

-- The state after the release, in which the backend has the file.
abbrev released : CatFs Memory
released =
    (release_file_stores backend backend-IsBucket zeroed zeroed_size clock junk written 1
      written_file (5 ∷ 6 ∷ []) written-IsOpen two_bytes_nonempty (omega arith)).0

abbrev released_file : OpenFile
released_file =
    (release_file_stores backend backend-IsBucket zeroed zeroed_size clock junk written 1
      written_file (5 ∷ 6 ∷ []) written-IsOpen two_bytes_nonempty (omega arith)).1

released_lem :
    (backend-IsBucket.object released.meta.backend released_file.rtfile.path ≡ some (5 ∷ 6 ∷ []))
    × (lookup 1 released.open_files ≡ some (some released_file))
    × (released_file.rtfile.size ≡ 2)
released_lem =
    let (_, _, _, stored, opened, same) =
      release_file_stores backend backend-IsBucket zeroed zeroed_size clock junk written 1
        written_file (5 ∷ 6 ∷ []) written-IsOpen two_bytes_nonempty (omega arith) in
    (
      ap (λ r. backend-IsBucket.object released.meta.backend r.path) same ∙ stored,
      opened,
      ap (λ r. r.size) same ∙ written-IsOpen.size,
    )

readfile_range_example :
    readfile backend zeroed clock junk 1 1 9 released
    ≡ ok
        (
          through_int (min 9 (released_file.rtfile.size - 1)),
          take (min 9 (released_file.rtfile.size - 1)) (drop 1 (5 ∷ 6 ∷ [])),
        )
        released
readfile_range_example =
    readfile_range backend backend-IsBucket zeroed clock junk released 1 1 9 released_file
      (5 ∷ 6 ∷ []) released_lem.1 released_lem.0 (omega (arith, released_lem.2)) (omega arith)
      (omega arith)

no_handle : lookup 7 one_open.open_files ≡ none
unfolding lookup ℕ_discrete
no_handle = refl
