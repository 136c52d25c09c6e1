-- ===== src/Fs/Handles.antt =====
-- src/fs/fs_file.cpp and src/fs/open_file.cpp: reading by a handle.
use Prim.Native.Nat.{min}
use catfs.Common.{
  ℕ, ◌+◌, ◌-◌, ◌^◌, ◌≡◌, ap, ◌<◌, ◌≤◌, length, length-take, length-drop, none, some, List, [],
  arith, ok, throw, number, lookup, insert, number_key, take, drop, ◌==◌, through_int,
  if◌then◌else◌,
}
use native.Mathlib.Decide.{ℕ_discrete}
use catfs.Stor.{Stor, Timespec, ObjInfo}
use catfs.Stor.Bucket.{IsBucket}
use catfs.Fs.{
  CatFs, OpenFile, errno_enoent, read_size, file_at, direct_read, file_read, readfile, writefile,
  release_file,
}

-- What is asked of the reader is the part of the range that lies in the file, if there is any.
read_size-min :
    (fsize off size : ℕ)
    → off + size < 2 ^ 64
    → read_size fsize off size
      ≡ (if min size (fsize - off) == 0 then none else some (min size (fsize - off)))
unfolding read_size
read_size-min fsize off size short = ground arith

module _ (stor : Stor) (bucket : IsBucket stor) (malloc : ℕ → List ℕ) (clock : ℕ → Timespec)
    (junk : ObjInfo) where
  -- A read by an open handle answers the bytes of the object in the part of the range that lies in
  -- the file, and none if there is no such part; nothing changes.
  pub readfile_range :
      (s : CatFs stor.State) (hno off size : ℕ) (f : OpenFile) (d : List ℕ)
      → lookup hno s.open_files ≡ some (some f)
      → bucket.object s.meta.backend f.rtfile.path ≡ some d
      → f.rtfile.size ≤ length d
      → length d < 2 ^ 64
      → off + size < 2 ^ 64
      → let n = min size (f.rtfile.size - off) in
        readfile stor malloc clock junk hno off size s ≡ ok (through_int n, take n (drop off d)) s
  unfolding readfile file_at file_read direct_read through_int
  readfile_range s hno off size f d opened stored within short range =
      elim (ℕ_discrete (min size (f.rtfile.size - off)) 0) [
        | yes e ↦
            ground
              (arith, read_size-min f.rtfile.size off size range, ap (λ n. take n (drop off d)) e)
        | no ne ↦ ground (
          arith,
          read_size-min f.rtfile.size off size range,
          bucket.gets
              (record { obj_key = f.rtfile.path; off = off; size = min size (f.rtfile.size - off) })
              (record { dst = []; bytes = 0 }) d s.meta.backend stored ne (omega arith) short,
          length-take (min size (f.rtfile.size - off)) (drop off d)
              (omega (arith, length-drop off d)),
        )
      ]

module _ (stor : Stor) (malloc : ℕ → List ℕ) (clock : ℕ → Timespec) (junk : ObjInfo) where
  -- A handle that was never given out: each operation on it throws a number, which is no
  -- std::exception.
  pub unknown_handle :
      (s : CatFs stor.State) (hno off size : ℕ) (bytes : List ℕ)
      → lookup hno s.open_files ≡ none
      → let s' : CatFs stor.State = record s { open_files = insert hno none s.open_files } in
        (readfile stor malloc clock junk hno off size s ≡ throw (number errno_enoent) s')
        × (writefile stor malloc clock junk hno off size bytes s ≡ throw (number errno_enoent) s')
        × (release_file stor malloc clock junk hno s ≡ throw (number errno_enoent) s')
  unfolding readfile writefile release_file file_at
  unknown_handle s hno off size bytes e = (ground arith, ground arith, ground arith)
