-- ===== src/Writer/Sample.antt =====
-- A backend in memory, and blocks that fill a part and begin another.
use mathlib.Core.List.{flatten}
use catfs.Common.{
  ℕ, ◌+◌, ◌≡◌, ◌≢◌, none, List, [], ◌∷◌, replicate, length-replicate, arith, bytes, length,
  length-append, ◌∙◌,
}
use catfs.Stor.{Stor, StorOpt, ObjInfo}
use catfs.Stor.Bucket.{mb_8, IsBucket, IsStrict}
use catfs.Stor.S3.{s3_stor}
use catfs.Stor.S3.Laws.{s3_stor-IsBucket, s3_stor-IsStrict}
use catfs.Stor.S3.Memory.{memory, memory-IsS3}
use catfs.Writer.File.{InParts}

abbrev pub opt : StorOpt
opt = record {
  bucket = bytes "b";
  public_key = bytes "p";
  private_key = bytes "q";
  endpoint = bytes "e";
}

abbrev pub junk : ObjInfo
junk = record {
  name = [];
  size = 0;
  ctime = record { tv_sec = 0; tv_nsec = 0 };
  mtime = record { tv_sec = 0; tv_nsec = 0 };
  uid = none;
  gid = none;
  mode = none;
}

abbrev pub backend : Stor
backend = s3_stor memory opt junk

abbrev pub backend-IsBucket : IsBucket backend
backend-IsBucket = s3_stor-IsBucket memory opt junk (memory-IsS3 opt.bucket)

abbrev pub backend-IsStrict : IsStrict backend
backend-IsStrict = s3_stor-IsStrict memory opt junk (memory-IsS3 opt.bucket)

-- Fresh allocations are zero.
abbrev pub zeroed : ℕ → List ℕ
zeroed n = replicate n 0

pub zeroed_size : (n : ℕ) → length (zeroed n) ≡ n
zeroed_size n = length-replicate n 0

abbrev pub full_block : List ℕ
full_block = replicate mb_8 7

pub full_block_size : length full_block ≡ mb_8
full_block_size = length-replicate {A = ℕ} mb_8 7

-- A file of three bytes.
abbrev pub two_blocks : List (List ℕ)
two_blocks = (1 ∷ 2 ∷ []) ∷ (3 ∷ []) ∷ []

pub two_blocks_nonempty : flatten two_blocks ≢ []
unfolding flatten
two_blocks_nonempty e = cc

-- A full part, which is sent as part 0 of an upload, and two bytes more.
abbrev pub two_parts : List (List ℕ)
two_parts = full_block ∷ (1 ∷ 2 ∷ []) ∷ []

pub two_parts_size : length (flatten two_parts) ≡ mb_8 + 2
unfolding flatten
two_parts_size = length-append (full_block) (1 ∷ 2 ∷ []) ∙ omega (arith, full_block_size)

pub two_parts-InParts : InParts 0 two_parts
two_parts-InParts = omega (arith, full_block_size)
