-- ===== src/Writer/Parts.antt =====
-- src/fs/fwriter/fwriter_seq_part.h: a buffer of fixed size that is filled from the front. `buf`
-- holds the bytes of the allocation, so a copy past its end is a fault.
pub mod Filled
pub mod Sizes
use catfs.Common.{
  ℕ, ◌+◌, ◌-◌, ◌%◌, ◌^◌, Bool, List, ◌++◌, Cmd, ok, fault, take, drop, length, ltb, leb, ◌==◌, ◌&&◌,
  if◌then◌else◌, add64, sub64, through_int,
}

pub record Part : Type 0 where
  pub buf : List ℕ
  pub part_size : ℕ
  pub woff : ℕ

-- `malloc n` is what stands in a fresh allocation of `n` bytes.
pub new : (malloc : ℕ → List ℕ) → ℕ → Part
new malloc size = record { buf = malloc size; part_size = size; woff = 0 }

pub len : Part → ℕ
len p = p.woff

pub cap : Part → ℕ
cap p = sub64 p.part_size p.woff

pub full : Part → Bool
full p = p.part_size == p.woff

-- memcpy(buf + off, bytes, length bytes)
pub overwrite : List ℕ → ℕ → List ℕ → List ℕ
overwrite buf off bytes = take off buf ++ (bytes ++ drop (off + length bytes) buf)

-- The copy is undefined if it leaves the allocation or reads past the source.
pub write : List ℕ → ℕ → Cmd Part ℕ
write bytes size p =
    if p.woff == p.part_size
    then ok 0 p
    else if leb (p.woff + size) (length p.buf) && leb size (length bytes)
    then ok (through_int size)
        (record p { buf = overwrite p.buf p.woff (take size bytes); woff = add64 p.woff size })
    else fault

pub copy : Part → ℕ → ℕ → Cmd Part ℕ
copy src off size = write (drop off src.buf) size

pub clear : Part → Part
clear p = record p { woff = 0 }
