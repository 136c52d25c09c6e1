-- ===== src/Writer/Examples.antt =====
-- The theorems about the writer at concrete blocks and a backend in memory.
use mathlib.Core.List.{flatten}
use catfs.Common.{
  ℕ, ◌≡◌, refl, some, List, [], ◌∷◌, arith, ok, fault, throw, server_error, Text, bytes, length,
  ◌>>◌,
}
use catfs.Stor.S3.Memory.{blank}
use catfs.Writer.{Session, write, release}
use catfs.Writer.Holds.{Holds, nothing}
use catfs.Writer.Writes.{write-append}
use catfs.Writer.Overflow.{write-fault}
use catfs.Writer.File.{fresh, write_blocks, write_blocks-release, write_blocks-refused}
use catfs.Writer.Sample.{
  backend, backend-IsBucket, backend-IsStrict, two_blocks, two_blocks_nonempty, zeroed, zeroed_size,
  full_block, full_block_size, two_parts, two_parts_size, two_parts-InParts,
}

abbrev start : Session backend.State
start = fresh (bytes "a") blank

start-Holds : Holds backend backend-IsBucket start []
start-Holds = nothing refl refl refl

write_blocks-release_example :
    (s : Session backend.State) × ((write_blocks backend zeroed 0 two_blocks >> release backend)
        start
      ≡ ok tt s)
    × (backend-IsBucket.object s.backend (bytes "a") ≡ some (1 ∷ 2 ∷ 3 ∷ []))
unfolding flatten
write_blocks-release_example =
    write_blocks-release backend backend-IsBucket zeroed zeroed_size (bytes "a") blank two_blocks
      two_blocks_nonempty (omega arith)

write_blocks-refused_example :
    (message : Text) × (s s' : Session backend.State) × (write_blocks backend zeroed 0 two_parts
        start
      ≡ ok tt s)
    × (release backend s ≡ throw (server_error message) s')
write_blocks-refused_example =
    write_blocks-refused backend backend-IsBucket zeroed zeroed_size backend-IsStrict (bytes "a")
      blank two_parts two_parts-InParts (omega (arith, two_parts_size))
      (omega (arith, two_parts_size))

-- A session in which one byte has been written.
abbrev one_byte : List ℕ
one_byte = 5 ∷ []

write-append_example :
    (s : Session backend.State) × (write backend zeroed 0 1 one_byte start ≡ ok 1 s)
    × Holds backend backend-IsBucket s one_byte
    × (s.next_write_offset ≡ 1)
    × (s.path ≡ bytes "a")
write-append_example =
    write-append backend backend-IsBucket zeroed zeroed_size start [] one_byte start-Holds refl
      (omega arith) (omega arith)

-- The state after one byte, as `write-append` gives it.
abbrev started : Session backend.State
started = write-append_example.0

write-fault_example : write backend zeroed 1 (length (full_block)) (full_block) started ≡ fault
write-fault_example =
    write-fault backend backend-IsBucket zeroed zeroed_size started one_byte (full_block)
      write-append_example.2 write-append_example.3 (omega (arith, full_block_size))
      (omega (arith, full_block_size))
