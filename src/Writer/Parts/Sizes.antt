-- ===== src/Writer/Parts/Sizes.antt =====
-- src/fs/fwriter/fwriter_seq_part.h: the size of a part, and how a copy into it ends.
use catfs.Common.{
  ℕ, ◌+◌, ◌≡◌, ◌≢◌, refl, ◌⊎◌, ◌↔◌, inl, inr, true, List, arith, ok, fault, length, leb, ◌==◌, ◌&&◌,
  Bool-cases, through_int, take, drop, add64, Cmd,
}
use catfs.Writer.Parts.{Part, new, len, full, write, overwrite, copy, clear}

-- Into a full part nothing is copied; else all of the bytes are, or the copy is undefined.
abbrev pub Copies : Cmd Part ℕ → (size : ℕ) → Part → Type 0
Copies m size p =
    ((p.woff ≡ p.part_size) × (m p ≡ ok 0 p))
    ⊎ ((p.woff ≢ p.part_size)
        × ((m p ≡ fault)
            ⊎ ((q : Part) × (m p ≡ ok (through_int size) q) × (q.part_size ≡ p.part_size))))

pub write_ends : (bytes : List ℕ) (size : ℕ) (p : Part) → Copies (write bytes size) size p
unfolding write
write_ends bytes size p = elim (Bool-cases (p.woff == p.part_size)) [
  | inl at_end ↦ inl (ground arith, rw at_end refl)
  | inr more ↦ inr (
    ground arith,
    elim (Bool-cases (leb (p.woff + size) (length p.buf) && leb size (length bytes))) [
      | inl fits ↦ inr (
        record p { buf = overwrite p.buf p.woff (take size bytes); woff = add64 p.woff size },
        rw (more, fits) refl,
        refl,
      )
      | inr over ↦ inl (rw (more, over) refl)
    ],
  )
]

pub copy_ends : (src : Part) (off size : ℕ) (p : Part) → Copies (copy src off size) size p
unfolding copy
copy_ends src off size p = write_ends (drop off src.buf) size p

pub clear_lem : (p : Part) → ((clear p).part_size ≡ p.part_size) × ((clear p).woff ≡ 0)
unfolding clear
clear_lem p = (refl, refl)

pub new_lem :
    (malloc : ℕ → List ℕ) (n : ℕ) → ((new malloc n).part_size ≡ n) × ((new malloc n).woff ≡ 0)
unfolding new
new_lem malloc n = (refl, refl)

pub full_iff : (p : Part) → (full p ≡ true) ↔ (p.part_size ≡ p.woff)
unfolding full
full_iff p = ground arith

pub len_lem : (p : Part) → len p ≡ p.woff
unfolding len
len_lem p = refl
