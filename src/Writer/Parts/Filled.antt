-- ===== src/Writer/Parts/Filled.antt =====
-- What a part holds, and what `write` does with it when the bytes fit and when they do not.
use catfs.Common.{
  ℕ, ◌+◌, ◌-◌, ◌≤◌, ◌<◌, ◌≡◌, ◌≢◌, refl, ap, ◌∙◌, List, [], ◌++◌, append_assoc, arith, ok, fault,
  take, drop, length, length-append, length-take, length-drop, take-append, take_all, ◌==◌,
  through_int,
}
use catfs.Stor.Bucket.{mb_8}
use catfs.Writer.Parts.{Part}
use catfs.Writer.Parts

-- The part has room for `mb_8` bytes and begins with `content`.
pub record Filled (p : Part) (content : List ℕ) : Type 0 where
  pub sized : p.part_size ≡ mb_8
  pub allocated : length p.buf ≡ mb_8
  pub held : take p.woff p.buf ≡ content
  pub counted : p.woff ≡ length content
  pub within : p.woff ≤ mb_8

-- The part after `bytes` have been copied in.
abbrev pub extended : Part → List ℕ → Part
extended p bytes = record p {
  buf = Parts.overwrite p.buf p.woff bytes;
  woff = p.woff + length bytes;
}

pub new-Filled :
    (malloc : ℕ → List ℕ) → ((n : ℕ) → length (malloc n) ≡ n) → Filled (Parts.new malloc mb_8) []
unfolding Parts.new
new-Filled malloc sizes = record {
  sized = refl;
  allocated = sizes mb_8;
  held = refl;
  counted = refl;
  within = omega arith;
}

pub clear-Filled : (p : Part) (content : List ℕ) → Filled p content → Filled (Parts.clear p) []
unfolding Parts.clear
clear-Filled p content f = record {
  sized = f.sized;
  allocated = f.allocated;
  held = refl;
  counted = refl;
  within = omega arith;
}

-- A copy that stays within the allocation appends.
pub write_fits :
    (p : Part) (content bytes : List ℕ)
    → Filled p content
    → length content ≢ mb_8
    → length content + length bytes ≤ mb_8
    → Parts.write bytes (length bytes) p ≡ ok (length bytes) (extended p bytes)
unfolding Parts.write through_int
write_fits p content bytes f room fits = ground (arith, take_all (length bytes) bytes)

length-overwrite :
    (buf : List ℕ) (off : ℕ) (bytes : List ℕ)
    → off + length bytes ≤ length buf
    → length (Parts.overwrite buf off bytes) ≡ length buf
unfolding Parts.overwrite
length-overwrite buf off bytes h = omega (
  arith,
  length-append (take off buf) (bytes ++ drop (off + length bytes) buf),
  length-append bytes (drop (off + length bytes) buf),
  length-take off buf (omega arith),
  length-drop (off + length bytes) buf,
)

-- After a copy the buffer begins with the old bytes and the new ones.
take-overwrite :
    (buf : List ℕ) (off : ℕ) (bytes : List ℕ)
    → off + length bytes ≤ length buf
    → take (off + length bytes) (Parts.overwrite buf off bytes) ≡ take off buf ++ bytes
unfolding Parts.overwrite
take-overwrite buf off bytes h =
    rw (← append_assoc (take off buf) bytes (drop (off + length bytes) buf)) (
      take-append (off + length bytes) (take off buf ++ bytes) _
        (omega (arith, length-append (take off buf) bytes, length-take off buf (omega arith))))

pub extended-Filled :
    (p : Part) (content bytes : List ℕ)
    → Filled p content
    → length content + length bytes ≤ mb_8
    → Filled (extended p bytes) (content ++ bytes)
unfolding Parts.overwrite
extended-Filled p content bytes f fits = record {
  sized = f.sized;
  allocated =
      length-overwrite p.buf p.woff bytes (omega (arith, f.counted, f.allocated)) ∙ f.allocated;
  held =
      take-overwrite p.buf p.woff bytes (omega (arith, f.counted, f.allocated))
      ∙ ap (λ front. front ++ bytes) f.held;
  counted = omega (arith, f.counted, length-append content bytes);
  within = omega (arith, f.counted);
}

-- A copy that would leave the allocation is undefined.
pub write_beyond :
    (p : Part) (content bytes : List ℕ)
    → Filled p content
    → length content ≢ mb_8
    → mb_8 < length content + length bytes
    → Parts.write bytes (length bytes) p ≡ fault
unfolding Parts.write
write_beyond p content bytes f room over = ground arith

-- Into a full part nothing is copied.
pub write_full :
    (p : Part) (content bytes : List ℕ)
    → Filled p content
    → length content ≡ mb_8
    → Parts.write bytes (length bytes) p ≡ ok 0 p
unfolding Parts.write
write_full p content bytes f no_room = ground arith

pub full_lem :
    (p : Part) (content : List ℕ) → Filled p content → Parts.full p ≡ (length content == mb_8)
unfolding Parts.full
full_lem p content f = ground arith

-- What is sent of a part is what it holds.
pub take-len : (p : Part) (content : List ℕ) → Filled p content → take (Parts.len p) p.buf ≡ content
unfolding Parts.len
take-len p content f = f.held

pub len-Filled : (p : Part) (content : List ℕ) → Filled p content → Parts.len p ≡ length content
unfolding Parts.len
len-Filled p content f = f.counted

pub cap-Filled :
    (p : Part) (content : List ℕ) → Filled p content → Parts.cap p ≡ mb_8 - length content
unfolding Parts.cap
cap-Filled p content f = ground arith
