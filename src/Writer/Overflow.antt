-- ===== src/Writer/Overflow.antt =====
-- Writes that the sequential writer does not carry out: one at another offset than the next, and
-- one that runs past the end of the part being filled.
use mathlib.Core.List.{flatten}
use catfs.Common.{
  ℕ, suc, ◌+◌, ◌%◌, ◌^◌, ◌<◌, ◌≡◌, ◌≢◌, refl, ap, inl, inr, ◌⊎◌, List, [], arith, throw, text,
  fault, length, length-append, ◌==◌, ==_iff, Bool-cases, ne_of_test, Cmd, ◌>>◌,
}
use catfs.Stor.{Stor}
use catfs.Stor.Bucket.{mb_8, IsBucket}
use catfs.Writer.Parts.{Part}
use catfs.Writer.Parts
use catfs.Writer.Parts.Filled.{Filled, new-Filled, write_full, write_beyond, full_lem}
use catfs.Writer.Holds.{Holds, nothing, small, large, with_put, switch_mput_mode_full}
use catfs.Writer.{
  put, mput, null, live, Session, put_round, mput_round, switch_mput_mode, write_loop, write_data,
  write,
}

module _ (stor : Stor) (malloc : ℕ → List ℕ) where
  -- A write that does not continue where the last one ended is refused, and changes nothing.
  pub write-throw :
      (s : Session stor.State) (off : ℕ) (bytes : List ℕ)
      → off ≢ s.next_write_offset
      → write stor malloc off (length bytes) bytes s ≡ throw (text s.path) s
  unfolding write
  write-throw s off bytes other = ground arith

  write_loop_small_beyond :
      (fuel : ℕ) (s : Session stor.State) (p : Part) (content bytes : List ℕ)
      → s.uptype ≡ put
      → (s.put_part ≡ live p) ⊎ ((s.put_part ≡ null) × (Parts.new malloc mb_8 ≡ p))
      → Filled p content
      → length bytes ≢ 0
      → length content ≢ mb_8
      → mb_8 < length content + length bytes
      → write_loop stor malloc (suc fuel) 0 (length bytes) (length bytes) bytes s ≡ fault
  unfolding write_loop put_round
  write_loop_small_beyond fuel s p content bytes mode at f some room over =
      ground (arith, write_beyond p content bytes f room over)

  write_loop_large_beyond :
      (fuel : ℕ) (s : Session stor.State) (p : Part) (tail bytes : List ℕ)
      → s.uptype ≡ mput
      → s.mput_part ≡ live p
      → Filled p tail
      → length bytes ≢ 0
      → length tail < mb_8
      → mb_8 < length tail + length bytes
      → write_loop stor malloc (suc fuel) 0 (length bytes) (length bytes) bytes s ≡ fault
  unfolding write_loop mput_round
  write_loop_large_beyond fuel s p tail bytes mode at f some room over =
      ground (arith, write_beyond p tail bytes f (omega arith) over)

  put_round_full :
      (again : (wbytes size : ℕ) → List ℕ → Cmd (Session stor.State) (Unit {0}))
      (s : Session stor.State) (p : Part) (content bytes : List ℕ)
      → s.put_part ≡ live p
      → Filled p content
      → length content ≡ mb_8
      → length bytes ≢ 0
      → length bytes < 2 ^ 64
      → put_round stor malloc again 0 (length bytes) bytes s
        ≡ (switch_mput_mode stor malloc >> again 0 (length bytes) bytes) (with_put s p)
  unfolding put_round
  put_round_full again s p content bytes at f is_full some short =
      ground (arith, write_full p content bytes f is_full, full_lem p content f)

module _ (stor : Stor) (bucket : IsBucket stor) (malloc : ℕ → List ℕ)
    (malloc_size : (n : ℕ) → length (malloc n) ≡ n) where
  write_loop_full_beyond :
      (fuel : ℕ) (s : Session stor.State) (p : Part) (content bytes : List ℕ)
      → s.uptype ≡ put
      → s.put_part ≡ live p
      → Filled p content
      → length content ≡ mb_8
      → mb_8 < length bytes
      → length bytes < 2 ^ 64
      → write_loop stor malloc (suc (suc fuel)) 0 (length bytes) (length bytes) bytes s ≡ fault
  unfolding write_loop
  write_loop_full_beyond fuel s p content bytes mode at f is_full over short =
      let (s₁, switched, at₁, up, _, _) =
        switch_mput_mode_full stor bucket malloc malloc_size (with_put s p) p content refl f
          is_full in
      ground (
        arith,
        put_round_full stor malloc (λ w z d. write_loop stor malloc (suc fuel) w (length bytes) z d)
            s p content bytes at f is_full (omega arith) short,
        switched,
        write_loop_large_beyond stor malloc fuel s₁ (Parts.new malloc mb_8) [] bytes up.mode at₁
            (new-Filled malloc malloc_size) (omega arith) (omega arith) (omega arith),
      )

  write_data_beyond :
      (s : Session stor.State) (content bytes : List ℕ)
      → Holds stor bucket s content
      → mb_8 < length content % mb_8 + length bytes
      → length bytes < 2 ^ 64
      → write_data stor malloc bytes (length bytes) s ≡ fault
  unfolding write_data
  write_data_beyond s content bytes (nothing mode at none_yet) over short =
      write_loop_small_beyond stor malloc (suc (length bytes)) s (Parts.new malloc mb_8) [] bytes
        mode (inr (at, refl)) (new-Filled malloc malloc_size) (omega (arith, ap length none_yet))
        (omega arith) (omega (arith, ap length none_yet))
  write_data_beyond s content bytes (small p mode at f) over short =
      elim (Bool-cases (length content == mb_8)) [
        | inl is_full ↦
            write_loop_full_beyond (length bytes) s p content bytes mode at f
              ((==_iff _ mb_8).0 is_full) (omega (arith, (==_iff _ mb_8).0 is_full)) short
        | inr room ↦
            write_loop_small_beyond stor malloc (suc (length bytes)) s p content bytes mode (inl at)
              f (omega arith) (ne_of_test _ mb_8 room)
              (omega (arith, f.within, f.counted, ne_of_test _ mb_8 room))
      ]
  write_data_beyond s content bytes (large p sent tail up at f room split big) over short =
      write_loop_large_beyond stor malloc (suc (length bytes)) s p tail bytes up.mode at f
        (omega arith) room
        (omega (arith, ap length split, length-append (flatten sent) tail, up.sized))

  -- A write that starts inside one part and ends past it runs over the part's allocation.
  pub write-fault :
      (s : Session stor.State) (content bytes : List ℕ)
      → Holds stor bucket s content
      → s.next_write_offset ≡ length content
      → mb_8 < length content % mb_8 + length bytes
      → length bytes < 2 ^ 64
      → write stor malloc (length content) (length bytes) bytes s ≡ fault
  unfolding write
  write-fault s content bytes h next over short =
      ground (arith, write_data_beyond s content bytes h over short)
