-- ===== src/Writer/Writes.antt =====
-- `write` of the sequential writer against the bytes written so far: a write that does not cross a
-- part's end appends to them.
use mathlib.Core.List.{flatten}
use catfs.Common.{
  ℕ, suc, ◌+◌, ◌-◌, ◌*◌, ◌%◌, ◌^◌, ◌≤◌, ◌<◌, ◌≡◌, ◌≢◌, refl, sym, ap, ◌∙◌, inl, inr, List, [], ◌∷◌,
  ◌++◌, append_assoc, append-nil, subst, arith, ok, length, length-append, ◌==◌, ==_iff, Bool-cases,
  ne_of_test,
}
use catfs.Stor.{Stor}
use catfs.Stor.Bucket.{mb_8, IsBucket}
use catfs.Writer.Parts.{Part}
use catfs.Writer.Parts
use catfs.Writer.Parts.Filled.{Filled, extended, new-Filled, write_full, extended-Filled, full_lem}
use catfs.Writer.Holds.{
  Uploading, Holds, nothing, small, large, with_put, write_loop_small, switch_mput_mode_full, Keeps,
  mput_round_fits,
}
use catfs.Writer.{put, live, Session, put_round, write_loop, write_data, write}

module _ (stor : Stor) (bucket : IsBucket stor) (malloc : ℕ → List ℕ)
    (malloc_size : (n : ℕ) → length (malloc n) ≡ n) where
  -- What a run of the writer with `content` before it and `more` after it leaves.
  abbrev Appends : Session stor.State → (content : List ℕ) → Session stor.State → Type 0
  Appends s content s' = Holds stor bucket s' content × Keeps stor bucket s s'

  write_loop_large :
      (fuel : ℕ) (s : Session stor.State) (p : Part) (sent : List (List ℕ)) (tail bytes : List ℕ)
      → Uploading stor bucket s sent
      → s.mput_part ≡ live p
      → Filled p tail
      → length tail < mb_8
      → length tail + length bytes ≤ mb_8
      → length bytes ≢ 0
      → length sent + 1 < 2 ^ 31
      → (s' : Session stor.State) × (write_loop stor malloc
            (suc (suc fuel))
            0
            (length bytes)
            (length bytes)
            bytes
            s
          ≡ ok tt s')
        × Appends s (flatten sent ++ (tail ++ bytes)) s'
  unfolding write_loop
  write_loop_large fuel s p sent tail bytes up at f room fits some few =
      let (s', e, h, k) =
        mput_round_fits stor bucket
          (λ w z d. write_loop stor malloc (suc fuel) w (length bytes) z d) s p sent tail bytes up
          at f room fits some few in
      (s', ground (arith, e, up.mode), (h, k))

  write_loop_full :
      (fuel : ℕ) (s : Session stor.State) (p : Part) (content bytes : List ℕ)
      → s.uptype ≡ put
      → s.put_part ≡ live p
      → Filled p content
      → length content ≡ mb_8
      → length bytes ≤ mb_8
      → length bytes ≢ 0
      → (s' : Session stor.State) × (write_loop stor malloc
            (suc (suc (suc fuel)))
            0
            (length bytes)
            (length bytes)
            bytes
            s
          ≡ ok tt s')
        × Appends s (content ++ bytes) s'
  unfolding write_loop put_round flatten
  write_loop_full fuel s p content bytes mode at f is_full fits some =
      let (s₁, switched, at₁, up, next, path) =
        switch_mput_mode_full stor bucket malloc malloc_size (with_put s p) p content refl f
          is_full in
      let (s', e, h) =
        write_loop_large fuel s₁ (Parts.new malloc mb_8) (content ∷ []) [] bytes up at₁
          (new-Filled malloc malloc_size) (omega arith) (omega arith) some (omega arith) in
      (
        s',
        ground (arith, write_full p content bytes f is_full, full_lem p content f, switched, e),
        (rw append-nil at h.0, (h.1.0 ∙ next, h.1.1 ∙ path)),
      )

  write_data-Holds :
      (s : Session stor.State) (content bytes : List ℕ)
      → Holds stor bucket s content
      → length content % mb_8 + length bytes ≤ mb_8
      → length content + length bytes < (2 ^ 31 - 1) * mb_8
      → (s' : Session stor.State) × (write_data stor malloc bytes (length bytes) s ≡ ok tt s')
        × Appends s (content ++ bytes) s'
  unfolding write_data write_loop
  write_data-Holds s content [] h fits short = (s, refl, (rw append-nil h, (refl, refl)))
  write_data-Holds s content (b ∷ bs) (nothing mode at none_yet) fits short =
      let f = new-Filled malloc malloc_size in
      (
        with_put s (extended (Parts.new malloc mb_8) (b ∷ bs)),
        write_loop_small stor malloc (suc (suc (length bs))) s (Parts.new malloc mb_8) [] (b ∷ bs)
            mode (inr (at, refl)) f (omega arith) (omega arith) (omega arith),
        (
          rw none_yet (
              small (extended (Parts.new malloc mb_8) (b ∷ bs)) mode refl
                (extended-Filled (Parts.new malloc mb_8) [] (b ∷ bs) f (omega arith))),
          (refl, refl),
        ),
      )
  write_data-Holds s content (b ∷ bs) (small p mode at f) fits short =
      elim (Bool-cases (length content == mb_8)) [
        | inl is_full ↦
            write_loop_full (length bs) s p content (b ∷ bs) mode at f ((==_iff _ mb_8).0 is_full)
              (omega arith) (omega arith)
        | inr room ↦ (
          with_put s (extended p (b ∷ bs)),
          write_loop_small stor malloc (suc (suc (length bs))) s p content (b ∷ bs) mode (inl at) f
              (omega arith) (ne_of_test _ mb_8 room)
              (omega (arith, ne_of_test _ mb_8 room, f.within, f.counted)),
          (
            small (extended p (b ∷ bs)) mode refl (
                extended-Filled p content (b ∷ bs) f
                  (omega (arith, ne_of_test _ mb_8 room, f.within, f.counted))),
            (refl, refl),
          ),
        )
      ]
  write_data-Holds s content (b ∷ bs) (large p sent tail up at f room split over) fits short =
      let (s', e, (h, keeps)) =
        write_loop_large (suc (length bs)) s p sent tail (b ∷ bs) up at f room
          (omega (arith, ap length split, length-append (flatten sent) tail, up.sized))
          (omega arith)
          (omega (arith, ap length split, length-append (flatten sent) tail, up.sized)) in
      (s', e, (subst (Holds stor bucket s') (regroup split) h, keeps))
    where
      regroup :
          content ≡ flatten sent ++ tail → flatten sent ++ (tail ++ (b ∷ bs)) ≡ content ++ (b ∷ bs)
      regroup e =
          sym (append_assoc (flatten sent) tail (b ∷ bs)) ∙ ap (λ front. front ++ (b ∷ bs)) (sym e)

  offset-Holds :
      (s : Session stor.State) (n : ℕ) (content : List ℕ)
      → Holds stor bucket s content
      → Holds stor bucket (record s { writer = record s.writer { next_write_offset = n } }) content
  offset-Holds s n content (nothing mode at e) = nothing mode at e
  offset-Holds s n content (small p mode at f) = small p mode at f
  offset-Holds s n content (large p sent tail up at f room split over) =
      large p sent tail
        (record {
          mode = up.mode;
          count = up.count;
          stored = up.stored;
          sized = up.sized;
          some_sent = up.some_sent;
        })
        at f room split over

  -- A write at the end of what is written, that does not run past the end of a part, in a file of
  -- less than 2^31 - 1 parts of 8 MiB, succeeds and appends to what the writer holds; the offset of
  -- the next write is the new length, and the path stays.
  pub write-append :
      (s : Session stor.State) (content bytes : List ℕ)
      → Holds stor bucket s content
      → s.next_write_offset ≡ length content
      → length content % mb_8 + length bytes ≤ mb_8
      → length content + length bytes < (2 ^ 31 - 1) * mb_8
      → (s' : Session stor.State) × (write stor malloc (length content) (length bytes) bytes s
          ≡ ok (length bytes) s')
        × Holds stor bucket s' (content ++ bytes)
        × (s'.next_write_offset ≡ length (content ++ bytes))
        × (s'.path ≡ s.path)
  unfolding write
  write-append s content bytes h next fits small_file =
      let (t, e, (holds, (next', path))) = write_data-Holds s content bytes h fits small_file in
      (
        record t { writer = record t.writer { next_write_offset = length content + length bytes } },
        ground (arith, e),
        offset-Holds t (length content + length bytes) (content ++ bytes) holds,
        omega (arith, length-append content bytes),
        path,
      )
