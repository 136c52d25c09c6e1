-- ===== src/Writer/Holds.antt =====
-- What a writer holds between two calls, seen as the bytes written so far: nothing, the first
-- part, or the parts sent and the part being filled.
use mathlib.Core.List.{flatten}
use catfs.Common.{
  ◌^◌, ℕ, suc, ◌+◌, ◌*◌, ◌≤◌, ◌<◌, ◌≡◌, ◌≢◌, refl, sym, ap, ◌∙◌, ◌⊎◌, inl, inr, List, [], ◌∷◌, ◌++◌,
  append-nil, flatten-append, arith, ok, length, length-append, take, drop, ==_iff, ◌==◌,
  Bool-cases, Cmd,
}
use catfs.Stor.{Stor}
use catfs.Stor.Bucket.{mb_8, IsBucket, numbered, insert_part-numbered}
use catfs.Writer.Parts.{Part}
use catfs.Writer.Parts
use catfs.Writer.Parts.Filled.{
  Filled, extended, new-Filled, clear-Filled, write_fits, extended-Filled, full_lem, take-len,
  len-Filled, cap-Filled,
}
use catfs.Writer.{
  put, mput, null, live, freed, Session, upload_part, send_full, switch_mput_mode, put_round,
  mput_round, write_loop, uninitialised,
}

module _ (stor : Stor) (bucket : IsBucket stor) where
  -- The backend has the parts `sent`, in this order, and they are all of full size.
  pub record Uploading (s : Session stor.State) (sent : List (List ℕ)) : Type 0 where
    pub mode : s.uptype ≡ mput
    pub count : s.mput_ctx.part_num ≡ length sent
    pub stored : bucket.parts s.backend s.mput_ctx.upload_id ≡ numbered 0 sent
    pub sized : length (flatten sent) ≡ length sent * mb_8
    pub some_sent : length sent ≢ 0

  pub data Holds (s : Session stor.State) (content : List ℕ) : Type 0 where
    nothing : s.uptype ≡ put → s.put_part ≡ null → content ≡ [] → Holds s content
    small : (p : Part) → s.uptype ≡ put → s.put_part ≡ live p → Filled p content → Holds s content
    large :
        (p : Part) (sent : List (List ℕ)) (tail : List ℕ)
        → Uploading s sent
        → s.mput_part ≡ live p
        → Filled p tail
        → length tail < mb_8
        → content ≡ flatten sent ++ tail
        → mb_8 < length content
        → Holds s content

-- The state with a larger first part.
abbrev pub with_put : {W : Type 0} → Session W → Part → Session W
with_put s p = record s { writer = record s.writer { put_part = live p } }

module _ (stor : Stor) (malloc : ℕ → List ℕ) where
  put_round_fits :
      (again : (wbytes size : ℕ) → List ℕ → Cmd (Session stor.State) (Unit {0}))
      (s : Session stor.State) (p : Part) (content bytes : List ℕ)
      → (s.put_part ≡ live p) ⊎ ((s.put_part ≡ null) × (Parts.new malloc mb_8 ≡ p))
      → Filled p content
      → length content ≢ mb_8
      → length content + length bytes ≤ mb_8
      → put_round stor malloc again 0 (length bytes) bytes s ≡ ok tt (with_put s (extended p bytes))
  unfolding put_round
  put_round_fits again s p content bytes at f room fits = ground (
    arith,
    write_fits p content bytes f room fits,
    full_lem (extended p bytes) (content ++ bytes) (extended-Filled p content bytes f fits),
  )

  -- The first part takes the bytes that it has room for.
  pub write_loop_small :
      (fuel : ℕ) (s : Session stor.State) (p : Part) (content bytes : List ℕ)
      → s.uptype ≡ put
      → (s.put_part ≡ live p) ⊎ ((s.put_part ≡ null) × (Parts.new malloc mb_8 ≡ p))
      → Filled p content
      → length bytes ≢ 0
      → length content ≢ mb_8
      → length content + length bytes ≤ mb_8
      → write_loop stor malloc (suc fuel) 0 (length bytes) (length bytes) bytes s
        ≡ ok tt (with_put s (extended p bytes))
  unfolding write_loop
  write_loop_small fuel s p content bytes mode at f some room fits = ground (
    arith,
    put_round_fits (λ w z d. write_loop stor malloc fuel w (length bytes) z d) s p content bytes at
        f room fits,
  )

module _ (stor : Stor) (bucket : IsBucket stor) where
  pub upload_part-numbered :
      (part : Part) (s : Session stor.State) (sent : List (List ℕ)) (content : List ℕ)
      → Filled part content
      → s.mput_ctx.part_num ≡ length sent
      → bucket.parts s.backend s.mput_ctx.upload_id ≡ numbered 0 sent
      → length sent + 1 < 2 ^ 31
      → (t : stor.State) × (upload_part stor part s
          ≡ ok tt (record {
            writer = record s.writer {
              mput_ctx = record s.mput_ctx { part_num = s.mput_ctx.part_num + 1 };
            };
            backend = t;
          }))
        × (bucket.parts t s.mput_ctx.upload_id ≡ numbered 0 (sent ++ content ∷ []))
  unfolding upload_part
  upload_part-numbered part s sent content f count stored few =
      let (t, e, p) =
        bucket.mputs
          (record {
            obj_key = s.path;
            upload_id = s.mput_ctx.upload_id;
            part_num = s.mput_ctx.part_num;
            bytes = take (Parts.len part) part.buf;
          })
          s.backend in
      (
        t,
        ground (arith, e, count),
        p
            ∙ rw (take-len part content f, stored)
                (insert_part-numbered 0 _ content sent (omega arith)),
      )

module _ (stor : Stor) (bucket : IsBucket stor) (malloc : ℕ → List ℕ)
    (malloc_size : (n : ℕ) → length (malloc n) ≡ n) where
  -- A full first part becomes part number 0 of an upload.
  pub switch_mput_mode_full :
      (s : Session stor.State) (p : Part) (content : List ℕ)
      → s.put_part ≡ live p
      → Filled p content
      → length content ≡ mb_8
      → (s' : Session stor.State) × (switch_mput_mode stor malloc s ≡ ok tt s')
        × (s'.mput_part ≡ live (Parts.new malloc mb_8))
        × Uploading stor bucket s' (content ∷ [])
        × (s'.next_write_offset ≡ s.next_write_offset)
        × (s'.path ≡ s.path)
  unfolding switch_mput_mode numbered flatten
  switch_mput_mode_full s p content at f is_full =
      let (answer, t, e, size, fresh) =
        bucket.minits (record { obj_key = s.path }) uninitialised s.backend in
      let s₁ : Session stor.State = record {
        writer = record s.writer {
          mput_part = live (Parts.new malloc answer.part_size);
          uptype = mput;
          mput_ctx = record { upload_id = answer.upload_id; part_num = 0 };
        };
        backend = t;
      } in
      let (t₂, e₂, sent) =
        upload_part-numbered stor bucket p s₁ [] content f refl fresh (omega arith) in
      (
        record {
          writer = record s₁.writer {
            mput_ctx = record { upload_id = answer.upload_id; part_num = 0 + 1 };
            put_part = freed;
          };
          backend = t₂;
        },
        ground (
          arith,
          e,
          e₂,
          cap-Filled (Parts.new malloc mb_8) [] (new-Filled malloc malloc_size),
          len-Filled p content f,
        ),
        ap (λ n. live (Parts.new malloc n)) size,
        record {
          mode = refl;
          count = omega arith;
          stored = sent;
          sized = omega (arith, is_full, ap length (append-nil content));
          some_sent = omega arith;
        },
        refl,
        refl,
      )

module _ (stor : Stor) (bucket : IsBucket stor) where
  -- The state after a call that leaves the path and the offset alone.
  abbrev pub Keeps : Session stor.State → Session stor.State → Type 0
  Keeps s s' = (s'.next_write_offset ≡ s.next_write_offset) × (s'.path ≡ s.path)

  -- A part of the upload that the bytes fill is sent, and one that they do not fill keeps them.
  pub mput_round_fits :
      (again : (wbytes size : ℕ) → List ℕ → Cmd (Session stor.State) (Unit {0}))
      (s : Session stor.State) (p : Part) (sent : List (List ℕ)) (tail bytes : List ℕ)
      → Uploading stor bucket s sent
      → s.mput_part ≡ live p
      → Filled p tail
      → length tail < mb_8
      → length tail + length bytes ≤ mb_8
      → length bytes ≢ 0
      → length sent + 1 < 2 ^ 31
      → (s' : Session stor.State) × (mput_round stor again 0 (length bytes) bytes s
          ≡ again (length bytes) 0 (drop (length bytes) bytes) s')
        × Holds stor bucket s' (flatten sent ++ (tail ++ bytes))
        × Keeps s s'
  unfolding mput_round send_full
  mput_round_fits again s p sent tail bytes up at f room fits some few =
      elim (Bool-cases (length (tail ++ bytes) == mb_8)) [
        | inl fills ↦
            let q = extended p bytes in
            let s₁ : Session stor.State = record s {
              writer = record s.writer { mput_part = live q };
            } in
            let (t, e, stored) =
              upload_part-numbered stor bucket q s₁ sent (tail ++ bytes) f' up.count up.stored
                few in
            (
              record {
                writer = record s₁.writer {
                  mput_ctx = record s.mput_ctx { part_num = s.mput_ctx.part_num + 1 };
                  mput_part = live (Parts.clear q);
                };
                backend = t;
              },
              ground (
                arith,
                e,
                write_fits p tail bytes f (omega arith) fits,
                full_lem q (tail ++ bytes) f',
              ),
              large (Parts.clear q) (sent ++ (tail ++ bytes) ∷ []) []
                  (record {
                    mode = up.mode;
                    count = omega (arith, up.count, length-append sent ((tail ++ bytes) ∷ []));
                    stored = stored;
                    sized = omega (
                      arith,
                      ap length (flatten-append sent (tail ++ bytes)),
                      length-append (flatten sent) (tail ++ bytes),
                      length-append sent ((tail ++ bytes) ∷ []),
                      up.sized,
                      (==_iff _ mb_8).0 fills,
                    );
                    some_sent = omega (arith, length-append sent ((tail ++ bytes) ∷ []));
                  })
                  refl (clear-Filled q (tail ++ bytes) f') (omega arith)
                  (sym (append-nil _ ∙ flatten-append sent (tail ++ bytes))) over,
              (refl, refl),
            )
        | inr stays ↦ (
          record s { writer = record s.writer { mput_part = live (extended p bytes) } },
          ground (
            arith,
            write_fits p tail bytes f (omega arith) fits,
            full_lem (extended p bytes) (tail ++ bytes) f',
          ),
          large (extended p bytes) sent (tail ++ bytes)
              (record {
                mode = up.mode;
                count = up.count;
                stored = up.stored;
                sized = up.sized;
                some_sent = up.some_sent;
              })
              refl f' (ground (arith, length-append tail bytes)) refl over,
          (refl, refl),
        )
      ]
    where
      f' : Filled (extended p bytes) (tail ++ bytes)
      f' = extended-Filled p tail bytes f fits

      over : mb_8 < length (flatten sent ++ (tail ++ bytes))
      over = omega (
        arith,
        length-append (flatten sent) (tail ++ bytes),
        length-append tail bytes,
        up.sized,
        up.some_sent,
        some,
      )
