-- ===== src/Writer/Ending/Loops.antt =====
-- src/fs/fwriter/fwriter_seq.cpp: the rounds that the loop of write_data makes, and so that it ends.
use catfs.Common.{
  ℕ, zero, suc, ◌^◌, ◌≡◌, ◌≤◌, ◌<◌, ◌⊎◌, refl, sym, ◌∙◌, Bool, true, false, not, List, arith, Cmd,
  Run, ends_ok, ends_throw, Ends-then, Ends-if, Stops, granted-Stops, inl, inr, ltb, ◌==◌,
  if◌then◌else◌, add64, sub64, through_int, through_int_small,
}
use native.Mathlib.Decide.{dec_lt}
use catfs.Stor.{Stor}
use catfs.Stor.Bucket.{mb_8}
use catfs.Stor.Ending.{IsEnding, IsParted}
use catfs.Writer.Parts
use catfs.Writer.Parts.{Part}
use catfs.Writer.Parts.Sizes.{write_ends, new_lem, full_iff}
use catfs.Writer.{
  Session, live, UpType, put, mput, mput_round, put_round, write_loop, write_data, write,
}
use catfs.Writer.Ending.Kept.{Made, deref-then, pointer-Ends, uptype-Ends}
use catfs.Writer.Ending.Fresh.{Fresh, on_part-then, send_full-Fresh, switch_mput_mode-Fresh}

if_true :
    {F S A : Type 0} (b : Bool) (m n : Cmd S A) (s : S)
    → b ≡ true
    → Stops F (m s)
    → Stops F ((if b then m else n) s)
if_true true m n s e h = h
if_true false m n s e h = absurd (ground arith)

-- All bytes are left after a round that copied none.
rest : (size : ℕ) → size < 2 ^ 31 → sub64 size (add64 0 0) ≡ size
rest size small = omega arith

or_granted : {F X S A : Type 0} (r : Run S A) → X ⊎ F → (X → Stops F r) → Stops F r
or_granted r (inl x) h = h x
or_granted r (inr x) h = granted-Stops r x

uptype_cases : (u : UpType) → (u ≡ put) ⊎ (u ≡ mput)
uptype_cases put = inl refl
uptype_cases mput = inr refl

module _ {F G : Type 0} (stor : Stor) (malloc : ℕ → List ℕ) ⦃ending : IsEnding F stor⦄
    ⦃parted : IsParted G stor⦄ (grant : G → F) where
  write_loop-done :
      (fuel w total z : ℕ) (d : List ℕ) (s : Session stor.State)
      → w ≡ total
      → Stops F (write_loop stor malloc (suc fuel) w total z d s)
  unfolding write_loop
  write_loop-done fuel w total z d s e =
      let done : (w == total) ≡ true = ground arith in rw done (ends_ok tt)

  -- A round on an upload that has room copies all bytes.
  mput-Stops :
      (fuel w size z : ℕ) (bytes : List ℕ) (s : Session stor.State)
      → size < 2 ^ 31
      → w ≡ 0
      → z ≡ size
      → Fresh G s
      → Stops F (write_loop stor malloc (suc (suc fuel)) w size z bytes s)
  unfolding write_loop mput_round
  mput-Stops fuel w size z bytes s small none_yet all (up, room) =
      Ends-if (w == size) _ _ s (ends_ok tt) (
        uptype-Ends s.uptype _ _ (λ e. absurd (ground arith))
          (λ _. deref-then s.mput_part s _ (λ p e.
            on_part-then p (Parts.write bytes z) z s _ (write_ends bytes z p)
              (λ at_end. granted-Stops _ (grant ((room p e).1 at_end)))
              (λ q same.
                Ends-then
                  (send_full-Fresh stor q
                    (record s { writer = record s.writer { mput_part = live q } })
                    (λ e'. (room p e).0 (sym same ∙ e')) refl up)
                  (λ _ s h.
                    write_loop-done fuel _ size _ _ s (ground (arith, through_int_small z)))))))

  -- On any upload: a full part is sent first.
  mput_any-Stops :
      (fuel size : ℕ) (bytes : List ℕ) (s : Session stor.State)
      → size < 2 ^ 31
      → s.uptype ≡ mput
      → Made G s
      → Stops F (write_loop stor malloc (suc (suc (suc fuel))) 0 size size bytes s)
  unfolding write_loop mput_round
  mput_any-Stops fuel size bytes s small up made = Ends-if (0 == size) _ _ s (ends_ok tt) (
      uptype-Ends s.uptype _ _ (λ e. absurd (ground arith))
        (λ _. deref-then s.mput_part s _ (λ p e.
          let sent = λ (q : Part) (some_size : q.part_size ≡ 0 → G).
            send_full-Fresh {F = F} {G = G} stor q
              (record s { writer = record s.writer { mput_part = live q } }) some_size refl up in
          on_part-then p (Parts.write bytes size) size s _ (write_ends bytes size p)
            (λ at_end.
              Ends-then (sent p (made.1 p e)) (λ _ s fresh.
                mput-Stops fuel (add64 0 0) size _ _ s small refl (omega arith) fresh))
            (λ q same. Ends-then (sent q (λ z. made.1 p e (sym same ∙ z))) (λ _ s fresh.
              write_loop-done (suc fuel) _ size _ _ s (ground (arith, through_int_small size)))))))

  or_granting : {X : Type 0} → X ⊎ G → X ⊎ F
  or_granting (inl x) = inl x
  or_granting (inr x) = inr (grant x)

  -- While the file is put at once: a full part makes it an upload.
  put-Stops :
      (fuel size : ℕ) (bytes : List ℕ) (s : Session stor.State)
      → size < 2 ^ 31
      → s.uptype ≡ put
      → Made G s
      → Stops F (write_loop stor malloc (suc (suc (suc fuel))) 0 size size bytes s)
  unfolding write_loop put_round
  put-Stops fuel size bytes s small up made = Ends-if (0 == size) _ _ s (ends_ok tt) (
      uptype-Ends s.uptype _ _
        (λ _.
          Ends-then {P' = λ p t. (p.part_size ≡ mb_8) ⊎ F}
            (pointer-Ends s.put_part _ _ (λ _. ends_ok (inl (new_lem malloc mb_8).0))
              (λ p e. ends_ok (or_granting (made.0 p e))))
            (λ p s eight. or_granted _ eight (λ eight.
              on_part-then p (Parts.write bytes size) size s _ (write_ends bytes size p)
                (λ at_end.
                  let s' : Session stor.State = record s {
                    writer = record s.writer { put_part = live p };
                  } in
                  let full : Parts.full p ≡ true = (full_iff p).1 (sym at_end) in
                  if_true (Parts.full p) _ _ s' full (
                    Ends-if (ltb 0 (sub64 size (add64 0 0))) _ _ s'
                      (Ends-then
                        (switch_mput_mode-Fresh stor malloc grant p s' refl eight (at_end ∙ eight))
                        (λ _ s fresh. or_granted _ fresh (λ fresh.
                          mput-Stops fuel (add64 0 0) size _ _ s small refl (rest size small)
                            fresh)))
                      (ends_ok tt)))
                (λ q same.
                  let s' : Session stor.State = record s {
                    writer = record s.writer { put_part = live q };
                  } in
                  let none_left : ltb 0 (sub64 size (add64 0 (through_int size))) ≡ false =
                    ground (arith, through_int_small size) in
                  let all : (add64 0 (through_int size) == size) ≡ true =
                    ground (arith, through_int_small size) in
                  Ends-if (Parts.full q) _ _ s' (rw none_left (ends_ok tt))
                    (rw all (ends_ok tt))))))
        (λ e. absurd (ground arith)))

  loop-Stops :
      (size : ℕ) (bytes : List ℕ) (s : Session stor.State)
      → (2 ^ 31 ≤ size → F)
      → Made G s
      → Stops F (write_loop stor malloc (suc (suc size)) 0 size size bytes s)
  loop-Stops zero bytes s large made = write_loop-done 1 0 0 0 bytes s refl
  loop-Stops (suc k) bytes s large made = elim (dec_lt (suc k) (2 ^ 31)) [
    | yes small ↦ elim (uptype_cases s.uptype) [
      | inl up ↦ put-Stops k (suc k) bytes s small up made
      | inr up ↦ mput_any-Stops k (suc k) bytes s small up made
    ]
    | no big ↦ granted-Stops _ (large (omega arith))
  ]

  -- A write of less than 2 GiB ends.
  pub write-Stops :
      (off size : ℕ) (bytes : List ℕ) (s : Session stor.State)
      → (2 ^ 31 ≤ size → F)
      → Made G s
      → Stops F (write stor malloc off size bytes s)
  unfolding write write_data
  write-Stops off size bytes s large made =
      Ends-if (not (s.next_write_offset == off)) _ _ s (ends_throw tt)
        (Ends-then (loop-Stops size bytes s large made) (λ _ s h. ends_ok tt))
