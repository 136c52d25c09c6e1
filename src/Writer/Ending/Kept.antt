-- ===== src/Writer/Ending/Kept.antt =====
-- src/fs/fwriter/fwriter_seq.cpp: the sizes of a writer's parts, which no method changes.
use catfs.Common.{
  ◌^◌, ◌⊎◌, ℕ, zero, suc, ◌+◌, ◌-◌, ◌≡◌, refl, sym, ◌∙◌, not, List, arith, Cmd, Run, fault, Ends,
  ends_ok, ends_fault, ends_throw, ends_out_of_fuel, Ends-then, Ends-if, Ends-test, Keeps, any_end,
  and_then, inl, inr, ltb, ◌==◌, add64, sub64,
}
use catfs.Stor.{Stor}
use catfs.Stor.Bucket.{mb_8}
use catfs.Stor.Ending.{IsParted}
use catfs.Writer.Parts
use catfs.Writer.Parts.{Part}
use catfs.Writer.Parts.Sizes.{Copies, write_ends, copy_ends, clear_lem, new_lem}
use catfs.Writer.{
  SequenceWriter, Session, PartPtr, null, live, freed, UpType, put, mput, on_part, deref,
  upload_part, send_full, copy_loop, mput_round, put_round, write_loop, write_data, write,
  switch_mput_mode, upload_file, finish_mput, finish_write, release,
}

-- A part for a file that is put at once has 8 MiB, and one of an upload has some bytes, unless `G`
-- holds.
abbrev pub IsMade : Type 0 → SequenceWriter → Type 0
IsMade G w =
    ((p : Part) → w.put_part ≡ live p → (p.part_size ≡ mb_8) ⊎ G)
    × ((p : Part) → w.mput_part ≡ live p → p.part_size ≡ 0 → G)

abbrev pub Made : Type 0 → {W : Type 0} → Session W → Type 0
Made G s = IsMade G s.writer

module _ {F B : Type 0} {W : Type 0} {P : B → Session W → Type 0} {Q : Session W → Type 0} where
  -- The part at a pointer that is used.
  pub deref-then :
      (e : PartPtr) (s : Session W) (k : Part → Cmd (Session W) B)
      → ((p : Part) → e ≡ live p → Ends F P Q (k p s))
      → Ends F P Q (and_then (deref e s) k)
  deref-then null s k h = ends_fault
  deref-then (live p) s k h = h p refl
  deref-then freed s k h = ends_fault

module _ {F B : Type 0} {W : Type 0} {P : B → Session W → Type 0} {Q : Session W → Type 0} where
  pub pointer-Ends :
      (e : PartPtr) (r : Run (Session W) B) (k : Part → Run (Session W) B)
      → (e ≡ null → Ends F P Q r)
      → ((p : Part) → e ≡ live p → Ends F P Q (k p))
      → Ends F P Q (elim e [ null ↦ r | live p ↦ k p | freed ↦ fault ])
  pointer-Ends null r k f g = f refl
  pointer-Ends (live p) r k f g = g p refl
  pointer-Ends freed r k f g = ends_fault

module _ {F : Type 0} {W : Type 0} {Q : Session W → Type 0} where
  -- A copy into a part keeps its size.
  pub on_part-size :
      (R : Session W → Type 0) (p : Part) (m : Cmd Part ℕ) (size : ℕ) (s : Session W)
      → Copies m size p
      → R s
      → Ends F (λ r t. R t × (r.1.part_size ≡ p.part_size)) Q (on_part p m s)
  on_part-size R p m size s copies h = elim copies [
    | inl (_, e) ↦ rw (e, on_part) (ends_ok (h, refl))
    | inr (_, r) ↦ elim r [
      | inl e ↦ rw (e, on_part) ends_fault
      | inr (q, e, same) ↦ rw (e, on_part) (ends_ok (h, same))
    ]
  ]

module _ {F S B : Type 0} {P : B → S → Type 0} {Q : S → Type 0} where
  pub uptype-Ends :
      (u : UpType) (r r' : Run S B)
      → (u ≡ put → Ends F P Q r)
      → (u ≡ mput → Ends F P Q r')
      → Ends F P Q (elim u [ put ↦ r | mput ↦ r' ])
  uptype-Ends put r r' h k = h refl
  uptype-Ends mput r r' h k = k refl

module _ {G : Type 0} (stor : Stor) where
  upload_part-Made : (part : Part) → Keeps (Unit {0}) (Made G) (upload_part stor part)
  unfolding upload_part
  upload_part-Made part s h =
      let next = record s.mput_ctx { part_num = s.mput_ctx.part_num + 1 } in
      let s' : Session stor.State = record s { writer = record s.writer { mput_ctx = next } } in
      Ends-if (ltb (s.mput_ctx.part_num + 1) (2 ^ 31)) _ _ s
        (any_end (λ s. s.backend) (λ w s. record s { backend = w }) s' (stor.mput _ s.backend)
          (λ e. tt) (λ a t e. h) (λ t. h))
        ends_fault

  send_full-Made :
      (part : Part) → (part.part_size ≡ 0 → G) → Keeps (Unit {0}) (Made G) (send_full stor part)
  unfolding send_full
  send_full-Made part some_size s h =
      Ends-if (Parts.full part) _ _ s
        (Ends-then (upload_part-Made part s h)
          (λ _ s h. ends_ok (h.0, λ p e z. some_size (ground (arith, clear_lem part)))))
        (ends_ok h)

  copy_loop-Made :
      (fuel : ℕ) (src : Part) (done total : ℕ)
      → Keeps (Unit {0}) (Made G) (copy_loop stor fuel src done total)
  unfolding copy_loop
  copy_loop-Made zero src done total s h = ends_out_of_fuel tt
  copy_loop-Made (suc fuel) src done total s h = Ends-if (not (ltb done total)) _ _ s (ends_ok h) (
      deref-then s.mput_part s _ (λ dst e.
        Ends-then
          (on_part-size (Made G) dst (Parts.copy src done (total - done)) (total - done) s
            (copy_ends src done (total - done) dst) h)
          (λ (n, dst') s' (h', same).
            let some_size : dst'.part_size ≡ 0 → G = λ z. h.1 dst e (sym same ∙ z) in
            Ends-then
              (send_full-Made dst' some_size
                (record s' { writer = record s'.writer { mput_part = live dst' } })
                (h'.0, λ p e z. some_size (ground arith)))
              (λ _ s h. copy_loop-Made fuel src (add64 done n) total s h))))

  upload_file-Made : Keeps (Unit {0}) (Made G) (upload_file stor)
  unfolding upload_file
  upload_file-Made s h =
      pointer-Ends s.put_part _ _ (λ _. ends_ok h)
        (λ p e.
          any_end (λ s. s.backend) (λ w s. record s { backend = w }) s (stor.put_file _ s.backend)
            (λ e. tt) (λ a t e. h) (λ t. h))

  finish_mput-Made : Keeps (Unit {0}) (Made G) (finish_mput stor)
  unfolding finish_mput
  finish_mput-Made s h =
      Ends-then
        (pointer-Ends s.mput_part _ _ (λ _. ends_ok h)
          (λ p e.
            Ends-if (ltb 0 (Parts.len p)) _ _ s
              (Ends-then (upload_part-Made p s h) (λ _ s h. ends_ok (h.0, λ p e. cc))) (ends_ok h)))
        (λ _ s h.
          any_end (λ s. s.backend) (λ w s. record s { backend = w }) s (stor.mfinish _ s.backend)
            (λ e. tt) (λ a t e. h) (λ t. h))

  pub release-Made : Keeps (Unit {0}) (Made G) (release stor)
  unfolding release finish_write
  release-Made s h =
      Ends-test (s.next_write_offset == 0) _ _ (ends_ok h)
        (uptype-Ends s.uptype _ _ (λ _. upload_file-Made s h) (λ _. finish_mput-Made s h))

  mput_round-Made :
      (again : (wbytes size : ℕ) → List ℕ → Cmd (Session stor.State) (Unit {0}))
      → ((w z : ℕ) (d : List ℕ) → Keeps (Unit {0}) (Made G) (again w z d))
      → (wbytes size : ℕ) (bytes : List ℕ)
      → Keeps (Unit {0}) (Made G) (mput_round stor again wbytes size bytes)
  unfolding mput_round
  mput_round-Made again keep wbytes size bytes s h = deref-then s.mput_part s _ (λ p e.
      Ends-then
        (on_part-size (Made G) p (Parts.write bytes size) size s (write_ends bytes size p) h)
        (λ (n, p') s' (h', same).
          let some_size : p'.part_size ≡ 0 → G = λ z. h.1 p e (sym same ∙ z) in
          Ends-then
            (send_full-Made p' some_size
              (record s' { writer = record s'.writer { mput_part = live p' } })
              (h'.0, λ p e z. some_size (ground arith)))
            (λ _ s h. keep (add64 wbytes n) _ _ s h)))

module _ {G : Type 0} (stor : Stor) (malloc : ℕ → List ℕ) ⦃parted : IsParted G stor⦄ where
  switch_mput_mode-Made : Keeps (Unit {0}) (Made G) (switch_mput_mode stor malloc)
  unfolding switch_mput_mode
  switch_mput_mode-Made s h =
      Ends-then {P' = λ answer t. Made G t × (answer.part_size ≡ 0 → G)}
        (any_end (λ s. s.backend) (λ w s. record s { backend = w }) s (stor.minit _ _ s.backend)
          (λ e. tt) (λ a t e. (h, parted.part_size _ _ a s.backend t e)) (λ t. h))
        (λ answer s (h, some_size).
          let dst = Parts.new malloc answer.part_size in
          let s' : Session stor.State = record s {
            writer = record s.writer {
              mput_part = live dst;
              uptype = mput;
              mput_ctx = record { upload_id = answer.upload_id; part_num = 0 };
            };
          } in
          let h' : Made G s' =
            (h.0, λ p e z. some_size (ground (arith, new_lem malloc answer.part_size))) in
          deref-then s'.put_part s' _ (λ src e.
            Ends-then
              (Ends-if (Parts.cap dst == Parts.len src) _ _ s' (upload_part-Made stor src s' h')
                (copy_loop-Made stor (suc (suc (Parts.len src))) src 0 (Parts.len src) s' h'))
              (λ _ s h. ends_ok ((λ p e. cc), h.1))))

  put_round-Made :
      (again : (wbytes size : ℕ) → List ℕ → Cmd (Session stor.State) (Unit {0}))
      → ((w z : ℕ) (d : List ℕ) → Keeps (Unit {0}) (Made G) (again w z d))
      → (wbytes size : ℕ) (bytes : List ℕ)
      → Keeps (Unit {0}) (Made G) (put_round stor malloc again wbytes size bytes)
  unfolding put_round
  put_round-Made again keep wbytes size bytes s h =
      Ends-then {P' = λ p t. Made G t × ((p.part_size ≡ mb_8) ⊎ G)}
        (pointer-Ends s.put_part _ _ (λ _. ends_ok (h, inl (ground (arith, new_lem malloc mb_8))))
          (λ p e. ends_ok (h, h.0 p e)))
        (λ p s (h, eight).
          Ends-then
            (on_part-size (Made G) p (Parts.write bytes size) size s (write_ends bytes size p) h)
            (λ (n, p') s' (h', same).
              let h'' : Made G (record s' { writer = record s'.writer { put_part = live p' } }) =
                ((λ p e. ground arith), h'.1) in
              Ends-if (Parts.full p') _ _ _
                (Ends-if (ltb 0 (sub64 size (add64 wbytes n))) _ _ _
                  (Ends-then (switch_mput_mode-Made _ h'') (λ _ s h. keep _ _ _ s h)) (ends_ok h''))
                (Ends-if (add64 wbytes n == size) _ _ _ (ends_ok h'') (keep _ _ _ _ h''))))

  write_loop-Made :
      (fuel wbytes total size : ℕ) (bytes : List ℕ)
      → Keeps (Unit {0}) (Made G) (write_loop stor malloc fuel wbytes total size bytes)
  unfolding write_loop
  write_loop-Made zero wbytes total size bytes s h = ends_out_of_fuel tt
  write_loop-Made (suc fuel) wbytes total size bytes s h =
      let again = λ (w z : ℕ) (d : List ℕ). write_loop stor malloc fuel w total z d in
      let keep = λ (w z : ℕ) (d : List ℕ). write_loop-Made fuel w total z d in
      Ends-if (wbytes == total) _ _ s (ends_ok h) (
        uptype-Ends s.uptype _ _ (λ _. put_round-Made again keep wbytes size bytes s h)
          (λ _. mput_round-Made stor again keep wbytes size bytes s h))

  pub write-Made :
      (off size : ℕ) (bytes : List ℕ) → Keeps (Unit {0}) (Made G) (write stor malloc off size bytes)
  unfolding write write_data
  write-Made off size bytes s h =
      Ends-if (not (s.next_write_offset == off)) _ _ s (ends_throw h)
        (Ends-then (write_loop-Made (suc (suc size)) 0 size size bytes s h) (λ _ s h. ends_ok h))
