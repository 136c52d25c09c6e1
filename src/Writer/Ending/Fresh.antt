-- ===== src/Writer/Ending/Fresh.antt =====
-- src/fs/fwriter/fwriter_seq.cpp: a part of the upload has room after it was made or sent.
use catfs.Common.{
  ℕ, suc, ◌+◌, ◌-◌, ◌^◌, ◌≡◌, ◌<◌, ◌⊎◌, refl, sym, ◌∙◌, false, not, List, arith, Cmd, Ends, ends_ok,
  ends_fault, Ends-then, Ends-if, granted, any_end, Bool-cases, and_then, inl, inr, ltb, ◌==◌,
  add64, through_int, through_int_small,
}
use catfs.Stor.{Stor}
use catfs.Stor.Bucket.{mb_8}
use catfs.Stor.Ending.{IsEnding, IsParted}
use catfs.Writer.Parts
use catfs.Writer.Parts.{Part}
use catfs.Writer.Parts.Sizes.{Copies, copy_ends, clear_lem, new_lem, full_iff, len_lem}
use catfs.Writer.{
  Session, PartPtr, live, UpType, mput, on_part, upload_part, send_full, copy_loop,
  switch_mput_mode,
}
use catfs.Writer.Ending.Kept.{deref-then}

module _ {F B : Type 0} {W : Type 0} {P : B → Session W → Type 0} {Q : Session W → Type 0} where
  -- What goes on after a copy into a part.
  pub on_part-then :
      (p : Part) (m : Cmd Part ℕ) (size : ℕ) (s : Session W) (k : ℕ × Part → Cmd (Session W) B)
      → Copies m size p
      → (p.woff ≡ p.part_size → Ends F P Q (k (0, p) s))
      → ((q : Part) → q.part_size ≡ p.part_size → Ends F P Q (k (through_int size, q) s))
      → Ends F P Q (and_then (on_part p m s) k)
  on_part-then p m size s k copies full more = elim copies [
    | inl (at_end, e) ↦ rw (e, on_part) (full at_end)
    | inr (_, r) ↦ elim r [
      | inl e ↦ rw (e, on_part) ends_fault
      | inr (q, e, same) ↦ rw (e, on_part) (more q same)
    ]
  ]

-- An upload whose part has room, unless `G` holds.
abbrev pub FreshAt : Type 0 → PartPtr → UpType → Type 0
FreshAt G e u =
    (u ≡ mput) × ((p : Part) → e ≡ live p → (p.part_size ≡ 0 → G) × (p.woff ≡ p.part_size → G))

abbrev pub Fresh : Type 0 → {W : Type 0} → Session W → Type 0
Fresh G s = FreshAt G s.mput_part s.uptype

part-Fresh :
    {G W : Type 0} (dst : Part) (s : Session W)
    → (dst.part_size ≡ 0 → G)
    → dst.woff ≡ 0
    → s.mput_part ≡ live dst
    → s.uptype ≡ mput
    → Fresh G s
part-Fresh dst s some_size empty here up =
    (up, λ p e. (λ z. some_size (ground arith), λ z. some_size (ground arith)))

module _ {F : Type 0} (stor : Stor) ⦃ending : IsEnding F stor⦄ where
  pub upload_part-Fresh :
      (part : Part) (s : Session stor.State) (R : PartPtr → UpType → Type 0)
      → R s.mput_part s.uptype
      → Ends F (λ _ t. R t.mput_part t.uptype) (λ _. Unit {0}) (upload_part stor part s)
  unfolding upload_part
  upload_part-Fresh part s R h =
      let next = record s.mput_ctx { part_num = s.mput_ctx.part_num + 1 } in
      let s' : Session stor.State = record s { writer = record s.writer { mput_ctx = next } } in
      Ends-if (ltb (s.mput_ctx.part_num + 1) (2 ^ 31)) _ _ s
        (any_end (λ s. s.backend) (λ w s. record s { backend = w }) s' (stor.mput _ s.backend)
          (ending.mput _ s.backend) (λ a t e. h) (λ t. tt))
        ends_fault

module _ {F G : Type 0} (stor : Stor) ⦃ending : IsEnding F stor⦄ where
  pub send_full-Fresh :
      (part : Part) (s : Session stor.State)
      → (part.part_size ≡ 0 → G)
      → s.mput_part ≡ live part
      → s.uptype ≡ mput
      → Ends F (λ _. Fresh G) (λ _. Unit {0}) (send_full stor part s)
  unfolding send_full
  send_full-Fresh part s some_size here up = elim (Bool-cases (Parts.full part)) [
    | inl full ↦ rw full (
        Ends-then (upload_part-Fresh stor part s (λ e u. u ≡ mput) up) (λ _ s up. ends_ok (
          up,
          λ p e. (
            λ z. some_size (ground (arith, clear_lem part)),
            λ z. some_size (ground (arith, clear_lem part)),
          ),
        )))
    | inr more ↦ rw more (
        ends_ok
          (up, λ p e. (λ z. some_size (ground arith), λ z. absurd (ground (arith, full_iff part)))))
  ]

  copy_loop-Fresh :
      (fuel : ℕ) (src dst : Part) (total : ℕ) (s : Session stor.State)
      → (G → F)
      → total < 2 ^ 31
      → (dst.part_size ≡ 0 → G)
      → dst.woff ≡ 0
      → s.mput_part ≡ live dst
      → s.uptype ≡ mput
      → Ends F
          (λ _ t. Fresh G t ⊎ F)
          (λ _. Unit {0})
          (copy_loop stor (suc (suc fuel)) src 0 total s)
  unfolding copy_loop
  copy_loop-Fresh fuel src dst total s grant small some_size empty here up =
      Ends-if (not (ltb 0 total)) _ _ s (ends_ok (inl (part-Fresh dst s some_size empty here up))) (
        deref-then s.mput_part s _ (λ p e.
          on_part-then p (Parts.copy src 0 (total - 0)) (total - 0) s _
            (copy_ends src 0 (total - 0) p) (λ at_end. granted _ (grant (some_size (ground arith))))
            (λ q same.
              let done : ltb (add64 0 (through_int (total - 0))) total ≡ false =
                ground (arith, through_int_small (total - 0)) in
              Ends-then
                (send_full-Fresh q (record s { writer = record s.writer { mput_part = live q } })
                  (λ z. some_size (ground arith)) refl up)
                (λ _ s fresh. rw done (ends_ok (inl fresh))))))

module _ {F G : Type 0} (stor : Stor) (malloc : ℕ → List ℕ) ⦃ending : IsEnding F stor⦄
    ⦃parted : IsParted G stor⦄ (grant : G → F) where
  -- A full first part goes over to the upload.
  pub switch_mput_mode-Fresh :
      (src : Part) (s : Session stor.State)
      → s.put_part ≡ live src
      → src.part_size ≡ mb_8
      → src.woff ≡ mb_8
      → Ends F (λ _ t. Fresh G t ⊎ F) (λ _. Unit {0}) (switch_mput_mode stor malloc s)
  unfolding switch_mput_mode
  switch_mput_mode-Fresh src s here eight full =
      Ends-then {P' = λ answer t. (t.put_part ≡ live src) × (answer.part_size ≡ 0 → G)}
        (any_end (λ s. s.backend) (λ w s. record s { backend = w }) s (stor.minit _ _ s.backend)
          (ending.minit _ _ s.backend) (λ a t e. (here, parted.part_size _ _ a s.backend t e))
          (λ t. tt))
        (λ answer s (here, some_size).
          let dst = Parts.new malloc answer.part_size in
          let (size, empty) = new_lem malloc answer.part_size in
          let s' : Session stor.State = record s {
            writer = record s.writer {
              mput_part = live dst;
              uptype = mput;
              mput_ctx = record { upload_id = answer.upload_id; part_num = 0 };
            };
          } in
          let some_size' : dst.part_size ≡ 0 → G = λ z. some_size (sym size ∙ z) in
          deref-then s'.put_part s' _ (λ p e.
            let short : Parts.len p < 2 ^ 31 = ground (arith, len_lem p) in
            Ends-then
              (Ends-if (Parts.cap dst == Parts.len p) _ _ s'
                (upload_part-Fresh stor p s' (λ e u. FreshAt G e u ⊎ F)
                  (inl (part-Fresh dst s' some_size' empty refl refl)))
                (copy_loop-Fresh stor (Parts.len p) p dst (Parts.len p) s' grant short some_size'
                  empty refl refl))
              (λ _ s h. ends_ok h)))
