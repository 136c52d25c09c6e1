-- ===== src/Writer/Ending/Finish.antt =====
-- src/fs/fwriter/fwriter_seq.cpp: release ends.
use catfs.Common.{ends_ok, Ends-then, Ends-if, Ends-test, Stops, any_end, ltb, ◌==◌}
use catfs.Stor.{Stor}
use catfs.Stor.Ending.{IsEnding}
use catfs.Writer.Parts
use catfs.Writer.Parts.{Part}
use catfs.Writer.{Session, upload_part, upload_file, finish_mput, finish_write, release}
use catfs.Writer.Ending.Kept.{pointer-Ends, uptype-Ends}
use catfs.Writer.Ending.Fresh.{upload_part-Fresh}

module _ {F : Type 0} (stor : Stor) ⦃ending : IsEnding F stor⦄ where
  upload_part-Stops : (part : Part) (s : Session stor.State) → Stops F (upload_part stor part s)
  upload_part-Stops part s = upload_part-Fresh stor part s (λ e u. Unit {0}) tt

  finish_mput-Stops : (s : Session stor.State) → Stops F (finish_mput stor s)
  unfolding finish_mput
  finish_mput-Stops s =
      Ends-then {P' = λ _ _. Unit {0}}
        (pointer-Ends s.mput_part _ _ (λ _. ends_ok tt)
          (λ p e.
            Ends-if (ltb 0 (Parts.len p)) _ _ s
              (Ends-then (upload_part-Stops p s) (λ _ s h. ends_ok tt)) (ends_ok tt)))
        (λ _ s h.
          any_end (λ s. s.backend) (λ w s. record s { backend = w }) s (stor.mfinish _ s.backend)
            (ending.mfinish _ s.backend) (λ a t e. tt) (λ t. tt))

  upload_file-Stops : (s : Session stor.State) → Stops F (upload_file stor s)
  unfolding upload_file
  upload_file-Stops s =
      pointer-Ends s.put_part _ _ (λ _. ends_ok tt)
        (λ p e.
          any_end (λ s. s.backend) (λ w s. record s { backend = w }) s (stor.put_file _ s.backend)
            (ending.put_file _ s.backend) (λ a t e. tt) (λ t. tt))

  pub release-Stops : (s : Session stor.State) → Stops F (release stor s)
  unfolding release finish_write
  release-Stops s =
      Ends-test (s.next_write_offset == 0) _ _ (ends_ok tt)
        (uptype-Ends s.uptype _ _ (λ _. upload_file-Stops s) (λ _. finish_mput-Stops s))
