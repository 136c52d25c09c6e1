-- ===== src/Writer/Release.antt =====
-- What the backend holds once the writer is released.
use mathlib.Core.List.{flatten}
use catfs.Common.{
  ℕ, ◌+◌, ◌-◌, ◌*◌, ◌^◌, ◌<◌, ◌≤◌, ◌≡◌, ◌≢◌, ap, ◌∙◌, some, List, [], arith, Text, ok, throw,
  server_error, length, length-ne-zero, length-append, Bool-cases, inl, inr, ◌==◌, take,
}
use catfs.Stor.{Stor}
use catfs.Stor.Bucket.{mb_8, IsBucket, IsStrict}
use catfs.Writer.Parts
use catfs.Writer.Parts.Filled.{take-len, len-Filled}
use catfs.Writer.Holds.{Holds, nothing, small, large, upload_part-numbered}
use catfs.Writer.{null, Session, upload_file, finish_mput, release}

module _ (stor : Stor) (bucket : IsBucket stor) where
  -- The release of a writer that holds some bytes, and not more than a part, stores them as the
  -- object at its path.
  pub release-Holds :
      (s : Session stor.State) (content : List ℕ)
      → Holds stor bucket s content
      → s.next_write_offset ≡ length content
      → content ≢ []
      → length content ≤ mb_8
      → (s' : Session stor.State) × (release stor s ≡ ok tt s')
        × (bucket.object s'.backend s.path ≡ some content)
  unfolding release upload_file finish_mput
  release-Holds s content (nothing mode at e) next some_bytes fits = absurd (some_bytes e)
  release-Holds s content (small p mode at f) next some_bytes fits =
      let (t, e, at_path) =
        bucket.puts
          (record { obj_key = s.path; buf = some (take (Parts.len p) p.buf); meta_data = [] })
          s.backend in
      (
        record s { backend = t },
        ground (arith, e, length-ne-zero content some_bytes),
        at_path ∙ ap some (take-len p content f),
      )
  release-Holds s content (large p sent tail up at f room split over) next some_bytes fits =
      absurd (omega (arith, over, fits))

  -- The release of a writer that holds more than a part fails: all parts were sent, but the upload
  -- is not completed.
  pub release-refused :
      (strict : IsStrict stor) (s : Session stor.State) (content : List ℕ)
      → Holds stor bucket s content
      → s.next_write_offset ≡ length content
      → mb_8 < length content
      → length content < (2 ^ 31 - 1) * mb_8
      → (message : Text) × (s' : Session stor.State) × (release stor s
          ≡ throw (server_error message) s')
  unfolding release upload_file finish_mput
  release-refused strict s content (nothing mode at e) next over short =
      absurd (omega (arith, ap length e, over))
  release-refused strict s content (small p mode at f) next over short =
      absurd (omega (arith, f.within, f.counted, over))
  release-refused strict s content (large p sent tail up at f room split _) next over short =
      elim (Bool-cases (length tail == 0)) [
        | inl empty ↦
            let (message, t, e) =
              strict.refuses (record { obj_key = s.path; upload_id = s.mput_ctx.upload_id })
                s.backend in
            (
              message,
              record s { backend = t },
              ground (arith, e, up.mode, len-Filled p tail f, over),
            )
        | inr rest ↦
            let (t, e, stored) =
              upload_part-numbered stor bucket p s sent tail f up.count up.stored (
                omega
                  (arith, ap length split, length-append (flatten sent) tail, up.sized, short)) in
            let (message, t₂, e₂) =
              strict.refuses (record { obj_key = s.path; upload_id = s.mput_ctx.upload_id }) t in
            (
              message,
              record {
                writer = record s.writer {
                  mput_ctx = record s.mput_ctx { part_num = s.mput_ctx.part_num + 1 };
                  mput_part = null;
                };
                backend = t₂;
              },
              ground (arith, e, e₂, up.mode, len-Filled p tail f, over),
            )
      ]
