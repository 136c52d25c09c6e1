-- ===== src/Writer/File.antt =====
-- A whole file: opened, written block by block in order, and released.
use mathlib.Core.List.{flatten}
use catfs.Common.{
  ℕ, throw, server_error, ◌-◌, ◌*◌, ◌+◌, ◌%◌, ◌^◌, ◌≤◌, ◌<◌, ◌≡◌, ◌≢◌, refl, sym, ap, ◌∙◌, subst,
  some, List, [], ◌∷◌, ◌++◌, append_assoc, append-nil, arith, ok, length, length-append, Text, Cmd,
  pure, ◌>>◌,
}
use catfs.Stor.{Stor}
use catfs.Stor.Bucket.{mb_8, IsBucket, IsStrict}
use catfs.Writer.Holds.{Holds, nothing}
use catfs.Writer.Writes.{write-append}
use catfs.Writer.Release.{release-Holds, release-refused}
use catfs.Writer.{Session, new_writer, write, release}

-- No block, written from `off` on, crosses the end of a part.
abbrev pub InParts : (off : ℕ) → List (List ℕ) → Type 0
InParts off [] = Unit {0}
InParts off (b ∷ bs) = (off % mb_8 + length b ≤ mb_8) × InParts (off + length b) bs

-- Blocks that do not get past the first part.
pub within-InParts :
    (blocks : List (List ℕ)) (off : ℕ) → off + length (flatten blocks) ≤ mb_8 → InParts off blocks
unfolding flatten
within-InParts [] off le = tt
within-InParts (b ∷ bs) off le =
    let whole = length-append b (flatten bs) in
    (
      at_most off (length b) (omega (arith, whole)),
      within-InParts bs (off + length b) (omega (arith, whole)),
    )
  where
    at_most : (m n : ℕ) → m + n ≤ mb_8 → m % mb_8 + n ≤ mb_8
    at_most m n le = omega arith

abbrev pub fresh : {W : Type 0} → Text → W → Session W
fresh path w = record { writer = new_writer path; backend = w }

module _ (stor : Stor) (malloc : ℕ → List ℕ) where
  -- What a client of the mounted file system does, one `write` after the other.
  abbrev pub write_blocks : (off : ℕ) → List (List ℕ) → Cmd (Session stor.State) (Unit {0})
  write_blocks off [] = pure tt
  write_blocks off (b ∷ bs) = do
    write stor malloc off (length b) b
    write_blocks (off + length b) bs

module _ (stor : Stor) (bucket : IsBucket stor) (malloc : ℕ → List ℕ)
    (malloc_size : (n : ℕ) → length (malloc n) ≡ n) where
  write_blocks-append :
      (blocks : List (List ℕ)) (off : ℕ) (s : Session stor.State) (content : List ℕ)
      → Holds stor bucket s content
      → s.next_write_offset ≡ length content
      → off ≡ length content
      → InParts off blocks
      → length content + length (flatten blocks) < (2 ^ 31 - 1) * mb_8
      → (s' : Session stor.State) × (write_blocks stor malloc off blocks s ≡ ok tt s')
        × Holds stor bucket s' (content ++ flatten blocks)
        × (s'.next_write_offset ≡ length (content ++ flatten blocks))
        × (s'.path ≡ s.path)
  unfolding flatten
  write_blocks-append [] off s content h next at fits short =
      (s, refl, rw append-nil h, next ∙ ap length (sym (append-nil content)), refl)
  write_blocks-append (b ∷ bs) off s content h next at fits short =
      let (s₁, e, h₁, next₁, path₁) =
        write-append stor bucket malloc malloc_size s content b h next (rw (← at) fits.0)
          (omega (arith, length-append b (flatten bs))) in
      let (s₂, e₂, h₂, next₂, path₂) =
        write_blocks-append bs (off + length b) s₁ (content ++ b) h₁ next₁
          (omega (arith, length-append content b)) fits.1
          (omega (arith, length-append content b, length-append b (flatten bs))) in
      (
        s₂,
        ground (arith, e, e₂),
        subst (Holds stor bucket s₂) (append_assoc content b (flatten bs)) h₂,
        next₂ ∙ ap length (append_assoc content b (flatten bs)),
        path₂ ∙ path₁,
      )

  -- Written in order in blocks and released, a file of at most 8 MiB that is not empty is the
  -- object at its path; no step fails.
  pub write_blocks-release :
      (path : Text) (w : stor.State) (blocks : List (List ℕ))
      → flatten blocks ≢ []
      → length (flatten blocks) ≤ mb_8
      → (s : Session stor.State) × ((write_blocks stor malloc 0 blocks >> release stor)
            (fresh path w)
          ≡ ok tt s)
        × (bucket.object s.backend path ≡ some (flatten blocks))
  write_blocks-release path w blocks some_bytes short =
      let (s₁, e, h, next, at) =
        write_blocks-append blocks 0 (fresh path w) [] (nothing refl refl refl) refl refl
          (within-InParts blocks 0 (omega arith)) (omega arith) in
      let (s₂, e₂, stored) =
        release-Holds stor bucket s₁ (flatten blocks) h next some_bytes short in
      (s₂, rw e e₂, rw at at stored)

  -- Written in order in blocks that do not cross the end of an 8 MiB part, a file of more than
  -- 8 MiB, and of less than 2^31 - 1 parts, cannot be stored over a backend that needs the list of
  -- the parts: each write succeeds, and then the release throws a server_error.
  pub write_blocks-refused :
      (strict : IsStrict stor) (path : Text) (w : stor.State) (blocks : List (List ℕ))
      → InParts 0 blocks
      → mb_8 < length (flatten blocks)
      → length (flatten blocks) < (2 ^ 31 - 1) * mb_8
      → (message : Text) × (s s' : Session stor.State) × (write_blocks stor malloc 0 blocks
            (fresh path w)
          ≡ ok tt s)
        × (release stor s ≡ throw (server_error message) s')
  write_blocks-refused strict path w blocks fits over short =
      let (s₁, e, h, next, at) =
        write_blocks-append blocks 0 (fresh path w) [] (nothing refl refl refl) refl refl fits
          (omega arith) in
      let (message, s₂, e₂) =
        release-refused stor bucket strict s₁ (flatten blocks) h next over short in
      (message, s₁, s₂, e, e₂)
