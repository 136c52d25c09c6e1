-- ===== src/Fs/Contents.antt =====
-- src/fs/fs_file.cpp and src/fs/open_file.cpp: a file written through a handle, and read again.
use Prim.Native.Nat.{min}
use mathlib.Core.List.{flatten}
use catfs.Common.{
  ℕ, ◌*◌, ◌+◌, ◌-◌, ◌^◌, ◌%◌, ◌≡◌, ◌≢◌, refl, sym, ap, ◌∙◌, subst, ◌<◌, ◌≤◌, length, true, none,
  some, List, [], ◌∷◌, ◌++◌, arith, Cmd, ok, pure, ◌>>◌, lookup, insert, lookup-insert, number_key,
  take, drop, through_int, append_assoc, append-nil, length-append,
}
use catfs.Stor.{Stor, Timespec, ObjInfo}
use catfs.Stor.Bucket.{mb_8, IsBucket}
use catfs.Writer.{Session}
use catfs.Writer.Holds.{Holds}
use catfs.Writer.Writes.{write-append}
use catfs.Writer.Release.{release-Holds}
use catfs.Meta.Impl
use catfs.Meta.Local.Index.{HasInode, update_inode-HasInode}
use catfs.Fs.{CatFs, OpenFile, file_at, file_write, readfile, writefile, release_file}
use catfs.Writer.File.{InParts, within-InParts}
use catfs.Fs.Handles.{readfile_range}

abbrev pub session : {W : Type 0} → CatFs W → OpenFile → Session W
session s f = record { writer = f.writer; backend = s.meta.backend }

module _ (stor : Stor) (bucket : IsBucket stor) where
  -- A handle of a file in which `content` has been written, and whose inode is known.
  pub record IsOpen (s : CatFs stor.State) (hno : ℕ) (f : OpenFile) (content : List ℕ)
      : Type 0 where
    pub opened : lookup hno s.open_files ≡ some (some f)
    pub number : f.hno ≡ hno
    pub holds : Holds stor bucket (session s f) content
    pub next : f.writer.next_write_offset ≡ length content
    pub path : f.writer.path ≡ f.rtfile.path
    pub size : f.rtfile.size ≡ length content
    pub inode : HasInode s.meta.local f.ino

module _ (stor : Stor) (bucket : IsBucket stor) (malloc : ℕ → List ℕ)
    (malloc_size : (n : ℕ) → length (malloc n) ≡ n) (clock : ℕ → Timespec) (junk : ObjInfo) where
  -- A write at the end of what is written through the handle, that stays within a part, in a file of
  -- less than 2^31 - 1 parts of 8 MiB, succeeds, answers its size as the int of the code, and
  -- appends; the size in the handle and that of the inode are the new length, and the path stays.
  pub writefile_append :
      (s : CatFs stor.State) (hno : ℕ) (f : OpenFile) (content bytes : List ℕ)
      → IsOpen stor bucket s hno f content
      → length content % mb_8 + length bytes ≤ mb_8
      → length content + length bytes < (2 ^ 31 - 1) * mb_8
      → (s' : CatFs stor.State) × (f' : OpenFile) × (writefile stor malloc clock junk hno
            (length content)
            (length bytes)
            bytes
            s
          ≡ ok (through_int (length bytes)) s')
        × (is_open : IsOpen stor bucket s' hno f' (content ++ bytes)) × (is_open.inode.inode.size
            ≡ length (content ++ bytes))
        × (f'.rtfile.path ≡ f.rtfile.path)
  unfolding writefile file_write file_at Impl.update_inode_size
  writefile_append s hno f content bytes h fits short =
      let (t, wrote, holds, next, path) =
        write-append stor bucket malloc malloc_size (session s f) content bytes h.holds h.next fits
          short in
      let f₁ : OpenFile = record f { writer = t.writer } in
      let f' : OpenFile = record f₁ {
        has_wrote = true;
        rtfile = record f.rtfile { size = t.writer.next_write_offset };
      } in
      let (p, l, updated, inode, changed) =
        update_inode-HasInode s.meta.local f.ino
          (record { size = some t.writer.next_write_offset; mode = none; uid = none; gid = none })
          h.inode in
      let files₁ = insert hno (some f₁) s.open_files in
      let s' : CatFs stor.State = record s {
        meta = record s.meta { local = l; backend = t.backend };
        open_files = insert hno (some f') files₁;
      } in
      (
        s',
        f',
        ground (
          arith,
          h.opened,
          h.number,
          wrote,
          updated,
          lookup-insert hno hno (some f₁) s.open_files,
        ),
        record {
          opened = ground (arith, lookup-insert hno hno (some f') files₁);
          number = h.number;
          holds = holds;
          next = next;
          path = path ∙ h.path;
          size = next;
          inode = inode;
        },
        ap (λ i. i.size) changed ∙ next,
        refl,
      )

  -- What a client does, one block after the other.
  abbrev pub write_blocks : (hno off : ℕ) → List (List ℕ) → Cmd (CatFs stor.State) (Unit {0})
  write_blocks hno off [] = pure tt
  write_blocks hno off (b ∷ bs) = do
    writefile stor malloc clock junk hno off (length b) b
    write_blocks hno (off + length b) bs

  write_blocks_append :
      (blocks : List (List ℕ)) (off : ℕ) (s : CatFs stor.State) (hno : ℕ) (f : OpenFile)
      (content : List ℕ)
      → IsOpen stor bucket s hno f content
      → off ≡ length content
      → InParts off blocks
      → length content + length (flatten blocks) < (2 ^ 31 - 1) * mb_8
      → (s' : CatFs stor.State) × (f' : OpenFile) × (write_blocks hno off blocks s ≡ ok tt s')
        × IsOpen stor bucket s' hno f' (content ++ flatten blocks)
        × (f'.rtfile.path ≡ f.rtfile.path)
  unfolding flatten
  write_blocks_append [] off s hno f content h at fits short = (s, f, refl, rw append-nil h, refl)
  write_blocks_append (b ∷ bs) off s hno f content h at fits short =
      let (s₁, f₁, e, h₁, _, path₁) =
        writefile_append s hno f content b h (rw (← at) fits.0)
          (omega (arith, length-append b (flatten bs))) in
      let (s₂, f₂, e₂, h₂, path₂) =
        write_blocks_append bs (off + length b) s₁ hno f₁ (content ++ b) h₁
          (omega (arith, at, length-append content b)) fits.1
          (omega (arith, length-append content b, length-append b (flatten bs))) in
      (
        s₂,
        f₂,
        ground (arith, at, e, e₂),
        subst (IsOpen stor bucket s₂ hno f₂) (append_assoc content b (flatten bs)) h₂,
        path₂ ∙ path₁,
      )

  -- Releasing a handle by which at least one byte and at most 8 MiB were written stores them as the
  -- object at the path of the file; the handle stays in the table, with the path and the size.
  pub release_file_stores :
      (s : CatFs stor.State) (hno : ℕ) (f : OpenFile) (content : List ℕ)
      → IsOpen stor bucket s hno f content
      → content ≢ []
      → length content ≤ mb_8
      → (s' : CatFs stor.State) × (f' : OpenFile) × (release_file stor malloc clock junk hno s
          ≡ ok tt s')
        × (bucket.object s'.meta.backend f.rtfile.path ≡ some content)
        × (lookup hno s'.open_files ≡ some (some f'))
        × (f'.rtfile ≡ f.rtfile)
  unfolding release_file file_at
  release_file_stores s hno f content h some_bytes fits =
      let (t, e, stored) =
        release-Holds stor bucket (session s f) content h.holds h.next some_bytes fits in
      let f' : OpenFile = record f { writer = t.writer } in
      (
        record s {
          meta = record s.meta { backend = t.backend };
          open_files = insert hno (some f') s.open_files;
        },
        f',
        ground (arith, h.opened, e),
        ap (bucket.object t.backend) (sym h.path) ∙ stored,
        ground (arith, lookup-insert hno hno (some f') s.open_files),
        refl,
      )

  -- A file of at most 8 MiB that is written through a handle in blocks, not all of them empty,
  -- and released reads back: each range within 2^64 answers the bytes written in it, as far as the file goes.
  pub write_release_read :
      (s : CatFs stor.State) (hno : ℕ) (f : OpenFile) (blocks : List (List ℕ)) (off size : ℕ)
      → IsOpen stor bucket s hno f []
      → flatten blocks ≢ []
      → length (flatten blocks) ≤ mb_8
      → off + size < 2 ^ 64
      → let n = min size (length (flatten blocks) - off) in
        (s' : CatFs stor.State) × ((write_blocks hno 0 blocks
              >> release_file stor malloc clock junk hno
              >> readfile stor malloc clock junk hno off size)
            s
          ≡ ok (through_int n, take n (drop off (flatten blocks))) s')
  write_release_read s hno f blocks off size h some_bytes short range =
      let (s₁, f₁, e₁, h₁, path₁) =
        write_blocks_append blocks 0 s hno f [] h refl (within-InParts blocks 0 (omega arith))
          (omega arith) in
      let (s₂, f₂, e₂, stored, opened, same) =
        release_file_stores s₁ hno f₁ (flatten blocks) h₁ some_bytes short in
      let size₂ : f₂.rtfile.size ≡ length (flatten blocks) = ap (λ r. r.size) same ∙ h₁.size in
      let read =
        readfile_range stor bucket malloc clock junk s₂ hno off size f₂ (flatten blocks) opened
          (ap (λ r. bucket.object s₂.meta.backend r.path) same ∙ stored) (omega (arith, size₂))
          (omega (arith, short)) range in
      (s₂, ground (arith, e₁, e₂, read, size₂))
