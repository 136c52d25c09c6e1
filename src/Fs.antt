-- ===== src/Fs.antt =====
-- src/fs/fs.h, fs.cpp, fs_dir.cpp, fs_file.cpp, open_file.h, open_file.cpp, open_dir.h and
-- freader/freader_direct.cpp, and src/types/rtfile.h: handles, files and directories over the
-- metadata and the backend. The locks are left out: an operation is one step.
pub mod Contents
mod Examples
pub mod Handles
pub mod Kept
pub mod Open
pub mod Sample
use catfs.Common.{
  ℕ, ◌-◌, Bool, true, false, Option, none, some, List, [], ◌∷◌, Text, bytes, number_key, lookup,
  insert, erase, Cmd, ok, throw, enoent, number, literal, fault, pure, modify, ◌>>=◌, ◌>>◌, zoom,
  length, take, drop, ltb, leb, ◌==◌, if◌then◌else◌, add64, through_int,
}
use catfs.Stor.{Stor, Timespec, ObjInfo}
use catfs.Writer.{SequenceWriter, Session, new_writer}
use catfs.Writer
use catfs.Meta.Heap.{Ptr, null, Dirent, read_dentry, read_inode}
use catfs.Meta.Dentry
use catfs.Meta.Impl.{MetaImpl}
use catfs.Meta.Impl

pub record RtFile : Type 0 where
  pub path : Text
  pub size : ℕ

-- The reader and the writer are those of openfile: direct and sequential. The flags first_write and
-- is_writing are set and never read, and are left out.
pub record OpenFile : Type 0 where
  pub ino : ℕ
  pub hno : ℕ
  pub rtfile : RtFile
  pub writer : SequenceWriter
  pub has_wrote : Bool

pub record OpenDir : Type 0 where
  pub ino : ℕ
  pub hno : ℕ
  pub dentries : List Dirent

-- `none` in a map of handles is a null pointer.
pub record CatFs (W : Type 0) : Type 0 where
  pub meta : MetaImpl W
  pub next_handle_id : ℕ
  pub open_dirs : List (ℕ × Option OpenDir)
  pub open_files : List (ℕ × Option OpenFile)

-- The constructor of CatFS. The backend is that of the metadata.
unfoldable pub new_catfs : {W : Type 0} → MetaImpl W → CatFs W
new_catfs meta = record { meta = meta; next_handle_id = 0; open_dirs = []; open_files = [] }

-- errno ENOENT
abbrev pub errno_enoent : ℕ
errno_enoent = 2

module _ {W A : Type 0} where
  abbrev pub on_meta : Cmd (MetaImpl W) A → Cmd (CatFs W) A
  on_meta = zoom (λ s. s.meta) (λ m s. record s { meta = m })

  abbrev pub on_stor : Cmd W A → Cmd (CatFs W) A
  on_stor m = on_meta (Impl.on_backend m)

module _ {W : Type 0} where
  unfoldable pub get_next_handle_id : Cmd (CatFs W) ℕ
  get_next_handle_id s =
      ok s.next_handle_id (record s { next_handle_id = add64 s.next_handle_id 1 })

  -- open_files[hno], which enters a null pointer for a new key.
  pub file_at : ℕ → Cmd (CatFs W) (Option OpenFile)
  file_at hno s = elim (lookup hno s.open_files) [
    | some f ↦ ok f s
    | none ↦ ok none (record s { open_files = insert hno none s.open_files })
  ]

  pub dir_at : ℕ → Cmd (CatFs W) (Option OpenDir)
  dir_at hno s = elim (lookup hno s.open_dirs) [
    | some d ↦ ok d s
    | none ↦ ok none (record s { open_dirs = insert hno none s.open_dirs })
  ]

  abbrev set_file : ℕ → OpenFile → Cmd (CatFs W) (Unit {0})
  set_file hno f = modify (λ s. record s { open_files = insert hno (some f) s.open_files })

  abbrev set_dir : ℕ → OpenDir → Cmd (CatFs W) (Unit {0})
  set_dir hno d = modify (λ s. record s { open_dirs = insert hno (some d) s.open_dirs })

  unfoldable pub release_dir : ℕ → Cmd (CatFs W) (Unit {0})
  release_dir hno = modify (λ s. record s { open_dirs = erase hno s.open_dirs })

-- What OpenFile::read asks of the reader: nothing, or a number of bytes.
pub read_size : (fsize off size : ℕ) → Option ℕ
read_size fsize off size =
    if leb fsize off
    then none
    else let size = if ltb fsize (add64 off size) then fsize - off else size in
      if size == 0 then none else some size

-- The part of the entries that read_dir returns; past the end the iterators are invalid.
pub page : {A : Type 0} → List A → (off size : ℕ) → Option (List A)
page entries off size =
    if ltb (length entries) off
    then none
    else if leb (length entries) (add64 off size)
    then some (drop off entries)
    else some (take size (drop off entries))

module _ (stor : Stor) (malloc : ℕ → List ℕ) (clock : ℕ → Timespec) (junk : ObjInfo) where
  -- A command of an open file's writer; it has the backend to itself.
  abbrev on_writer :
      {A : Type 0} → (hno : ℕ) → OpenFile → Cmd (Session stor.State) A → Cmd (CatFs stor.State) A
  on_writer hno f m =
      zoom (λ s. record { writer = f.writer; backend = s.meta.backend })
        (λ t s. record s {
          meta = record s.meta { backend = t.backend };
          open_files = insert hno (some (record f { writer = t.writer })) s.open_files;
        })
        m

  -- DirectReader::read, into a buffer of `cap` bytes, past which nothing may be written.
  pub direct_read : Text → (off size cap : ℕ) → Cmd (CatFs stor.State) (ℕ × List ℕ)
  direct_read path off size cap = do
    resp ← on_stor (
        stor.read_file (record { obj_key = path; off = off; size = size })
          (record { dst = []; bytes = 0 }))
    if ltb cap (length resp.dst) then (λ s. fault) else pure (through_int resp.bytes, resp.dst)

  -- OpenFile::read, its answer and what stands in the buffer, which has the size that is asked for.
  pub file_read : OpenFile → (off size : ℕ) → Cmd (CatFs stor.State) (ℕ × List ℕ)
  unfolding read_size direct_read
  file_read f off size = elim (read_size f.rtfile.size off size) [
    | none ↦ pure (0, [])
    | some n ↦ direct_read f.rtfile.path off n size
  ]

  -- OpenFile::write
  pub file_write : OpenFile → (off size : ℕ) → List ℕ → Cmd (CatFs stor.State) OpenFile
  file_write f off size bytes = do
    _ ← on_writer f.hno f (Writer.write stor malloc off size bytes)
    f' ← file_at f.hno
    elim f' [
      | none ↦ λ s. fault
      | some f ↦ do
        let f = record f {
          has_wrote = true;
          rtfile = record f.rtfile { size = f.writer.next_write_offset };
        }
        set_file f.hno f
        pure f
    ]

  pub openfile : (ino : ℕ) → Cmd (CatFs stor.State) ℕ
  openfile ino = do
    p ← on_meta (Impl.get_dentry stor clock junk ino)
    if p == null then throw enoent else do
      hno ← get_next_handle_id
      path ← on_meta (Impl.on_dentry (Dentry.get_full_path p))
      d ← on_meta (Impl.on_dentry (read_dentry p))
      i ← on_meta (Impl.on_dentry (read_inode d.inode))
      set_file hno (record {
        ino = i.ino;
        hno = hno;
        rtfile = record { path = path; size = i.size };
        writer = new_writer path;
        has_wrote = false;
      })
      pure hno

  pub readfile : (hno off size : ℕ) → Cmd (CatFs stor.State) (ℕ × List ℕ)
  unfolding file_at file_read
  readfile hno off size = do
    of ← file_at hno
    elim of [ none ↦ throw (number errno_enoent) | some f ↦ file_read f off size ]

  pub writefile : (hno off size : ℕ) → List ℕ → Cmd (CatFs stor.State) ℕ
  unfolding file_at file_write
  writefile hno off size bytes = do
    of ← file_at hno
    elim of [
      | none ↦ throw (number errno_enoent)
      | some f ↦ do
        f ← file_write f off size bytes
        (if f.has_wrote
            then on_meta (Impl.update_inode_size stor clock junk f.ino f.rtfile.size)
            else pure tt)
        pure (through_int size)
    ]

  -- The handle stays in the map.
  pub release_file : (hno : ℕ) → Cmd (CatFs stor.State) (Unit {0})
  unfolding file_at
  release_file hno = do
    of ← file_at hno
    elim of [ none ↦ throw (number errno_enoent) | some f ↦ on_writer hno f (Writer.release stor) ]

  unfoldable pub opendir : (ino : ℕ) → Cmd (CatFs stor.State) ℕ
  opendir ino = do
    p ← on_meta (Impl.get_dentry stor clock junk ino)
    if p == null then throw enoent else do
      hno ← get_next_handle_id
      d ← on_meta (Impl.on_dentry (read_dentry p))
      i ← on_meta (Impl.on_dentry (read_inode d.inode))
      set_dir hno (record { ino = i.ino; hno = hno; dentries = [] })
      pure hno

  -- The entries of an open directory, loaded when there are none yet.
  pub loaded : (fuel hno : ℕ) → OpenDir → Cmd (CatFs stor.State) (List Dirent)
  loaded fuel hno d = elim d.dentries [
    | [] ↦ do
      entries ← on_meta (Impl.load_sub_dentries stor clock junk fuel d.ino [])
      set_dir hno (record d { dentries = entries })
      pure entries
    | e ∷ es ↦ pure (e ∷ es)
  ]

  -- `fuel` bounds the pages of the backend's listing.
  pub read_dir : (fuel hno off size : ℕ) → Cmd (CatFs stor.State) (List Dirent)
  unfolding dir_at loaded page
  read_dir fuel hno off size = do
    od ← dir_at hno
    elim od [
      | none ↦ throw (literal (bytes "hno is not valid"))
      | some d ↦ do
        entries ← loaded fuel hno d
        elim (page entries off size) [ none ↦ λ s. fault | some part ↦ pure part ]
    ]

  -- CatFS::lookup_inode, find_dentry, create_dentry and remove_dentry
  unfoldable pub lookup_inode : (ino : ℕ) → Cmd (CatFs stor.State) Ptr
  lookup_inode ino = on_meta (Impl.get_inode stor clock junk ino)

  unfoldable pub find_dentry : (pino : ℕ) → Text → Cmd (CatFs stor.State) Ptr
  find_dentry pino name = on_meta (Impl.find_dentry stor clock junk pino name false)

  unfoldable pub create_dentry : (pino : ℕ) → Text → (mode : ℕ) → Cmd (CatFs stor.State) Ptr
  create_dentry pino name mode = on_meta (Impl.create_dentry stor clock junk pino name mode)

  unfoldable pub remove_dentry : (pino : ℕ) → Text → Cmd (CatFs stor.State) (Unit {0})
  remove_dentry pino name = on_meta (Impl.remove_dentry stor clock junk pino name)
