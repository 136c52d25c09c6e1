-- ===== src/Fs/Open.antt =====
-- src/fs/fs_file.cpp: openfile, and what the new handle holds.
use catfs.Common.{
  ℕ, ◌≡◌, refl, some, [], List, Text, ok, insert, lookup-insert, number_key, arith, add64, false,
  subst, sym,
}
use catfs.Stor.{Stor, Timespec, ObjInfo}
use catfs.Stor.Bucket.{IsBucket}
use catfs.Writer.{new_writer}
use catfs.Writer.Holds.{nothing}
use catfs.Meta.Heap.{read_dentry, read_inode}
use catfs.Meta.Dentry
use catfs.Meta.Local
use catfs.Meta.Local.Index.{HasInode, index_at-some}
use catfs.Meta.Impl
use catfs.Fs.{CatFs, OpenFile, openfile, get_next_handle_id}
use catfs.Fs.Contents.{IsOpen}

module _ (stor : Stor) (bucket : IsBucket stor) (malloc : ℕ → List ℕ) (clock : ℕ → Timespec)
    (junk : ObjInfo) where
  -- Opening an empty file that the tree has gives the next handle, by which nothing is written yet
  -- and which has the file's path.
  pub openfile-IsOpen :
      (s : CatFs stor.State) (ino : ℕ) (path : Text) (h : HasInode s.meta.local ino)
      → h.inode.ino ≡ ino
      → h.inode.size ≡ 0
      → Dentry.get_full_path h.ptr s.meta.local.heap ≡ ok path s.meta.local.heap
      → (s' : CatFs stor.State) × (f : OpenFile) × (openfile stor malloc clock junk ino s
          ≡ ok s.next_handle_id s')
        × IsOpen stor bucket s' s.next_handle_id f []
        × (f.rtfile.path ≡ path)
        × (s'.next_handle_id ≡ add64 s.next_handle_id 1)
  unfolding openfile get_next_handle_id Impl.get_dentry Local.get_dentry read_dentry read_inode
  openfile-IsOpen s ino path h number empty at_path =
      let f : OpenFile = record {
        ino = h.inode.ino;
        hno = s.next_handle_id;
        rtfile = record { path = path; size = h.inode.size };
        writer = new_writer path;
        has_wrote = false;
      } in
      (
        record s {
          next_handle_id = add64 s.next_handle_id 1;
          open_files = insert s.next_handle_id (some f) s.open_files;
        },
        f,
        ground (
          arith,
          index_at-some s.meta.local ino h.ptr h.entry,
          h.holds_dentry,
          h.holds_inode,
          h.not_null,
          at_path,
        ),
        record {
          opened =
              ground (arith, lookup-insert s.next_handle_id s.next_handle_id (some f) s.open_files);
          number = refl;
          holds = nothing refl refl refl;
          next = refl;
          path = refl;
          size = empty;
          inode = subst (HasInode s.meta.local) (sym number) h;
        },
        refl,
        refl,
      )
