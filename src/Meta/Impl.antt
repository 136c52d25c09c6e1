-- ===== src/Meta/Impl.antt =====
-- src/meta/meta.h, meta_impl.h and meta_impl.cpp: the metadata operations, which keep the tree in
-- memory and the backend together. What stands in an uninitialised ObjInfo is the parameter `junk`.
mod Examples
pub mod Absent
pub mod Kept
pub mod Listing
pub mod Sample
pub mod Stranger
pub mod Located
pub mod Lookup
pub mod Refresh
pub mod Remote
pub mod Remove
use Prim.Native.Nat.{bit_and, bit_or}
use catfs.Common.{
  ℕ, zero, suc, ◌%◌, Bool, true, false, not, ◌&&◌, Option, none, some, List, [], ◌∷◌, ◌++◌, Text,
  bytes, text_key, text_discrete, insert, Cmd, throw, invalid_inode_id, enotempty, enoent,
  out_of_range, out_of_fuel, pure, reads, ◌>>=◌, ◌>>◌, zoom, length, take, drop, ltb, ◌==◌,
  if◌then◌else◌, sub64,
}
use mathlib.Core.Logic.{ite}
use catfs.Stor.{Stor, Timespec, ObjInfo, HeadFileResp, ListObjectsResp, empty_listing}
use catfs.Meta.Heap
use catfs.Meta.Heap.{Ptr, null, Dirent, read_dentry, read_inode}
use catfs.Meta.Dentry
use catfs.Meta.Dentry.{s_ifdir}
use catfs.Meta.Local
use catfs.Meta.Local.{MetaOpt, LocalMemMeta, FTreeNode, node, FTreeNodes, nil, cons, on_heap}
use catfs.Meta.Local.Merge

pub record MetaImpl (W : Type 0) : Type 0 where
  pub opt : MetaOpt
  pub local : LocalMemMeta
  pub backend : W

unfoldable pub new_meta : {W : Type 0} → MetaOpt → LocalMemMeta → W → MetaImpl W
new_meta opt local backend = record { opt = opt; local = local; backend = backend }

module _ {W A : Type 0} where
  abbrev pub on_local : Cmd LocalMemMeta A → Cmd (MetaImpl W) A
  on_local = zoom (λ s. s.local) (λ t s. record s { local = t })

  abbrev pub on_backend : Cmd W A → Cmd (MetaImpl W) A
  on_backend = zoom (λ s. s.backend) (λ t s. record s { backend = t })

-- A method of Dentry, from here.
abbrev pub on_dentry : {W A : Type 0} → Cmd Heap.Heap A → Cmd (MetaImpl W) A
on_dentry m = on_local (on_heap m)

-- std::string::substr
pub substr : {S : Type 0} → Text → (pos count : ℕ) → Cmd S Text
substr s pos count =
    if ltb (length s) pos then throw out_of_range else pure (take count (drop pos s))

-- children[key] = child
pub insert_node : Text → FTreeNode → FTreeNodes → FTreeNodes
insert_node key child nil = cons key child nil
insert_node key child (cons k n rest) =
    ite (text_discrete k key) (cons k child rest) (cons k n (insert_node key child rest))

abbrev no_obj : ObjInfo
no_obj = record {
  name = [];
  size = 0;
  ctime = Heap.epoch;
  mtime = Heap.epoch;
  uid = none;
  gid = none;
  mode = none;
}

module _ {S : Type 0} where
  pub dirs_loop : (req_prefix : Text) → List Text → FTreeNodes → Cmd S FTreeNodes
  unfolding substr insert_node
  dirs_loop req_prefix [] children = pure children
  dirs_loop req_prefix (prefix ∷ rest) children = do
    dirname ←
        substr prefix (length req_prefix) (sub64 (sub64 (length prefix) (length req_prefix)) 1)
    dirs_loop req_prefix rest (
        ite (text_discrete dirname []) children
          (insert_node dirname (node dirname true nil no_obj) children))

  pub files_loop : (req_prefix : Text) → List ObjInfo → FTreeNodes → Cmd S FTreeNodes
  unfolding substr insert_node
  files_loop req_prefix [] children = pure children
  files_loop req_prefix (obj ∷ rest) children = do
    filename ← substr obj.name (length req_prefix) (sub64 (length obj.name) (length req_prefix))
    files_loop req_prefix rest (insert_node filename (node filename false nil obj) children)

  -- The children of the root that the source fills in.
  pub build_ftree_from_listobjects : (req_prefix : Text) → ListObjectsResp → Cmd S FTreeNodes
  unfolding dirs_loop files_loop
  build_ftree_from_listobjects req_prefix resp = do
    children ← dirs_loop req_prefix resp.common_prefixes nil
    files_loop req_prefix resp.objs children

pub record RemoteObj : Type 0 where
  pub obj : ObjInfo
  pub exist : Bool
  pub is_dir : Bool

-- A number assigned to a std::string is one character of it.
abbrev pub one_char : ℕ → Text
one_char n = n % 256 ∷ []

-- The mode that an expired dentry gets from its object.
pub refreshed_mode : Option ℕ → (is_dir : Bool) → ℕ
refreshed_mode (some mode) is_dir = bit_and mode 0o777
refreshed_mode none is_dir = if is_dir then bit_or s_ifdir 0o755 else 0o644

module _ (stor : Stor) (clock : ℕ → Timespec) (junk : ObjInfo) where
  abbrev no_head : HeadFileResp
  no_head = record { exist = false; obj = junk }

  unfoldable pub get_inode : ℕ → Cmd (MetaImpl stor.State) Ptr
  get_inode ino = on_local (Local.get_inode ino)

  unfoldable pub get_dentry : ℕ → Cmd (MetaImpl stor.State) Ptr
  get_dentry ino = on_local (Local.get_dentry ino)

  pub get_remote_obj : (parent : Ptr) → Text → Cmd (MetaImpl stor.State) RemoteObj
  get_remote_obj parent name = do
    path ← on_dentry (Dentry.get_full_path_with_slash parent)
    let fullpath = path ++ name
    resp ← on_backend (stor.head_file (record { obj_key = fullpath }) no_head)
    if resp.exist then pure (record { obj = resp.obj; exist = true; is_dir = false }) else do
      resp ← on_backend (stor.head_file (record { obj_key = fullpath ++ bytes "/" }) resp)
      pure (record { obj = resp.obj; exist = resp.exist; is_dir = resp.exist })

  pub is_remote_dir_exist : Text → Cmd (MetaImpl stor.State) Bool
  is_remote_dir_exist path = do
    resp ← on_backend (
        stor.list_objects (record { delimiter = []; prefix = path; max = 1; marker = [] })
          empty_listing)
    pure (ltb 0 (length resp.objs))

  -- A name that the tree does not have: an object, a directory's object, or a prefix of objects.
  pub find_remote : (pino : ℕ) → Text → Cmd (MetaImpl stor.State) Ptr
  unfolding get_remote_obj is_remote_dir_exist
  find_remote pino name = do
    parent ← on_local (Local.get_dentry pino)
    if parent == null then throw (invalid_inode_id pino) else do
      remote ← get_remote_obj parent name
      opt ← reads (λ s. s.opt)
      if remote.exist
          then (do
            dentry ←
                on_local (Local.create_dentry_from_obj clock pino name remote.obj remote.is_dir)
            on_dentry (Dentry.inc_ttl clock dentry opt.dcache_timeout)
            pure dentry)
          else (do
            path ← on_dentry (Dentry.get_full_path_with_slash parent)
            exist ← is_remote_dir_exist (path ++ (name ++ bytes "/"))
            if not exist then pure null else do
              d ← on_dentry (read_dentry parent)
              i ← on_dentry (read_inode d.inode)
              inode ← on_local (Local.create_new_inode clock i.mode i.gid i.uid)
              dentry ← on_local (Local.create_dentry i.ino name inode)
              on_dentry (Dentry.inc_ttl clock dentry opt.dcache_timeout)
              pure dentry)

  -- A dentry whose time is up is looked up again.
  pub refresh_dentry : Ptr → Cmd (MetaImpl stor.State) Ptr
  unfolding refreshed_mode
  refresh_dentry dentry = do
    opt ← reads (λ s. s.opt)
    dir ← on_dentry (Dentry.is_dir dentry)
    path ←
        on_dentry
          (if dir then Dentry.get_full_path_with_slash dentry else Dentry.get_full_path dentry)
    resp ← on_backend (stor.head_file (record { obj_key = path }) no_head)
    if not resp.exist && dir
        then (do on_dentry (Dentry.inc_ttl clock dentry opt.dcache_timeout); pure dentry)
        else (do
          d ← on_dentry (read_dentry dentry)
          i ← on_dentry (read_inode d.inode)
          _ ← on_local (
              Local.update_inode i.ino (record {
                size = some resp.obj.size;
                mode = some (refreshed_mode resp.obj.mode dir);
                uid = resp.obj.uid;
                gid = resp.obj.gid;
              }))
          on_dentry (Dentry.inc_ttl clock dentry opt.dcache_timeout)
          pure dentry)

  pub find_dentry : (pino : ℕ) → Text → (only_local : Bool) → Cmd (MetaImpl stor.State) Ptr
  unfolding find_remote refresh_dentry
  find_dentry pino name only_local = do
    dentry ← on_local (Local.find_dentry pino name)
    if dentry == null then (if only_local then pure null else find_remote pino name) else (do
      expired ← on_dentry (Dentry.is_expired clock dentry)
      if not expired then pure dentry else refresh_dentry dentry)

  -- The key that create_dentry puts.
  pub new_key : (parent : Ptr) → Text → (mode : ℕ) → Cmd (MetaImpl stor.State) Text
  new_key parent name mode = do
    top ← on_dentry (Dentry.is_root parent)
    key ←
        (if top then pure name else (do
          path ← on_dentry (Dentry.get_full_path parent)
          pure (path ++ (bytes "/" ++ name))))
    pure (if not (bit_and mode s_ifdir == 0) then key ++ bytes "/" else key)

  pub create_dentry : (pino : ℕ) → Text → (mode : ℕ) → Cmd (MetaImpl stor.State) Ptr
  unfolding find_dentry new_key
  create_dentry pino name mode = do
    found ← find_dentry pino name false
    if not (found == null) then pure found else do
      parent ← on_local (Local.get_dentry pino)
      obj_key ← new_key parent name mode
      d ← on_dentry (read_dentry parent)
      i ← on_dentry (read_inode d.inode)
      on_backend (
          stor.put_file (record {
            obj_key = obj_key;
            buf = none;
            meta_data =
                insert (bytes "gid") (one_char i.gid) (
                  insert (bytes "uid") (one_char i.uid) (insert (bytes "mode") (one_char mode) []));
          }))
      inode ← on_local (Local.create_new_inode clock mode i.gid i.uid)
      on_local (Local.create_dentry pino name inode)

  pub remove_dentry : (pino : ℕ) → Text → Cmd (MetaImpl stor.State) (Unit {0})
  unfolding find_dentry
  remove_dentry pino name = do
    dentry ← find_dentry pino name false
    if dentry == null then pure tt else do
      fullpath ← on_dentry (Dentry.get_full_path dentry)
      dir ← on_dentry (Dentry.is_dir dentry)
      (if not dir then on_backend (stor.delete_file (record { obj_key = fullpath })) else (do
        count ← on_dentry (Dentry.child_count dentry)
        if not (count == 0)
            then throw enotempty
            else on_backend (stor.delete_file (record { obj_key = fullpath ++ bytes "/" }))))
      on_local (Local.remove_dentry pino name)

  -- Each page of the listing; `fuel` bounds the pages that are asked for.
  pub refresh_loop :
      ℕ → (dentry : Ptr) → (prefix marker : Text) → Cmd (MetaImpl stor.State) (Unit {0})
  unfolding build_ftree_from_listobjects
  refresh_loop zero dentry prefix marker = λ s. out_of_fuel
  refresh_loop (suc fuel) dentry prefix marker = do
    resp ← on_backend (
        stor.list_objects
          (record { delimiter = bytes "/"; prefix = prefix; max = 1000; marker = marker })
          empty_listing)
    children ← build_ftree_from_listobjects prefix resp
    d ← on_dentry (read_dentry dentry)
    i ← on_dentry (read_inode d.inode)
    on_local (Merge.build_dentries clock i.ino children)
    if not resp.is_trunc then pure tt else refresh_loop fuel dentry prefix resp.next_marker

  pub refresh_sub_dentries : (fuel : ℕ) → Ptr → Cmd (MetaImpl stor.State) (Unit {0})
  unfolding refresh_loop
  refresh_sub_dentries fuel dentry = do
    prefix ← on_dentry (Dentry.get_full_path_with_slash dentry)
    refresh_loop fuel dentry prefix []
    on_local (Merge.clear_unsync_dentry clock dentry)

  pub load_sub_dentries : (fuel ino : ℕ) → List Dirent → Cmd (MetaImpl stor.State) (List Dirent)
  unfolding refresh_sub_dentries
  load_sub_dentries fuel ino dirents = do
    dentry ← on_local (Local.get_dentry ino)
    if dentry == null then throw enoent else do
      d ← on_dentry (read_dentry dentry)
      let dirents =
          dirents
          ++ record { name = bytes "."; inode = d.inode }
            ∷ record { name = bytes ".."; inode = d.inode }
            ∷ []
      (if not (Dentry.is_complete d) then refresh_sub_dentries fuel dentry else (do
        expired ← on_dentry (Dentry.is_expired clock dentry)
        if expired then refresh_sub_dentries fuel dentry else pure tt))
      on_dentry (Dentry.children_list dentry dirents)

  unfoldable pub update_inode_size : (ino size : ℕ) → Cmd (MetaImpl stor.State) (Unit {0})
  update_inode_size ino size = do
    _ ←
        on_local (
          Local.update_inode ino (record { size = some size; mode = none; uid = none; gid = none }))
    pure tt
