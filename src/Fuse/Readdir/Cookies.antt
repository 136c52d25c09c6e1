-- ===== src/Fuse/Readdir/Cookies.antt =====
-- src/fs/fsa.cpp: which entries readdir and readdirplus put in the buffer, and with which cookies.
use mathlib.Core.Logic.{ite}
use catfs.Common.{
  ℕ, true, false, Bool-cases, inl, inr, ◌+◌, ◌-◌, ◌≡◌, refl, ap, some, List, [], ◌∷◌, ◌++◌, arith,
  Text, bytes, text_discrete, Run, ok, pure, ◌>>=◌, append_assoc, append-nil, ◌∙◌, ltb,
  if◌then◌else◌,
}
use catfs.Stor.{Stor, Timespec, ObjInfo}
use catfs.Meta.Heap.{Inode, Dirent, read_inode}
use catfs.Meta.Impl
use catfs.Fs.{CatFs, on_meta}
use catfs.Fuse.{Direntry, DirentryPlus, fill_inode_attr}
use catfs.Fuse.Readdir.{direntry, fill_fuse_entry_param, is_dot, plus_loop, readdir_loop}

module _ {W : Type 0} (s : CatFs W) where
  -- The inodes of the entries.
  pub data Inodes : List Dirent → List Inode → Type 0 where
    done : Inodes [] []
    next :
        {d : Dirent} {i : Inode} {ds : List Dirent} {is : List Inode}
        → s.meta.local.heap.inodes d.inode ≡ some i
        → Inodes ds is
        → Inodes (d ∷ ds) (i ∷ is)

-- An entry of each of the two buffers: its name, what it has of the inode, and its cookie.
abbrev pub plain : Dirent → Inode → (cookie : ℕ) → Direntry
plain d i cookie = record { name = d.name; st_ino = i.ino; st_mode = i.mode; cookie = cookie }

abbrev pub full : Dirent → Inode → (cookie : ℕ) → DirentryPlus
full d i cookie = record {
  name = d.name;
  param = record {
    ino = i.ino;
    attr_timeout = 1;
    entry_timeout = 1;
    attributes = record {
      st_ino = i.ino;
      st_mode = i.mode;
      st_gid = i.gid;
      st_uid = i.uid;
      st_size = i.size;
      st_ctim = i.ctime;
      st_mtim = i.mtime;
    };
  };
  cookie = cookie;
}

module _ {E : Type 0} (entry : Dirent → Inode → (cookie : ℕ) → E) (size : Text → ℕ) where
  -- The entries that fit in `rem` bytes, from the first on, the n-th with the cookie `cookie` + n.
  pub fitting : (cookie rem : ℕ) → List Dirent → List Inode → List E
  fitting cookie rem (d ∷ ds) (i ∷ is) =
      let rest = fitting (cookie + 1) (rem - size d.name) ds is in
      if ltb rem (size d.name) then [] else entry d i cookie ∷ rest
  fitting cookie rem _ _ = []

  -- An entry that fits comes first, and its number is one less than that of the next.
  fitting_next :
      (off idx rem : ℕ) (acc : List E) (d : Dirent) (i : Inode) (ds : List Dirent) (is : List Inode)
      → (acc ++ entry d i (off + idx + 1) ∷ [])
          ++ fitting (off + (idx + 1) + 1) (rem - size d.name) ds is
        ≡ acc ++ entry d i (off + idx + 1) ∷ fitting (off + idx + 1 + 1) (rem - size d.name) ds is
  fitting_next off idx rem acc d i ds is =
      append_assoc acc (entry d i (off + idx + 1) ∷ [])
        (fitting (off + (idx + 1) + 1) (rem - size d.name) ds is)
      ∙ ap (λ n. acc ++ entry d i (off + idx + 1) ∷ fitting n (rem - size d.name) ds is) shift
    where
      shift : off + (idx + 1) + 1 ≡ off + idx + 1 + 1
      shift = omega arith

-- The bytes that they leave.
pub left_over : (size : Text → ℕ) → (rem : ℕ) → List Dirent → ℕ
left_over size rem [] = rem
left_over size rem (d ∷ ds) =
    let rest = left_over size (rem - size d.name) ds in if ltb rem (size d.name) then rem else rest

-- The entries without "." and "..".
unfoldable pub undotted : List Dirent → List Dirent
undotted [] = []
undotted (d ∷ ds) =
    let rest = undotted ds in
    ite (text_discrete d.name (bytes ".")) rest
      (ite (text_discrete d.name (bytes "..")) rest (d ∷ rest))

undotted_nil : undotted [] ≡ []
unfolding undotted
undotted_nil = refl

undotted_dot :
    (d : Dirent) (ds : List Dirent) → is_dot d.name ≡ true → undotted (d ∷ ds) ≡ undotted ds
unfolding undotted is_dot
undotted_dot d ds e = ground (arith, e)

undotted_other :
    (d : Dirent) (ds : List Dirent) → is_dot d.name ≡ false → undotted (d ∷ ds) ≡ d ∷ undotted ds
unfolding undotted is_dot
undotted_other d ds e = ground (arith, e)

module _ (stor : Stor) (malloc : ℕ → List ℕ) (clock : ℕ → Timespec) (junk : ObjInfo) where
  -- The loop of readdirplus puts in the entries that fit, each with all attributes of its inode, and
  -- numbers the cookies on from the offset: the cookie of the entry at position n of the directory
  -- is n + 1, where the next call goes on.
  pub plus_loop-fitting :
      (plus_size : Text → ℕ) (off idx rem : ℕ) (acc : List DirentryPlus) (ds : List Dirent)
      (is : List Inode) (s : CatFs stor.State)
      → Inodes s ds is
      → plus_loop stor malloc clock junk plus_size off idx rem acc ds s
        ≡ ok (acc ++ fitting full plus_size (off + idx + 1) rem ds is, left_over plus_size rem ds) s
  unfolding plus_loop fill_fuse_entry_param fill_inode_attr fitting left_over read_inode
  plus_loop-fitting plus_size off idx rem acc [] [] s done = ground (arith, append-nil acc)
  plus_loop-fitting plus_size off idx rem acc [] (i ∷ is) s x = elim x [ ]
  plus_loop-fitting plus_size off idx rem acc (d ∷ ds) [] s x = elim x [ ]
  plus_loop-fitting plus_size off idx rem acc (d ∷ ds) (i ∷ is) s (next at_i h) = ground (
    arith,
    at_i,
    plus_loop-fitting plus_size off (idx + 1) (rem - plus_size d.name)
        (acc ++ full d i (off + idx + 1) ∷ []) ds is s h,
    fitting_next full plus_size off idx rem acc d i ds is,
    append-nil acc,
  )

  -- The loop of readdir puts in the entries other than "." and ".." that fit, each with the number
  -- and the mode of its inode. The cookies do not count those two, although the offset of the next
  -- call does.
  pub readdir_loop-fitting :
      (entry_size : Text → ℕ) (off idx rem : ℕ) (acc : List Direntry) (ds : List Dirent)
      (is : List Inode) (s : CatFs stor.State)
      → Inodes s (undotted ds) is
      → readdir_loop stor malloc clock junk entry_size off idx rem acc ds s
        ≡ ok
            (
              acc ++ fitting plain entry_size (off + idx + 1) rem (undotted ds) is,
              left_over entry_size rem (undotted ds),
            )
            s
  unfolding readdir_loop direntry fitting left_over read_inode
  readdir_loop-fitting entry_size off idx rem acc [] is s h =
      rw undotted_nil (at_end is (rw undotted_nil at h))
    where
      at_end :
          (is : List Inode)
          → Inodes s [] is
          → ◌≡◌ {A = Run (CatFs stor.State) (List Direntry × ℕ)}
              (ok (acc, rem) s)
              (ok (acc ++ fitting plain entry_size (off + idx + 1) rem [] is, rem) s)
      at_end is x = ground (arith, append-nil acc)
  readdir_loop-fitting entry_size off idx rem acc (d ∷ ds) is s h =
      elim (Bool-cases (is_dot d.name)) [
        | inl e ↦
            let passed = undotted_dot d ds e in
            rw (e, passed)
              (readdir_loop-fitting entry_size off idx rem acc ds is s (rw passed at h))
        | inr e ↦
            let kept = undotted_other d ds e in
            rw (e, kept)
              (entered
                (λ i is.
                  readdir_loop-fitting entry_size off (idx + 1) (rem - entry_size d.name)
                    (acc ++ plain d i (off + idx + 1) ∷ []) ds is s)
                is (rw kept at h))
      ]
    where
      entered :
          (rest : (i : Inode) (is : List Inode)
            → Inodes s (undotted ds) is
            → readdir_loop stor malloc clock junk entry_size off
                (idx + 1)
                (rem - entry_size d.name)
                (acc ++ plain d i (off + idx + 1) ∷ [])
                ds
                s
              ≡ ok
                  (
                    (acc ++ plain d i (off + idx + 1) ∷ [])
                        ++ fitting plain entry_size
                            (off + (idx + 1) + 1)
                            (rem - entry_size d.name)
                            (undotted ds)
                            is,
                    left_over entry_size (rem - entry_size d.name) (undotted ds),
                  )
                  s)
          (is : List Inode)
          → Inodes s (d ∷ undotted ds) is
          → ◌≡◌ {A = Run (CatFs stor.State) (List Direntry × ℕ)}
              ((do
                i ← on_meta (Impl.on_dentry (read_inode d.inode))
                if ltb rem (entry_size d.name)
                    then pure (acc, rem)
                    else readdir_loop stor malloc clock junk entry_size off
                        (idx + 1)
                        (rem - entry_size d.name)
                        (acc ++ plain d i (off + idx + 1) ∷ [])
                        ds)
                s)
              (ok
                (
                  acc ++ fitting plain entry_size (off + idx + 1) rem (d ∷ undotted ds) is,
                  left_over entry_size rem (d ∷ undotted ds),
                )
                s)
      entered rest [] x = elim x [ ]
      entered rest (i ∷ is) (next at_i listed) = ground (
        arith,
        at_i,
        rest i is listed,
        fitting_next plain entry_size off idx rem acc d i (undotted ds) is,
        append-nil acc,
      )
