-- ===== src/Writer.antt =====
-- src/fs/fwriter/fwriter_seq.h and fwriter_seq.cpp: the sequential writer, which keeps a small
-- file in one part and sends a larger one as a multipart upload. A command runs on the writer's
-- fields and the backend's state.
pub mod Holds
pub mod Writes
pub mod Overflow
pub mod Release
pub mod File
pub mod Ending
mod Examples
pub mod Sample
pub mod Parts
use catfs.Common.{
  ℕ, zero, suc, ◌+◌, ◌-◌, ◌^◌, Bool, true, false, Option, some, List, [], arith, Text, Cmd, ok,
  throw, text, fault, out_of_fuel, pure, modify, reads, ◌>>=◌, ◌>>◌, zoom, take, drop, length, ltb,
  ◌==◌, if◌then◌else◌, not, add64, sub64,
}
use catfs.Stor.{Stor, MInitResp}
use catfs.Stor.Bucket.{mb_8}
use Parts.{Part}

pub data UpType : Type 0 where
  put mput : UpType

-- A `Part *`: `freed` once the part has been given back and the pointer still stands.
pub data PartPtr : Type 0 where
  null : PartPtr
  live : Part → PartPtr
  freed : PartPtr

-- `part_num` is an int: counting past 2^31 - 1 is undefined.
pub record MPutCtx : Type 0 where
  pub upload_id : Text
  pub part_num : ℕ

-- `path` is `file->path`.
pub record SequenceWriter : Type 0 where
  pub path : Text
  pub put_part : PartPtr
  pub mput_part : PartPtr
  pub mput_ctx : MPutCtx
  pub uptype : UpType
  pub next_write_offset : ℕ

abbrev pub new_writer : Text → SequenceWriter
new_writer path = record {
  path = path;
  put_part = null;
  mput_part = null;
  mput_ctx = record { upload_id = []; part_num = 0 };
  uptype = put;
  next_write_offset = 0;
}

pub record Session (W : Type 0) : Type 0 where
  pub writer : SequenceWriter
  pub open writer use *
  pub backend : W

module _ {W : Type 0} where
  abbrev pub set_writer : (SequenceWriter → SequenceWriter) → Cmd (Session W) (Unit {0})
  set_writer f = modify (λ s. record s { writer = f s.writer })

  -- a call of the backend
  abbrev pub on_backend : {A : Type 0} → Cmd W A → Cmd (Session W) A
  on_backend = zoom (λ s. s.backend) (λ w s. record s { backend = w })

  abbrev deref : PartPtr → Cmd (Session W) Part
  deref null = λ s. fault
  deref (live p) = pure p
  deref freed = λ s. fault

  abbrev set_put : Part → Cmd (Session W) (Unit {0})
  set_put p = set_writer (λ w. record w { put_part = live p })

  abbrev set_mput : Part → Cmd (Session W) (Unit {0})
  set_mput p = set_writer (λ w. record w { mput_part = live p })

-- A part's method that changes it: its answer and the part afterwards.
abbrev on_part : {W : Type 0} → Part → Cmd Part ℕ → Cmd (Session W) (ℕ × Part)
on_part p m s = elim (m p) [
  | ok n q ↦ ok (n, q) s
  | throw e q ↦ throw e s
  | fault ↦ fault
  | out_of_fuel ↦ out_of_fuel
]

-- The answer of `minit` before the call.
abbrev uninitialised : MInitResp
uninitialised = record { part_size = 0; upload_id = [] }

module _ (stor : Stor) where
  pub upload_part : Part → Cmd (Session stor.State) (Unit {0})
  upload_part part = do
    ctx ← reads (λ s. s.mput_ctx)
    if ltb (ctx.part_num + 1) (2 ^ 31)
        then (do
          set_writer λ w. record w { mput_ctx = record ctx { part_num = ctx.part_num + 1 } }
          path ← reads (λ s. s.path)
          on_backend (
              stor.mput (record {
                obj_key = path;
                upload_id = ctx.upload_id;
                part_num = ctx.part_num;
                bytes = take (Parts.len part) part.buf;
              })))
        else (λ s. fault)

  -- A full part of the upload is sent and cleared.
  pub send_full : Part → Cmd (Session stor.State) (Unit {0})
  unfolding upload_part
  send_full part =
      if Parts.full part then upload_part part >> set_mput (Parts.clear part) else pure tt

  -- The loop that copies the first part into the first part of the upload.
  pub copy_loop : ℕ → Part → (copy_bytes copy_total_bytes : ℕ) → Cmd (Session stor.State) (Unit {0})
  unfolding send_full
  copy_loop zero src done total = λ s. out_of_fuel
  copy_loop (suc fuel) src done total = if not (ltb done total) then pure tt else do
    dst ← (λ s. deref s.mput_part s)
    (n, dst) ← on_part dst (Parts.copy src done (total - done))
    set_mput dst
    send_full dst
    copy_loop fuel src (add64 done n) total

  pub mput_round :
      (again : (wbytes size : ℕ) → List ℕ → Cmd (Session stor.State) (Unit {0}))
      → (wbytes size : ℕ) → List ℕ
      → Cmd (Session stor.State) (Unit {0})
  unfolding send_full
  mput_round again wbytes size bytes = do
    part ← (λ s. deref s.mput_part s)
    (n, part) ← on_part part (Parts.write bytes size)
    set_mput part
    send_full part
    let wbytes = add64 wbytes n
    again wbytes (sub64 size wbytes) (drop wbytes bytes)

  pub file_size : Session stor.State → ℕ
  file_size s = s.next_write_offset

  pub upload_file : Cmd (Session stor.State) (Unit {0})
  upload_file s = elim s.put_part [
    | null ↦ ok tt s
    | live p ↦
        on_backend
          (stor.put_file
            (record { obj_key = s.path; buf = some (take (Parts.len p) p.buf); meta_data = [] }))
          s
    | freed ↦ fault
  ]

  pub finish_mput : Cmd (Session stor.State) (Unit {0})
  unfolding upload_part
  finish_mput = do
    (λ s. elim s.mput_part [
      | null ↦ ok tt s
      | live p ↦
          (if ltb 0 (Parts.len p)
              then upload_part p >> set_writer (λ w. record w { mput_part = null })
              else pure tt)
            s
      | freed ↦ fault
    ])
    path ← reads (λ s. s.path)
    id ← reads (λ s. s.mput_ctx.upload_id)
    on_backend (stor.mfinish (record { obj_key = path; upload_id = id }))

  pub finish_write : Cmd (Session stor.State) (Unit {0})
  unfolding upload_file finish_mput
  finish_write s =
      if s.next_write_offset == 0
      then ok tt s
      else elim s.uptype [ put ↦ upload_file s | mput ↦ finish_mput s ]

  pub release : Cmd (Session stor.State) (Unit {0})
  unfolding finish_write
  release = finish_write

module _ (stor : Stor) (malloc : ℕ → List ℕ) where
  pub switch_mput_mode : Cmd (Session stor.State) (Unit {0})
  unfolding copy_loop
  switch_mput_mode = do
    path ← reads (λ s. s.path)
    answer ← on_backend (stor.minit (record { obj_key = path }) uninitialised)
    set_mput (Parts.new malloc answer.part_size)
    set_writer λ w. record w {
      uptype = mput;
      mput_ctx = record { upload_id = answer.upload_id; part_num = 0 };
    }
    src ← (λ s. deref s.put_part s)
    dst ← (λ s. deref s.mput_part s)
    if Parts.cap dst == Parts.len src
        then upload_part stor src
        else copy_loop stor (suc (suc (Parts.len src))) src 0 (Parts.len src)
    set_writer λ w. record w { put_part = freed }

  -- One round of the loop of `write_data`, and what follows it.
  pub put_round :
      (again : (wbytes size : ℕ) → List ℕ → Cmd (Session stor.State) (Unit {0}))
      → (wbytes size : ℕ) → List ℕ
      → Cmd (Session stor.State) (Unit {0})
  unfolding switch_mput_mode
  put_round again wbytes size bytes = do
    part ← (λ s. elim s.put_part [
      | null ↦ ok (Parts.new malloc mb_8) s
      | live p ↦ ok p s
      | freed ↦ fault
    ])
    (n, part) ← on_part part (Parts.write bytes size)
    set_put part
    let wbytes = add64 wbytes n
    let left_bytes = sub64 size wbytes
    if Parts.full part
        then (if ltb 0 left_bytes
            then switch_mput_mode >> again wbytes left_bytes (drop wbytes bytes)
            else pure tt)
        else (if wbytes == size then pure tt else again wbytes size bytes)

  pub write_loop : ℕ → (wbytes total size : ℕ) → List ℕ → Cmd (Session stor.State) (Unit {0})
  unfolding put_round mput_round
  write_loop zero wbytes total size bytes = λ s. out_of_fuel
  write_loop (suc fuel) wbytes total size bytes =
      let again = λ (w z : ℕ) (d : List ℕ). write_loop fuel w total z d in
      if wbytes == total then pure tt else λ s. elim s.uptype [
        | put ↦ put_round again wbytes size bytes s
        | mput ↦ mput_round stor again wbytes size bytes s
      ]

  -- Two rounds do for every write that the parts can hold.
  pub write_data : List ℕ → ℕ → Cmd (Session stor.State) (Unit {0})
  unfolding write_loop
  write_data bytes size = write_loop (suc (suc size)) 0 size size bytes

  -- The text of the exception is left out but for the path.
  pub write : ℕ → ℕ → List ℕ → Cmd (Session stor.State) ℕ
  unfolding write_data
  write off size bytes = do
    next ← reads (λ s. s.next_write_offset)
    path ← reads (λ s. s.path)
    if not (next == off) then throw (text path) else do
      write_data bytes size
      set_writer λ w. record w { next_write_offset = add64 w.next_write_offset size }
      pure size
