-- ===== src/Stor.antt =====
-- src/stor/stor.h: the requests and answers of the storage interface, and the interface itself as
-- a record of operations on a state of its own. Answers are out-parameters in the source: an
-- operation takes the answer as it stands before the call. src/types/obj.h and inode.h: the types
-- that the answers carry.
pub mod Aws
pub mod Bucket
pub mod Ending
pub mod S3
use catfs.Common.{ℕ, Bool, false, [], Option, List, Text, Cmd}

pub record Timespec : Type 0 where
  pub tv_sec : ℕ
  pub tv_nsec : ℕ

pub record ObjInfo : Type 0 where
  pub name : Text
  pub size : ℕ
  pub ctime : Timespec
  pub mtime : Timespec
  pub uid : Option ℕ
  pub gid : Option ℕ
  pub mode : Option ℕ

pub record HeadFileReq : Type 0 where
  pub obj_key : Text

pub record HeadFileResp : Type 0 where
  pub exist : Bool
  pub obj : ObjInfo

pub record ListObjectsReq : Type 0 where
  pub delimiter : Text
  pub prefix : Text
  pub max : ℕ
  pub marker : Text

pub record ListObjectsResp : Type 0 where
  pub is_trunc : Bool
  pub next_marker : Text
  pub objs : List ObjInfo
  pub common_prefixes : List Text

-- An answer before the call.
abbrev pub empty_listing : ListObjectsResp
empty_listing = record { is_trunc = false; next_marker = []; objs = []; common_prefixes = [] }

-- `buf` is the `size` bytes at the pointer, `none` the null pointer.
pub record PutFileReq : Type 0 where
  pub obj_key : Text
  pub buf : Option (List ℕ)
  pub meta_data : List (Text × Text)

pub record DeleteFileReq : Type 0 where
  pub obj_key : Text

pub record ReadFileReq : Type 0 where
  pub obj_key : Text
  pub off : ℕ
  pub size : ℕ

-- `dst` is what stands at the start of the caller's buffer.
pub record ReadFileResp : Type 0 where
  pub dst : List ℕ
  pub bytes : ℕ

pub record MInitReq : Type 0 where
  pub obj_key : Text

pub record MInitResp : Type 0 where
  pub part_size : ℕ
  pub upload_id : Text

-- `data` and `size` of the source: the bytes themselves.
pub record MPutReq : Type 0 where
  pub obj_key : Text
  pub upload_id : Text
  pub part_num : ℕ
  pub bytes : List ℕ

pub record MFinishReq : Type 0 where
  pub obj_key : Text
  pub upload_id : Text

pub record StorOpt : Type 0 where
  pub bucket : Text
  pub public_key : Text
  pub private_key : Text
  pub endpoint : Text

pub record Stor : Type 1 where
  pub State : Type 0
  pub head_file : HeadFileReq → HeadFileResp → Cmd State HeadFileResp
  pub list_objects : ListObjectsReq → ListObjectsResp → Cmd State ListObjectsResp
  pub put_file : PutFileReq → Cmd State (Unit {0})
  pub read_file : ReadFileReq → ReadFileResp → Cmd State ReadFileResp
  pub delete_file : DeleteFileReq → Cmd State (Unit {0})
  pub minit : MInitReq → MInitResp → Cmd State MInitResp
  pub mput : MPutReq → Cmd State (Unit {0})
  pub mfinish : MFinishReq → Cmd State (Unit {0})
