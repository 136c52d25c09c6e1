-- ===== src/Stor/S3.antt =====
-- src/stor/stor_s3.cpp and stor_s3.h: the storage interface by calls of the AWS client. Every
-- failure becomes a server_error, but for a missing object in head_file. Constructing the client
-- and writing the log are left out.
pub mod Laws
pub mod Ending
pub mod Memory
use catfs.Common.{
  ℕ, ◌+◌, ◌*◌, Bool, true, false, none, List, [], ◌∷◌, ◌++◌, map, Text, bytes, Run, Cmd, ok, throw,
  server_error, pure, ◌>>=◌, take, ◌==◌, if◌then◌else◌, add64, sub64,
}
use catfs.Stor.{
  Stor, StorOpt, ObjInfo, HeadFileReq, HeadFileResp, ListObjectsReq, ListObjectsResp, PutFileReq,
  DeleteFileReq, ReadFileReq, ReadFileResp, MInitReq, MInitResp, MPutReq, MFinishReq,
}
use catfs.Stor.Bucket.{body}
use catfs.Stor.Aws.{S3Client, Outcome, success, failure, HeadObjectResult, Item}

-- The outcome of a client call, with any failure thrown.
abbrev pub thrown : {W A : Type 0} → Outcome A × W → Run W A
thrown (success a, w) = ok a w
thrown (failure code message, w) = throw (server_error message) w

-- Aws::Http::HttpResponseCode::NOT_FOUND
abbrev pub not_found : ℕ
not_found = 404

-- `junk` is what stands in the fields that the code leaves uninitialised.
module _ (client : S3Client) (opt : StorOpt) (junk : ObjInfo) where
  found : HeadFileResp → HeadObjectResult → HeadFileResp
  found resp result = record {
    exist = true;
    obj = record junk {
      size = result.content_length;
      ctime = record { tv_sec = result.last_modified; tv_nsec = junk.ctime.tv_nsec };
      mtime = record { tv_sec = result.last_modified; tv_nsec = junk.mtime.tv_nsec };
      name = [];
      uid = none;
      gid = none;
      mode = none;
    };
  }

  head_answer :
      HeadFileResp → Outcome HeadObjectResult × client.State → Run client.State HeadFileResp
  head_answer resp (success result, s) = ok (found resp result) s
  head_answer resp (failure code message, s) =
      if code == not_found
      then ok (record resp { exist = false }) s
      else throw (server_error message) s

  unfoldable pub head_file : HeadFileReq → HeadFileResp → Cmd client.State HeadFileResp
  unfolding head_answer found
  head_file req resp s =
      head_answer resp (client.head_object (record { bucket = opt.bucket; key = req.obj_key }) s)

  listed : Item → ObjInfo
  listed item = record {
    name = item.key;
    size = item.size;
    mtime = record { tv_sec = item.last_modified; tv_nsec = junk.mtime.tv_nsec };
    ctime = record { tv_sec = item.last_modified; tv_nsec = junk.ctime.tv_nsec };
    uid = none;
    gid = none;
    mode = none;
  }

  -- The request's own delimiter is not used.
  unfoldable pub list_objects : ListObjectsReq → ListObjectsResp → Cmd client.State ListObjectsResp
  unfolding listed
  list_objects req resp = do
    result ← λ s. thrown (
        client.list_objects
          (record {
            bucket = opt.bucket;
            delimiter = bytes "/";
            marker = req.marker;
            max_keys = req.max;
            prefix = req.prefix;
          })
          s)
    pure (record {
      is_trunc = result.is_truncated;
      next_marker = result.next_marker;
      common_prefixes = resp.common_prefixes ++ result.common_prefixes;
      objs = resp.objs ++ map listed result.contents;
    })

  unfoldable pub put_file : PutFileReq → Cmd client.State (Unit {0})
  put_file req s =
      thrown (
        client.put_object (record { bucket = opt.bucket; key = req.obj_key; body = body req.buf })
          s)

  unfoldable pub delete_file : DeleteFileReq → Cmd client.State (Unit {0})
  delete_file req s =
      thrown (client.delete_object (record { bucket = opt.bucket; key = req.obj_key }) s)

  pub read_file : ReadFileReq → ReadFileResp → Cmd client.State ReadFileResp
  read_file req resp = do
    result ← λ s. thrown (
        client.get_object
          (record {
            bucket = opt.bucket;
            key = req.obj_key;
            range = (req.off, sub64 (add64 req.off req.size) 1);
          })
          s)
    pure (record { dst = take result.content_length result.body; bytes = result.content_length })

  pub minit : MInitReq → MInitResp → Cmd client.State MInitResp
  minit req resp = do
    id ← λ s.
        thrown
          (client.create_multipart_upload (record { bucket = opt.bucket; key = req.obj_key }) s)
    pure (record { part_size = 8 * 1024 * 1024; upload_id = id })

  pub mput : MPutReq → Cmd client.State (Unit {0})
  mput req s = thrown (
      client.upload_part
        (record {
          bucket = opt.bucket;
          key = req.obj_key;
          upload_id = req.upload_id;
          part_number = req.part_num + 1;
          body = req.bytes;
        })
        s)

  pub mfinish : MFinishReq → Cmd client.State (Unit {0})
  mfinish req s = thrown (
      client.complete_multipart_upload
        (record { bucket = opt.bucket; key = req.obj_key; upload_id = req.upload_id }) s)

  -- The class S3Stor as an implementation of the interface.
  abbrev pub s3_stor : Stor
  s3_stor = record {
    State = client.State;
    head_file = head_file;
    list_objects = list_objects;
    put_file = put_file;
    read_file = read_file;
    delete_file = delete_file;
    minit = minit;
    mput = mput;
    mfinish = mfinish;
  }
