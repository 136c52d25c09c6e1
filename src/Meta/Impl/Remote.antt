-- ===== src/Meta/Impl/Remote.antt =====
-- src/meta/meta_impl.cpp: is_remote_dir_exist over src/stor/stor_s3.cpp.
use catfs.Common.{ℕ, ◌≡◌, refl, false, [], Text, bytes, ok}
use catfs.Stor.{Timespec, StorOpt, ObjInfo}
use catfs.Stor.Aws.{S3Client, ListObjectsResult, success}
use catfs.Stor.S3.{s3_stor, list_objects}
use catfs.Meta.Impl.{MetaImpl, is_remote_dir_exist}

module _ (client : S3Client) (opt : StorOpt) (junk : ObjInfo) (clock : ℕ → Timespec) where
  -- A directory whose first key, listed with the delimiter "/", is a common prefix and no object is
  -- not found, although is_remote_dir_exist asks for a listing without a delimiter.
  pub is_remote_dir_exist_nested :
      (s : MetaImpl client.State) (t : client.State) (path : Text) (result : ListObjectsResult)
      → client.list_objects
          (record {
            bucket = opt.bucket;
            delimiter = bytes "/";
            marker = [];
            max_keys = 1;
            prefix = path;
          })
          s.backend
        ≡ (success result, t)
      → result.contents ≡ []
      → is_remote_dir_exist (s3_stor client opt junk) clock junk path s
        ≡ ok false (record s { backend = t })
  unfolding is_remote_dir_exist list_objects
  is_remote_dir_exist_nested s t path result listed none_here = rw listed rw none_here refl
