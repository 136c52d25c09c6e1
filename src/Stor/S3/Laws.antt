-- ===== src/Stor/S3/Laws.antt =====
-- The S3 backend keeps the promises of the storage interface if the client keeps its own.
use catfs.Common.{
  ◌*◌, ◌+◌, ◌-◌, ◌≡◌, refl, ap, subst, arith, ok, take, drop, take_all, length-take, length-drop,
  add64, sub64,
}
use catfs.Stor.{StorOpt, ObjInfo}
use catfs.Stor.Bucket.{IsBucket, IsStrict, body}
use catfs.Stor.Aws.{S3Client, IsS3}
use catfs.Stor.S3.{s3_stor, thrown, read_file, put_file, minit, mput, mfinish}

module _ (client : S3Client) (opt : StorOpt) (junk : ObjInfo) (is_s3 : IsS3 client opt.bucket) where
  -- The backend over a client that keeps objects and uploads keeps them too.
  pub s3_stor-IsBucket : IsBucket (s3_stor client opt junk)
  unfolding put_file read_file minit mput
  s3_stor-IsBucket = record {
    object = is_s3.object;
    parts = is_s3.parts;
    puts =
        λ req s. let (t, e, h) = is_s3.put_object req.obj_key (body req.buf) s in (t, rw e refl, h);
    minits = λ req resp s.
        let (id, t, e, h) = is_s3.create_multipart_upload req.obj_key s in
        (record { part_size = 8 * 1024 * 1024; upload_id = id }, t, rw e refl, refl, h);
    mputs = λ req s.
        let (t, e, h) = is_s3.upload_part req.obj_key req.upload_id req.part_num req.bytes s in
        (t, rw e refl, h);
    gets = λ req resp d s found some_bytes within short.
        let last = sub64 (add64 req.off req.size) 1 in
        let count : last + 1 - req.off ≡ req.size = omega arith in
        let part = take req.size (drop req.off d) in
        let e = is_s3.get_object req.obj_key req.off last d s found (omega arith) (omega arith) in
        let whole : take req.size part ≡ part = take_all req.size part (
          omega (
            arith,
            length-take req.size (drop req.off d) (omega (arith, length-drop req.off d)),
          )) in
        let got =
          subst
            (λ n.
              thrown (
                client.get_object
                  (record { bucket = opt.bucket; key = req.obj_key; range = (req.off, last) }) s)
              ≡ ok (record { content_length = n; body = take n (drop req.off d) }) s)
            count (ap thrown e) in
        rw got rw whole refl;
  }

  -- S3 does not complete an upload for the backend, which sends no list of its parts.
  pub s3_stor-IsStrict : IsStrict (s3_stor client opt junk)
  unfolding mfinish
  s3_stor-IsStrict = record {
    refuses = λ req s.
        let (code, message, t, e) = is_s3.complete_multipart_upload req.obj_key req.upload_id s in
        (message, t, rw e refl);
  }
