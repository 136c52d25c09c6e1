-- ===== src/Stor/Bucket.antt =====
-- What a storage backend promises the rest of the program: objects by key, and multipart uploads
-- whose parts are kept by their numbers.
use catfs.Common.{
  ℕ, suc, ◌+◌, ◌*◌, ◌≡◌, ◌≢◌, ◌≤◌, ◌<◌, ◌^◌, take, drop, Option, none, some, List, [], ◌∷◌, ◌++◌,
  arith, Text, ok, throw, server_error, length, ltb, ◌==◌, if◌then◌else◌,
}
use catfs.Stor.{
  Stor, PutFileReq, MInitReq, MInitResp, MPutReq, MFinishReq, ReadFileReq, ReadFileResp,
}

-- const static uint64_t MB_8, and the part size that S3Stor::minit answers.
abbrev pub mb_8 : ℕ
mb_8 = 8 * 1024 * 1024

-- The parts of an upload by ascending number; a number that is sent again replaces its part.
pub insert_part : ℕ → List ℕ → List (ℕ × List ℕ) → List (ℕ × List ℕ)
insert_part n d [] = (n, d) ∷ []
insert_part n d ((m, e) ∷ ps) =
    let later = insert_part n d ps in
    if n == m then (n, d) ∷ ps else if ltb n m then (n, d) ∷ (m, e) ∷ ps else (m, e) ∷ later

-- The parts `ds`, numbered from `k`.
unfoldable pub numbered : ℕ → List (List ℕ) → List (ℕ × List ℕ)
numbered k [] = []
numbered k (d ∷ ds) = (k, d) ∷ numbered (suc k) ds

pub insert_part-numbered :
    (k n : ℕ) (d : List ℕ) (ds : List (List ℕ))
    → n ≡ k + length ds
    → insert_part n d (numbered k ds) ≡ numbered k (ds ++ d ∷ [])
unfolding insert_part numbered
insert_part-numbered k n d [] e = ground arith
insert_part-numbered k n d (x ∷ ds) e =
    ground (arith, insert_part-numbered (suc k) n d ds (omega arith))

abbrev pub body : Option (List ℕ) → List ℕ
body none = []
body (some d) = d

module _ (stor : Stor) where
  -- A backend that does not complete an upload without the list of its parts, which the request of
  -- the interface does not have.
  pub record IsStrict : Type 0 where
    pub refuses :
        (req : MFinishReq) (s : stor.State)
        → (message : Text) × (t : stor.State) × (stor.mfinish req s
            ≡ throw (server_error message) t)

  -- A backend whose other calls succeed, with what they do to objects and uploads.
  pub record IsBucket : Type 0 where
    pub object : stor.State → Text → Option (List ℕ)
    pub parts : stor.State → Text → List (ℕ × List ℕ)
    pub puts :
        (req : PutFileReq) (s : stor.State)
        → (t : stor.State) × (stor.put_file req s ≡ ok tt t)
          × (object t req.obj_key ≡ some (body req.buf))
    pub minits :
        (req : MInitReq) (resp : MInitResp) (s : stor.State)
        → (answer : MInitResp) × (t : stor.State) × (stor.minit req resp s ≡ ok answer t)
          × (answer.part_size ≡ mb_8)
          × (parts t answer.upload_id ≡ [])
    pub mputs :
        (req : MPutReq) (s : stor.State)
        → (t : stor.State) × (stor.mput req s ≡ ok tt t)
          × (parts t req.upload_id ≡ insert_part req.part_num req.bytes (parts s req.upload_id))
    pub gets :
        (req : ReadFileReq) (resp : ReadFileResp) (d : List ℕ) (s : stor.State)
        → object s req.obj_key ≡ some d
        → req.size ≢ 0
        → req.off + req.size ≤ length d
        → length d < 2 ^ 64
        → stor.read_file req resp s
          ≡ ok (record { dst = take req.size (drop req.off d); bytes = req.size }) s
