-- ===== src/Stor/S3/Ending.antt =====
-- src/stor/stor_s3.cpp: no call has a loop, and the parts of an upload have 8 MiB.
use catfs.Common.{
  ◌≡◌, ◌≢◌, Run, ok, out_of_fuel, and_then, if◌then◌else◌, Bool, true, false, ◌==◌, ap, arith,
}
use catfs.Stor.{StorOpt, ObjInfo, HeadFileResp, MInitReq, MInitResp}
use catfs.Stor.Aws.{S3Client, Outcome, success, failure, HeadObjectResult}
use catfs.Stor.Ending.{IsEnding, IsParted}
use catfs.Stor.S3.{
  thrown, head_answer, head_file, list_objects, put_file, delete_file, read_file, minit, mput,
  mfinish, s3_stor, not_found,
}

thrown_ends : {W A : Type 0} (r : Outcome A × W) → thrown r ≢ out_of_fuel
thrown_ends (success a, w) e = cc
thrown_ends (failure code message, w) e = cc

-- A call of the client whose result is turned into an answer.
answered_ends :
    {W A B : Type 0} (r : Outcome A × W) (f : A → B)
    → and_then (thrown r) (λ a. ok (f a)) ≢ out_of_fuel
answered_ends (success a, w) f e = cc
answered_ends (failure code message, w) f e = cc

-- The result that an answer was made of.
answered_ok :
    {W A B : Type 0} (r : Outcome A × W) (f : A → B) {b : B} {t : W}
    → and_then (thrown r) (λ a. ok (f a)) ≡ ok b t
    → (a : A) × (f a ≡ b)
answered_ok (success a, w) f e = (a, cc)
answered_ok (failure code message, w) f e = absurd cc

test_ends :
    {W A : Type 0} (b : Bool) (r r' : Run W A)
    → r ≢ out_of_fuel
    → r' ≢ out_of_fuel
    → (if b then r else r') ≢ out_of_fuel
test_ends true r r' h h' = h
test_ends false r r' h h' = h'

module _ (client : S3Client) (opt : StorOpt) (junk : ObjInfo) where
  head_answer-Ends :
      (resp : HeadFileResp) (r : Outcome HeadObjectResult × client.State)
      → head_answer client opt junk resp r ≢ out_of_fuel
  unfolding head_answer
  head_answer-Ends resp (success result, s) = λ e. cc
  head_answer-Ends resp (failure code message, s) =
      test_ends (code == not_found) _ _ (λ e. cc) (λ e. cc)

  minit-part_size :
      (req : MInitReq) (resp answer : MInitResp) (s t : client.State)
      → minit client opt junk req resp s ≡ ok answer t
      → answer.part_size ≢ 0
  unfolding minit
  minit-part_size req resp answer s t e z =
      let (id, made) = answered_ok _ _ e in absurd (omega (arith, ap (λ r. r.part_size) made, z))

  pub s3_stor-IsEnding : IsEnding ⊥ (s3_stor client opt junk)
  unfolding head_file list_objects put_file delete_file read_file minit mput mfinish
  s3_stor-IsEnding = record {
    head_file = λ req resp s.
        head_answer-Ends resp
          (client.head_object (record { bucket = opt.bucket; key = req.obj_key }) s);
    list_objects = λ req resp s. answered_ends _ _;
    put_file = λ req s. thrown_ends _;
    delete_file = λ req s. thrown_ends _;
    read_file = λ req resp s. answered_ends _ _;
    minit = λ req resp s. answered_ends _ _;
    mput = λ req s. thrown_ends _;
    mfinish = λ req s. thrown_ends _;
  }

  pub s3_stor-IsParted : IsParted ⊥ (s3_stor client opt junk)
  s3_stor-IsParted = record { part_size = minit-part_size }
