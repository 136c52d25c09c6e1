-- ===== src/Stor/Ending.antt =====
-- src/stor/stor.h: that the calls of a backend end, and that a listing by pages does.
use catfs.Common.{ℕ, zero, suc, ◌≡◌, true, [], Text, bytes, ok, out_of_fuel}
use catfs.Stor.{
  Stor, HeadFileReq, HeadFileResp, ListObjectsReq, ListObjectsResp, PutFileReq, DeleteFileReq,
  ReadFileReq, ReadFileResp, MInitReq, MInitResp, MPutReq, MFinishReq, empty_listing,
}

-- A call of the backend does not use up its fuel, unless `F` holds.
pub record IsEnding (F : Type 0) (stor : Stor) : Type 0 where
  pub head_file :
      (req : HeadFileReq) (resp : HeadFileResp) (s : stor.State)
      → stor.head_file req resp s ≡ out_of_fuel
      → F
  pub list_objects :
      (req : ListObjectsReq) (resp : ListObjectsResp) (s : stor.State)
      → stor.list_objects req resp s ≡ out_of_fuel
      → F
  pub put_file : (req : PutFileReq) (s : stor.State) → stor.put_file req s ≡ out_of_fuel → F
  pub delete_file :
      (req : DeleteFileReq) (s : stor.State) → stor.delete_file req s ≡ out_of_fuel → F
  pub read_file :
      (req : ReadFileReq) (resp : ReadFileResp) (s : stor.State)
      → stor.read_file req resp s ≡ out_of_fuel
      → F
  pub minit :
      (req : MInitReq) (resp : MInitResp) (s : stor.State) → stor.minit req resp s ≡ out_of_fuel → F
  pub mput : (req : MPutReq) (s : stor.State) → stor.mput req s ≡ out_of_fuel → F
  pub mfinish : (req : MFinishReq) (s : stor.State) → stor.mfinish req s ≡ out_of_fuel → F

-- The parts of an upload may hold some bytes, unless `G` holds.
pub record IsParted (G : Type 0) (stor : Stor) : Type 0 where
  pub part_size :
      (req : MInitReq) (resp answer : MInitResp) (s t : stor.State)
      → stor.minit req resp s ≡ ok answer t
      → answer.part_size ≡ 0
      → G

-- A page as refresh_sub_dentries asks for it.
abbrev pub page_of : (prefix marker : Text) → ListObjectsReq
page_of prefix marker = record {
  delimiter = bytes "/";
  prefix = prefix;
  max = 1000;
  marker = marker;
}

-- A listing from the marker on has at most `n` pages, unless `F` holds.
abbrev pub Pages : Type 0 → (stor : Stor) → ℕ → (prefix marker : Text) → stor.State → Type 0
Pages F stor zero prefix marker s = F
Pages F stor (suc n) prefix marker s =
    (resp : ListObjectsResp) (t : stor.State)
    → stor.list_objects (page_of prefix marker) empty_listing s ≡ ok resp t
    → resp.is_trunc ≡ true
    → Pages F stor n prefix resp.next_marker t

-- The listing of any directory.
abbrev pub Listed : Type 0 → (stor : Stor) → ℕ → stor.State → Type 0
Listed F stor n s = (prefix : Text) → Pages F stor n prefix [] s

-- Nothing is asked of a backend of which nothing is to be shown.
pub any-IsEnding : (stor : Stor) → IsEnding (Unit {0}) stor
any-IsEnding stor = record {
  head_file = λ req resp s e. tt;
  list_objects = λ req resp s e. tt;
  put_file = λ req s e. tt;
  delete_file = λ req s e. tt;
  read_file = λ req resp s e. tt;
  minit = λ req resp s e. tt;
  mput = λ req s e. tt;
  mfinish = λ req s e. tt;
}

pub any-IsParted : (stor : Stor) → IsParted (Unit {0}) stor
any-IsParted stor = record { part_size = λ req resp answer s t e z. tt }

pub any-Pages :
    (stor : Stor) (n : ℕ) (prefix marker : Text) (s : stor.State)
    → Pages (Unit {0}) stor n prefix marker s
any-Pages stor zero prefix marker s = tt
any-Pages stor (suc n) prefix marker s = λ resp t e more. any-Pages stor n prefix resp.next_marker t
