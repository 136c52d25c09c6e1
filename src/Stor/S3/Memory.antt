-- ===== src/Stor/S3/Memory.antt =====
-- A client in memory, which shows that what is assumed of the AWS client can hold. Uploads are
-- named by the order in which they begin; objects of all keys lie in one bucket.
use Prim.Native.Nat.{pred}
use mathlib.Core.Logic.{if_pos}
use catfs.Common.{
  ℕ, suc, ◌+◌, ◌≡◌, refl, ◌∙◌, ap, false, Option, none, some, List, [], ◌∷◌, arith, Text, lookup,
  insert, erase, lookup-insert, text_discrete, text_key, length, take, drop, length-take,
  length-drop, ◌-◌,
}
use catfs.Stor.Bucket.{insert_part}
use catfs.Stor.Aws.{Outcome, GetObjectResult, S3Client, IsS3, success, failure}

pub record Memory : Type 0 where
  pub objects : List (Text × List ℕ)
  pub uploads : List (Text × List (ℕ × List ℕ))
  pub next : ℕ

abbrev pub blank : Memory
blank = record { objects = []; uploads = []; next = 0 }

abbrev or_empty : Option (List (ℕ × List ℕ)) → List (ℕ × List ℕ)
or_empty none = []
or_empty (some ps) = ps

abbrev pub parts_of : Memory → Text → List (ℕ × List ℕ)
parts_of s id = or_empty (lookup id s.uploads)

-- The bytes from the first to the last, both included.
abbrev range_of : List ℕ → ℕ × ℕ → GetObjectResult
range_of d (first, last) = record {
  content_length = length (take (last + 1 - first) (drop first d));
  body = take (last + 1 - first) (drop first d);
}

abbrev ranged : Option (List ℕ) → ℕ × ℕ → Outcome GetObjectResult
ranged none range = failure 404 []
ranged (some d) range = success (range_of d range)

abbrev pub memory : S3Client
memory = record {
  State = Memory;
  head_object = λ req s. elim (lookup req.key s.objects) [
    | none ↦ (failure 404 [], s)
    | some d ↦ (success (record { content_length = length d; last_modified = 0 }), s)
  ];
  list_objects = λ req s. (
    success
        (record { is_truncated = false; next_marker = []; common_prefixes = []; contents = [] }),
    s,
  );
  put_object = λ req s. (success tt, record s { objects = insert req.key req.body s.objects });
  delete_object = λ req s. (success tt, record s { objects = erase req.key s.objects });
  get_object = λ req s. (ranged (lookup req.key s.objects) req.range, s);
  create_multipart_upload = λ req s. (
    success (s.next ∷ []),
    record s { uploads = insert (s.next ∷ []) [] s.uploads; next = suc s.next },
  );
  upload_part = λ req s. (
    success tt,
    record s {
      uploads =
          insert req.upload_id
            (insert_part (pred req.part_number) req.body (parts_of s req.upload_id)) s.uploads;
    },
  );
  complete_multipart_upload = λ req s. (failure 400 [], s);
}

lookup-insert_self :
    {V : Type 0} (k : Text) (v : V) (m : List (Text × V)) → lookup k (insert k v m) ≡ some v
lookup-insert_self k v m =
    lookup-insert k k v m ∙ if_pos (text_discrete k k) refl (some v) (lookup k m)

pub memory-IsS3 : (bucket : Text) → IsS3 memory bucket
memory-IsS3 bucket = record {
  object = λ s key. lookup key s.objects;
  parts = parts_of;
  put_object = λ key d s. (_, refl, lookup-insert_self key d s.objects);
  create_multipart_upload =
      λ key s. (s.next ∷ [], _, refl, ap or_empty (lookup-insert_self (s.next ∷ []) [] s.uploads));
  upload_part = λ key id n d s. (
    _,
    refl,
    ap or_empty (lookup-insert_self id (insert_part (pred (n + 1)) d (parts_of s id)) s.uploads)
        ∙ (ap (λ k. insert_part k d (parts_of s id)) (omega arith)),
  );
  complete_multipart_upload = λ key id s. (400, [], s, refl);
  get_object = λ key first last d s found le lt.
      let size : length (take (last + 1 - first) (drop first d)) ≡ last + 1 - first =
        length-take (last + 1 - first) (drop first d) (omega (arith, length-drop first d)) in
      ap (λ o. (ranged o (first, last), s)) found
      ∙ ap
          (λ n. (
            success (record { content_length = n; body = take (last + 1 - first) (drop first d) }),
            s,
          ))
          size;
}
