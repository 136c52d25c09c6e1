-- ===== src/Stor/Aws.antt =====
-- The part of the AWS SDK that src/stor/stor_s3.cpp calls: a client on a state of its own. It is a
-- parameter of the model. Each request carries the fields that the code sets.
use catfs.Common.{
  ℕ, ◌≤◌, ◌<◌, ◌-◌, take, drop, length, ◌+◌, ◌≡◌, Bool, Option, some, List, [], Text,
}
use catfs.Stor.Bucket.{insert_part}

pub data Outcome (A : Type 0) : Type 0 where
  success : A → Outcome A
  failure : (response_code : ℕ) → (message : Text) → Outcome A

pub record HeadObjectRequest : Type 0 where
  pub bucket : Text
  pub key : Text

pub record HeadObjectResult : Type 0 where
  pub content_length : ℕ
  pub last_modified : ℕ

pub record ListObjectsRequest : Type 0 where
  pub bucket : Text
  pub delimiter : Text
  pub marker : Text
  pub max_keys : ℕ
  pub prefix : Text

pub record Item : Type 0 where
  pub key : Text
  pub size : ℕ
  pub last_modified : ℕ

pub record ListObjectsResult : Type 0 where
  pub is_truncated : Bool
  pub next_marker : Text
  pub common_prefixes : List Text
  pub contents : List Item

pub record PutObjectRequest : Type 0 where
  pub bucket : Text
  pub key : Text
  pub body : List ℕ

pub record DeleteObjectRequest : Type 0 where
  pub bucket : Text
  pub key : Text

-- The range header by its two numbers, first and last byte.
pub record GetObjectRequest : Type 0 where
  pub bucket : Text
  pub key : Text
  pub range : ℕ × ℕ

pub record GetObjectResult : Type 0 where
  pub content_length : ℕ
  pub body : List ℕ

pub record CreateMultipartUploadRequest : Type 0 where
  pub bucket : Text
  pub key : Text

pub record UploadPartRequest : Type 0 where
  pub bucket : Text
  pub key : Text
  pub upload_id : Text
  pub part_number : ℕ
  pub body : List ℕ

-- The code does not set the list of the parts.
pub record CompleteMultipartUploadRequest : Type 0 where
  pub bucket : Text
  pub key : Text
  pub upload_id : Text

pub record S3Client : Type 1 where
  pub State : Type 0
  pub head_object : HeadObjectRequest → State → Outcome HeadObjectResult × State
  pub list_objects : ListObjectsRequest → State → Outcome ListObjectsResult × State
  pub put_object : PutObjectRequest → State → Outcome (Unit {0}) × State
  pub delete_object : DeleteObjectRequest → State → Outcome (Unit {0}) × State
  pub get_object : GetObjectRequest → State → Outcome GetObjectResult × State
  pub create_multipart_upload : CreateMultipartUploadRequest → State → Outcome Text × State
  pub upload_part : UploadPartRequest → State → Outcome (Unit {0}) × State
  pub complete_multipart_upload :
      CompleteMultipartUploadRequest → State → Outcome (Unit {0}) × State

-- A client whose calls succeed, by what they do to one bucket's objects and uploads. Parts are
-- numbered from 1. CompleteMultipartUpload needs the list of the parts with their ETags; the
-- request that the code makes has no list, and such a request fails.
pub record IsS3 (client : S3Client) (bucket : Text) : Type 0 where
  pub object : client.State → Text → Option (List ℕ)
  pub parts : client.State → Text → List (ℕ × List ℕ)
  pub put_object :
      (key : Text) (body : List ℕ) (s : client.State)
      → (t : client.State) × (client.put_object
            (record { bucket = bucket; key = key; body = body })
            s
          ≡ (success tt, t))
        × (object t key ≡ some body)
  pub create_multipart_upload :
      (key : Text) (s : client.State)
      → (id : Text) × (t : client.State) × (client.create_multipart_upload
            (record { bucket = bucket; key = key })
            s
          ≡ (success id, t))
        × (parts t id ≡ [])
  pub upload_part :
      (key id : Text) (n : ℕ) (body : List ℕ) (s : client.State)
      → (t : client.State) × (client.upload_part
            (record {
              bucket = bucket;
              key = key;
              upload_id = id;
              part_number = n + 1;
              body = body;
            })
            s
          ≡ (success tt, t))
        × (parts t id ≡ insert_part n body (parts s id))
  pub complete_multipart_upload :
      (key id : Text) (s : client.State)
      → (response_code : ℕ) × (message : Text) × (t : client.State)
        × (client.complete_multipart_upload
              (record { bucket = bucket; key = key; upload_id = id })
              s
            ≡ (failure response_code message, t))
  pub get_object :
      (key : Text) (first last : ℕ) (d : List ℕ) (s : client.State)
      → object s key ≡ some d
      → first ≤ last
      → last < length d
      → client.get_object (record { bucket = bucket; key = key; range = (first, last) }) s ≡ (
        success (record {
          content_length = last + 1 - first;
          body = take (last + 1 - first) (drop first d);
        }),
        s,
      )
