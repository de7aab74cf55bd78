-- ===== src/Config/Build/References.antt =====
-- internal/config/refs.go: what Ref and Fn::GetAtt evaluate to.
pub mod Laws
pub mod Registered
pub mod Kept
pub mod Passed
use localfront.Base.{
  ℕ, ◌||◌, ◌&&◌, List, [], ◌∷◌, ◌++◌, map, reverse, Option, none, some, ◌==◌, leb, if◌then◌else◌,
}
use localfront.Text.{Bytes, codes, str_eq, to_lower}
use localfront.Text.Map.{StrMap, lookup}
use localfront.Config.Build.{default_region}
use localfront.Config.Build.Ids.{
  distribution_id, distribution_arn, distribution_domain, public_key_id, oac_id, uuid_id,
  function_arn_of, key_value_store_arn_of,
}
use localfront.Config.Build.Passes.{RawResource, raw_string_prop, raw_function_name}

-- `fixedTimestamp`
abbrev pub fixed_timestamp : Bytes
fixed_timestamp = codes "1970-01-01T00:00:00Z"

abbrev bucket_byte : ℕ → ℕ
bucket_byte c =
    if leb b'a' c && leb c b'z' || leb b'0' c && leb c b'9' || c == b'.' || c == b'-'
    then c
    else b'-'

trim_marks : Bytes → Bytes
trim_marks [] = []
trim_marks (c ∷ s) = let rest = trim_marks s in if c == b'.' || c == b'-' then rest else c ∷ s

-- `sanitizeBucketName`, of an ASCII name
unfoldable pub sanitize_bucket_name : Bytes → Bytes
unfolding trim_marks
sanitize_bucket_name s = reverse (trim_marks (reverse (trim_marks (map bucket_byte (to_lower s)))))

-- `bucketNameOf`
unfoldable pub bucket_name_of : RawResource → Bytes
bucket_name_of res = elim (raw_string_prop res (codes "BucketName")) [
  | none ↦ sanitize_bucket_name res.logical_id
  | some name ↦ name
]

-- The value of the first entry whose name is `key`: a `switch` on strings.
unfoldable pub case_of {ℓ} : {A : Type ℓ} → Bytes → List (Bytes × A) → Option A
case_of key [] = none
case_of key ((name, value) ∷ cases) = if str_eq key name then some value else case_of key cases

abbrev store_name : Option Bytes → Bytes → Bytes
store_name none logical_id = logical_id
store_name (some name) logical_id = name

module _ (sum : Bytes → Bytes) where
  -- the switch of `RefValue`
  unfoldable pub ref_of : Bytes → RawResource → Option Bytes
  ref_of logical_id res = case_of res.type (
      (codes "AWS::CloudFront::Distribution", distribution_id sum logical_id)
      ∷ (codes "AWS::CloudFront::Function", function_arn_of (raw_function_name res))
      ∷ (
        codes "AWS::CloudFront::KeyValueStore",
        store_name (raw_string_prop res (codes "Name")) logical_id,
      )
      ∷ (codes "AWS::CloudFront::CachePolicy", uuid_id sum (codes "cache-policy") logical_id)
      ∷ (
        codes "AWS::CloudFront::OriginRequestPolicy",
        uuid_id sum (codes "origin-request-policy") logical_id,
      )
      ∷ (
        codes "AWS::CloudFront::ResponseHeadersPolicy",
        uuid_id sum (codes "response-headers-policy") logical_id,
      )
      ∷ (codes "AWS::CloudFront::PublicKey", public_key_id sum logical_id)
      ∷ (codes "AWS::CloudFront::KeyGroup", uuid_id sum (codes "key-group") logical_id)
      ∷ (codes "AWS::CloudFront::OriginAccessControl", oac_id sum logical_id)
      ∷ (codes "AWS::S3::Bucket", bucket_name_of res)
      ∷ [])

  -- `RefValue`
  unfoldable pub ref_value : StrMap RawResource → Bytes → Option Bytes
  ref_value resources logical_id = elim (lookup logical_id resources) [
    | none ↦ none
    | some res ↦ ref_of logical_id res
  ]

  abbrev id_attributes : Bytes → Bytes → List (Bytes × Bytes)
  id_attributes id time_name = (codes "Id", id) ∷ (time_name, fixed_timestamp) ∷ []

  abbrev modified : Bytes
  modified = codes "LastModifiedTime"

  abbrev bucket_attributes : Bytes → List (Bytes × Bytes)
  bucket_attributes name =
      (codes "Arn", codes "arn:aws:s3:::" ++ name)
      ∷ (codes "DomainName", name ++ codes ".s3.amazonaws.com")
      ∷ (
        codes "RegionalDomainName",
        name ++ (codes ".s3." ++ (default_region ++ codes ".amazonaws.com")),
      )
      ∷ (
        codes "DualStackDomainName",
        name ++ (codes ".s3.dualstack." ++ (default_region ++ codes ".amazonaws.com")),
      )
      ∷ (
        codes "WebsiteURL",
        codes "http://"
            ++ (name ++ (codes ".s3-website-" ++ (default_region ++ codes ".amazonaws.com"))),
      )
      ∷ []

  -- the attributes of a resource, by its type
  unfoldable pub attributes_of : Bytes → RawResource → Option (List (Bytes × Bytes))
  attributes_of logical_id res =
      let id = distribution_id sum logical_id in
      let arn = function_arn_of (raw_function_name res) in
      let store = uuid_id sum (codes "key-value-store") logical_id in
      case_of res.type (
        (
          codes "AWS::CloudFront::Distribution",
          (codes "Id", id)
              ∷ (codes "DomainName", distribution_domain id)
              ∷ (codes "ARN", distribution_arn id)
              ∷ [],
        )
        ∷ (
          codes "AWS::CloudFront::Function",
          (codes "FunctionARN", arn)
              ∷ (codes "FunctionMetadata.FunctionARN", arn)
              ∷ (codes "Stage", codes "LIVE")
              ∷ [],
        )
        ∷ (
          codes "AWS::CloudFront::KeyValueStore",
          (codes "Arn", key_value_store_arn_of store)
              ∷ (codes "Id", store)
              ∷ (codes "Status", codes "READY")
              ∷ [],
        )
        ∷ (
          codes "AWS::CloudFront::CachePolicy",
          id_attributes (uuid_id sum (codes "cache-policy") logical_id) modified,
        )
        ∷ (
          codes "AWS::CloudFront::OriginRequestPolicy",
          id_attributes (uuid_id sum (codes "origin-request-policy") logical_id) modified,
        )
        ∷ (
          codes "AWS::CloudFront::ResponseHeadersPolicy",
          id_attributes (uuid_id sum (codes "response-headers-policy") logical_id) modified,
        )
        ∷ (
          codes "AWS::CloudFront::PublicKey",
          id_attributes (public_key_id sum logical_id) (codes "CreatedTime"),
        )
        ∷ (
          codes "AWS::CloudFront::KeyGroup",
          id_attributes (uuid_id sum (codes "key-group") logical_id) modified,
        )
        ∷ (codes "AWS::CloudFront::OriginAccessControl", (codes "Id", oac_id sum logical_id) ∷ [])
        ∷ (codes "AWS::S3::Bucket", bucket_attributes (bucket_name_of res))
        ∷ [])

  -- `AttValue`
  unfoldable pub att_value : StrMap RawResource → Bytes → Bytes → Option Bytes
  att_value resources logical_id attr = elim (lookup logical_id resources) [
    | none ↦ none
    | some res ↦ elim (attributes_of logical_id res) [
      | none ↦ none
      | some attributes ↦ case_of attr attributes
    ]
  ]
