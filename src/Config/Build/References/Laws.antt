-- ===== src/Config/Build/References/Laws.antt =====
-- What references to a resource evaluate to, by the kind of the resource.
use localfront.Base.{◌≡◌, ◌≢◌, refl, ◌∙◌, Option, some}
use localfront.Text.{Bytes, codes, text_ops}
use localfront.Text.Map.{StrMap, lookup}
use localfront.Config.Build.Ids.{
  distribution_id, public_key_id, oac_id, uuid_id, function_arn_of, key_value_store_arn_of,
}
use localfront.Config.Build.Passes.{
  Kind, origin_access_control, key_value_store, public_key, key_group, cache_policy,
  origin_request_policy, response_headers_policy, function, distribution, kind_name, RawResource,
  raw_function_name,
}
use localfront.Config.Build.References.{case_of, ref_of, ref_value, attributes_of, att_value}

module _ (sum : Bytes → Bytes) where
  -- What a reference to a resource evaluates to: to a store by its ARN, else by Ref.
  pub reference : Kind → StrMap RawResource → Bytes → Option Bytes
  reference key_value_store raw me = att_value sum raw me (codes "Arn")
  reference origin_access_control raw me = ref_value sum raw me
  reference public_key raw me = ref_value sum raw me
  reference key_group raw me = ref_value sum raw me
  reference cache_policy raw me = ref_value sum raw me
  reference origin_request_policy raw me = ref_value sum raw me
  reference response_headers_policy raw me = ref_value sum raw me
  reference function raw me = ref_value sum raw me
  reference distribution raw me = ref_value sum raw me

  -- What `kind` is known by.
  unfoldable pub own_id : Kind → RawResource → Bytes → Bytes
  own_id key_value_store r me = key_value_store_arn_of (uuid_id sum (codes "key-value-store") me)
  own_id origin_access_control r me = oac_id sum me
  own_id public_key r me = public_key_id sum me
  own_id key_group r me = uuid_id sum (codes "key-group") me
  own_id cache_policy r me = uuid_id sum (codes "cache-policy") me
  own_id origin_request_policy r me = uuid_id sum (codes "origin-request-policy") me
  own_id response_headers_policy r me = uuid_id sum (codes "response-headers-policy") me
  own_id function r me = function_arn_of (raw_function_name r)
  own_id distribution r me = distribution_id sum me

  ref_value-of :
      (raw : StrMap RawResource) (me : Bytes) (r : RawResource)
      → lookup me raw ≡ some r
      → ref_value sum raw me ≡ ref_of sum me r
  unfolding ref_value
  ref_value-of raw me r h = rw (ref_value, h)

  att_value-arn :
      (raw : StrMap RawResource) (me : Bytes) (r : RawResource)
      → lookup me raw ≡ some r
      → r.type ≡ codes "AWS::CloudFront::KeyValueStore"
      → att_value sum raw me (codes "Arn")
        ≡ some (key_value_store_arn_of (uuid_id sum (codes "key-value-store") me))
  unfolding att_value attributes_of case_of text_ops
  att_value-arn raw me r h t = rw (att_value, h, t)

  ref_of-own_id :
      (kind : Kind) (me : Bytes) (r : RawResource)
      → kind ≢ key_value_store
      → r.type ≡ kind_name kind
      → ref_of sum me r ≡ some (own_id kind r me)
  unfolding own_id ref_of case_of text_ops
  ref_of-own_id key_value_store me r n t = absurd (n refl)
  ref_of-own_id origin_access_control me r n t = rw t
  ref_of-own_id public_key me r n t = rw t
  ref_of-own_id key_group me r n t = rw t
  ref_of-own_id cache_policy me r n t = rw t
  ref_of-own_id origin_request_policy me r n t = rw t
  ref_of-own_id response_headers_policy me r n t = rw t
  ref_of-own_id function me r n t = rw t
  ref_of-own_id distribution me r n t = rw t

  pub reference-own_id :
      (kind : Kind) (raw : StrMap RawResource) (me : Bytes) (r : RawResource)
      → lookup me raw ≡ some r
      → r.type ≡ kind_name kind
      → reference kind raw me ≡ some (own_id kind r me)
  unfolding reference own_id
  reference-own_id key_value_store raw me r h t = att_value-arn raw me r h t
  reference-own_id origin_access_control raw me r h t =
      ref_value-of raw me r h ∙ ref_of-own_id origin_access_control me r (cc) t
  reference-own_id public_key raw me r h t =
      ref_value-of raw me r h ∙ ref_of-own_id public_key me r (cc) t
  reference-own_id key_group raw me r h t =
      ref_value-of raw me r h ∙ ref_of-own_id key_group me r (cc) t
  reference-own_id cache_policy raw me r h t =
      ref_value-of raw me r h ∙ ref_of-own_id cache_policy me r (cc) t
  reference-own_id origin_request_policy raw me r h t =
      ref_value-of raw me r h ∙ ref_of-own_id origin_request_policy me r (cc) t
  reference-own_id response_headers_policy raw me r h t =
      ref_value-of raw me r h ∙ ref_of-own_id response_headers_policy me r (cc) t
  reference-own_id function raw me r h t =
      ref_value-of raw me r h ∙ ref_of-own_id function me r (cc) t
  reference-own_id distribution raw me r h t =
      ref_value-of raw me r h ∙ ref_of-own_id distribution me r (cc) t
