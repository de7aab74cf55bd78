-- ===== src/Tests/References.antt =====
-- A key-value store is registered under what references to it evaluate to.
use mathlib.Core.List.Memᴰ
use localfront.Base.{◌≡◌, refl, [], ◌∷◌, none, some}
use localfront.Text.{Bytes, codes, text_ops}
use localfront.Text.Map.{StrMap, lookup, put}
use localfront.Config.{KeyValueStore}
use localfront.Config.Props.{KeyValueStoreProps}
use localfront.Config.Build.{ok, ◌>>=◌, ◌>>◌, refuse, or_fault, wrap}
use localfront.Config.Build.Ids.{uuid_id, key_value_store_arn_of}
use localfront.Config.Build.Behaviors.{Builder}
use localfront.Config.Build.Resources.{import_arn, add_key_value_store}
use localfront.Config.Build.Passes.{
  key_value_store, RawResource, Decoder, Resource, add_resource, passes, run_pass, run_passes,
  no_config,
}
use localfront.Config.Build.References.Laws.{reference}
use localfront.Config.Build.References.Registered.{Registered}
use localfront.Config.Build.References.Passed.{run_passes-Registered}
use localfront.Tests.Building.{whole, plain_sum}

abbrev only_stores : Decoder whole
only_stores = record {
  Properties = KeyValueStoreProps;
  decode_origin_access_control = λ _. none;
  decode_key_value_store = λ p. some p;
  decode_public_key = λ _. none;
  decode_key_group = λ _. none;
  decode_cache_policy = λ _. none;
  decode_origin_request_policy = λ _. none;
  decode_response_headers_policy = λ _. none;
  decode_function = λ _. none;
  decode_distribution = λ _. none;
}

abbrev raw_store : RawResource
raw_store = record {
  logical_id = codes "Flags";
  type = codes "AWS::CloudFront::KeyValueStore";
  literals = (codes "Name", codes "flags") ∷ [];
}

abbrev store : Resource whole plain_sum only_stores
store = record {
  logical_id = codes "Flags";
  type = codes "AWS::CloudFront::KeyValueStore";
  properties = record { name = codes "flags"; comment = []; import_source = none };
  source = codes "flags.yaml";
}

abbrev empty_builder : Builder
empty_builder = record {
  cfg = no_config [];
  cache_policies = [];
  origin_request_policies = [];
  response_headers_policies = [];
  public_keys = [];
  key_groups = [];
  functions_by_arn = [];
  kvs_by_arn = [];
  alias_owner = [];
}

abbrev flags_id : Bytes
flags_id = uuid_id plain_sum (codes "key-value-store") (codes "Flags")

abbrev flags : KeyValueStore
flags = record {
  logical_id = codes "Flags";
  name = codes "flags";
  id = flags_id;
  arn = key_value_store_arn_of flags_id;
  import_source_arn = [];
}

abbrev with_flags : Builder
with_flags =
    let b = empty_builder in
    let cfg = b.cfg in
    record b {
      cfg = record cfg { key_value_stores = flags ∷ [] };
      kvs_by_arn = put (key_value_store_arn_of flags_id) flags [];
    }

abbrev raw_stores : StrMap RawResource
raw_stores = (codes "Flags", raw_store) ∷ []

find_store : lookup (codes "Flags") raw_stores ≡ some raw_store
unfolding lookup text_ops
find_store = refl

run_store :
    run_passes whole plain_sum only_stores raw_stores passes empty_builder (store ∷ [])
    ≡ ok with_flags
unfolding text_ops run_pass run_passes add_resource add_key_value_store import_arn ◌>>=◌ ◌>>◌ refuse
    or_fault wrap
run_store = refl

run_passes-Registered_example :
    (id : Bytes) × (reference plain_sum key_value_store raw_stores (codes "Flags") ≡ some id)
    × Registered key_value_store with_flags id
run_passes-Registered_example =
    run_passes-Registered whole plain_sum only_stores raw_stores key_value_store empty_builder
      with_flags (store ∷ []) store raw_store (Memᴰ.head refl) refl find_store refl run_store
