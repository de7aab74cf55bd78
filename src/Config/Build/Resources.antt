-- ===== src/Config/Build/Resources.antt =====
-- The resources other than distributions (internal/config/build.go).

use localfront.Base.{not, ◌&&◌, List, [], ◌∷◌, ◌++◌, Option, none, some, if◌then◌else◌}
use localfront.Text.{Bytes, codes, is_empty, str_eq, equal_fold}
use localfront.Text.Map.{StrMap, lookup, put}
use localfront.Config.{KeyValueStore, Function, PublicKey, KeyGroup}
use localfront.Config.Props.{
  OriginRequestPolicyProps, ResponseHeadersPolicyProps, FunctionProps, FunctionConfigProps,
  KvsAssociationProps, KeyValueStoreProps, ImportSourceProps, PublicKeyProps, PublicKeyConfigProps,
  KeyGroupProps, OriginAccessControlProps,
}
use localfront.Config.Policies.{
  origin_request_policy_from_props, response_headers_policy_from_props,
}
use localfront.Config.Build.{
  Checked, ok, failed, ◌>>=◌, ◌>>◌, refuse, or_fault, is_unresolved, name_required, code_required,
  encoded_key_required, config_required, import_source_not_s3, unsupported_runtime,
  unresolved_reference, missing_reference,
}
use localfront.Config.Build.Ids.{key_value_store_arn_of}
use localfront.Config.Build.Behaviors.{Builder}

-- `originAccessControl`, with its identifier
unfoldable pub add_oac : Bytes → Bytes → OriginAccessControlProps → Builder → Builder
add_oac id logical_id p b =
    let cfg = b.cfg in
    record b {
      cfg = record cfg {
        origin_access_controls =
            cfg.origin_access_controls
            ++ record {
              logical_id = logical_id;
              id = id;
              name = elim p.origin_access_control_config [ none ↦ [] | some c ↦ c.name ];
            }
              ∷ [];
      };
    }

-- `kvs.ImportSourceARN`
unfoldable pub import_arn : Option ImportSourceProps → Checked Bytes
import_arn none = ok []
import_arn (some s) = do
  refuse (not (equal_fold s.source_type (codes "S3"))) (import_source_not_s3 s.source_type)
  ok s.source_arn

abbrev store_of : Bytes → Bytes → Bytes → Bytes → KeyValueStore
store_of logical_id name id import_source_arn = record {
  logical_id = logical_id;
  name = name;
  id = id;
  arn = key_value_store_arn_of id;
  import_source_arn = import_source_arn;
}

-- `keyValueStore`, with the identifier of the store
unfoldable pub add_key_value_store : Builder → Bytes → Bytes → KeyValueStoreProps → Checked Builder
add_key_value_store b id logical_id p = do
  refuse (is_empty p.name) name_required
  arn ← import_arn p.import_source
  let kvs = store_of logical_id p.name id arn
  let cfg = b.cfg
  ok (record b {
    cfg = record cfg { key_value_stores = cfg.key_value_stores ++ kvs ∷ [] };
    kvs_by_arn = put (key_value_store_arn_of id) kvs b.kvs_by_arn;
  })

abbrev public_key_of : Bytes → Bytes → PublicKeyConfigProps → PublicKey
public_key_of id logical_id c = record {
  logical_id = logical_id;
  id = id;
  name = c.name;
  encoded_key = c.encoded_key;
}

-- `publicKey`
unfoldable pub add_public_key : Builder → Bytes → Bytes → PublicKeyProps → Checked Builder
add_public_key b id logical_id p = do
  c ← or_fault p.public_key_config encoded_key_required
  refuse (is_empty c.encoded_key) encoded_key_required
  let pk = public_key_of id logical_id c
  let cfg = b.cfg
  ok (record b {
    cfg = record cfg { public_keys = cfg.public_keys ++ pk ∷ [] };
    public_keys = put id pk b.public_keys;
  })

-- the loop over the items of a key group
unfoldable pub group_members : StrMap PublicKey → List Bytes → Checked (List PublicKey)
group_members known [] = ok []
group_members known (id ∷ ids) = do
  refuse (is_unresolved id) (unresolved_reference (codes "KeyGroup") id)
  pk ← or_fault (lookup id known) (missing_reference (codes "public key") id)
  rest ← group_members known ids
  ok (pk ∷ rest)

-- `keyGroup`
unfoldable pub add_key_group : Builder → Bytes → Bytes → KeyGroupProps → Checked Builder
add_key_group b id logical_id p = do
  c ← or_fault p.key_group_config config_required
  keys ← group_members b.public_keys c.items
  let kg : KeyGroup = record { logical_id = logical_id; id = id; name = c.name; keys = keys }
  let cfg = b.cfg
  ok (record b {
    cfg = record cfg { key_groups = cfg.key_groups ++ kg ∷ [] };
    key_groups = put id kg b.key_groups;
  })

-- `originRequestPolicy`
unfoldable pub add_origin_request_policy :
    Builder → Bytes → OriginRequestPolicyProps → Checked Builder
add_origin_request_policy b id p = do
  orp ←
      or_fault (origin_request_policy_from_props id p.origin_request_policy_config) config_required
  ok (record b { origin_request_policies = put orp.id orp b.origin_request_policies })

-- `responseHeadersPolicy`
unfoldable pub add_response_headers_policy :
    Builder → Bytes → ResponseHeadersPolicyProps → Checked Builder
add_response_headers_policy b id p = do
  rhp ←
      or_fault (response_headers_policy_from_props id p.response_headers_policy_config)
        config_required
  ok (record b { response_headers_policies = put rhp.id rhp b.response_headers_policies })

-- the stores of a function
unfoldable pub associated_stores :
    StrMap KeyValueStore → List KvsAssociationProps → Checked (List KeyValueStore)
associated_stores known [] = ok []
associated_stores known (assoc ∷ assocs) = do
  let arn = assoc.key_value_store_arn
  refuse (is_unresolved arn) (unresolved_reference (codes "function") arn)
  kvs ← or_fault (lookup arn known) (missing_reference (codes "key-value store") arn)
  rest ← associated_stores known assocs
  ok (kvs ∷ rest)

abbrev default_runtime : Bytes
default_runtime = codes "cloudfront-js-2.0"

-- `fn.Runtime`
unfoldable pub runtime_of : Bytes → Checked Bytes
runtime_of rt =
    if is_empty rt
    then ok default_runtime
    else if not (str_eq rt (codes "cloudfront-js-1.0")) && not (str_eq rt default_runtime)
    then failed (unsupported_runtime rt)
    else ok rt

-- the runtime and the stores
unfoldable pub function_settings :
    StrMap KeyValueStore → Option FunctionConfigProps → Checked (Bytes × List KeyValueStore)
function_settings known none = ok (default_runtime, [])
function_settings known (some c) = do
  rt ← runtime_of c.runtime
  stores ← associated_stores known c.key_value_store_associations
  ok (rt, stores)

-- `function`, with the ARN that references to it have
unfoldable pub add_function : Builder → Bytes → Bytes → FunctionProps → Checked Builder
add_function b arn logical_id p = do
  refuse (is_empty p.name) name_required
  refuse (is_empty p.function_code) code_required
  settings ← function_settings b.kvs_by_arn p.function_config
  let fn : Function = record {
    logical_id = logical_id;
    name = p.name;
    arn = arn;
    runtime = settings.0;
    source = p.function_code;
    key_value_stores = settings.1;
  }
  let cfg = b.cfg
  ok (record b {
    cfg = record cfg { functions = cfg.functions ++ fn ∷ [] };
    functions_by_arn = put arn fn b.functions_by_arn;
  })
