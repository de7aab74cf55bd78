-- ===== src/Config/Build/Origins.antt =====
-- `parseS3Domain` and `buildOrigin` of internal/config/build.go.
pub mod Laws
use localfront.Base.{
  ℕ, ◌+◌, ◌-◌, ◌*◌, Bool, true, false, not, ◌||◌, ◌&&◌, List, [], ◌∷◌, ◌++◌, map, Option, none,
  some, ◌==◌, leb, if◌then◌else◌, all,
}
use localfront.Text.{
  Bytes, codes, is_empty, str_eq, to_lower, has_prefix, contains, cut_prefix, cut_suffix,
}
use localfront.Num.{ℤ, pos, negsuc, wrap_int64}
use localfront.Config.{Origin, OriginCustomHeader, CustomOrigin, S3Origin}
use localfront.Config.Props.{
  value_or, OriginProps, CustomOriginConfigProps, S3OriginConfigProps, OriginCustomHeaderProps,
}
use localfront.Config.Build.{
  Fault, Checked, ok, failed, ◌>>=◌, ◌>>◌, refuse, or_fault, is_unresolved, default_region,
  origin_id_required, domain_name_required, vpc_origin, unresolved_domain_name, origin_path_slash,
  two_origin_configs, no_origin_config, s3_website, no_bucket, protocol_policy_required,
  invalid_protocol_policy,
}

abbrev alphanumeric : ℕ → Bool
alphanumeric c = leb b'a' c && leb c b'z' || leb b'0' c && leb c b'9'

abbrev region_byte : ℕ → Bool
region_byte c = alphanumeric c || c == b'-'

abbrev is_region : Bytes → Bool
is_region s = not (is_empty s) && all region_byte s

abbrev region_or : Bool → Bytes → Option Bytes → Option Bytes
region_or true region other = some region
region_or false region other = other

-- `(?:dualstack\.)?(?P<region>[a-z0-9-]+)`, which takes the "dualstack." where it can
abbrev read_region : Bytes → Option Bytes
read_region s =
    let plain = region_or (is_region s) s none in
    elim (cut_prefix s (codes "dualstack.")) [
      | none ↦ plain
      | some t ↦ region_or (is_region t) t plain
    ]

-- `(?:[.-](?:dualstack\.)?(?P<region>[a-z0-9-]+))?`, where "" stands for no region
abbrev region_group : Bytes → Option Bytes
region_group [] = some []
region_group (c ∷ s) = if c == b'.' || c == b'-' then read_region s else none

-- `\.s3(…)?\.amazonaws\.com$`
unfoldable pub s3_tail : Bytes → Option Bytes
s3_tail s = elim (cut_prefix s (codes ".s3")) [
  | none ↦ none
  | some t ↦ elim (cut_suffix t (codes ".amazonaws.com")) [ none ↦ none | some m ↦ region_group m ]
]

-- The shortest bucket in front of such a tail, of which `bucket` has been read.
unfoldable pub s3_scan : Bytes → Bytes → Option (Bytes × Bytes)
s3_scan bucket [] = none
s3_scan bucket (c ∷ s) = elim (s3_tail (c ∷ s)) [
  | some region ↦ some (bucket, region)
  | none ↦
      let longer = s3_scan (bucket ++ c ∷ []) s in
      if region_byte c || c == b'.' then longer else none
]

abbrev s3_match : Bytes → Option (Bytes × Bytes)
s3_match [] = none
s3_match (c ∷ s) = let found = s3_scan (c ∷ []) s in if alphanumeric c then found else none

-- `parseS3Domain`: the bucket and the region
unfoldable pub parse_s3_domain : Bytes → Option (Bytes × Bytes)
parse_s3_domain domain = elim (s3_match (to_lower domain)) [
  | none ↦ none
  | some (bucket, region) ↦ some (bucket, if is_empty region then default_region else region)
]

-- `time.Duration(n) * time.Second`
abbrev seconds : ℤ → ℤ
seconds (pos n) = wrap_int64 (pos (n * 1_000_000_000))
seconds (negsuc n) = wrap_int64 (negsuc ((n + 1) * 1_000_000_000 - 1))

-- the switch on the protocol policy
unfoldable pub check_protocol_policy : Bytes → Checked (Unit {0})
check_protocol_policy p =
    if str_eq p (codes "http-only")
      || str_eq p (codes "https-only")
      || str_eq p (codes "match-viewer")
    then ok tt
    else if is_empty p
    then failed protocol_policy_required
    else failed (invalid_protocol_policy p)

-- an origin without its kind
unfoldable pub base_origin : OriginProps → Origin
base_origin op = record {
  id = op.id;
  origin_path = op.origin_path;
  custom_headers =
      map (λ (h : OriginCustomHeaderProps). record { name = h.header_name; value = h.header_value })
        op.origin_custom_headers;
  custom = none;
  s3 = none;
  connection_attempts = value_or op.connection_attempts (pos 3);
  connection_timeout = seconds (value_or op.connection_timeout (pos 10));
}

abbrev s3_origin : Origin → Option (Bytes × Bytes) → Bytes → Checked Origin
s3_origin o none domain = failed (no_bucket domain)
s3_origin o (some (bucket, region)) domain =
    ok (record o { s3 = some (record { bucket = bucket; region = region }) })

abbrev custom_origin : OriginProps → CustomOriginConfigProps → Origin
custom_origin op c = record (base_origin op) {
  custom = some (record {
    host = op.domain_name;
    http_port = value_or c.http_port (pos 80);
    https_port = value_or c.https_port (pos 443);
    protocol_policy = c.origin_protocol_policy;
    read_timeout = seconds (value_or c.origin_read_timeout (pos 30));
    keepalive_timeout = seconds (value_or c.origin_keepalive_timeout (pos 5));
  });
}

-- the switch on the kind of the origin
unfoldable pub origin_kind :
    OriginProps → Option S3OriginConfigProps → Option CustomOriginConfigProps → Checked Origin
origin_kind op (some _) (some _) = failed two_origin_configs
origin_kind op (some _) none = do
  refuse (contains op.domain_name (codes ".s3-website")) (s3_website op.domain_name)
  s3_origin (base_origin op) (parse_s3_domain op.domain_name) op.domain_name
origin_kind op none (some c) = do
  check_protocol_policy c.origin_protocol_policy
  ok (custom_origin op c)
origin_kind op none none = failed no_origin_config

-- `buildOrigin`
unfoldable pub build_origin : OriginProps → Checked Origin
build_origin op = do
  refuse (is_empty op.id) origin_id_required
  refuse (is_empty op.domain_name) domain_name_required
  refuse (is_unresolved op.domain_name) (unresolved_domain_name op.domain_name)
  refuse (not (is_empty op.vpc_origin_config)) vpc_origin
  refuse (not (is_empty op.origin_path) && not (has_prefix op.origin_path (codes "/")))
      (origin_path_slash op.origin_path)
  origin_kind op op.s3_origin_config op.custom_origin_config
