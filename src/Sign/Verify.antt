-- ===== src/Sign/Verify.antt =====
-- `Verify`, `verifyCanned` and `verifyCustom` of internal/sign/sign.go.
pub mod Laws
use localfront.Base.{
  ℕ, zero, suc, ◌+◌, ◌-◌, ◌*◌, ◌^◌, true, false, Bool, not, ◌&&◌, ◌||◌, List, [], ◌∷◌, ◌++◌, Option,
  none, some, ltb, leb, ◌==◌, if◌then◌else◌, any, find,
}
use localfront.Text.{Bytes, codes, str_eq, is_empty, contains}
use localfront.Num.{ℤ, pos, negsuc, eq_ℤ, lt_ℤ, parse_int}
use localfront.Net.{split_host_port}
use localfront.Http.Request.{Request}
use localfront.Sign.{
  Platform, PolicyStatement, Verdict, grant, deny, ◌>>=◌, ◌>>◌, require, or_deny, untrusted_key,
  malformed_signature, malformed_expires, malformed_policy, signature_mismatch, expired,
  not_yet_valid, no_client_ip, malformed_ip_condition, ip_not_allowed, wrong_resource,
}
use localfront.Sign.Codec.{Credentials, extract_credentials, aws_base64_decode}
use localfront.Sign.Resource.{
  resource_host, apply_default_root_object, resource_query, canned_policy_json, resource_matches,
  canned_resource,
}

-- A `time.Time`: the seconds since the year 1 as an int64, and the nanoseconds within the second.
pub record Instant : Type 0 where
  pub sec : ℤ
  pub nsec : ℕ

-- the seconds from the year 1 to 1970
abbrev pub unix_to_internal : ℕ
unix_to_internal = 62_135_596_800

-- `time.Unix(sec, 0)`; the sum is an int64 and wraps round.
unfoldable pub unix : ℤ → Instant
unix (pos n) =
    let s = n + unix_to_internal in
    record { sec = if ltb s (2 ^ 63) then pos s else negsuc (2 ^ 64 - s - 1); nsec = 0 }
unix (negsuc n) = record {
  sec =
      if ltb n unix_to_internal
      then pos (unix_to_internal - n - 1)
      else negsuc (n - unix_to_internal);
  nsec = 0;
}

-- `t.Before(u)`, and `u.After(t)`
unfoldable pub before : Instant → Instant → Bool
before t u = lt_ℤ t.sec u.sec || eq_ℤ t.sec u.sec && ltb t.nsec u.nsec

-- `statement` of sign.go
pub record Statement : Type 0 where
  pub resource : Bytes
  pub date_less_than : ℤ
  pub date_greater_than : ℤ
  pub ip_address : Bytes

abbrev pub epoch : Option ℤ → ℤ
epoch none = pos 0
epoch (some e) = e

abbrev pub source_ip : Option Bytes → Bytes
source_ip none = []
source_ip (some ip) = ip

abbrev pub first_statement : Option (List PolicyStatement) → Option Statement
first_statement none = none
first_statement (some []) = none
first_statement (some (s ∷ _)) = some (record {
  resource = s.resource;
  date_less_than = epoch s.date_less_than;
  date_greater_than = epoch s.date_greater_than;
  ip_address = source_ip s.ip_address;
})

module _ (p : Platform) where
  open p use {
    RsaKey, verify_rsa, json_string, unmarshal_policy, parse_ip, parse_cidr, network_contains,
    escaped_path,
  }

  pub record Key : Type 0 where
    pub id : Bytes
    pub rsa : RsaKey

  -- `findKey`
  unfoldable pub find_key : List Key → Bytes → Option RsaKey
  find_key [] id = none
  find_key (k ∷ ks) id = if str_eq k.id id then some k.rsa else find_key ks id

  -- `parsePolicyStatement`: `none` is an error.
  unfoldable pub parse_policy_statement : Bytes → Option Statement
  parse_policy_statement policy = first_statement (unmarshal_policy policy)

  -- the address that `checkIP` looks at
  unfoldable pub client_host : Bytes → Bytes
  client_host remote_addr = elim (split_host_port remote_addr) [
    | none ↦ remote_addr
    | some (host, _) ↦ host
  ]

  -- `checkIP`
  unfoldable pub check_ip : Bytes → Bytes → Verdict (Unit {0})
  check_ip cidr remote_addr = do
    ip ← or_deny (parse_ip (client_host remote_addr)) no_client_ip
    network ←
        or_deny (parse_cidr (if not (contains cidr (codes "/")) then cidr ++ codes "/32" else cidr))
          malformed_ip_condition
    require (network_contains network ip) ip_not_allowed

  unfoldable pub signs_canned : Request → RsaKey → ℤ → Bytes → Bytes → Bytes → Bytes → Bool
  signs_canned r key exp sig root host scheme =
      verify_rsa key
        (canned_policy_json json_string
          (canned_resource scheme host (apply_default_root_object (escaped_path r) root)
            (resource_query r.raw_query))
          exp)
        sig

  -- `verifyCanned`
  unfoldable pub verify_canned :
      Request → RsaKey → Bytes → Bytes → Instant → Bytes → Bytes → Verdict (Unit {0})
  verify_canned r key expires sig now root host = do
    exp ← or_deny (parse_int expires) malformed_expires
    require
        (signs_canned r key exp sig root host (codes "https")
          || signs_canned r key exp sig root host (codes "http"))
        signature_mismatch
    require (before now (unix exp)) expired

  unfoldable pub check_ip_condition : Bytes → Bytes → Verdict (Unit {0})
  check_ip_condition [] remote_addr = grant tt
  check_ip_condition (c ∷ cidr) remote_addr = check_ip (c ∷ cidr) remote_addr

  -- `verifyCustom`
  unfoldable pub verify_custom :
      Request → RsaKey → Bytes → Bytes → Instant → Bytes → Bytes → Verdict (Unit {0})
  verify_custom r key policy sig now root public_host = do
    document ← or_deny (aws_base64_decode policy) malformed_policy
    require (verify_rsa key document sig) signature_mismatch
    stmt ← or_deny (parse_policy_statement document) malformed_policy
    require (not (lt_ℤ (pos 0) stmt.date_less_than && not (before now (unix stmt.date_less_than))))
        expired
    require
        (not
          (lt_ℤ (pos 0) stmt.date_greater_than && not (before (unix stmt.date_greater_than) now)))
        not_yet_valid
    check_ip_condition stmt.ip_address r.remote_addr
    require
        (resource_matches stmt.resource (resource_host r public_host)
          (apply_default_root_object (escaped_path r) root))
        wrong_resource

  -- `Verify`
  unfoldable pub verify : Request → List Key → Instant → Bytes → Bytes → Verdict (Unit {0})
  verify r trusted now root public_host = do
    c ← extract_credentials r
    key ← or_deny (find_key trusted c.key_pair_id) untrusted_key
    sig ← or_deny (aws_base64_decode c.signature) malformed_signature
    if not (is_empty c.policy)
        then verify_custom r key c.policy sig now root public_host
        else verify_canned r key c.expires sig now root (resource_host r public_host)
