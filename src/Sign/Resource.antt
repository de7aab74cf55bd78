-- ===== src/Sign/Resource.antt =====
-- The resource that a signature covers (internal/sign/sign.go): its host, path and query string, and
-- the pattern of a custom policy.
pub mod Laws
use localfront.Base.{
  ℕ, true, false, Bool, not, ◌&&◌, ◌||◌, List, [], ◌∷◌, ◌++◌, Option, none, some, if◌then◌else◌,
  any, filter,
}
use localfront.Text.{Bytes, codes, str_eq, is_empty, split, join, before_byte, contains}
use localfront.Num.{ℤ, format_int}
use localfront.Http.Request.{Request}
use localfront.Glob
use localfront.Sign.{Platform}

-- `resourceHost`
unfoldable pub resource_host : Request → Bytes → Bytes
resource_host r public_host = if not (is_empty public_host) then public_host else r.host

-- `applyDefaultRootObject`
unfoldable pub apply_default_root_object : Bytes → Bytes → Bytes
apply_default_root_object path default_root_object =
    if (is_empty path || str_eq path (codes "/")) && not (is_empty default_root_object)
    then codes "/" ++ default_root_object
    else path

-- the keys of `cloudFrontSigningParams`
abbrev pub signing_params : List Bytes
signing_params =
    codes "Expires"
    ∷ codes "Signature"
    ∷ codes "Key-Pair-Id"
    ∷ codes "Policy"
    ∷ codes "Hash-Algorithm"
    ∷ []

unfoldable pub is_signing_param : Bytes → Bool
is_signing_param key = any (λ k. str_eq k key) signing_params

-- one round of the loop of `resourceQuery`
unfoldable pub is_application_param : Bytes → Bool
is_application_param param = not (is_empty param) && not (is_signing_param (before_byte param b'='))

-- `resourceQuery`
unfoldable pub resource_query : Bytes → Bytes
resource_query raw_query =
    if is_empty raw_query
    then []
    else join (filter is_application_param (split raw_query b'&')) (codes "&")

-- `cannedPolicyJSON`
unfoldable pub canned_policy_json : (Bytes → Bytes) → Bytes → ℤ → Bytes
canned_policy_json json_string resource expires =
    codes "{\"Statement\":[{\"Resource\":"
    ++ (json_string resource
        ++ (codes ",\"Condition\":{\"DateLessThan\":{\"AWS:EpochTime\":"
            ++ (format_int expires ++ codes "}}}]}")))

-- `matchGlob` of sign.go, the same loop as that of internal/behavior
unfoldable pub match_glob : Bytes → Bytes → Bool
match_glob pattern s = Glob.match_glob pattern s

-- `resourceMatches` once the query string of the pattern is dropped
unfoldable pub pattern_matches : Bytes → Bytes → Bytes → Bool
pattern_matches pattern host path =
    if not (contains pattern (codes "://"))
    then match_glob pattern path
    else match_glob pattern (codes "https" ++ (codes "://" ++ (host ++ path)))
      || match_glob pattern (codes "http" ++ (codes "://" ++ (host ++ path)))

-- `resourceMatches`
unfoldable pub resource_matches : Bytes → Bytes → Bytes → Bool
resource_matches resource host path =
    if is_empty resource || str_eq resource (codes "*")
    then true
    else pattern_matches (before_byte resource b'?') host path

-- the resource of `verifyCanned`
unfoldable pub canned_resource : Bytes → Bytes → Bytes → Bytes → Bytes
canned_resource scheme host escaped_path query =
    scheme
    ++ (codes "://"
        ++ (host ++ (escaped_path ++ (if not (is_empty query) then codes "?" ++ query else []))))

-- Named on the `unfolding` line of a test, it opens the functions above.
unfoldable pub resource_ops : Unit {0}
unfolding resource_host apply_default_root_object is_signing_param is_application_param
    resource_query canned_policy_json match_glob pattern_matches resource_matches canned_resource
resource_ops = tt
