-- ===== src/Sign/Codec.antt =====
-- The parameters of a signed request (internal/sign/sign.go): query string, cookies, base64.
use localfront.Base.{
  ℕ, ◌+◌, ◌-◌, ◌*◌, ◌/◌, ◌%◌, Bool, not, ◌&&◌, ◌||◌, List, [], ◌∷◌, ◌++◌, map, Option, none, some,
  ltb, leb, ◌==◌, if◌then◌else◌, any, all, filter, reverse, drop,
}
use localfront.Text.{Bytes, codes, str_eq, is_empty, split, before_byte, after_byte, trim_space}
use localfront.Http.{values, is_token_byte}
use localfront.Http.Request.{Request}
use localfront.Behavior.Forward.{query_unescape}
use localfront.Sign.{
  Verdict, grant, require, ◌>>◌, missing_key_pair_id, missing_signature, missing_policy_or_expires,
}

-- The value that one parameter has for `name`, by `url.ParseQuery`: a part that is empty, holds a
-- semicolon or cannot be decoded is passed over.
unfoldable pub param_value : Bytes → Bytes → Option Bytes
param_value name param =
    if is_empty param || any (λ c. c == b';') param
    then none
    else elim (query_unescape (before_byte param b'=')) [
      | none ↦ none
      | some key ↦ elim (query_unescape (after_byte param b'=')) [
        | none ↦ none
        | some value ↦ if str_eq key name then some value else none
      ]
    ]

unfoldable pub first_value : (Bytes → Option Bytes) → List Bytes → Bytes
first_value f [] = []
first_value f (p ∷ ps) = elim (f p) [ none ↦ first_value f ps | some v ↦ v ]

-- `r.URL.Query().Get(name)`
unfoldable pub query_get : Bytes → Bytes → Bytes
query_get raw_query name = first_value (param_value name) (split raw_query b'&')

abbrev last_byte : Bytes → ℕ
last_byte [] = 0
last_byte (x ∷ []) = x
last_byte (x ∷ y ∷ xs) = last_byte (y ∷ xs)

-- `parseCookieValue`: a value in double quotes loses them.
abbrev unquote : Bytes → Bytes
unquote [] = []
unquote (c ∷ []) = c ∷ []
unquote (c ∷ d ∷ s) =
    if c == b'"' && last_byte (d ∷ s) == b'"' then reverse (drop 1 (reverse (d ∷ s))) else c ∷ d ∷ s

-- `validCookieValueByte`
abbrev is_cookie_byte : ℕ → Bool
is_cookie_byte c =
    leb 0x20 c && ltb c 0x7f && not (c == b'"') && not (c == b';') && not (c == b'\\')

-- The value that one part of a `Cookie` header has for `name`, by `readCookies` of net/http.
unfoldable pub cookie_value : Bytes → Bytes → Option Bytes
cookie_value name part =
    let cookie_name = trim_space (before_byte (trim_space part) b'=') in
    let value = unquote (after_byte (trim_space part) b'=') in
    if str_eq cookie_name name
      && not (is_empty cookie_name)
      && all is_token_byte cookie_name
      && all is_cookie_byte value
    then some value
    else none

cookie_parts : List Bytes → List Bytes
cookie_parts [] = []
cookie_parts (line ∷ lines) = split line b';' ++ cookie_parts lines

-- `cookie`
unfoldable pub cookie : Request → Bytes → Bytes
unfolding cookie_parts
cookie r name = first_value (cookie_value name) (cookie_parts (values r.header (codes "Cookie")))

pub record Credentials : Type 0 where
  pub key_pair_id : Bytes
  pub signature : Bytes
  pub policy : Bytes
  pub expires : Bytes

unfoldable pub query_credentials : Request → Credentials
query_credentials r = record {
  key_pair_id = query_get r.raw_query (codes "Key-Pair-Id");
  signature = query_get r.raw_query (codes "Signature");
  policy = query_get r.raw_query (codes "Policy");
  expires = query_get r.raw_query (codes "Expires");
}

unfoldable pub cookie_credentials : Request → Credentials
cookie_credentials r = record {
  key_pair_id = cookie r (codes "CloudFront-Key-Pair-Id");
  signature = cookie r (codes "CloudFront-Signature");
  policy = cookie r (codes "CloudFront-Policy");
  expires = cookie r (codes "CloudFront-Expires");
}

-- the `switch` of `extractCredentials`
unfoldable pub check_credentials : Credentials → Verdict Credentials
check_credentials c = do
  require (not (is_empty c.key_pair_id)) missing_key_pair_id
  require (not (is_empty c.signature)) missing_signature
  require (not (is_empty c.policy && is_empty c.expires)) missing_policy_or_expires
  grant c

-- `extractCredentials`
unfoldable pub extract_credentials : Request → Verdict Credentials
extract_credentials r = check_credentials (
    if is_empty (query_credentials r).key_pair_id && is_empty (query_credentials r).signature
    then cookie_credentials r
    else query_credentials r)

-- the replacer of `awsBase64Decode`
unfoldable pub standard_byte : ℕ → ℕ
standard_byte c =
    if c == b'-' then b'+' else if c == b'_' then b'=' else if c == b'~' then b'/' else c

-- a digit of the standard base64 alphabet
unfoldable pub base64_digit : ℕ → Option ℕ
base64_digit c =
    if leb b'A' c && leb c b'Z'
    then some (c - b'A')
    else if leb b'a' c && leb c b'z'
    then some (c - b'a' + 26)
    else if leb b'0' c && leb c b'9'
    then some (c - b'0' + 52)
    else if c == b'+'
    then some 62
    else if c == b'/'
    then some 63
    else none

abbrev triple : Option ℕ → Option ℕ → Option ℕ → Option ℕ → Option Bytes → Option Bytes
triple (some a) (some b) (some c) (some d) (some rest) =
    some ((a * 4 + b / 16) ∷ (b % 16 * 16 + c / 4) ∷ (c % 4 * 64 + d) ∷ rest)
triple _ _ _ _ _ = none

abbrev pair : Option ℕ → Option ℕ → Option ℕ → Option Bytes
pair (some a) (some b) (some c) = some ((a * 4 + b / 16) ∷ (b % 16 * 16 + c / 4) ∷ [])
pair _ _ _ = none

abbrev single : Option ℕ → Option ℕ → Option Bytes
single (some a) (some b) = some ((a * 4 + b / 16) ∷ [])
single _ _ = none

-- Padding stands only at the end of the text.
abbrev padded : Bytes → Option Bytes → Option Bytes
padded [] result = result
padded (_ ∷ _) result = none

unfoldable pub base64_quads : Bytes → Option Bytes
base64_quads [] = some []
base64_quads (_ ∷ []) = none
base64_quads (_ ∷ _ ∷ []) = none
base64_quads (_ ∷ _ ∷ _ ∷ []) = none
base64_quads (a ∷ b ∷ c ∷ d ∷ s) =
    let more =
      triple (base64_digit a) (base64_digit b) (base64_digit c) (base64_digit d) (base64_quads s) in
    if d == b'=' && c == b'='
    then padded s (single (base64_digit a) (base64_digit b))
    else if d == b'='
    then padded s (pair (base64_digit a) (base64_digit b) (base64_digit c))
    else more

-- `base64.StdEncoding.DecodeString`, which passes over line ends
unfoldable pub base64_decode : Bytes → Option Bytes
base64_decode s = base64_quads (filter (λ c. not (c == 13 || c == 10)) s)

-- `awsBase64Decode`: `none` is an error.
unfoldable pub aws_base64_decode : Bytes → Option Bytes
aws_base64_decode s = base64_decode (map standard_byte s)

-- Named on the `unfolding` line of a test, it opens the functions above.
unfoldable pub codec_ops : Unit {0}
unfolding after_byte param_value first_value query_get cookie_value cookie query_credentials
    cookie_credentials check_credentials extract_credentials standard_byte base64_digit base64_quads
    base64_decode aws_base64_decode
codec_ops = tt
