-- ===== src/Sign.antt =====
-- internal/sign/sign.go: signed URLs and signed cookies. A `*DenyError` is a `Denial`, one for each
-- message; the cryptography, JSON, IP addresses and the escaping of paths are the standard
-- library's, and come in as a `Platform`.
pub mod Laws
pub mod Codec
pub mod Resource
pub mod Verify
pub mod Message
use localfront.Base.{
  ℕ, zero, suc, ◌+◌, ◌-◌, ◌*◌, ◌^◌, true, false, Bool, not, ◌&&◌, ◌||◌, List, [], ◌∷◌, ◌++◌, map,
  Option, none, some, ltb, leb, ◌==◌, if◌then◌else◌, any, find, filter,
}
use localfront.Text.{Bytes}
use localfront.Num.{ℤ, pos, negsuc, eq_ℤ, lt_ℤ}
use localfront.Http.Request.{Request}

-- One statement of a decoded policy document: the fields that `parsePolicyStatement` reads.
pub record PolicyStatement : Type 0 where
  pub resource : Bytes
  pub date_less_than : Option ℤ
  pub date_greater_than : Option ℤ
  pub ip_address : Option Bytes

pub record Platform : Type 1 where
  pub RsaKey : Type 0
  pub IpAddress : Type 0
  pub Network : Type 0
  -- `rsa.VerifyPKCS1v15` over the SHA-1 sum of the message, the key first
  pub verify_rsa : RsaKey → Bytes → Bytes → Bool
  -- a string as a JSON string, without HTML escaping
  pub json_string : Bytes → Bytes
  -- `json.Unmarshal` of a policy document into its list of statements
  pub unmarshal_policy : Bytes → Option (List PolicyStatement)
  pub parse_ip : Bytes → Option IpAddress
  pub parse_cidr : Bytes → Option Network
  pub network_contains : Network → IpAddress → Bool
  -- `r.URL.EscapedPath()`
  pub escaped_path : Request → Bytes

pub data Denial : Type 0 where
  missing_key_pair_id missing_signature missing_policy_or_expires : Denial
  untrusted_key malformed_signature malformed_expires malformed_policy : Denial
  signature_mismatch expired not_yet_valid : Denial
  no_client_ip malformed_ip_condition ip_not_allowed wrong_resource : Denial

pub data Verdict {ℓ} (A : Type ℓ) : Type ℓ where
  grant : A → Verdict A
  deny : Denial → Verdict A

infixl 5 ◌>>=◌ ◌>>◌
abbrev pub ◌>>=◌ {ℓ κ} : {A : Type ℓ} {B : Type κ} → Verdict A → (A → Verdict B) → Verdict B
grant a >>= f = f a
deny d >>= f = deny d

abbrev pub ◌>>◌ {ℓ} : {B : Type ℓ} → Verdict (Unit {0}) → Verdict B → Verdict B
m >> k = m >>= λ _. k

-- `if !test { return deny(d) }`
abbrev pub require : Bool → Denial → Verdict (Unit {0})
require true d = grant tt
require false d = deny d

abbrev pub or_deny {ℓ} : {A : Type ℓ} → Option A → Denial → Verdict A
or_deny none d = deny d
or_deny (some a) d = grant a
