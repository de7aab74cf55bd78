-- ===== src/Config/Build.antt =====
-- internal/config/build.go: the configuration from the resolved resources of a template. An error is
-- a `Fault`, one for each kind of message, and a builder step gives a fault or a value.
pub mod Ensures
pub mod Ids
pub mod Origins
pub mod Behaviors
pub mod Distributions
pub mod Resources
pub mod Passes
pub mod References
use localfront.Base.{Bool, true, false, ℕ, List, Option, none, some}
use localfront.Text.{Bytes, codes, contains}

-- the errors of build.go, policies.go and managed.go
pub data Fault : Type 0 where
  malformed_properties : Fault
  name_required code_required encoded_key_required config_required : Fault
  import_source_not_s3 unsupported_runtime : Bytes → Fault
  continuous_deployment anycast multi_tenant origin_groups : Fault
  unresolved_alias : Bytes → Fault
  alias_taken : Bytes → Bytes → Fault
  origin_required : Fault
  in_origin : ℕ → Fault → Fault
  duplicate_origin : Bytes → Fault
  origin_id_required domain_name_required vpc_origin : Fault
  unresolved_domain_name origin_path_slash : Bytes → Fault
  two_origin_configs no_origin_config : Fault
  s3_website no_bucket : Bytes → Fault
  protocol_policy_required : Fault
  invalid_protocol_policy : Bytes → Fault
  default_behavior_required : Fault
  in_default_behavior : Fault → Fault
  in_behavior in_error_response in_association : ℕ → Fault → Fault
  error_code_required page_path_slash : Fault
  invalid_methods : Bytes → List Bytes → Fault
  unknown_origin : Bytes → Fault
  default_path_pattern path_pattern_required : Fault
  lambda_at_edge field_level_encryption realtime_logs trusted_signers_unsupported : Fault
  unresolved_reference missing_reference : Bytes → Bytes → Fault
  two_cache_settings no_cache_settings : Fault
  two_origin_request_settings : Fault
  duplicate_association invalid_event_type : Bytes → Fault
  in_resource : Bytes → Bytes → Fault → Fault

pub data Checked {ℓ} (A : Type ℓ) : Type ℓ where
  ok : A → Checked A
  failed : Fault → Checked A

infixl 5 ◌>>=◌ ◌>>◌
unfoldable pub ◌>>=◌ {ℓ κ} : {A : Type ℓ} {B : Type κ} → Checked A → (A → Checked B) → Checked B
ok a >>= f = f a
failed e >>= f = failed e

unfoldable pub ◌>>◌ {ℓ} : {B : Type ℓ} → Checked (Unit {0}) → Checked B → Checked B
unfolding ◌>>=◌
m >> k = m >>= λ _. k

-- `if test { return err }`
unfoldable pub refuse : Bool → Fault → Checked (Unit {0})
refuse true e = failed e
refuse false e = ok tt

unfoldable pub or_fault {ℓ} : {A : Type ℓ} → Option A → Fault → Checked A
or_fault none e = failed e
or_fault (some a) e = ok a

-- `fmt.Errorf("…: %w", err)`
unfoldable pub wrap {ℓ} : {A : Type ℓ} → (Fault → Fault) → Checked A → Checked A
wrap f (ok a) = ok a
wrap f (failed e) = failed (f e)

-- `cfntmpl.IsUnresolved` of a string
unfoldable pub is_unresolved : Bytes → Bool
is_unresolved v = contains v (codes "localfront:unresolved:")

-- `cfntmpl.DefaultRegion`
abbrev pub default_region : Bytes
default_region = codes "us-east-1"

-- `cfntmpl.AccountID`
abbrev pub account_id : Bytes
account_id = codes "123456789012"
