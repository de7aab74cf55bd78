-- ===== src/Sign/Message.antt =====
-- The messages of the denials of internal/sign/sign.go.
use localfront.Base.{[], ◌++◌}
use localfront.Text.{Bytes, codes}
use localfront.Http.Request.{Request}
use localfront.Sign.{
  Denial, Verdict, grant, deny, missing_key_pair_id, missing_signature, missing_policy_or_expires,
  untrusted_key, malformed_signature, malformed_expires, malformed_policy, signature_mismatch,
  expired, not_yet_valid, no_client_ip, malformed_ip_condition, ip_not_allowed, wrong_resource,
}
use localfront.Sign.Codec.{Credentials, extract_credentials}

-- What package fmt prints: a string under `%q`, and what follows "malformed Policy" for a policy,
-- which is ": " and the decoder's error, or nothing.
pub record Phrases : Type 0 where
  pub quoted : Bytes → Bytes
  pub policy_fault : Request → Bytes

abbrev pub key_pair_id_of : Verdict Credentials → Bytes
key_pair_id_of (grant c) = c.key_pair_id
key_pair_id_of (deny _) = []

-- the message of a `*DenyError`
unfoldable pub denial_message : Phrases → Request → Denial → Bytes
denial_message ph r missing_key_pair_id = codes "Missing Key-Pair-Id"
denial_message ph r missing_signature = codes "Missing Signature"
denial_message ph r missing_policy_or_expires = codes "Missing Policy or Expires"
denial_message ph r untrusted_key =
    codes "Key-Pair-Id "
    ++ (ph.quoted (key_pair_id_of (extract_credentials r))
        ++ codes " is not in a trusted key group for this behavior")
denial_message ph r malformed_signature = codes "malformed Signature"
denial_message ph r malformed_expires = codes "malformed Expires"
denial_message ph r malformed_policy = codes "malformed Policy" ++ ph.policy_fault r
denial_message ph r signature_mismatch = codes "signature does not match"
denial_message ph r expired = codes "the signed URL has expired"
denial_message ph r not_yet_valid = codes "the signed URL is not valid yet"
denial_message ph r no_client_ip = codes "cannot determine the client IP"
denial_message ph r malformed_ip_condition = codes "malformed IpAddress condition"
denial_message ph r ip_not_allowed = codes "the client IP is not allowed by the signed policy"
denial_message ph r wrong_resource = codes "the request does not match the signed resource"
