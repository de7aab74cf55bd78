-- ===== src/Sign/Verify/Laws.antt =====
-- `Verify` (internal/sign/sign.go) against the conditions for access.
use localfront.Base.{
  ◌≡◌, ◌≢◌, refl, ◌↔◌, true, false, Bool, not, ◌&&◌, ◌||◌, List, [], ◌∷◌, ◌++◌, some, if◌then◌else◌,
}
use localfront.Text.{Bytes, codes, is_empty, contains}
use localfront.Num.{ℤ, pos, lt_ℤ, parse_int}
use localfront.Http.Request.{Request}
use localfront.Sign.{
  Platform, Verdict, grant, or_deny, untrusted_key, malformed_signature, malformed_expires,
  malformed_policy, signature_mismatch, expired, not_yet_valid, no_client_ip,
  malformed_ip_condition, ip_not_allowed, wrong_resource,
}
use localfront.Sign.Laws.{>>=-eq-grant, or_deny-eq-grant, require-eq-grant, require->>}
use localfront.Sign.Codec.{Credentials, extract_credentials, aws_base64_decode}
use localfront.Sign.Resource.{resource_host, apply_default_root_object, resource_matches}
use localfront.Sign.Verify.{
  Instant, unix, before, Statement, Key, find_key, parse_policy_statement, client_host, check_ip,
  signs_canned, verify_canned, check_ip_condition, verify_custom, verify,
}

module _ (p : Platform) where
  open p use {
    RsaKey, Network, IpAddress, verify_rsa, parse_ip, parse_cidr, network_contains, escaped_path,
  }

  -- The request is within the expiry, and its URL is the one signed, under either scheme.
  pub record CannedValid (r : Request) (key : RsaKey) (expires sig : Bytes) (now : Instant)
      (root host : Bytes) : Type 0 where
    pub exp : ℤ
    pub readable : parse_int expires ≡ some exp
    pub signed :
        (signs_canned p r key exp sig root host (codes "https")
          || signs_canned p r key exp sig root host (codes "http"))
        ≡ true
    pub in_time : before now (unix exp) ≡ true

  verify_canned_iff :
      (r : Request) (key : RsaKey) (expires sig : Bytes) (now : Instant) (root host : Bytes)
      → (verify_canned p r key expires sig now root host ≡ grant tt)
        ↔ CannedValid r key expires sig now root host
  unfolding verify_canned
  verify_canned_iff r key expires sig now root host = (
    λ h.
        let (exp, e1, h1) = >>=-eq-grant (or_deny (parse_int expires) malformed_expires) _ h in
        let (e2, h2) = require->> _ signature_mismatch _ h1 in
        record {
          exp = exp;
          readable = or_deny-eq-grant _ malformed_expires e1;
          signed = e2;
          in_time = require-eq-grant _ expired h2;
        },
    λ v. rw (v.readable, v.signed, v.in_time),
  )

  pub record IpValid (cidr remote_addr : Bytes) : Type 0 where
    pub ip : IpAddress
    pub network : Network
    pub client : parse_ip (client_host p remote_addr) ≡ some ip
    pub readable :
        parse_cidr (if not (contains cidr (codes "/")) then cidr ++ codes "/32" else cidr)
        ≡ some network
    pub within : network_contains network ip ≡ true

  check_ip_iff :
      (cidr remote_addr : Bytes)
      → (check_ip p cidr remote_addr ≡ grant tt) ↔ IpValid cidr remote_addr
  unfolding check_ip
  check_ip_iff cidr remote_addr = (
    λ h.
        let (ip, e1, h1) =
          >>=-eq-grant (or_deny (parse_ip (client_host p remote_addr)) no_client_ip) _ h in
        let (network, e2, h2) = >>=-eq-grant (or_deny (parse_cidr _) malformed_ip_condition) _ h1 in
        record {
          ip = ip;
          network = network;
          client = or_deny-eq-grant _ no_client_ip e1;
          readable = or_deny-eq-grant _ malformed_ip_condition e2;
          within = require-eq-grant _ ip_not_allowed h2;
        },
    λ v. rw (v.client, v.readable, v.within),
  )

  -- The conditions of a policy document that carries the key's signature.
  pub record CustomValid (r : Request) (key : RsaKey) (policy sig : Bytes) (now : Instant)
      (root public_host : Bytes) : Type 0 where
    pub document : Bytes
    pub stmt : Statement
    pub readable : aws_base64_decode policy ≡ some document
    pub signed : verify_rsa key document sig ≡ true
    pub parsed : parse_policy_statement p document ≡ some stmt
    pub in_time :
        lt_ℤ (pos 0) stmt.date_less_than ≡ true → before now (unix stmt.date_less_than) ≡ true
    pub started :
        lt_ℤ (pos 0) stmt.date_greater_than ≡ true → before (unix stmt.date_greater_than) now ≡ true
    pub from_ip : stmt.ip_address ≢ [] → IpValid stmt.ip_address r.remote_addr
    pub covered :
        resource_matches stmt.resource
          (resource_host r public_host)
          (apply_default_root_object (escaped_path r) root)
        ≡ true

  implies : (a b : Bool) → (not (a && not b) ≡ true) ↔ (a ≡ true → b ≡ true)
  implies true true = (λ _ _. refl, λ _. refl)
  implies true false = (λ h. cc, λ h. h refl)
  implies false b = (λ h. cc, λ _. refl)

  check_ip_condition_iff :
      (cidr remote_addr : Bytes)
      → (check_ip_condition p cidr remote_addr ≡ grant tt) ↔ (cidr ≢ [] → IpValid cidr remote_addr)
  unfolding check_ip_condition
  check_ip_condition_iff [] remote_addr = (λ _ h. absurd (h refl), λ _. refl)
  check_ip_condition_iff (c ∷ cidr) remote_addr =
      (λ h _. (check_ip_iff _ _).0 h, λ f. (check_ip_iff _ _).1 (f (cc)))

  verify_custom_iff :
      (r : Request) (key : RsaKey) (policy sig : Bytes) (now : Instant) (root public_host : Bytes)
      → (verify_custom p r key policy sig now root public_host ≡ grant tt)
        ↔ CustomValid r key policy sig now root public_host
  unfolding verify_custom
  verify_custom_iff r key policy sig now root public_host = (
    λ h.
        let (document, e1, h1) =
          >>=-eq-grant (or_deny (aws_base64_decode policy) malformed_policy) _ h in
        let (e2, h2) = require->> _ signature_mismatch _ h1 in
        let (stmt, e3, h3) =
          >>=-eq-grant (or_deny (parse_policy_statement p document) malformed_policy) _ h2 in
        let (e4, h4) = require->> _ expired _ h3 in
        let (e5, h5) = require->> _ not_yet_valid _ h4 in
        let (_, e6, h6) = >>=-eq-grant (check_ip_condition p stmt.ip_address r.remote_addr) _ h5 in
        record {
          document = document;
          stmt = stmt;
          readable = or_deny-eq-grant _ malformed_policy e1;
          signed = e2;
          parsed = or_deny-eq-grant _ malformed_policy e3;
          in_time = (implies _ _).0 e4;
          started = (implies _ _).0 e5;
          from_ip = (check_ip_condition_iff _ _).0 e6;
          covered = require-eq-grant _ wrong_resource h6;
        },
    λ v. rw (
      v.readable,
      v.signed,
      v.parsed,
      (implies _ _).1 v.in_time,
      (implies _ _).1 v.started,
      (check_ip_condition_iff _ _).1 v.from_ip,
      v.covered,
    ),
  )

  -- What grants access: credentials on the request, a trusted key with the ID that they name, a
  -- signature that can be read, and a valid custom policy, or a valid canned one if there is none.
  pub record Granted (r : Request) (trusted : List (Key p)) (now : Instant)
      (root public_host : Bytes) : Type 0 where
    pub credentials : Credentials
    pub key : RsaKey
    pub sig : Bytes
    pub present : extract_credentials r ≡ grant credentials
    pub is_trusted : find_key p trusted credentials.key_pair_id ≡ some key
    pub readable : aws_base64_decode credentials.signature ≡ some sig
    pub custom :
        credentials.policy ≢ [] → CustomValid r key credentials.policy sig now root public_host
    pub canned :
        credentials.policy ≡ []
        → CannedValid r key credentials.expires sig now root (resource_host r public_host)

  policy_branch :
      (policy : Bytes) (a b : Verdict (Unit {0})) {C D : Type 0}
      → ((a ≡ grant tt) ↔ C)
      → ((b ≡ grant tt) ↔ D)
      → ((if not (is_empty policy) then a else b) ≡ grant tt)
        ↔ ((policy ≢ [] → C) × (policy ≡ [] → D))
  policy_branch [] a b f g = (λ h. (λ n. absurd (n refl), λ _. g.0 h), λ h. g.1 (h.1 refl))
  policy_branch (c ∷ policy) a b f g = (λ h. (λ _. f.0 h, λ e. absurd (cc e)), λ h. f.1 (h.0 (cc)))

  -- Verify grants access exactly to the requests whose credentials name a trusted key and
  -- carry a signature under that key of a custom policy whose conditions all hold, or of the
  -- canned policy of their own URL before its expiry.
  pub verify_iff :
      (r : Request) (trusted : List (Key p)) (now : Instant) (root public_host : Bytes)
      → (verify p r trusted now root public_host ≡ grant tt)
        ↔ Granted r trusted now root public_host
  unfolding verify
  verify_iff r trusted now root public_host = (
    λ h.
        let (c, e1, h1) = >>=-eq-grant (extract_credentials r) _ h in
        let (key, e2, h2) =
          >>=-eq-grant (or_deny (find_key p trusted c.key_pair_id) untrusted_key) _ h1 in
        let (sig, e3, h3) =
          >>=-eq-grant (or_deny (aws_base64_decode c.signature) malformed_signature) _ h2 in
        let (f, g) =
          (policy_branch c.policy _ _ (verify_custom_iff r key c.policy sig now root public_host)
              (verify_canned_iff r key c.expires sig now root (resource_host r public_host))).0
            h3 in
        record {
          credentials = c;
          key = key;
          sig = sig;
          present = e1;
          is_trusted = or_deny-eq-grant _ untrusted_key e2;
          readable = or_deny-eq-grant _ malformed_signature e3;
          custom = f;
          canned = g;
        },
    λ v.
        rw (v.present, v.is_trusted, v.readable)
          ((policy_branch v.credentials.policy _ _
              (verify_custom_iff r v.key v.credentials.policy v.sig now root public_host)
              (verify_canned_iff r v.key v.credentials.expires v.sig now root
                (resource_host r public_host))).1
            (v.custom, v.canned)),
  )
