-- ===== src/Tests/Signing.antt =====
-- Signed requests, over a toy platform whose signature of any message is the key itself.
use localfront.Base.{ℕ, All, ◌≡◌, ◌++◌, ◌↔◌, refl, true, List, [], ◌∷◌, none, some}
use localfront.Text.{Bytes, codes, str_eq, join, before_byte, text_ops}
use localfront.Num.{pos, num_ops}
use localfront.Glob
use localfront.Glob.{star}
use localfront.Behavior.Forward.{query_unescape}
use localfront.Glob.Pattern.{Matches}
use localfront.Sign.{Platform, grant, deny, expired, untrusted_key}
use localfront.Sign.Codec.{codec_ops}
use localfront.Sign.Resource.{resource_query, resource_matches, resource_ops}
use localfront.Sign.Resource.Laws.{
  IsSigningName, expires, signature, key_pair_id, policy, hash_algorithm, IsOwn,
  resource_query-append, resource_matches-question, resource_matches_iff,
}
use localfront.Sign.Verify.{
  Instant, Key, unix, before, find_key, parse_policy_statement, client_host, check_ip, signs_canned,
  verify_canned, check_ip_condition, verify_custom, verify,
}
use localfront.Sign.Verify.Laws.{Granted, verify_iff}
use localfront.Tests.Samples.{Lacks-of_any, request_for}

abbrev pub toy : Platform
toy = record {
  RsaKey = Bytes;
  IpAddress = Bytes;
  Network = Bytes;
  verify_rsa = λ key message sig. str_eq key sig;
  json_string = λ s. codes "\"" ++ (s ++ codes "\"");
  unmarshal_policy = λ s. some (
      record {
        resource = codes "/img/*";
        date_less_than = some (pos 2000);
        date_greater_than = none;
        ip_address = none;
      }
      ∷ []);
  parse_ip = λ s. some s;
  parse_cidr = λ s. some s;
  network_contains = λ network ip. true;
  escaped_path = λ r. r.path;
}

abbrev trusted : List (Key toy)
trusted = record { id = codes "K1"; rsa = codes "key" } ∷ []

abbrev at : Instant
at = unix (pos 1000)

abbrev canned : Bytes
canned = codes "v=1&Expires=2000&Signature=a2V5&Key-Pair-Id=K1"

abbrev custom : Bytes
custom = codes "Policy=a2V5&Signature=a2V5&Key-Pair-Id=K1"

verify_tests :
    (verify toy (request_for (codes "/img/a") canned) trusted at [] [] ≡ grant tt)
    × (verify toy (request_for (codes "/img/a") canned) trusted (unix (pos 2000)) [] []
        ≡ deny expired)
    × (verify toy (request_for (codes "/img/a") canned) [] at [] [] ≡ deny untrusted_key)
    × (verify toy (request_for (codes "/img/a") custom) trusted at [] [] ≡ grant tt)
unfolding query_unescape Glob.match_glob verify find_key parse_policy_statement client_host check_ip
    signs_canned verify_canned check_ip_condition verify_custom unix before codec_ops resource_ops
    num_ops text_ops
verify_tests = (refl, refl, refl, refl)

verify_iff_example :
    (verify toy (request_for (codes "/img/a") canned) trusted at [] [] ≡ grant tt)
    ↔ Granted toy (request_for (codes "/img/a") canned) trusted at [] []
verify_iff_example = verify_iff toy (request_for (codes "/img/a") canned) trusted at [] []

abbrev own : List Bytes
own = codes "v=1" ∷ codes "w=2" ∷ []

abbrev signing : List Bytes
signing = codes "Expires=2000" ∷ codes "Key-Pair-Id=K1" ∷ []

one_letter : (c : ℕ) → ¬ IsSigningName (c ∷ [])
one_letter c (expires e) = cc
one_letter c (signature e) = cc
one_letter c (key_pair_id e) = cc
one_letter c (policy e) = cc
one_letter c (hash_algorithm e) = cc

own-IsOwn : All IsOwn own
unfolding text_ops
own-IsOwn = ((cc, one_letter b'v'), ((cc, one_letter b'w'), tt))

signing-IsSigningName : All (λ x. IsSigningName (before_byte x b'=')) signing
unfolding text_ops
signing-IsSigningName = (expires refl, (key_pair_id refl, tt))

resource_query-append_example :
    resource_query (join (own ++ signing) (codes "&")) ≡ join own (codes "&")
resource_query-append_example =
    resource_query-append own signing own-IsOwn signing-IsSigningName
      (Lacks-of_any b'&' (codes "v=1") refl, (Lacks-of_any b'&' (codes "w=2") refl, tt))
      (
        Lacks-of_any b'&' (codes "Expires=2000") refl,
        (Lacks-of_any b'&' (codes "Key-Pair-Id=K1") refl, tt),
      )
      (cc)

resource_matches-question_example :
    resource_matches (codes "/a" ++ codes "?x") (codes "shop.test") (codes "/a")
    ≡ resource_matches (codes "/a") (codes "shop.test") (codes "/a")
resource_matches-question_example =
    resource_matches-question (codes "/a") (codes "x") (codes "shop.test") (codes "/a")
      (Lacks-of_any b'?' (codes "/a") refl) (cc) (cc)

resource_matches_iff_example :
    (resource_matches (codes "/img/*") (codes "shop.test") (codes "/img/a") ≡ true)
    ↔ Matches (codes "/img/*") (codes "/img/a")
resource_matches_iff_example =
    resource_matches_iff (codes "/img/*") (codes "shop.test") (codes "/img/a")
      (Lacks-of_any b'?' (codes "/img/*") refl) (cc) (cc) (unfold text_ops in refl)
      (Lacks-of_any star (codes "/img/a") refl)
