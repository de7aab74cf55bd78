-- ===== src/Sign/Resource/Laws.antt =====
-- `resourceQuery` and `resourceMatches` (internal/sign/sign.go).
use localfront.Base.{
  arith, sym, ◌≡◌, ◌≢◌, refl, ◌∙◌, ◌↔◌, inl, inr, true, false, ◌||◌, List, [], ◌∷◌, ◌++◌,
  append-nil, Bool-cases, All, All-append, filter-append, filter_kept, filter_dropped,
}
use localfront.Text.{Bytes, codes, str_eq, is_empty, join, contains, before_byte, text_ops}
use localfront.Text.Laws.{eq_of_str_eq}
use localfront.Text.Split.{Lacks, before_byte-append, before_byte-Lacks}
use localfront.Text.Parts.{keep_parts, keep_parts-join}
use localfront.Glob.{star}
use localfront.Glob.Pattern.{Matches}
use localfront.Glob.Laws.{match_glob_iff}
use localfront.Sign.Resource.{
  is_signing_param, is_application_param, resource_query, match_glob, pattern_matches,
  resource_matches,
}

resource_query-keep_parts : (q : Bytes) → resource_query q ≡ keep_parts b'&' is_application_param q
unfolding resource_query keep_parts
resource_query-keep_parts q = refl

is_application_param-nil : is_application_param [] ≡ false
unfolding is_application_param
is_application_param-nil = refl

-- The parameters that CloudFront adds to a signed URL.
pub data IsSigningName (name : Bytes) : Type 0 where
  expires : name ≡ codes "Expires" → IsSigningName name
  signature : name ≡ codes "Signature" → IsSigningName name
  key_pair_id : name ≡ codes "Key-Pair-Id" → IsSigningName name
  policy : name ≡ codes "Policy" → IsSigningName name
  hash_algorithm : name ≡ codes "Hash-Algorithm" → IsSigningName name

IsSigningName-drop :
    (param : Bytes) → IsSigningName (before_byte param b'=') → is_application_param param ≡ false
unfolding is_application_param is_signing_param text_ops
IsSigningName-drop param (expires e) = rw e (ground arith)
IsSigningName-drop param (signature e) = rw e (ground arith)
IsSigningName-drop param (key_pair_id e) = rw e (ground arith)
IsSigningName-drop param (policy e) = rw e (ground arith)
IsSigningName-drop param (hash_algorithm e) = rw e (ground arith)

is_signing_param-IsSigningName : (name : Bytes) → is_signing_param name ≡ true → IsSigningName name
unfolding is_signing_param
is_signing_param-IsSigningName name h = elim (Bool-cases (str_eq (codes "Expires") name)) [
  | inl e ↦ expires (sym (eq_of_str_eq _ _ e))
  | inr n1 ↦ elim (Bool-cases (str_eq (codes "Signature") name)) [
    | inl e ↦ signature (sym (eq_of_str_eq _ _ e))
    | inr n2 ↦ elim (Bool-cases (str_eq (codes "Key-Pair-Id") name)) [
      | inl e ↦ key_pair_id (sym (eq_of_str_eq _ _ e))
      | inr n3 ↦ elim (Bool-cases (str_eq (codes "Policy") name)) [
        | inl e ↦ policy (sym (eq_of_str_eq _ _ e))
        | inr n4 ↦ hash_algorithm (sym (eq_of_str_eq _ _ (ground arith)))
      ]
    ]
  ]
]

-- A parameter of the application's own.
abbrev pub IsOwn : Bytes → Type 0
IsOwn param = (param ≢ []) × ¬ IsSigningName (before_byte param b'=')

IsOwn-keep : (param : Bytes) → IsOwn param → is_application_param param ≡ true
unfolding is_application_param
IsOwn-keep [] (n, _) = absurd (n refl)
IsOwn-keep (c ∷ s) (_, own) = elim (Bool-cases (is_signing_param (before_byte (c ∷ s) b'='))) [
  | inl e ↦ absurd (own (is_signing_param-IsSigningName _ e))
  | inr e ↦ rw e
]

All-imp :
    (P Q : Bytes → Type 0) → ((x : Bytes) → P x → Q x) → (xs : List Bytes) → All P xs → All Q xs
All-imp P Q f [] _ = tt
All-imp P Q f (x ∷ xs) (h, hs) = (f x h, All-imp P Q f xs hs)

-- A query string of application parameters, none empty and none named Expires, Signature,
-- Key-Pair-Id, Policy or Hash-Algorithm, to which parameters with these five names were
-- appended, at least one parameter in all and none with an ampersand in it, gives the
-- application's own query string back.
pub resource_query-append :
    (params signing : List Bytes)
    → All IsOwn params
    → All (λ x. IsSigningName (before_byte x b'=')) signing
    → All (Lacks b'&') params
    → All (Lacks b'&') signing
    → params ++ signing ≢ []
    → resource_query (join (params ++ signing) (codes "&")) ≡ join params (codes "&")
resource_query-append params signing own others h k part =
    let kept = All-imp IsOwn _ IsOwn-keep params own in
    let dropped = All-imp _ _ IsSigningName-drop signing others in
    rw resource_query-keep_parts (
      keep_parts-join b'&' is_application_param (params ++ signing) is_application_param-nil part
        (All-append (Lacks b'&') params signing h k)
      ∙ rw (
        filter-append is_application_param params signing,
        filter_kept is_application_param params kept,
        filter_dropped is_application_param signing dropped,
        append-nil,
      ))

is_pattern : (s : Bytes) → s ≢ [] → s ≢ codes "*" → (is_empty s || str_eq s (codes "*")) ≡ false
is_pattern [] n m = absurd (n refl)
is_pattern (c ∷ s) n m = elim (Bool-cases (str_eq (c ∷ s) (codes "*"))) [
  | inl e ↦ absurd (m (eq_of_str_eq _ _ e))
  | inr e ↦ e
]

question-ne-star : (s rest : Bytes) → s ≢ [] → s ++ (b'?' ∷ rest) ≢ codes "*"
question-ne-star [] rest n = absurd (n refl)
question-ne-star (c ∷ []) rest n = cc
question-ne-star (c ∷ d ∷ s) rest n = cc

question-ne-nil : (s rest : Bytes) → s ++ (b'?' ∷ rest) ≢ []
question-ne-nil [] rest = cc
question-ne-nil (c ∷ s) rest = cc

-- A question mark in the resource of a custom policy is no wildcard: behind a pattern that has
-- no question mark and is neither empty nor a lone star, it ends the pattern, and what follows
-- it never counts.
pub resource_matches-question :
    (pattern rest host path : Bytes)
    → Lacks b'?' pattern
    → pattern ≢ []
    → pattern ≢ codes "*"
    → resource_matches (pattern ++ (b'?' ∷ rest)) host path ≡ resource_matches pattern host path
unfolding resource_matches
resource_matches-question pattern rest host path h n m = rw (
  is_pattern _ (question-ne-nil pattern rest) (question-ne-star pattern rest n),
  is_pattern pattern n m,
  before_byte-append pattern b'?' rest h,
  before_byte-Lacks pattern b'?' h,
)

-- A resource without a scheme or a question mark, neither empty nor a lone star, covers
-- exactly the star-free paths that its wildcards match, whatever the host.
pub resource_matches_iff :
    (pattern host path : Bytes)
    → Lacks b'?' pattern
    → pattern ≢ []
    → pattern ≢ codes "*"
    → contains pattern (codes "://") ≡ false
    → Lacks star path
    → (resource_matches pattern host path ≡ true) ↔ Matches pattern path
unfolding resource_matches pattern_matches match_glob
resource_matches_iff pattern host path h n m c plain =
    rw (is_pattern pattern n m, before_byte-Lacks pattern b'?' h, c)
      (match_glob_iff pattern path plain)
