-- ===== src/Behavior/Response/Cors.antt =====
-- `applyCors` (internal/behavior/response.go), name by name.
use localfront.Base.{
  ℕ, ◌++◌, ◌≡◌, refl, ◌∙◌, inl, inr, true, false, Bool, not, ◌&&◌, ◌||◌, List, [], ◌∷◌, Option,
  none, some, arith, if◌then◌else◌, Bool-cases, any,
}
use localfront.Text.{Bytes, codes, is_empty, str_eq, split, trim_space, equal_fold}
use localfront.Http.{Header, values, get, http_ops}
use localfront.Http.Laws.{values-add, same_name}
use localfront.Num.{ℤ}
use localfront.Config.{CorsConfig}
use localfront.Behavior.Response.{
  set_if, cors_allow_origin, add_vary, set_origin, set_list, set_credentials, set_max_age,
  apply_cors,
}
use localfront.Behavior.Response.Security.{
  Avoids, Avoids-append, any-append, values-set_if, set_if_frame, or_false,
}

abbrev named_if : Bool → Bytes → List Bytes
named_if test name = if test then name ∷ [] else []

abbrev named_list : List Bytes → Bytes → List Bytes
named_list [] name = []
named_list (_ ∷ _) name = name ∷ []

-- The other CORS headers that a policy sets: the lists that are not empty, and what is enabled.
unfoldable pub other_names : CorsConfig → List Bytes
other_names cors =
    named_list cors.allow_methods (codes "Access-Control-Allow-Methods")
    ++ (named_list cors.allow_headers (codes "Access-Control-Allow-Headers")
        ++ (named_list cors.expose_headers (codes "Access-Control-Expose-Headers")
            ++ (named_if cors.allow_credentials (codes "Access-Control-Allow-Credentials")
                ++ named_if cors.has_max_age (codes "Access-Control-Max-Age"))))

abbrev allows_all : CorsConfig → Bool
allows_all cors = any (λ o. str_eq o (codes "*")) cors.allow_origins

abbrev allows_origin : CorsConfig → Bytes → Bool
allows_origin cors origin = any (λ o. equal_fold o origin) cors.allow_origins

-- Access-Control-Allow-Origin for an origin that is allowed, and Vary where not all are.
abbrev origin_names : CorsConfig → Bytes → List Bytes
origin_names cors origin =
    if allows_all cors
    then codes "Access-Control-Allow-Origin" ∷ []
    else if allows_origin cors origin
    then codes "Access-Control-Allow-Origin" ∷ codes "Vary" ∷ []
    else []

-- The names that the CORS part of a policy sets for a request from that origin.
unfoldable pub cors_names : Option CorsConfig → Bytes → List Bytes
cors_names none origin = []
cors_names (some cors) [] = []
cors_names (some cors) (c ∷ origin) = origin_names cors (c ∷ origin) ++ other_names cors

abbrev acao : Bytes
acao = codes "Access-Control-Allow-Origin"

add_vary_frame :
    (resp : Header) (v m : Bytes)
    → same_name (codes "Vary") m ≡ false
    → values (add_vary resp v) m ≡ values resp m
unfolding add_vary
add_vary_frame resp v m h =
    elim (Bool-cases (
      any (λ e. any (λ p. equal_fold (trim_space p) v) (split e b','))
        (values resp (codes "Vary")))) [
          | inl e ↦ rw e
          | inr e ↦ rw e (ground (arith, values-add resp (codes "Vary") m v))
        ]

module _ (m : Bytes) where
  set_origin_frame :
      (value : Bytes) (vary override : Bool) (resp : Header)
      → same_name acao m ≡ false
      → same_name (codes "Vary") m ≡ false
      → values (set_origin (value, vary) override resp) m ≡ values resp m
  set_origin_frame [] vary override resp h k = refl
  set_origin_frame (c ∷ value) true override resp h k =
      add_vary_frame _ (codes "Origin") m k ∙ set_if_frame resp acao (c ∷ value) override m h
  set_origin_frame (c ∷ value) false override resp h k =
      set_if_frame resp acao (c ∷ value) override m h

  set_list_frame :
      (n : Bytes) (items : List Bytes) (override : Bool) (resp : Header)
      → Avoids m (named_list items n)
      → values (set_list n items override resp) m ≡ values resp m
  set_list_frame n [] override resp h = refl
  set_list_frame n (item ∷ items) override resp h =
      set_if_frame resp n _ override m (or_false _ _ h).0

  set_credentials_frame :
      (allowed override : Bool) (resp : Header)
      → Avoids m (named_if allowed (codes "Access-Control-Allow-Credentials"))
      → values (set_credentials allowed override resp) m ≡ values resp m
  set_credentials_frame true override resp h =
      set_if_frame resp _ (codes "true") override m (or_false _ _ h).0
  set_credentials_frame false override resp h = refl

  set_max_age_frame :
      (has : Bool) (age : ℤ) (override : Bool) (resp : Header)
      → Avoids m (named_if has (codes "Access-Control-Max-Age"))
      → values (set_max_age has age override resp) m ≡ values resp m
  set_max_age_frame true age override resp h = set_if_frame resp _ _ override m (or_false _ _ h).0
  set_max_age_frame false age override resp h = refl

  -- What `applyCors` does behind the step for Access-Control-Allow-Origin.
  after_origin :
      (cors : CorsConfig) (resp : Header) (ro : Bytes)
      → Avoids m (other_names cors)
      → values (apply_cors (some cors) resp ro) m
        ≡ values (set_origin (cors_allow_origin cors.allow_origins ro) cors.origin_override resp) m
  unfolding apply_cors other_names
  after_origin cors resp ro h =
      let (h1, t1) = Avoids-append m (named_list cors.allow_methods _) _ h in
      let (h2, t2) = Avoids-append m (named_list cors.allow_headers _) _ t1 in
      let (h3, t3) = Avoids-append m (named_list cors.expose_headers _) _ t2 in
      let (h4, h5) = Avoids-append m (named_if cors.allow_credentials _) _ t3 in
      set_max_age_frame cors.has_max_age cors.max_age_sec cors.origin_override _ h5
      ∙ set_credentials_frame cors.allow_credentials cors.origin_override _ h4
      ∙ set_list_frame _ cors.expose_headers cors.origin_override _ h3
      ∙ set_list_frame _ cors.allow_headers cors.origin_override _ h2
      ∙ set_list_frame _ cors.allow_methods cors.origin_override _ h1

  allowed_frame :
      (cors : CorsConfig) (resp : Header) (ro : Bytes)
      → Avoids m (origin_names cors ro)
      → values (set_origin (cors_allow_origin cors.allow_origins ro) cors.origin_override resp) m
        ≡ values resp m
  unfolding cors_allow_origin
  allowed_frame cors resp ro h = elim (Bool-cases (allows_all cors)) [
    | inl e ↦
        rw e
          (set_if_frame resp acao (codes "*") cors.origin_override m (or_false _ _ (rw e at h)).0)
    | inr e ↦ elim (Bool-cases (allows_origin cors ro)) [
      | inl f ↦
          let names = rw (e, f) at h in
          rw (e, f)
            (set_origin_frame ro true cors.origin_override resp (or_false _ _ names).0
              (or_false _ _ (or_false _ _ names).1).0)
      | inr f ↦ rw (e, f)
    ]
  ]

  pub apply_cors_frame :
      (cors : Option CorsConfig) (resp : Header) (c : ℕ) (ro : Bytes)
      → Avoids m (cors_names cors (c ∷ ro))
      → values (apply_cors cors resp (c ∷ ro)) m ≡ values resp m
  unfolding cors_names
  apply_cors_frame none resp c ro h = unfold apply_cors in refl
  apply_cors_frame (some cors) resp c ro h =
      let (origin, others) = Avoids-append m (origin_names cors (c ∷ ro)) _ h in
      after_origin cors resp (c ∷ ro) others ∙ allowed_frame cors resp (c ∷ ro) origin

named_list_apart :
    (m n : Bytes) (items : List Bytes) → same_name n m ≡ false → Avoids m (named_list items n)
named_list_apart m n [] h = refl
named_list_apart m n (item ∷ items) h = ground arith

named_if_apart : (m n : Bytes) (test : Bool) → same_name n m ≡ false → Avoids m (named_if test n)
named_if_apart m n true h = ground arith
named_if_apart m n false h = refl

Avoids-both : (m : Bytes) (xs ys : List Bytes) → Avoids m xs → Avoids m ys → Avoids m (xs ++ ys)
Avoids-both m xs ys h k = any-append (λ n. same_name n m) xs ys ∙ ground arith

-- No other CORS header is an Access-Control-Allow-Origin header.
acao_apart : (cors : CorsConfig) → Avoids acao (other_names cors)
unfolding other_names
acao_apart cors =
    Avoids-both acao (named_list cors.allow_methods _) _
      (named_list_apart acao (codes "Access-Control-Allow-Methods") cors.allow_methods
        (unfold http_ops in refl))
      (Avoids-both acao (named_list cors.allow_headers _) _
        (named_list_apart acao (codes "Access-Control-Allow-Headers") cors.allow_headers
          (unfold http_ops in refl))
        (Avoids-both acao (named_list cors.expose_headers _) _
          (named_list_apart acao (codes "Access-Control-Expose-Headers") cors.expose_headers
            (unfold http_ops in refl))
          (Avoids-both acao (named_if cors.allow_credentials _) _
            (named_if_apart acao (codes "Access-Control-Allow-Credentials") cors.allow_credentials
              (unfold http_ops in refl))
            (named_if_apart acao (codes "Access-Control-Max-Age") cors.has_max_age
              (unfold http_ops in refl)))))

-- The values of Access-Control-Allow-Origin behind `applyCors`: the policy's value, if it has one
-- and either overrides the origin or the origin sent none, and else the origin's own values.
abbrev pub allow_origin_values : CorsConfig → Header → Bytes → List Bytes
allow_origin_values cors resp ro =
    let value = (cors_allow_origin cors.allow_origins ro).0 in
    if not (is_empty value)
      && (cors.origin_override || is_empty (get resp (codes "Access-Control-Allow-Origin")))
    then value ∷ []
    else values resp (codes "Access-Control-Allow-Origin")

acao_self : same_name acao acao ≡ true
unfolding http_ops
acao_self = refl

vary_not_acao : same_name (codes "Vary") acao ≡ false
unfolding http_ops
vary_not_acao = refl

set_if-acao :
    (value : Bytes) (override : Bool) (resp : Header)
    → values (set_if resp acao value override) acao
      ≡ (if override || is_empty (get resp acao) then value ∷ [] else values resp acao)
set_if-acao value override resp =
    ground (arith, values-set_if resp acao value override acao, acao_self)

set_origin-acao :
    (value : Bytes) (vary override : Bool) (resp : Header)
    → values (set_origin (value, vary) override resp) acao ≡ (
        if not (is_empty value) && (override || is_empty (get resp acao))
        then value ∷ []
        else values resp acao)
set_origin-acao [] vary override resp = refl
set_origin-acao (c ∷ value) true override resp =
    add_vary_frame _ (codes "Origin") acao vary_not_acao ∙ set_if-acao (c ∷ value) override resp
set_origin-acao (c ∷ value) false override resp = set_if-acao (c ∷ value) override resp

-- Access-Control-Allow-Origin behind applyCors is the policy's value, if it has one and
-- overrides the origin or the origin sent none, and else the origin's own; the other CORS
-- headers and Vary do not disturb it.
pub values-apply_cors :
    (cors : CorsConfig) (resp : Header) (ro : Bytes)
    → values (apply_cors (some cors) resp ro) (codes "Access-Control-Allow-Origin")
      ≡ allow_origin_values cors resp ro
values-apply_cors cors resp ro =
    after_origin acao cors resp ro (acao_apart cors)
    ∙ set_origin-acao (cors_allow_origin cors.allow_origins ro).0
        (cors_allow_origin cors.allow_origins ro).1 cors.origin_override resp
