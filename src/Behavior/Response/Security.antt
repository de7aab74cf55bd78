-- ===== src/Behavior/Response/Security.antt =====
-- `applySecurityHeaders` (internal/behavior/response.go), name by name.
use localfront.Base.{
  ◌≡◌, refl, sym, ◌∙◌, inl, inr, false, Bool, ◌&&◌, ◌||◌, List, [], ◌∷◌, ◌++◌, Option, none, some,
  arith, if◌then◌else◌, Bool-cases, any,
}
use localfront.Text.{Bytes, codes, is_empty}
use localfront.Http.{Header, values, get}
use localfront.Http.Laws.{values-set, same_name}
use localfront.Config.{SecurityHeaders, HeaderValue, HeaderToggle, Hsts, XssProtection}
use localfront.Behavior.Response.{
  set_if, set_toggle, set_value, set_hsts, set_xss, apply_security_headers,
}

-- The name `m` is none of the names.
abbrev pub Avoids : Bytes → List Bytes → Type 0
Avoids m names = any (λ n. same_name n m) names ≡ false

pub any-append : (p : Bytes → Bool) (xs ys : List Bytes) → any p (xs ++ ys) ≡ (any p xs || any p ys)
any-append p [] ys = refl
any-append p (x ∷ xs) ys = ground (arith, any-append p xs ys)

pub values-set_if :
    (resp : Header) (n v : Bytes) (override : Bool) (m : Bytes)
    → values (set_if resp n v override) m
      ≡ (if (override || is_empty (get resp n)) && same_name n m then v ∷ [] else values resp m)
unfolding set_if
values-set_if resp n v override m = elim (Bool-cases (override || is_empty (get resp n))) [
  | inl e ↦ rw e (values-set resp n m v)
  | inr e ↦ rw e
]

pub set_if_frame :
    (resp : Header) (n v : Bytes) (override : Bool) (m : Bytes)
    → same_name n m ≡ false
    → values (set_if resp n v override) m ≡ values resp m
set_if_frame resp n v override m h = ground (arith, values-set_if resp n v override m)

-- The name, if there is a value for it.
abbrev pub given {ℓ} : {A : Type ℓ} → Option A → Bytes → List Bytes
given none name = []
given (some _) name = name ∷ []

-- The names that the security headers of a policy set: those that it configures.
unfoldable pub security_names : Option SecurityHeaders → List Bytes
security_names none = []
security_names (some sec) =
    given sec.content_type_options (codes "X-Content-Type-Options")
    ++ (given sec.frame_options (codes "X-Frame-Options")
        ++ (given sec.referrer_policy (codes "Referrer-Policy")
            ++ (given sec.content_security_policy (codes "Content-Security-Policy")
                ++ (given sec.strict_transport_security (codes "Strict-Transport-Security")
                    ++ given sec.xss_protection (codes "X-XSS-Protection")))))

pub or_false : (a b : Bool) → (a || b) ≡ false → (a ≡ false) × (b ≡ false)
or_false a b h = ground arith

pub Avoids-append :
    (m : Bytes) (xs ys : List Bytes) → Avoids m (xs ++ ys) → Avoids m xs × Avoids m ys
Avoids-append m xs ys h = or_false _ _ (sym (any-append (λ n. same_name n m) xs ys) ∙ h)

module _ (m : Bytes) where
  set_toggle_frame :
      (o : Option HeaderToggle) (resp : Header)
      → Avoids m (given o (codes "X-Content-Type-Options"))
      → values (set_toggle o resp) m ≡ values resp m
  set_toggle_frame none resp h = refl
  set_toggle_frame (some v) resp h = set_if_frame resp _ _ v.override m (or_false _ _ h).0

  set_value_frame :
      (n : Bytes) (o : Option HeaderValue) (resp : Header)
      → Avoids m (given o n)
      → values (set_value n o resp) m ≡ values resp m
  set_value_frame n none resp h = refl
  set_value_frame n (some v) resp h = set_if_frame resp n v.value v.override m (or_false _ _ h).0

  set_hsts_frame :
      (o : Option Hsts) (resp : Header)
      → Avoids m (given o (codes "Strict-Transport-Security"))
      → values (set_hsts o resp) m ≡ values resp m
  set_hsts_frame none resp h = refl
  set_hsts_frame (some v) resp h = set_if_frame resp _ _ v.override m (or_false _ _ h).0

  set_xss_frame :
      (o : Option XssProtection) (resp : Header)
      → Avoids m (given o (codes "X-XSS-Protection"))
      → values (set_xss o resp) m ≡ values resp m
  set_xss_frame none resp h = refl
  set_xss_frame (some v) resp h = set_if_frame resp _ _ v.override m (or_false _ _ h).0

pub apply_security_headers_frame :
    (sec : Option SecurityHeaders) (resp : Header) (m : Bytes)
    → Avoids m (security_names sec)
    → values (apply_security_headers sec resp) m ≡ values resp m
unfolding apply_security_headers security_names
apply_security_headers_frame none resp m h = refl
apply_security_headers_frame (some sec) resp m h =
    let (h1, t1) = Avoids-append m (given sec.content_type_options _) _ h in
    let (h2, t2) = Avoids-append m (given sec.frame_options _) _ t1 in
    let (h3, t3) = Avoids-append m (given sec.referrer_policy _) _ t2 in
    let (h4, t4) = Avoids-append m (given sec.content_security_policy _) _ t3 in
    let (h5, h6) = Avoids-append m (given sec.strict_transport_security _) _ t4 in
    set_xss_frame m sec.xss_protection _ h6
    ∙ set_hsts_frame m sec.strict_transport_security _ h5
    ∙ set_value_frame m _ sec.content_security_policy _ h4
    ∙ set_value_frame m _ sec.referrer_policy _ h3
    ∙ set_value_frame m _ sec.frame_options _ h2
    ∙ set_toggle_frame m sec.content_type_options resp h1
