-- ===== src/Behavior/Response/Policy.antt =====
-- `ApplyResponseHeaders` (internal/behavior/response.go), name by name.
use localfront.Base.{◌≡◌, refl, ◌∙◌, List, [], ◌∷◌, ◌++◌, some, arith, if◌then◌else◌, any}
use localfront.Text.{Bytes}
use localfront.Http.{Header, values, del}
use localfront.Http.Laws.{values-del, same_name}
use localfront.Config.{Behavior, ResponseHeadersPolicy, CustomHeader}
use localfront.Behavior.Response.{
  apply_security_headers, remove_headers, custom_headers, apply_policy, apply_response_headers,
}
use localfront.Behavior.Response.Security.{
  Avoids, Avoids-append, set_if_frame, or_false, security_names, apply_security_headers_frame,
}
use localfront.Behavior.Response.Cors.{cors_names, apply_cors_frame}

-- `RemoveHeaders` removes exactly the listed names, in any spelling.
values-remove_headers :
    (names : List Bytes) (resp : Header) (m : Bytes)
    → values (remove_headers names resp) m
      ≡ (if any (λ n. same_name n m) names then [] else values resp m)
unfolding remove_headers
values-remove_headers [] resp m = refl
values-remove_headers (n ∷ names) resp m =
    ground (arith, values-remove_headers names (del resp n) m, values-del resp n m)

custom_names : List CustomHeader → List Bytes
custom_names [] = []
custom_names (ch ∷ chs) = ch.name ∷ custom_names chs

custom_headers_frame :
    (chs : List CustomHeader) (resp : Header) (m : Bytes)
    → Avoids m (custom_names chs)
    → values (custom_headers chs resp) m ≡ values resp m
unfolding custom_headers custom_names
custom_headers_frame [] resp m h = refl
custom_headers_frame (ch ∷ chs) resp m h =
    let (h1, t) = or_false (same_name ch.name m) _ h in
    custom_headers_frame chs _ m t ∙ set_if_frame resp ch.name ch.value ch.override m h1

-- The names that a policy may set in the response to a request from that origin: its custom headers,
-- the security headers that it configures, and its CORS headers.
unfoldable pub set_names : ResponseHeadersPolicy → Bytes → List Bytes
unfolding custom_names
set_names policy origin =
    custom_names policy.custom_headers
    ++ (security_names policy.security ++ cors_names policy.cors origin)

-- Where a behavior has a response headers policy, a header that is none of the policy's custom
-- headers, of the security headers that it configures and of the CORS headers that it has for
-- the Origin of the request keeps the origin's values, unless it is one to be removed, and
-- then it is gone.
pub values-apply_response_headers :
    (b : Behavior) (policy : ResponseHeadersPolicy) (resp : Header) (ro m : Bytes)
    → b.response_headers_policy ≡ some policy
    → Avoids m (set_names policy ro)
    → values (apply_response_headers b resp ro) m
      ≡ (if any (λ n. same_name n m) policy.remove_headers then [] else values resp m)
unfolding apply_response_headers set_names
values-apply_response_headers b policy resp ro m has h =
    let (h1, t) = Avoids-append m (custom_names policy.custom_headers) _ h in
    let (h2, h3) = Avoids-append m (security_names policy.security) _ t in
    rw has (
      cors_part ro h3
      ∙ apply_security_headers_frame policy.security _ m h2
      ∙ custom_headers_frame policy.custom_headers _ m h1
      ∙ values-remove_headers policy.remove_headers resp m)
  where
    cors_part :
        (ro : Bytes)
        → Avoids m (cors_names policy.cors ro)
        → values (apply_policy policy resp ro) m
          ≡ values
              (apply_security_headers policy.security
                (custom_headers policy.custom_headers (remove_headers policy.remove_headers resp)))
              m
    cors_part [] h3 = refl
    cors_part (c ∷ ro) h3 = apply_cors_frame m policy.cors _ c ro h3
