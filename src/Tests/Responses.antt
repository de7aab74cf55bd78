-- ===== src/Tests/Responses.antt =====
-- What the viewer gets.
use localfront.Base.{◌≡◌, refl, true, false, [], ◌∷◌, some, any, if◌then◌else◌}
use localfront.Text.{codes, text_ops}
use localfront.Num.{num_ops}
use localfront.Http.{Header, values, http_ops}
use localfront.Http.Laws.{same_name}
use localfront.Behavior.Forward.{accepts, encoding_token}
use localfront.Behavior.Compress.{
  identity, gzip, brotli, encoding_name, choose_encoding, is_compressible, compressible_types,
  media_type, has_no_transform,
}
use localfront.Behavior.Compress.Laws.{MayCompress, choose_encoding_sound, choose_encoding_complete}
use localfront.Behavior.Response.{apply_cors, apply_response_headers}
use localfront.Behavior.Response.Cors.{
  other_names, cors_names, allow_origin_values, values-apply_cors,
}
use localfront.Behavior.Response.Security.{security_names}
use localfront.Behavior.Response.Policy.{set_names, values-apply_response_headers}
use localfront.Tests.Samples.{cors, response_policy, on_path}

abbrev page : Header
page =
    (codes "Content-Type", codes "text/html; charset=utf-8" ∷ [])
    ∷ (codes "Content-Length", codes "2048" ∷ [])
    ∷ (codes "Server", codes "nginx" ∷ [])
    ∷ []

choose_encoding_tests :
    (choose_encoding (on_path []) (codes "br, gzip") page ≡ gzip)
    × (choose_encoding (on_path []) (codes "br") page ≡ brotli)
    × (choose_encoding (on_path []) (codes "deflate") page ≡ identity)
unfolding choose_encoding is_compressible compressible_types media_type has_no_transform accepts
    encoding_token http_ops text_ops num_ops
choose_encoding_tests = (refl, refl, refl)

choose_encoding_sound_example :
    MayCompress (on_path []) page
    × (accepts (codes "br") (encoding_name (choose_encoding (on_path []) (codes "br") page)) ≡ true)
    × ((choose_encoding (on_path []) (codes "br") page ≡ brotli)
        → accepts (codes "br") (codes "gzip") ≡ false)
choose_encoding_sound_example = choose_encoding_sound (on_path []) (codes "br") page (
    unfold choose_encoding is_compressible compressible_types media_type has_no_transform accepts
      encoding_token http_ops text_ops num_ops in
    cc)

choose_encoding_complete_example :
    (accepts (codes "deflate") (codes "gzip") ≡ false)
    × (accepts (codes "deflate") (codes "br") ≡ false)
choose_encoding_complete_example =
    choose_encoding_complete (on_path []) (codes "deflate") page
      (choose_encoding_sound (on_path []) (codes "br") page (
        unfold choose_encoding is_compressible compressible_types media_type has_no_transform
          accepts encoding_token http_ops text_ops num_ops in
        cc)).0
      (unfold choose_encoding is_compressible compressible_types media_type has_no_transform accepts
          encoding_token http_ops text_ops num_ops in
        refl)

values-apply_cors_example :
    values
      (apply_cors (some cors) page (codes "https://app.test"))
      (codes "Access-Control-Allow-Origin")
    ≡ allow_origin_values cors page (codes "https://app.test")
values-apply_cors_example = values-apply_cors cors page (codes "https://app.test")

values-apply_response_headers_example :
    values (apply_response_headers (on_path []) page (codes "https://app.test")) (codes "Server")
    ≡ (if any (λ n. same_name n (codes "Server")) response_policy.remove_headers
        then []
        else values page (codes "Server"))
values-apply_response_headers_example =
    values-apply_response_headers (on_path []) response_policy page (codes "https://app.test")
      (codes "Server") refl
      (unfold set_names security_names cors_names other_names http_ops text_ops in refl)
