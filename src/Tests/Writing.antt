-- ===== src/Tests/Writing.antt =====
-- Responses to viewers, with encoders that write a fixed text.
use localfront.Base.{◌≡◌, refl, true, false, [], ◌∷◌, none, some}
use localfront.Text.{codes, text_ops}
use localfront.Num.{pos, eq_ℤ, format_ℕ, num_ops}
use localfront.Http.{values, http_ops}
use localfront.Http.Request.{Request}
use localfront.Behavior.Forward.{accepts, encoding_token}
use localfront.Behavior.Compress.{
  gzip, encoding_name, choose_encoding, is_compressible, compressible_types, media_type,
  has_no_transform,
}
use localfront.DataPlane.Origin.{OriginResponse}
use localfront.DataPlane.Write.{
  Compressor, ViewerResponse, cache_status, is_head, response_encoding, write_response,
}
use localfront.DataPlane.Write.Laws.{write_response-own}
use localfront.DataPlane.Write.Encoded.{write_response-encoded}
use localfront.Tests.Samples.{shop, on_path, request_for}

abbrev pub fixed : Compressor
fixed = record { gzip_bytes = λ raw. some (codes "zip"); brotli_bytes = λ raw. none }

abbrev viewer : Request
viewer = record (request_for (codes "/a") []) {
  header = (codes "Accept-Encoding", codes "gzip" ∷ []) ∷ [];
}

abbrev page : OriginResponse
page = record {
  status_code = pos 200;
  header =
      (codes "Content-Type", codes "text/html" ∷ [])
      ∷ (codes "Content-Length", codes "2048" ∷ [])
      ∷ [];
  body = codes "<p>";
  is_broken = false;
}

response_encoding_tests : response_encoding viewer (on_path []) page ≡ gzip
unfolding response_encoding is_head choose_encoding is_compressible compressible_types media_type
    has_no_transform accepts encoding_token http_ops text_ops num_ops
response_encoding_tests = refl

write_response-own_example :
    (sent : ViewerResponse) × (write_response fixed [] viewer shop (on_path []) page (codes "id1")
      ≡ some sent)
    × (values sent.header (codes "X-Amz-Cf-Id") ≡ codes "id1" ∷ [])
    × (values sent.header (codes "X-Cache") ≡ cache_status (pos 200) ∷ [])
    × (is_head viewer ≡ true → sent.body ≡ [])
write_response-own_example =
    write_response-own fixed [] viewer shop (on_path []) page (codes "id1") refl

write_response-encoded_example :
    (sent : ViewerResponse) × (write_response fixed [] viewer shop (on_path []) page (codes "id1")
      ≡ some sent)
    × (sent.body ≡ codes "zip")
    × (eq_ℤ sent.status (pos 200) ≡ true)
    × (values sent.header (codes "Content-Length") ≡ format_ℕ 3 ∷ [])
    × (values sent.header (codes "Content-Encoding")
        ≡ encoding_name (response_encoding viewer (on_path []) page) ∷ [])
write_response-encoded_example =
    write_response-encoded fixed [] viewer shop (on_path []) page (codes "id1") (codes "zip")
      (unfold response_encoding is_head choose_encoding is_compressible compressible_types
          media_type has_no_transform accepts encoding_token http_ops text_ops num_ops in
        cc)
      refl
      (unfold response_encoding is_head choose_encoding is_compressible compressible_types
          media_type has_no_transform accepts encoding_token http_ops text_ops num_ops in
        refl)
