-- ===== src/DataPlane/Write/Encoded.antt =====
-- Compressed responses (internal/dataplane/write.go).
use localfront.Base.{
  ◌≡◌, ◌≢◌, refl, ap, ◌∙◌, ◌&&◌, true, false, Bool, [], ◌∷◌, some, arith, if◌then◌else◌, length,
}
use localfront.Text.{Bytes, codes, text_ops}
use localfront.Num.{ℤ, pos, negsuc, eq_ℤ, le_ℤ, format_ℕ}
use localfront.Http.{Header, values, http_ops}
use localfront.Http.Request.{Request}
use localfront.Config.{Distribution, Behavior}
use localfront.Behavior.Compress.{Encoding, identity, gzip, brotli, encoding_name}
use localfront.DataPlane.Origin.{OriginResponse}
use localfront.DataPlane.Write.{
  Compressor, ViewerResponse, compress_bytes, response_headers, response_encoding, encoded_headers,
  write_encoded, write_as, is_sendable, write_response,
}
use localfront.DataPlane.Write.Laws.{
  values-set_other, values-set_same, add_response_vary_frame, write_response-some,
}

encoded_length :
    (out : Header) (encoding : Encoding) (body : Bytes)
    → values (encoded_headers out encoding body) (codes "Content-Length")
      ≡ format_ℕ (length body) ∷ []
unfolding encoded_headers
encoded_length out encoding body =
    add_response_vary_frame _ (codes "Accept-Encoding") (codes "Content-Length")
      (unfold http_ops text_ops in refl)
    ∙ values-set_same _ (codes "Content-Length") _

encoded_name :
    (out : Header) (encoding : Encoding) (body : Bytes)
    → values (encoded_headers out encoding body) (codes "Content-Encoding")
      ≡ encoding_name encoding ∷ []
unfolding encoded_headers
encoded_name out encoding body =
    add_response_vary_frame _ (codes "Accept-Encoding") (codes "Content-Encoding")
      (unfold http_ops text_ops in refl)
    ∙ values-set_other _ (codes "Content-Length") (codes "Content-Encoding") _
        (unfold http_ops text_ops in refl)
    ∙ values-set_same _ (codes "Content-Encoding") _

if_false : (b : Bool) (x y : ViewerResponse) → b ≡ false → (if b then x else y) ≡ y
if_false true x y h = cc
if_false false x y h = refl

write_as_encoded :
    (c : Compressor) (encoding : Encoding) (r : Request) (out : Header) (resp : OriginResponse)
    (body : Bytes)
    → encoding ≢ identity
    → resp.is_broken ≡ false
    → compress_bytes c encoding resp.body ≡ some body
    → write_as c encoding r out resp ≡ record {
      status = resp.status_code;
      header = encoded_headers out encoding body;
      body = body;
    }
write_as_encoded c identity r out resp body n whole e = absurd (n refl)
write_as_encoded c gzip r out resp body n whole e =
    if_false resp.is_broken _ _ whole ∙ ap (write_encoded out gzip resp) e
write_as_encoded c brotli r out resp body n whole e =
    if_false resp.is_broken _ _ whole ∙ ap (write_encoded out brotli resp) e

encoding_status :
    (r : Request) (beh : Behavior) (resp : OriginResponse)
    → response_encoding r beh resp ≢ identity
    → eq_ℤ resp.status_code (pos 200) ≡ true
unfolding response_encoding
encoding_status r beh resp n = ground arith

encoding_sendable :
    (r : Request) (beh : Behavior) (resp : OriginResponse)
    → response_encoding r beh resp ≢ identity
    → is_sendable resp.status_code ≡ true
unfolding is_sendable
encoding_sendable r beh resp n = status_200 resp.status_code (encoding_status r beh resp n)
  where
    status_200 :
        (status : ℤ)
        → eq_ℤ status (pos 200) ≡ true
        → le_ℤ (pos 100) status && le_ℤ status (pos 999) ≡ true
    status_200 (pos n) e = ground arith
    status_200 (negsuc n) e = absurd (cc)

-- Where an encoding is chosen, the body can be read to its end and the encoder gives an
-- output, the viewer gets that output with status 200, its length as the only Content-Length,
-- and the encoding as the only Content-Encoding.
pub write_response-encoded :
    (c : Compressor) (out : Header) (r : Request) (dist : Distribution) (beh : Behavior)
    (resp : OriginResponse) (request_id body : Bytes)
    → response_encoding r beh resp ≢ identity
    → resp.is_broken ≡ false
    → compress_bytes c (response_encoding r beh resp) resp.body ≡ some body
    → (sent : ViewerResponse) × (write_response c out r dist beh resp request_id ≡ some sent)
      × (sent.body ≡ body)
      × (eq_ℤ sent.status (pos 200) ≡ true)
      × (values sent.header (codes "Content-Length") ≡ format_ℕ (length body) ∷ [])
      × (values sent.header (codes "Content-Encoding")
          ≡ encoding_name (response_encoding r beh resp) ∷ [])
write_response-encoded c out r dist beh resp request_id body n whole e =
    let sent_is =
      write_as_encoded c (response_encoding r beh resp) r
        (response_headers out dist resp request_id) resp body n whole e in
    (
      _,
      write_response-some c out r dist beh resp request_id (encoding_sendable r beh resp n),
      ap (λ s. s.body) sent_is,
      ap (λ s. eq_ℤ s.status (pos 200)) sent_is ∙ encoding_status r beh resp n,
      ap (λ s. values s.header (codes "Content-Length")) sent_is
          ∙ encoded_length _ (response_encoding r beh resp) body,
      ap (λ s. values s.header (codes "Content-Encoding")) sent_is
          ∙ encoded_name _ (response_encoding r beh resp) body,
    )
