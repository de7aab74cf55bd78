-- ===== src/DataPlane/Write/Laws.antt =====
-- The branches of `writeResponse` (internal/dataplane/write.go).
use localfront.Base.{
  ◌≡◌, ◌≢◌, refl, ap, sym, ◌∙◌, ◌⊎◌, ◌&&◌, true, false, Bool, List, [], ◌∷◌, Option, none, some,
  arith, any, if◌then◌else◌, Bool-cases, inl, inr,
}
use localfront.Text.{Bytes, codes, str_eq, text_ops}
use localfront.Num.{pos, le_ℤ}
use localfront.Http.{Header, values, set, http_ops}
use localfront.Http.Laws.{same_name, same_name_refl, values-set, values-add}
use localfront.Http.Request.{Request}
use localfront.Config.{Distribution, Behavior}
use localfront.Behavior.Compress.{Encoding, identity, gzip, brotli}
use localfront.Behavior.Response.Security.{Avoids, or_false}
use localfront.DataPlane.Origin.{OriginResponse}
use localfront.DataPlane.Write.{
  Compressor, ViewerResponse, compress_bytes, cache_status, add_response_vary, response_headers,
  is_head, response_encoding, write_plain, encoded_headers, write_encoded, write_compressed,
  write_as, is_sendable, sent, write_response,
}

-- The names that the compression of a body changes.
abbrev pub body_names : List Bytes
body_names = codes "Content-Encoding" ∷ codes "Content-Length" ∷ codes "Vary" ∷ []

pub values-set_other :
    (h : Header) (n m v : Bytes) → same_name n m ≡ false → values (set h n v) m ≡ values h m
values-set_other h n m v e = values-set h n m v ∙ rw e

pub values-set_same : (h : Header) (n v : Bytes) → values (set h n v) n ≡ v ∷ []
values-set_same h n v = values-set h n n v ∙ rw (same_name_refl n)

pub add_response_vary_frame :
    (h : Header) (value m : Bytes)
    → same_name (codes "Vary") m ≡ false
    → values (add_response_vary h value) m ≡ values h m
unfolding add_response_vary
add_response_vary_frame h value m e =
    elim (Bool-cases (any (λ v. str_eq v value) (values h (codes "Vary")))) [
      | inl f ↦ rw f
      | inr f ↦ rw f (values-add h (codes "Vary") m value ∙ rw e)
    ]

encoded_headers_frame :
    (out : Header) (encoding : Encoding) (body m : Bytes)
    → Avoids m body_names
    → values (encoded_headers out encoding body) m ≡ values out m
unfolding encoded_headers
encoded_headers_frame out encoding body m others =
    let (e, t) = or_false _ _ others in
    let (l, t2) = or_false _ _ t in
    let (v, _) = or_false _ _ t2 in
    add_response_vary_frame _ (codes "Accept-Encoding") m v
    ∙ values-set_other _ (codes "Content-Length") m _ l
    ∙ values-set_other _ (codes "Content-Encoding") m _ e

write_encoded_frame :
    (out : Header) (encoding : Encoding) (resp : OriginResponse) (o : Option Bytes) (m : Bytes)
    → Avoids m body_names
    → values (write_encoded out encoding resp o).header m ≡ values out m
write_encoded_frame out encoding resp none m others =
    let (_, t) = or_false _ _ others in
    values-set_other out (codes "Content-Length") m _ (or_false _ _ t).0
write_encoded_frame out encoding resp (some body) m others =
    encoded_headers_frame out encoding body m others

either_frame :
    (b : Bool) (x y : ViewerResponse) (m : Bytes) (vs : List Bytes)
    → values x.header m ≡ vs
    → values y.header m ≡ vs
    → values (if b then x else y).header m ≡ vs
either_frame true x y m vs f g = f
either_frame false x y m vs f g = g

write_compressed_frame :
    (c : Compressor) (out : Header) (encoding : Encoding) (resp : OriginResponse) (m : Bytes)
    → Avoids m body_names
    → values (write_compressed c out encoding resp).header m ≡ values out m
write_compressed_frame c out encoding resp m others =
    either_frame resp.is_broken _ _ m _ refl
      (write_encoded_frame out encoding resp (compress_bytes c encoding resp.body) m others)

write_as_frame :
    (c : Compressor) (encoding : Encoding) (r : Request) (out : Header) (resp : OriginResponse)
    (m : Bytes)
    → Avoids m body_names
    → values (write_as c encoding r out resp).header m ≡ values out m
unfolding write_plain
write_as_frame c identity r out resp m others = refl
write_as_frame c gzip r out resp m others = write_compressed_frame c out gzip resp m others
write_as_frame c brotli r out resp m others = write_compressed_frame c out brotli resp m others

response_headers_own :
    (out : Header) (dist : Distribution) (resp : OriginResponse) (request_id : Bytes)
    → (values (response_headers out dist resp request_id) (codes "X-Amz-Cf-Id") ≡ request_id ∷ [])
      × (values (response_headers out dist resp request_id) (codes "X-Cache")
          ≡ cache_status resp.status_code ∷ [])
unfolding response_headers
response_headers_own out dist resp request_id =
    let pop_id : same_name (codes "X-Amz-Cf-Pop") (codes "X-Amz-Cf-Id") ≡ false =
      unfold http_ops text_ops in refl in
    let pop_cache : same_name (codes "X-Amz-Cf-Pop") (codes "X-Cache") ≡ false =
      unfold http_ops text_ops in refl in
    let id_cache : same_name (codes "X-Amz-Cf-Id") (codes "X-Cache") ≡ false =
      unfold http_ops text_ops in refl in
    (
      values-set_other _ (codes "X-Amz-Cf-Pop") (codes "X-Amz-Cf-Id") _ pop_id
          ∙ values-set_same _ (codes "X-Amz-Cf-Id") request_id,
      values-set_other _ (codes "X-Amz-Cf-Pop") (codes "X-Cache") _ pop_cache
          ∙ values-set_other _ (codes "X-Amz-Cf-Id") (codes "X-Cache") _ id_cache
          ∙ values-set_same _ (codes "X-Cache") _,
    )

head_body :
    (c : Compressor) (out : Header) (r : Request) (beh : Behavior) (resp : OriginResponse)
    → is_head r ≡ true
    → (write_as c (response_encoding r beh resp) r out resp).body ≡ []
unfolding response_encoding write_plain
head_body c out r beh resp h =
    let plain : response_encoding r beh resp ≡ identity =
      unfold response_encoding in ground arith in
    ap (λ e. (write_as c e r out resp).body) plain ∙ rw h

encoded_status :
    (out : Header) (encoding : Encoding) (resp : OriginResponse) (o : Option Bytes)
    → (write_encoded out encoding resp o).status ≡ resp.status_code
encoded_status out encoding resp none = refl
encoded_status out encoding resp (some body) = refl

compressed_status :
    (b : Bool) (resp : OriginResponse) (out : Header) (v : ViewerResponse)
    → v.status ≡ resp.status_code
    → ((if b then record { status = pos 502; header = out; body = [] } else v).status
        ≡ resp.status_code)
      ⊎ ((if b then record { status = pos 502; header = out; body = [] } else v).status ≡ pos 502)
compressed_status true resp out v h = inr refl
compressed_status false resp out v h = inl h

write_as_status :
    (c : Compressor) (encoding : Encoding) (r : Request) (out : Header) (resp : OriginResponse)
    → ((write_as c encoding r out resp).status ≡ resp.status_code)
      ⊎ ((write_as c encoding r out resp).status ≡ pos 502)
unfolding write_plain
write_as_status c identity r out resp = inl refl
write_as_status c gzip r out resp =
    compressed_status resp.is_broken resp out _
      (encoded_status out gzip resp (c.gzip_bytes resp.body))
write_as_status c brotli r out resp =
    compressed_status resp.is_broken resp out _
      (encoded_status out brotli resp (c.brotli_bytes resp.body))

is_sendable-502 : is_sendable (pos 502) ≡ true
unfolding is_sendable
is_sendable-502 = refl

write_as-is_sendable :
    (c : Compressor) (encoding : Encoding) (r : Request) (out : Header) (resp : OriginResponse)
    → is_sendable resp.status_code ≡ true
    → is_sendable (write_as c encoding r out resp).status ≡ true
write_as-is_sendable c encoding r out resp h = elim (write_as_status c encoding r out resp) [
  | inl e ↦ ap is_sendable e ∙ h
  | inr e ↦ ap is_sendable e ∙ is_sendable-502
]

sent-some : (v : ViewerResponse) → is_sendable v.status ≡ true → sent v ≡ some v
sent-some v h = rw h

pub write_response-some :
    (c : Compressor) (out : Header) (r : Request) (dist : Distribution) (beh : Behavior)
    (resp : OriginResponse) (request_id : Bytes)
    → is_sendable resp.status_code ≡ true
    → write_response c out r dist beh resp request_id
      ≡ some (
          write_as c
            (response_encoding r beh resp)
            r
            (response_headers out dist resp request_id)
            resp)
unfolding write_response
write_response-some c out r dist beh resp request_id h =
    sent-some _ (write_as-is_sendable c (response_encoding r beh resp) r _ resp h)

-- A status that cannot be sent is the only reason for a panic.
pub write_response-none :
    (c : Compressor) (out : Header) (r : Request) (dist : Distribution) (beh : Behavior)
    (resp : OriginResponse) (request_id : Bytes)
    → write_response c out r dist beh resp request_id ≡ none
    → is_sendable resp.status_code ≡ false
write_response-none c out r dist beh resp request_id missing =
    elim (Bool-cases (is_sendable resp.status_code)) [
      | inl h ↦
          absurd
            (none-ne-some (sym missing ∙ write_response-some c out r dist beh resp request_id h))
      | inr h ↦ h
    ]
  where
    none-ne-some : {v : ViewerResponse} → none ≢ some v
    none-ne-some = cc

-- On every branch of writeResponse, where the status of the origin response is between 100 and
-- 999, the viewer gets one X-Amz-Cf-Id, the request ID, and one X-Cache, the cache status of
-- the origin response, whatever headers came from the origin; and the answer to a HEAD request
-- has no body.
pub write_response-own :
    (c : Compressor) (out : Header) (r : Request) (dist : Distribution) (beh : Behavior)
    (resp : OriginResponse) (request_id : Bytes)
    → le_ℤ (pos 100) resp.status_code && le_ℤ resp.status_code (pos 999) ≡ true
    → (sent : ViewerResponse) × (write_response c out r dist beh resp request_id ≡ some sent)
      × (values sent.header (codes "X-Amz-Cf-Id") ≡ request_id ∷ [])
      × (values sent.header (codes "X-Cache") ≡ cache_status resp.status_code ∷ [])
      × (is_head r ≡ true → sent.body ≡ [])
unfolding is_sendable
write_response-own c out r dist beh resp request_id h =
    let (id, cached) = response_headers_own out dist resp request_id in
    (
      _,
      write_response-some c out r dist beh resp request_id h,
      write_as_frame c (response_encoding r beh resp) r _ resp (codes "X-Amz-Cf-Id")
            (unfold http_ops text_ops in refl)
          ∙ id,
      write_as_frame c (response_encoding r beh resp) r _ resp (codes "X-Cache")
            (unfold http_ops text_ops in refl)
          ∙ cached,
      head_body c _ r beh resp,
    )
