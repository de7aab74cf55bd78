-- ===== src/Behavior/Compress/Laws.antt =====
-- `ChooseEncoding` (internal/behavior/compress.go) against the conditions for compression.
use localfront.Base.{ℕ, ◌≤◌, ◌≡◌, ◌≢◌, refl, true, false, Option, none, some, arith}
use localfront.Text.{Bytes, codes, trim_space, is_empty}
use localfront.Num.{ℤ, pos, negsuc, parse_int}
use localfront.Http.{Header, get}
use localfront.Config.{Behavior}
use localfront.Behavior.Forward.{accepts}
use localfront.Behavior.Compress.{
  identity, brotli, encoding_name, choose_encoding, is_compressible, media_type, has_no_transform,
  is_out_of_bounds, min_compress_bytes, max_compress_bytes,
}

-- CloudFront's conditions for compressing a response.
pub record MayCompress (b : Behavior) (resp : Header) : Type 0 where
  pub size : ℕ
  pub enabled : b.compress ≡ true
  pub plain : is_empty (get resp (codes "Content-Encoding")) ≡ true
  pub media : is_compressible (media_type (get resp (codes "Content-Type"))) ≡ true
  pub length_known : parse_int (trim_space (get resp (codes "Content-Length"))) ≡ some (pos size)
  pub at_least : min_compress_bytes ≤ size
  pub at_most : size ≤ max_compress_bytes
  pub allowed : has_no_transform (get resp (codes "Cache-Control")) ≡ false

in_bounds :
    (o : Option ℤ)
    → is_out_of_bounds o ≡ false
    → (n : ℕ) × (o ≡ some (pos n)) × (min_compress_bytes ≤ n) × (n ≤ max_compress_bytes)
in_bounds none h = cc
in_bounds (some (pos n)) h = (n, refl, ground arith, ground arith)
in_bounds (some (negsuc n)) h = cc

-- ChooseEncoding compresses only if every condition holds and the viewer accepts the encoding,
-- and chooses Brotli only where gzip is not accepted.
pub choose_encoding_sound :
    (b : Behavior) (accept : Bytes) (resp : Header)
    → choose_encoding b accept resp ≢ identity
    → MayCompress b resp
      × (accepts accept (encoding_name (choose_encoding b accept resp)) ≡ true)
      × ((choose_encoding b accept resp ≡ brotli) → accepts accept (codes "gzip") ≡ false)
unfolding choose_encoding
choose_encoding_sound b accept resp h =
    let (n, known, low, high) =
      in_bounds (parse_int (trim_space (get resp (codes "Content-Length")))) (ground arith) in
    (
      record {
        size = n;
        enabled = ground arith;
        plain = ground arith;
        media = ground arith;
        length_known = known;
        at_least = low;
        at_most = high;
        allowed = ground arith;
      },
      ground arith,
      ground arith,
    )

-- Where every condition for compression holds, the response stays uncompressed only if the
-- viewer accepts neither encoding.
pub choose_encoding_complete :
    (b : Behavior) (accept : Bytes) (resp : Header)
    → MayCompress b resp
    → choose_encoding b accept resp ≡ identity
    → (accepts accept (codes "gzip") ≡ false) × (accepts accept (codes "br") ≡ false)
unfolding choose_encoding
choose_encoding_complete b accept resp m h = ground arith
