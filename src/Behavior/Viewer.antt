-- ===== src/Behavior/Viewer.antt =====
-- internal/behavior/viewer.go: the CloudFront-* headers that localfront makes up for a request.
use localfront.Base.{ℕ, List, [], ◌∷◌, ◌++◌, none, some, if◌then◌else◌, ◌==◌}
use localfront.Text.{Bytes, codes, is_empty, cut_prefix}
use localfront.Num.{format_ℕ}
use localfront.Http.{Header, canonical_key, put, set}
use localfront.Http.Request.{Request}
use localfront.Behavior.Forward.{local_prefix, cloud_front_prefix}

-- `httpVersion`
unfoldable pub http_version : ℕ → ℕ → Bytes
http_version major minor =
    if major == 2
    then codes "HTTP/2.0"
    else if major == 3
    then codes "HTTP/3.0"
    else if major == 0
    then codes "HTTP/1.1"
    else codes "HTTP/1." ++ format_ℕ minor

-- one round of `applyViewerOverrides`
unfoldable pub override_one : Bytes → List Bytes → Header → Header
override_one name vs dst = elim (cut_prefix name local_prefix) [
  | none ↦ dst
  | some suffix ↦
      if is_empty suffix then dst else put (canonical_key (cloud_front_prefix ++ suffix)) vs dst
]

-- `applyViewerOverrides`
unfoldable pub apply_viewer_overrides : Header → Header → Header
apply_viewer_overrides dst [] = dst
apply_viewer_overrides dst ((name, vs) ∷ src) =
    apply_viewer_overrides (override_one name vs dst) src

-- the headers set before the overrides
unfoldable pub default_viewer_headers : Request → Header
default_viewer_headers r =
    let h1 = set [] (codes "CloudFront-Forwarded-Proto") (codes "http") in
    let h2 =
      set h1 (codes "CloudFront-Viewer-Http-Version") (http_version r.proto_major r.proto_minor) in
    let h3 = set h2 (codes "CloudFront-Viewer-Address") r.remote_addr in
    let h4 = set h3 (codes "CloudFront-Viewer-Country") (codes "US") in
    let h5 = set h4 (codes "CloudFront-Viewer-TLS") [] in
    let h6 = set h5 (codes "CloudFront-Is-Desktop-Viewer") (codes "true") in
    let h7 = set h6 (codes "CloudFront-Is-Mobile-Viewer") (codes "false") in
    let h8 = set h7 (codes "CloudFront-Is-Tablet-Viewer") (codes "false") in
    let h9 = set h8 (codes "CloudFront-Is-SmartTV-Viewer") (codes "false") in
    let h10 = set h9 (codes "CloudFront-Is-Android-Viewer") (codes "false") in
    set h10 (codes "CloudFront-Is-IOS-Viewer") (codes "false")

-- `SynthesizeViewerHeaders`
unfoldable pub synthesize_viewer_headers : Request → Header
synthesize_viewer_headers r = apply_viewer_overrides (default_viewer_headers r) r.header

-- Named on the `unfolding` line of a test, it opens the functions above.
unfoldable pub viewer_ops : Unit {0}
unfolding http_version override_one apply_viewer_overrides default_viewer_headers
    synthesize_viewer_headers
viewer_ops = tt
