-- ===== src/DataPlane/Origin/Laws.antt =====
-- The headers of an origin fetch (internal/dataplane/proxy.go).
use localfront.Base.{
  ◌++◌, none, some, ◌≡◌, refl, ap, ◌∙◌, false, Bool, ◌||◌, List, [], ◌∷◌, map, any, if◌then◌else◌,
}
use localfront.Text.{Bytes, codes, text_ops}
use localfront.Http.{Header, values, get, set, http_ops}
use localfront.Http.Laws.{same_name, same_name_refl, values-set, get-set}
use localfront.Http.Request.{Request}
use localfront.Net.{split_host_port}
use localfront.Config.{Origin, Distribution}
use localfront.Behavior.Forward.{OriginRequest}
use localfront.DataPlane.Headers.{
  remote_ip, always_forwarded_headers, forwarded_for, append_x_forwarded_for, add_via, via_value,
}
use localfront.DataPlane.Headers.Laws.{hop_by_hop_names, lists_name, or_else}
use localfront.DataPlane.Origin.{s3_headers, custom_origin_headers}

-- The names that `fetchCustomOrigin` sets itself, whatever the viewer and the policies say.
abbrev pub own_names : Origin → List Bytes
own_names o =
    codes "Via"
    ∷ codes "X-Amz-Cf-Id"
    ∷ codes "X-Forwarded-For"
    ∷ codes "Accept-Encoding"
    ∷ map (λ c. c.name) o.custom_headers

-- The values that the policies and the always forwarded headers give a name.
abbrev pub merged_values : Request → OriginRequest → Bytes → List Bytes
merged_values r req m =
    if any (λ n. same_name n m) always_forwarded_headers
    then or_else (values r.header m) (values req.headers m)
    else values req.headers m

-- A name that is not passed on: a hop-by-hop header, or one that is listed in the first line of the
-- Connection header that the policies selected. The viewer's own Connection header does not count
-- here: `BuildOriginRequest` has read it.
abbrev pub is_hop_by_hop : OriginRequest → Bytes → Bool
is_hop_by_hop req m =
    any (λ n. same_name n m) hop_by_hop_names || lists_name (get req.headers (codes "Connection")) m

set_same : (h : Header) (n v : Bytes) → values (set h n v) n ≡ v ∷ []
set_same h n v = values-set h n n v ∙ rw (same_name_refl n)

abbrev out_headers : Header → Bytes → Bytes → Bytes → Header
out_headers h forwarded id domain =
    add_via (set (set h (codes "X-Forwarded-For") forwarded) (codes "X-Amz-Cf-Id") id) domain

own_lem :
    (h : Header) (forwarded id domain : Bytes)
    → (values (out_headers h forwarded id domain) (codes "X-Amz-Cf-Id") ≡ id ∷ [])
      × (values (out_headers h forwarded id domain) (codes "X-Forwarded-For") ≡ forwarded ∷ [])
      × (values (out_headers h forwarded id domain) (codes "Via")
          ≡ via_value (get h (codes "Via")) domain ∷ [])
unfolding add_via
own_lem h forwarded id domain =
    let via_id : same_name (codes "Via") (codes "X-Amz-Cf-Id") ≡ false =
      unfold http_ops text_ops in refl in
    let via_for : same_name (codes "Via") (codes "X-Forwarded-For") ≡ false =
      unfold http_ops text_ops in refl in
    let id_for : same_name (codes "X-Amz-Cf-Id") (codes "X-Forwarded-For") ≡ false =
      unfold http_ops text_ops in refl in
    let id_via : same_name (codes "X-Amz-Cf-Id") (codes "Via") ≡ false =
      unfold http_ops text_ops in refl in
    let for_via : same_name (codes "X-Forwarded-For") (codes "Via") ≡ false =
      unfold http_ops text_ops in refl in
    let old : get (set (set h (codes "X-Forwarded-For") forwarded) (codes "X-Amz-Cf-Id") id)
          (codes "Via")
        ≡ get h (codes "Via") =
      get-set _ (codes "X-Amz-Cf-Id") (codes "Via") id
      ∙ rw id_via (get-set h (codes "X-Forwarded-For") (codes "Via") forwarded ∙ rw for_via) in
    (
      values-set _ (codes "Via") (codes "X-Amz-Cf-Id") _
          ∙ rw via_id (set_same _ (codes "X-Amz-Cf-Id") id),
      values-set _ (codes "Via") (codes "X-Forwarded-For") _
          ∙ rw via_for (
              values-set _ (codes "X-Amz-Cf-Id") (codes "X-Forwarded-For") id
              ∙ rw id_for (set_same h (codes "X-Forwarded-For") forwarded)),
      set_same _ (codes "Via") _ ∙ ap (λ e. via_value e domain ∷ []) old,
    )

-- A list with one more entry behind it, or only that entry.
abbrev pub listed_behind : Bytes → Bytes → Bytes
listed_behind [] v = v
listed_behind (c ∷ line) v = (c ∷ line) ++ (codes ", " ++ v)

-- the address of the viewer, without the port
abbrev pub viewer_address : Bytes → Bytes
viewer_address remote_addr = elim (split_host_port remote_addr) [
  | none ↦ remote_addr
  | some (host, _) ↦ host
]

forwarded_for-listed_behind :
    (prior remote_addr : Bytes)
    → forwarded_for prior remote_addr ≡ listed_behind prior (viewer_address remote_addr)
unfolding forwarded_for remote_ip
forwarded_for-listed_behind [] remote_addr = refl
forwarded_for-listed_behind (c ∷ prior) remote_addr = refl

via_value-listed_behind :
    (existing domain : Bytes)
    → via_value existing domain
      ≡ listed_behind existing (codes "1.1 " ++ (domain ++ codes " (CloudFront)"))
unfolding via_value
via_value-listed_behind [] domain = refl
via_value-listed_behind (c ∷ existing) domain = refl

-- A custom origin sees one X-Amz-Cf-Id, the request ID; one X-Forwarded-For, the viewer's own
-- value, a comma and the viewer's address, or only the address where the viewer sent no value;
-- and one Via, the value that the policies and the custom headers gave it, a comma and "1.1
-- <domain name> (CloudFront)", or only that where they gave none.
pub custom_origin_headers-own :
    (r : Request) (dist : Distribution) (o : Origin) (req : OriginRequest) (request_id : Bytes)
    → let out = custom_origin_headers r dist o req request_id in
      (values out (codes "X-Amz-Cf-Id") ≡ request_id ∷ [])
      × (values out (codes "X-Forwarded-For")
          ≡ listed_behind (get r.header (codes "X-Forwarded-For")) (viewer_address r.remote_addr)
            ∷ [])
      × (values out (codes "Via")
          ≡ listed_behind
              (get (s3_headers r o req) (codes "Via"))
              (codes "1.1 " ++ (dist.domain_name ++ codes " (CloudFront)"))
            ∷ [])
unfolding custom_origin_headers append_x_forwarded_for
custom_origin_headers-own r dist o req request_id =
    let (id, forwarded, via) = own_lem (s3_headers r o req) _ request_id dist.domain_name in
    (
      id,
      forwarded ∙ ap (λ v. v ∷ []) (forwarded_for-listed_behind _ r.remote_addr),
      via ∙ ap (λ v. v ∷ []) (via_value-listed_behind _ dist.domain_name),
    )
