-- ===== src/Behavior/Forward/Headers.antt =====
-- The headers of `BuildOriginRequest` (internal/behavior/forward.go), name by name.
use localfront.Base.{
  ◌≡◌, refl, ap, ◌∙◌, subst, inl, inr, true, false, Bool, not, ◌&&◌, List, [], ◌∷◌, Option, none,
  some, arith, if◌then◌else◌, Bool-cases,
}
use localfront.Text.{Bytes, codes, is_empty, str_eq}
use localfront.Text.Laws.{str_eq_iff}
use localfront.Http.{Header, canonical_key, lookup, put, get, set}
use localfront.Http.Laws.{lookup-put}
use localfront.Http.Request.{Request}
use localfront.Config.{Behavior}
use localfront.Behavior.Forward.{
  connection_listed, is_withheld, copy_where, set_cookie, filter_cookies, forwards_header,
  selects_cloud_front_header, build_origin_request,
}

-- A header map as net/http builds it: canonical names, each once.
abbrev pub IsCanonical : Header → Type 0
IsCanonical [] = Unit
IsCanonical ((name, vs) ∷ h) = (canonical_key name ≡ name) × (lookup name h ≡ none) × IsCanonical h

abbrev pub when_kept : Bool → Option (List Bytes) → Option (List Bytes) → Option (List Bytes)
when_kept keep none old = old
when_kept keep (some vs) old = if keep then some vs else old

lookup_if :
    (b : Bool) (name k : Bytes) (vs : List Bytes) (out : Header)
    → lookup k (if b then put name vs out else out)
      ≡ (if b && str_eq name k then some vs else lookup k out)
lookup_if true name k vs out = lookup-put name k vs out
lookup_if false name k vs out = refl

lookup-nil : (k : Bytes) → lookup k [] ≡ none
unfolding lookup
lookup-nil k = refl

lookup-cons :
    (name k : Bytes) (vs : List Bytes) (h : Header)
    → lookup k ((name, vs) ∷ h) ≡ (if str_eq name k then some vs else lookup k h)
unfolding lookup
lookup-cons name k vs h = refl

lookup-copy_where :
    (keep : Bytes → Bool) (k : Bytes) (h out : Header)
    → IsCanonical h
    → lookup k (copy_where keep h out) ≡ when_kept (keep k) (lookup k h) (lookup k out)
unfolding copy_where
lookup-copy_where keep k [] out _ = rw (lookup-nil k)
lookup-copy_where keep k ((name, vs) ∷ h) out (same, once, c) =
    lookup-copy_where keep k h _ c
    ∙ rw (lookup_if (keep name) (canonical_key name) k vs out, lookup-cons name k vs h, same)
        (elim (Bool-cases (str_eq name k)) [ inl e ↦ here e | inr e ↦ rw e (ground arith) ])
  where
    here :
        str_eq name k ≡ true
        → when_kept
            (keep k)
            (lookup k h)
            (if keep name && str_eq name k then some vs else lookup k out)
          ≡ when_kept (keep k) (if str_eq name k then some vs else lookup k h) (lookup k out)
    here e =
        let n : name ≡ k = (str_eq_iff name k).0 e in
        let o : lookup k h ≡ none = subst (λ x. lookup x h ≡ none) n once in
        rw (e, o, n) (ground arith)

lookup-set_cookie :
    (cookie : Bytes) (out : Header) (k : Bytes)
    → str_eq (canonical_key (codes "Cookie")) k ≡ false
    → lookup k (set_cookie cookie out) ≡ lookup k out
unfolding set_cookie set
lookup-set_cookie cookie out k other = elim (Bool-cases (is_empty cookie)) [
  | inl e ↦ rw e
  | inr e ↦ rw e (lookup-put (canonical_key (codes "Cookie")) k (cookie ∷ []) out ∙ rw other)
]

-- For viewer and synthesized header maps with canonical names, each once: the request to the
-- origin has under every name other than Cookie the synthesized values if there are some and a
-- policy selects them, else the viewer's values if there are some, a policy forwards them and
-- they are not withheld, and else nothing.
pub lookup-build_origin_request :
    (b : Behavior) (r : Request) (viewer_headers : Header) (k : Bytes)
    → IsCanonical r.header
    → IsCanonical viewer_headers
    → str_eq (canonical_key (codes "Cookie")) k ≡ false
    → lookup k (build_origin_request b r viewer_headers).headers
      ≡ when_kept
          (selects_cloud_front_header b.cache_policy b.origin_request_policy k)
          (lookup k viewer_headers)
          (when_kept
            (not (is_withheld (connection_listed r.header) k)
              && forwards_header b.cache_policy b.origin_request_policy k)
            (lookup k r.header)
            none)
unfolding build_origin_request
lookup-build_origin_request b r viewer_headers k canonical canonical' other =
    lookup-set_cookie
      (filter_cookies b.cache_policy b.origin_request_policy (get r.header (codes "Cookie"))) _ k
      other
    ∙ lookup-copy_where (selects_cloud_front_header b.cache_policy b.origin_request_policy) k
        viewer_headers _ canonical'
    ∙ ap (when_kept _ (lookup k viewer_headers))
        (lookup-copy_where _ k r.header [] canonical ∙ rw (lookup-nil k))
