-- ===== src/DataPlane/Headers/Laws.antt =====
-- The header helpers (internal/dataplane/headers.go, proxy.go), name by name.
use localfront.Base.{
  Bool, filter, not, ◌&&◌, ◌≡◌, refl, ap, map, true, false, ◌||◌, List, [], ◌∷◌, arith, any,
  if◌then◌else◌, Bool-cases, inl, inr,
}
use localfront.Text.{Bytes, codes, is_empty, split, text_ops}
use localfront.Http.{Header, canonical_key, lookup, put, values, get, set, del, values_of, http_ops}
use localfront.Http.Laws.{same_name, same_name_iff, values-del, values-set, lookup-put}
use localfront.Config.{OriginCustomHeader}
use localfront.DataPlane.Headers.{
  trim_string, del_all, connection_options, hop_by_hop_headers, remove_hop_by_hop_headers,
  assign_all, forward_one, forward_names, add_always_forwarded_headers, always_forwarded_headers,
  set_custom_headers,
}

pub values-del_all :
    (ns : List Bytes) (h : Header) (m : Bytes)
    → values (del_all ns h) m ≡ (if any (λ n. same_name n m) ns then [] else values h m)
unfolding del_all
values-del_all [] h m = refl
values-del_all (n ∷ ns) h m = ground (arith, values-del_all ns (del h n) m, values-del h n m)

-- The headers that belong to one connection (RFC 9110), with what older proxies send.
abbrev pub hop_by_hop_names : List Bytes
hop_by_hop_names =
    codes "Connection"
    ∷ codes "Proxy-Connection"
    ∷ codes "Keep-Alive"
    ∷ codes "Proxy-Authenticate"
    ∷ codes "Proxy-Authorization"
    ∷ codes "TE"
    ∷ codes "Trailer"
    ∷ codes "Transfer-Encoding"
    ∷ codes "Upgrade"
    ∷ []

-- One of the parts between the commas of `line` is the name `m`, in any case.
abbrev pub lists_name : Bytes → Bytes → Bool
lists_name line m =
    any (λ part. not (is_empty (trim_string part)) && same_name (trim_string part) m)
      (split line b',')

any-options :
    (m : Bytes) (parts : List Bytes)
    → any (λ n. same_name n m) (filter (λ f. not (is_empty f)) (map trim_string parts))
      ≡ any (λ part. not (is_empty (trim_string part)) && same_name (trim_string part) m) parts
any-options m [] = refl
any-options m (part ∷ parts) = ground (arith, any-options m parts)

any-hop_by_hop :
    (m : Bytes)
    → any (λ n. same_name n m) hop_by_hop_headers ≡ any (λ n. same_name n m) hop_by_hop_names
unfolding hop_by_hop_headers http_ops text_ops
any-hop_by_hop m = refl

-- Behind removeHopByHopHeaders a header is gone if its name, in any case, is Connection,
-- Proxy-Connection, Keep-Alive, Proxy-Authenticate, Proxy-Authorization, TE, Trailer,
-- Transfer-Encoding or Upgrade, or is listed in the first line of the Connection header, and
-- else has the values it had.
pub values-remove_hop_by_hop_headers :
    (h : Header) (m : Bytes)
    → values (remove_hop_by_hop_headers h) m ≡ (
        if any (λ n. same_name n m) hop_by_hop_names || lists_name (get h (codes "Connection")) m
        then []
        else values h m)
unfolding remove_hop_by_hop_headers connection_options
values-remove_hop_by_hop_headers h m = ground (
  arith,
  values-del_all hop_by_hop_headers (del_all (connection_options h) h) m,
  values-del_all (connection_options h) h m,
  any-options m (split (get h (codes "Connection")) b','),
  any-hop_by_hop m,
)

values-put :
    (n m : Bytes) (vs : List Bytes) (h : Header)
    → values (put (canonical_key n) vs h) m ≡ (if same_name n m then vs else values h m)
unfolding values
values-put n m vs h = ground (arith, lookup-put (canonical_key n) (canonical_key m) vs h)

abbrev pub or_else : List Bytes → List Bytes → List Bytes
or_else [] ws = ws
or_else (v ∷ vs) ws = v ∷ vs

values-forward_one :
    (n m : Bytes) (vs : List Bytes) (dst : Header)
    → values (forward_one n vs dst) m
      ≡ (if same_name n m then or_else vs (values dst m) else values dst m)
values-forward_one n m [] dst = ground arith
values-forward_one n m (v ∷ vs) dst = values-put n m (v ∷ vs) dst

values_same : (src : Header) (n m : Bytes) → same_name n m ≡ true → values src n ≡ values src m
unfolding values
values_same src n m h = ap (λ k. values_of (lookup k src)) ((same_name_iff n m).0 h)

or_else_idem : (vs ws : List Bytes) → or_else vs (or_else vs ws) ≡ or_else vs ws
or_else_idem [] ws = refl
or_else_idem (v ∷ vs) ws = refl

values-forward_names :
    (ns : List Bytes) (src dst : Header) (m : Bytes)
    → values (forward_names ns src dst) m ≡ (
        if any (λ n. same_name n m) ns then or_else (values src m) (values dst m) else values dst m)
unfolding forward_names
values-forward_names [] src dst m = refl
values-forward_names (n ∷ ns) src dst m =
    let later = values-forward_names ns src (forward_one n (values src n) dst) m in
    let here = values-forward_one n m (values src n) dst in
    elim (Bool-cases (same_name n m)) [
      | inl e ↦
          let same = values_same src n m e in
          ground (arith, later, here, same, or_else_idem (values src m) (values dst m))
      | inr e ↦ ground (arith, later, here)
    ]

-- A header that `addAlwaysForwardedHeaders` is about has the viewer's values, if the viewer sent some,
-- and any other is left alone.
pub values-add_always_forwarded_headers :
    (src dst : Header) (m : Bytes)
    → values (add_always_forwarded_headers src dst) m ≡ (
        if any (λ n. same_name n m) always_forwarded_headers
        then or_else (values src m) (values dst m)
        else values dst m)
unfolding add_always_forwarded_headers
values-add_always_forwarded_headers src dst m =
    values-forward_names always_forwarded_headers src dst m

lookup-assign_all : (src : Header) (k : Bytes) → lookup k (assign_all src []) ≡ lookup k src
unfolding assign_all lookup
lookup-assign_all [] k = refl
lookup-assign_all ((name, vs) ∷ src) k =
    ground (arith, lookup-put name k vs (assign_all src []), lookup-assign_all src k)

pub values-assign_all : (src : Header) (m : Bytes) → values (assign_all src []) m ≡ values src m
unfolding values
values-assign_all src m = ap values_of (lookup-assign_all src (canonical_key m))

pub values-set_custom_headers :
    (cs : List OriginCustomHeader) (h : Header) (m : Bytes)
    → any (λ n. same_name n m) (map (λ c. c.name) cs) ≡ false
    → values (set_custom_headers cs h) m ≡ values h m
unfolding set_custom_headers
values-set_custom_headers [] h m others = refl
values-set_custom_headers (c ∷ cs) h m others =
    ground
      (arith, values-set_custom_headers cs (set h c.name c.value) m, values-set h c.name m c.value)
