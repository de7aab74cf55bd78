-- ===== src/DataPlane/Headers.antt =====
-- The header helpers of internal/dataplane/headers.go and of the origin fetches.
pub mod Laws
use localfront.Base.{
  ℕ, Bool, true, false, not, ◌||◌, ◌&&◌, List, [], ◌∷◌, ◌++◌, reverse, map, filter, Option, none,
  some, ◌==◌, if◌then◌else◌,
}
use localfront.Text.{Bytes, codes, is_empty, split}
use localfront.Http.{Header, canonical_key, put, values, get, set, add, del}
use localfront.Net.{split_host_port}
use localfront.Config.{OriginCustomHeader}

unfoldable pub hop_by_hop_headers : List Bytes
hop_by_hop_headers =
    codes "Connection"
    ∷ codes "Proxy-Connection"
    ∷ codes "Keep-Alive"
    ∷ codes "Proxy-Authenticate"
    ∷ codes "Proxy-Authorization"
    ∷ codes "Te"
    ∷ codes "Trailer"
    ∷ codes "Transfer-Encoding"
    ∷ codes "Upgrade"
    ∷ []

unfoldable pub always_forwarded_headers : List Bytes
always_forwarded_headers =
    codes "Range"
    ∷ codes "If-Match"
    ∷ codes "If-None-Match"
    ∷ codes "If-Modified-Since"
    ∷ codes "If-Unmodified-Since"
    ∷ []

abbrev is_wire_space : ℕ → Bool
is_wire_space c = c == b' ' || c == b'\t' || c == b'\n' || c == b'\r'

trim_wire_left : Bytes → Bytes
trim_wire_left [] = []
trim_wire_left (c ∷ s) = if is_wire_space c then trim_wire_left s else c ∷ s

-- `textproto.TrimString`
unfoldable pub trim_string : Bytes → Bytes
unfolding trim_wire_left
trim_string s = reverse (trim_wire_left (reverse (trim_wire_left s)))

-- `h.Del` for each name
unfoldable pub del_all : List Bytes → Header → Header
del_all [] h = h
del_all (n ∷ ns) h = del_all ns (del h n)

-- the non-empty entries of the `Connection` header
unfoldable pub connection_options : Header → List Bytes
connection_options h =
    filter (λ f. not (is_empty f)) (map trim_string (split (get h (codes "Connection")) b','))

-- `removeHopByHopHeaders`
unfoldable pub remove_hop_by_hop_headers : Header → Header
remove_hop_by_hop_headers h = del_all hop_by_hop_headers (del_all (connection_options h) h)

-- `for name, values := range src { dst[name] = values }`
unfoldable pub assign_all : Header → Header → Header
assign_all [] dst = dst
assign_all ((name, vs) ∷ src) dst = put name vs (assign_all src dst)

-- one round of `addAlwaysForwardedHeaders`
abbrev pub forward_one : Bytes → List Bytes → Header → Header
forward_one name [] dst = dst
forward_one name (v ∷ vs) dst = put (canonical_key name) (v ∷ vs) dst

unfoldable pub forward_names : List Bytes → Header → Header → Header
forward_names [] src dst = dst
forward_names (n ∷ ns) src dst = forward_names ns src (forward_one n (values src n) dst)

-- `addAlwaysForwardedHeaders`, its destination last
unfoldable pub add_always_forwarded_headers : Header → Header → Header
add_always_forwarded_headers src dst = forward_names always_forwarded_headers src dst

-- `for _, h := range o.CustomHeaders { headers.Set(h.Name, h.Value) }`
unfoldable pub set_custom_headers : List OriginCustomHeader → Header → Header
set_custom_headers [] h = h
set_custom_headers (c ∷ cs) h = set_custom_headers cs (set h c.name c.value)

unfoldable pub remote_ip : Bytes → Bytes
remote_ip remote_addr = elim (split_host_port remote_addr) [
  | none ↦ remote_addr
  | some (host, _) ↦ host
]

-- the value that `appendXForwardedFor` sets
unfoldable pub forwarded_for : Bytes → Bytes → Bytes
forwarded_for prior remote_addr =
    if not (is_empty prior)
    then prior ++ (codes ", " ++ remote_ip remote_addr)
    else remote_ip remote_addr

-- `appendXForwardedFor`
unfoldable pub append_x_forwarded_for : Header → Bytes → Bytes → Header
append_x_forwarded_for h prior remote_addr =
    set h (codes "X-Forwarded-For") (forwarded_for prior remote_addr)

-- the value that `addVia` sets
unfoldable pub via_value : Bytes → Bytes → Bytes
via_value existing domain =
    let via = codes "1.1 " ++ (domain ++ codes " (CloudFront)") in
    if not (is_empty existing) then existing ++ (codes ", " ++ via) else via

-- `addVia`
unfoldable pub add_via : Header → Bytes → Header
add_via h domain = set h (codes "Via") (via_value (get h (codes "Via")) domain)
