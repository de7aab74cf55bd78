-- ===== src/Tests/Samples.antt =====
-- A small configuration and a request for the other tests.
use localfront.Base.{
  ℕ, ◌≡◌, true, false, List, [], ◌∷◌, none, some, arith, ◌==◌, any, all, All, ltb, ◌<◌,
}
use localfront.Text.{Bytes, codes}
use localfront.Text.Split.{Lacks}
use localfront.Num.{pos}
use localfront.Http.{Header}
use localfront.Http.Request.{Request}
use localfront.Config.{
  Config, Distribution, Behavior, Origin, ListSelection, CachePolicy, ResponseHeadersPolicy,
  CorsConfig,
}

-- That a text lacks a byte can be computed.
pub Lacks-of_any : (b : ℕ) (s : Bytes) → any (λ c. c == b) s ≡ false → Lacks b s
Lacks-of_any b [] h = tt
Lacks-of_any b (c ∷ s) h = (ground arith, Lacks-of_any b s (ground arith))

-- That all bytes are in a range can be computed.
pub All-below : (n : ℕ) (s : Bytes) → all (λ c. ltb c n) s ≡ true → All (λ c. c < n) s
All-below n [] h = tt
All-below n (c ∷ s) h = (ground arith, All-below n s (ground arith))

pub All-above : (n : ℕ) (s : Bytes) → all (λ c. ltb n c) s ≡ true → All (λ c. n < c) s
All-above n [] h = tt
All-above n (c ∷ s) h = (ground arith, All-above n s (ground arith))

abbrev pub web : Origin
web = record {
  id = codes "web";
  origin_path = [];
  custom_headers = [];
  custom = some (record {
    host = codes "web.internal";
    http_port = pos 80;
    https_port = pos 443;
    protocol_policy = codes "http-only";
    read_timeout = pos 30000000000;
    keepalive_timeout = pos 5000000000;
  });
  s3 = none;
  connection_attempts = pos 3;
  connection_timeout = pos 10000000000;
}

abbrev pub nothing : ListSelection
nothing = record { behavior = codes "none"; items = [] }

abbrev pub listed : List Bytes → ListSelection
listed items = record { behavior = codes "whitelist"; items = items }

abbrev pub cache : CachePolicy
cache = record {
  id = codes "c1";
  name = codes "cache";
  min_ttl = pos 0;
  default_ttl = pos 86400;
  max_ttl = pos 31536000;
  gzip = true;
  brotli = true;
  headers = listed (codes "Accept" ∷ []);
  cookies = listed (codes "session" ∷ []);
  query_strings = listed (codes "page" ∷ codes "size" ∷ []);
}

abbrev pub cors : CorsConfig
cors = record {
  allow_credentials = false;
  allow_headers = codes "*" ∷ [];
  allow_methods = codes "GET" ∷ [];
  allow_origins = codes "https://app.test" ∷ [];
  expose_headers = [];
  max_age_sec = pos 600;
  has_max_age = true;
  origin_override = true;
}

abbrev pub response_policy : ResponseHeadersPolicy
response_policy = record {
  id = codes "r1";
  name = codes "response";
  cors = some cors;
  custom_headers = record { name = codes "X-Team"; value = codes "edge"; override = true } ∷ [];
  remove_headers = codes "Server" ∷ [];
  security = none;
}

abbrev pub on_path : Bytes → Behavior
on_path pattern = record {
  path_pattern = pattern;
  origin = web;
  viewer_protocol_policy = codes "allow-all";
  allowed_methods = codes "GET" ∷ codes "HEAD" ∷ [];
  cached_methods = codes "GET" ∷ codes "HEAD" ∷ [];
  compress = true;
  cache_policy = some cache;
  origin_request_policy = none;
  response_headers_policy = some response_policy;
  trusted_key_groups = [];
  viewer_request = none;
  viewer_response = none;
}

abbrev pub shop : Distribution
shop = record {
  logical_id = codes "Shop";
  id = codes "E1";
  arn = [];
  domain_name = codes "d1.local";
  aliases = codes "shop.test" ∷ codes "*.shop.test" ∷ [];
  enabled = true;
  default_root_object = codes "index.html";
  origins = web ∷ [];
  default_behavior = on_path [];
  behaviors = on_path (codes "/img/*.png") ∷ on_path (codes "/api/*") ∷ [];
  error_responses = [];
}

abbrev pub config : Config
config = record {
  distributions = shop ∷ [];
  functions = [];
  key_value_stores = [];
  key_groups = [];
  public_keys = [];
  origin_access_controls = [];
  warnings = [];
}

abbrev pub viewer_headers : Header
viewer_headers =
    (codes "Accept", codes "text/html" ∷ [])
    ∷ (codes "Cookie", codes "a=1; session=x" ∷ [])
    ∷ (codes "X-Odd", codes "1" ∷ [])
    ∷ []

abbrev pub request_for : Bytes → Bytes → Request
request_for path query = record {
  method = codes "GET";
  path = path;
  raw_path = [];
  raw_query = query;
  request_uri = path;
  proto = codes "HTTP/1.1";
  proto_major = 1;
  proto_minor = 1;
  header = viewer_headers;
  host = codes "shop.test";
  remote_addr = codes "192.0.2.7:4711";
  content_length = pos 0;
  body = [];
}
