-- ===== src/Tests/Serving.antt =====
-- Requests to the server, with a function that answers /hello itself.
use localfront.Base.{
  ℕ, ◌≡◌, refl, true, false, [], ◌∷◌, none, some, ◌⊎◌, inl, inr, Bool-cases, arith, subst,
}
use localfront.Text.{Bytes, codes, str_eq, text_ops}
use localfront.Text.Laws.{str_eq_iff}
use localfront.Text.Map.{lookup}
use localfront.Num.{pos}
use localfront.Http.{http_ops, values}
use localfront.Http.Request.{Request}
use localfront.Config.{Config, Function}
use localfront.Sign.Verify.{unix}
use localfront.Cffunc.{EventResponse, ResponseCookie}
use localfront.Cffunc.Asked.{fields_to_header}
use localfront.Cffunc.Answered.{set_cookies_to_map, http_headers}
use localfront.Cffunc.Cookies.{IsCookie, set_cookies_to_map-http_headers}
use localfront.Cffunc.Execution.{Engine}
use localfront.DataPlane.Action.{Reply}
use localfront.DataPlane.Serve.{Outside, S, Snapshot, Server}
use localfront.DataPlane.Server.{Outcome, answered, crashed, swap, serve_http}
use localfront.DataPlane.Server.Laws.{Admitted, Refused, serve_http-Admitted}
use localfront.DataPlane.Server.Total.{Answers, serve_http-Answers}
use localfront.Tests.Samples.{shop, config, request_for, on_path, Lacks-of_any}
use localfront.Tests.Signing.{toy}
use localfront.Tests.Origins.{counting}
use localfront.Tests.Writing.{fixed}

abbrev seven : ResponseCookie
seven = record { value = codes "7"; attributes = codes "Path=/" }

abbrev hello : EventResponse
hello = record {
  status_code = pos 200;
  status_description = [];
  headers = [];
  cookies = (codes "id", seven) ∷ [];
  body = none;
}

abbrev engine : Engine
engine = record {
  State = ℕ;
  Program = Bytes;
  run = λ s program event. (s, some program);
  decode_response = λ out. some hello;
  decode_request = λ out. none;
  decode_keys = λ out. some (codes "statusCode" ∷ []);
}

abbrev outside : Outside
outside = record {
  net = counting;
  eng = engine;
  platform = toy;
  phrases = record { quoted = λ s. s; policy_fault = λ r. [] };
  compressor = fixed;
}

abbrev function : Function
function = record {
  logical_id = codes "Fn";
  name = codes "fn";
  arn = [];
  runtime = codes "cloudfront-js-2.0";
  source = codes "x";
  key_value_stores = [];
}

abbrev answering : Config
answering = record config {
  distributions =
      record shop {
        default_behavior = record (on_path []) { viewer_request = some function; compress = false };
        behaviors = [];
      }
      ∷ [];
}

abbrev snapshot : Snapshot outside
snapshot = swap outside (λ pem. none) answering (some ((codes "Fn", codes "code") ∷ []))

abbrev server : Server
server = record { has_store = false; public_host = [] }

abbrev start : S outside
start = record { world = 0; engine = 0 }

abbrev greeting : Request
greeting = request_for (codes "/hello") []

serve_http-Admitted_example :
    Admitted outside server snapshot [] (unix (pos 1000)) (codes "r1") greeting
    ⊎ Refused outside server snapshot []
        (unix (pos 1000))
        (codes "r1")
        greeting
        start
        (serve_http outside server snapshot [] (unix (pos 1000)) (codes "r1") greeting start)
serve_http-Admitted_example =
    serve_http-Admitted outside server snapshot [] (unix (pos 1000)) (codes "r1") greeting start

abbrev reply : Reply
reply = record {
  response = record { status = pos 404; header = []; body = codes "gone" };
  request = greeting;
  function_generated = true;
}

abbrev run : S outside × Outcome
run = serve_http outside server snapshot [] (unix (pos 1000)) (codes "r1") greeting start

abbrev reply_of : Outcome → Reply
reply_of (crashed cause) = reply
reply_of (answered q) = q

serve_http-Answers_example :
    Answers (serve_http outside server snapshot [] (unix (pos 1000)) (codes "r1") greeting start).1
serve_http-Answers_example =
    serve_http-Answers outside (record { transport = λ w out. tt; store = λ w q. tt }) server
      snapshot [] (unix (pos 1000)) (codes "r1") greeting start (cc, (cc, (cc, tt)))

id-IsCookie : IsCookie (codes "id") seven
unfolding text_ops
id-IsCookie = record {
  nonempty = refl;
  name_solid = (refl, (refl, tt));
  name_whole = Lacks-of_any b'=' (codes "id") refl;
  name_plain = Lacks-of_any b';' (codes "id") refl;
  value_solid = (refl, tt);
  value_plain = Lacks-of_any b';' (codes "7") refl;
  trimmed = refl;
}

lookup-hello :
    (k : Bytes) (c : ResponseCookie)
    → lookup k hello.cookies ≡ some c
    → (codes "id" ≡ k) × (seven ≡ c)
unfolding lookup
lookup-hello k c h = elim (Bool-cases (str_eq (codes "id") k)) [
  | inl e ↦ ((str_eq_iff (codes "id") k).0 e, ground arith)
  | inr e ↦ absurd (ground arith)
]

hello-IsCookie : (k : Bytes) (c : ResponseCookie) → lookup k hello.cookies ≡ some c → IsCookie k c
hello-IsCookie k c h =
    let (p, q) = lookup-hello k c h in
    subst (λ n. IsCookie n c) p (subst (IsCookie (codes "id")) q id-IsCookie)

set_cookies_to_map-http_headers_example :
    lookup (codes "id") (set_cookies_to_map (values (http_headers hello) (codes "Set-Cookie")))
    ≡ lookup (codes "id") hello.cookies
set_cookies_to_map-http_headers_example =
    set_cookies_to_map-http_headers hello (codes "id") hello-IsCookie
      (unfold fields_to_header http_ops in refl)
