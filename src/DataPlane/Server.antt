-- ===== src/DataPlane/Server.antt =====
-- The server of internal/dataplane/dataplane.go: snapshots and `ServeHTTP`, and the record of a reply
-- for the access log (`emitAccessLog` of internal/dataplane/access.go).
pub mod Laws
pub mod Total
pub mod Generated
use localfront.Base.{
  ℕ, Bool, true, false, not, List, [], ◌∷◌, Option, none, some, if◌then◌else◌, any, length,
}
use localfront.Text.{Bytes, codes, str_eq, is_empty}
use localfront.Text.Map.{StrMap, put}
use localfront.Num.{pos}
use localfront.Net.{host_only}
use localfront.Http.{Header}
use localfront.Http.Request.{Request}
use localfront.Config.{Config, Distribution, Behavior, PublicKey}
use localfront.Behavior.Select.{select}
use localfront.Sign.Verify.{Instant}
use localfront.AccessLog.{TimeFormat, Entry}
use localfront.DataPlane.Routes.{build_routes, match_host}
use localfront.DataPlane.Access.{
  Std, AccessRecorder, new_access_recorder, count_read, mark_function_generated, write_header,
  write_body, build_access_entry,
}
use localfront.DataPlane.Action.{Stage, next, replied, panicked, Cause, Action, Reply, fail}
use localfront.DataPlane.Serve.{Outside, S, RsaKey, Snapshot, Server, serve}

-- `allowsMethod`
unfoldable pub allows_method : List Bytes → Bytes → Bool
allows_method methods method = any (λ m. str_eq m method) methods

-- How `ServeHTTP` ends.
pub data Outcome : Type 0 where
  answered : Reply → Outcome
  crashed : Cause → Outcome

abbrev pub outcome : Stage Reply → Outcome
outcome (next reply) = answered reply
outcome (replied reply) = answered reply
outcome (panicked cause) = crashed cause

abbrev pub ended : {S : Type 0} → S × Stage Reply → S × Outcome
ended (s, stage) = (s, outcome stage)

abbrev pub barred_method : Bytes
barred_method =
    codes
      "This distribution is not configured to allow the HTTP request method that was used for this request."

abbrev pub unknown_host : Bytes
unknown_host = codes "The request could not be satisfied: no distribution matches the Host header."

module _ (o : Outside) where
  abbrev pub put_key : Bytes → Option (RsaKey o) → StrMap (RsaKey o) → StrMap (RsaKey o)
  put_key id none keys = keys
  put_key id (some key) keys = put id key keys

  -- the loop of `parsePublicKeys`; `parse` stands for `ParsePublicKey` of internal/sign/sign.go.
  unfoldable pub parse_keys_into :
      (Bytes → Option (RsaKey o)) → List PublicKey → StrMap (RsaKey o) → StrMap (RsaKey o)
  parse_keys_into parse [] keys = keys
  parse_keys_into parse (pk ∷ pks) keys =
      parse_keys_into parse pks (put_key pk.id (parse pk.encoded_key) keys)

  -- `parsePublicKeys`
  unfoldable pub parse_public_keys :
      (Bytes → Option (RsaKey o)) → List PublicKey → Option (StrMap (RsaKey o))
  parse_public_keys parse [] = none
  parse_public_keys parse (pk ∷ pks) = some (parse_keys_into parse (pk ∷ pks) [])

  -- `Swap`
  unfoldable pub swap :
      (Bytes → Option (RsaKey o)) → Config → Option (StrMap o.eng.Program) → Snapshot o
  swap parse cfg funcs = record {
    routes = build_routes cfg;
    funcs = funcs;
    pub_keys = parse_public_keys parse cfg.public_keys;
  }

  module _ (srv : Server) (snap : Snapshot o) (out : Header) (now : Instant)
      (request_id : Bytes) where
    -- a request for a distribution
    unfoldable pub serve_distribution : Distribution → Request → Action (S o) Reply
    serve_distribution dist r =
        if not (allows_method (select dist r.path).allowed_methods r.method)
        then fail out r (pos 403) request_id barred_method
        else serve o srv snap out now dist (select dist r.path) request_id r

    abbrev pub serve_matched : Option Distribution → Request → Action (S o) Reply
    serve_matched none r = fail out r (pos 403) request_id unknown_host
    serve_matched (some dist) r = serve_distribution dist r

    -- `ServeHTTP`
    unfoldable pub serve_http : Request → S o → S o × Outcome
    serve_http r s = ended (serve_matched (match_host snap.routes (host_only r.host)) r s)

module _ (fmt : TimeFormat) (std : Std fmt) where
  abbrev pub marked : Bool → AccessRecorder fmt std → AccessRecorder fmt std
  marked true rec = mark_function_generated fmt std rec
  marked false rec = rec

  -- The Writes of a body, of which the writer that is wrapped reports that it took `taken` bytes.
  abbrev pub copied : Bytes → ℕ → fmt.Time → AccessRecorder fmt std → AccessRecorder fmt std
  copied [] taken at rec = rec
  copied (c ∷ body) taken at rec = write_body fmt std rec taken at

  -- The recorder of a request of which `read` bytes of the body were read, and whose response was
  -- written `at` one time, `taken` bytes of its body.
  unfoldable pub recorded : Request → Reply → ℕ → ℕ → fmt.Time → fmt.Time → AccessRecorder fmt std
  recorded r reply read taken start at =
      let begun = new_access_recorder fmt std reply.response.header start r in
      let served = marked reply.function_generated (count_read fmt std begun read) in
      copied reply.response.body taken at (write_header fmt std served reply.response.status at)

  -- the entry that `emitAccessLog` writes
  unfoldable pub log_entry :
      Request → Reply → ℕ → ℕ → fmt.Time → fmt.Time → fmt.Time → Bytes → Entry fmt
  log_entry r reply read taken start at end request_id =
      build_access_entry fmt std reply.request (recorded r reply read taken start at) request_id end
