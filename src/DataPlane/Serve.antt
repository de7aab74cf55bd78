-- ===== src/DataPlane/Serve.antt =====
-- `serve` of internal/dataplane/pipeline.go: a request for a behavior of a distribution. Logging is
-- left out, and so is the closing of bodies.
pub mod Answer
pub mod Laws
pub mod Total
use localfront.Base.{
  Bool, true, false, not, ◌&&◌, List, [], ◌∷◌, ◌++◌, Option, none, some, if◌then◌else◌,
}
use localfront.Text.{Bytes, codes}
use localfront.Text.Map.{StrMap, lookup}
use localfront.Num.{ℤ, pos, lt_ℤ}
use localfront.Http.{Header, get}
use localfront.Http.Request.{Request}
use localfront.Config.{Distribution, Behavior, Function, KeyGroup, PublicKey}
use localfront.Behavior.Viewer.{synthesize_viewer_headers}
use localfront.Behavior.Forward.{build_origin_request}
use localfront.Behavior.Response.{apply_response_headers}
use localfront.Sign.{Platform, Verdict, grant, deny}
use localfront.Sign.Verify.{Instant, Key, verify}
use localfront.Sign.Message.{Phrases, denial_message}
use localfront.Cffunc.Execution.{Engine}
use localfront.DataPlane.Origin.{Network, OriginResponse}
use localfront.DataPlane.Fetch.{fetch_origin, apply_error_response}
use localfront.DataPlane.Routes.{RouteTable}
use localfront.DataPlane.Write.{Compressor, ViewerResponse, write_response}
use localfront.DataPlane.Action.{
  Stage, next, Action, ◌>>=◌, ◌>>◌, Reply, return, fail, or_else_do, panic, invalid_status,
}
use localfront.DataPlane.Functions.{Env, Decision, run_viewer_request, run_viewer_response}

-- What the server calls outside of it.
pub record Outside : Type 1 where
  pub net : Network
  pub eng : Engine
  pub platform : Platform
  pub phrases : Phrases
  pub compressor : Compressor

-- The fields of `Server` that do not change while it serves; `has_store` tells whether `s3` is set.
pub record Server : Type 0 where
  pub has_store : Bool
  pub public_host : Bytes

module _ (o : Outside) where
  abbrev pub S : Type 0
  S = Env o.net o.eng

  abbrev pub RsaKey : Type 0
  RsaKey = o.platform.RsaKey

  -- `snapshot`; a map that is nil is `none`.
  pub record Snapshot : Type 0 where
    pub routes : RouteTable
    pub funcs : Option (StrMap o.eng.Program)
    pub pub_keys : Option (StrMap RsaKey)

  abbrev pub key_of : Option (StrMap RsaKey) → PublicKey → Option RsaKey
  key_of none pk = none
  key_of (some keys) pk = lookup pk.id keys

  abbrev pub add_key : Bytes → Option RsaKey → List (Key o.platform) → List (Key o.platform)
  add_key id none keys = keys
  add_key id (some rsa) keys = record { id = id; rsa = rsa } ∷ keys

  unfoldable pub group_keys :
      Option (StrMap RsaKey) → List PublicKey → List (Key o.platform) → List (Key o.platform)
  group_keys known [] rest = rest
  group_keys known (pk ∷ pks) rest = add_key pk.id (key_of known pk) (group_keys known pks rest)

  -- `trustedKeys`
  unfoldable pub trusted_keys : Option (StrMap RsaKey) → List KeyGroup → List (Key o.platform)
  trusted_keys known [] = []
  trusted_keys known (kg ∷ kgs) = group_keys known kg.keys (trusted_keys known kgs)

  module _ (srv : Server) (snap : Snapshot) (out : Header) (now : Instant) (dist : Distribution)
      (beh : Behavior) (request_id : Bytes) where
    -- the 403 of a denied signature
    abbrev pub on_verdict : Request → Verdict (Unit {0}) → Action S (Unit {0})
    on_verdict r (grant _) = return tt
    on_verdict r (deny d) =
        fail out r (pos 403) request_id (codes "Access denied: " ++ denial_message o.phrases r d)

    abbrev pub check_signed : List KeyGroup → Request → Action S (Unit {0})
    check_signed [] r = return tt
    check_signed (kg ∷ kgs) r = on_verdict r (
        verify o.platform r (trusted_keys snap.pub_keys (kg ∷ kgs)) now dist.default_root_object
          srv.public_host)

    abbrev pub call_viewer_request :
        Option Function → Request → Header → Action S (Decision o.net o.eng)
    call_viewer_request none r viewer_headers = return (r, none)
    call_viewer_request (some fn) r viewer_headers =
        run_viewer_request o.net o.eng out snap.funcs dist request_id (some fn) r viewer_headers

    -- `applyErrorResponse`, where `nil` keeps the origin's response
    abbrev pub applied :
        OriginResponse → o.net.World × Option OriginResponse → o.net.World × OriginResponse
    applied resp (w, none) = (w, resp)
    applied resp (w, some page) = (w, page)

    abbrev pub after_fetch :
        Request → Header → S → o.net.World × Option OriginResponse → S × Stage OriginResponse
    after_fetch r viewer_headers s (w, none) =
        fail out r (pos 502) request_id (codes "localfront wasn't able to connect to the origin.")
          (record s { world = w })
    after_fetch r viewer_headers s (w, some resp) =
        let done =
          applied resp
            (apply_error_response o.net srv.has_store w r dist resp viewer_headers request_id) in
        (record s { world = done.0 }, next done.1)

    -- the fetch from the origin, and the custom error response
    unfoldable pub from_origin : Request → Header → Action S OriginResponse
    from_origin r viewer_headers s = after_fetch r viewer_headers s (
        fetch_origin o.net srv.has_store s.world r dist beh
          (build_origin_request beh r viewer_headers) request_id)

    abbrev pub origin_response : Option OriginResponse → Request → Header → Action S OriginResponse
    origin_response none r viewer_headers = from_origin r viewer_headers
    origin_response (some short_circuit) r viewer_headers = return short_circuit

    -- `resp == nil`
    abbrev pub is_missing : Option OriginResponse → Bool
    is_missing none = true
    is_missing (some _) = false

    abbrev pub call_viewer_response :
        Option Function → Bool → Request → Header → OriginResponse → Action S OriginResponse
    call_viewer_response none runs r viewer_headers resp = return resp
    call_viewer_response (some fn) true r viewer_headers resp =
        run_viewer_response o.net o.eng out snap.funcs dist request_id (some fn) r viewer_headers
          resp
    call_viewer_response (some fn) false r viewer_headers resp = return resp

    abbrev pub with_policy : Request → OriginResponse → OriginResponse
    with_policy r resp = record resp {
      header = apply_response_headers beh resp.header (get r.header (codes "Origin"));
    }

    -- from the decision of the viewer-request function on
    unfoldable pub serve_decision : Header → Decision o.net o.eng → Action S Reply
    serve_decision viewer_headers (r, short_circuit) = do
      fetched ← origin_response short_circuit r viewer_headers
      resp ←
          call_viewer_response beh.viewer_response
            (is_missing short_circuit && lt_ℤ fetched.status_code (pos 400)) r viewer_headers
            (with_policy r fetched)
      written ←
          or_else_do (write_response o.compressor out r dist beh resp request_id)
            (panic (invalid_status resp.status_code))
      return (record {
        response = written;
        request = r;
        function_generated = not (is_missing short_circuit);
      })

    -- `serve`
    unfoldable pub serve : Request → Action S Reply
    serve r = do
      check_signed beh.trusted_key_groups r
      decision ← call_viewer_request beh.viewer_request r (synthesize_viewer_headers r)
      serve_decision (synthesize_viewer_headers r) decision
