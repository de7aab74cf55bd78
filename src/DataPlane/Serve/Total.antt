-- ===== src/DataPlane/Serve/Total.antt =====
-- The request pipeline does not panic.
use localfront.Base.{
  ◌≡◌, ◌≢◌, refl, sym, subst, Bool, true, false, List, [], ◌∷◌, Option, none, some, Option-cases,
  inl, inr,
}
use localfront.Text.{Bytes, is_empty, cut_prefix}
use localfront.Num.{ℤ, pos}
use localfront.Http.{Header}
use localfront.Http.Filled.{Filled, Filled-if, Filled-put, Filled-set}
use localfront.Http.Request.{Request}
use localfront.Config.{Distribution, Behavior, KeyGroup, Function}
use localfront.Behavior.Viewer.{
  synthesize_viewer_headers, default_viewer_headers, apply_viewer_overrides, override_one,
}
use localfront.Behavior.Forward.{local_prefix}
use localfront.Behavior.Response.Values.{Filled-apply_response_headers}
use localfront.Sign.{Verdict, grant, deny}
use localfront.Sign.Verify.{Instant}
use localfront.Cffunc.Asked.{new_request_event}
use localfront.Cffunc.{Context, EventRequest, EventResponse, Event, Result}
use localfront.Cffunc.Execution.{execute}
use localfront.Cffunc.Total.{
  Given, Given-ne-none, new_request_event-Given, attach_response-Given, Filled-apply_to_request,
  IsAnswer, parse_output-IsAnswer,
}
use localfront.DataPlane.Origin.{OriginResponse}
use localfront.DataPlane.Fetch.Values.{
  FilledResponse, SendsValues, FilledResponse-fetch_origin, FilledResponse-apply_error_response,
}
use localfront.DataPlane.Action.{Cause, missing_part, invalid_status, fail, panic}
use localfront.DataPlane.Write.{ViewerResponse, is_sendable, write_response}
use localfront.DataPlane.Write.Laws.{write_response-none}
use localfront.DataPlane.Action.Laws.{Ends, Post, Post->>=, Post->>, Post-or_else_do, Post-return}
use localfront.DataPlane.Functions.{
  Decision, run_viewer_request, run_viewer_response, decide, execute_program, function_error,
  attached,
}
use localfront.DataPlane.Serve.{
  Outside, S, Snapshot, Server, serve, serve_decision, check_signed, call_viewer_request,
  on_verdict, from_origin, call_viewer_response, after_fetch, applied,
}
use localfront.DataPlane.Serve.Laws.{not_run}

Filled-override_one :
    (name : Bytes) (vs : List Bytes) (dst : Header)
    → vs ≢ []
    → Filled dst
    → Filled (override_one name vs dst)
unfolding override_one
Filled-override_one name vs dst n f = elim (Option-cases (cut_prefix name local_prefix)) [
  | inl e ↦ rw (override_one, e) f
  | inr (suffix, e) ↦
      rw (override_one, e) (Filled-if (is_empty suffix) _ _ f (Filled-put _ vs dst n f))
]

Filled-apply_viewer_overrides :
    (src dst : Header) → Filled src → Filled dst → Filled (apply_viewer_overrides dst src)
unfolding apply_viewer_overrides
Filled-apply_viewer_overrides [] dst g f = f
Filled-apply_viewer_overrides ((name, vs) ∷ src) dst (n, g) f =
    Filled-apply_viewer_overrides src _ g (Filled-override_one name vs dst n f)

Filled-default_viewer_headers : (r : Request) → Filled (default_viewer_headers r)
unfolding default_viewer_headers
Filled-default_viewer_headers r = Filled-set _ _ _ (
    Filled-set _ _ _ (
      Filled-set _ _ _ (
        Filled-set _ _ _ (
          Filled-set _ _ _ (
            Filled-set _ _ _ (
              Filled-set _ _ _ (
                Filled-set _ _ _ (Filled-set _ _ _ (Filled-set _ _ _ (Filled-set [] _ _ tt))))))))))

pub Filled-synthesize_viewer_headers :
    (r : Request) → Filled r.header → Filled (synthesize_viewer_headers r)
unfolding synthesize_viewer_headers
Filled-synthesize_viewer_headers r f =
    Filled-apply_viewer_overrides r.header _ f (Filled-default_viewer_headers r)

-- The one way in which a handler may panic: with a status that cannot be sent.
abbrev pub IsBadStatus : Cause → Type 0
IsBadStatus missing_part = ⊥
IsBadStatus (invalid_status status) = is_sendable status ≡ false

module _ {S : Type 0} where
  -- Handlers that do not panic in another way.
  abbrev pub safe : Ends S
  safe = record { on_reply = λ _ _. Unit; on_panic = IsBadStatus }

  abbrev pub Any : {A : Type 0} → S → A → Type 0
  Any _ _ = Unit

  pub fail-safe :
      {A : Type 0} (P : S → A → Type 0) (out : Header) (r : Request) (status : ℤ)
      (id message : Bytes) (s : S)
      → Post safe P (fail out r status id message s)
  unfolding Post fail
  fail-safe P out r status id message s = tt

module _ (o : Outside) (sends : SendsValues o.net) (srv : Server) (snap : Snapshot o) (out : Header)
    (now : Instant) (dist : Distribution) (beh : Behavior) (request_id : Bytes) where
  error-safe :
      {A : Type 0} (P : S o → A → Type 0) (r : Request) (t : S o)
      → Post safe P (function_error o.net o.eng out snap.funcs dist request_id r t)
  error-safe P r t = fail-safe P out r (pos 503) request_id _ t

  on_verdict-safe :
      (r : Request) (v : Verdict (Unit {0})) (s : S o)
      → Post safe Any (on_verdict o srv snap out now dist beh request_id r v s)
  on_verdict-safe r (grant _) s = Post-return safe Any tt s tt
  on_verdict-safe r (deny d) s = fail-safe Any out r (pos 403) request_id _ s

  check_signed-safe :
      (kgs : List KeyGroup) (r : Request) (s : S o)
      → Post safe Any (check_signed o srv snap out now dist beh request_id kgs r s)
  check_signed-safe [] r s = Post-return safe Any tt s tt
  check_signed-safe (kg ∷ kgs) r s = on_verdict-safe r _ s

  -- What a program answers, if it answers, is a request or a response.
  abbrev Answers : S o → Option Result → Type 0
  Answers _ outcome = (res : Result) → outcome ≡ some res → IsAnswer o.eng res

  execute_program-safe :
      (program : o.eng.Program) (event : Event) (t : S o)
      → Post safe Answers (execute_program o.net o.eng program event t)
  unfolding Post execute_program execute
  execute_program-safe program event t res h = parse_output-IsAnswer o.eng _ _ res h

  abbrev FilledRequest : S o → Decision o.net o.eng → Type 0
  FilledRequest _ d = Filled d.0.header

  decide-safe :
      (answer : Option EventResponse) (req : Option EventRequest) (r : Request) (t : S o)
      → (answer ≡ none → Given req)
      → Filled r.header
      → Post safe FilledRequest (decide o.net o.eng answer req r t)
  unfolding Post
  decide-safe (some answer) req r t h f = f
  decide-safe none (some req) r t h f = Filled-apply_to_request req r
  decide-safe none none r t h f = let (req, e) = h refl in absurd (cc)

  run_viewer_request-safe :
      (fn : Option Function) (r : Request) (vh : Header) (t : S o)
      → Filled r.header
      → Filled vh
      → Post safe FilledRequest
          (run_viewer_request o.net o.eng out snap.funcs dist request_id fn r vh t)
  unfolding run_viewer_request
  run_viewer_request-safe fn r vh t f g =
      Post-or_else_do safe FilledRequest _ _ _ t (λ _. error-safe _ r t)
        (λ program _.
          Post-or_else_do safe FilledRequest _ _ _ t
            (λ missing. absurd (Given-ne-none _ (new_request_event-Given _ r vh f g) missing))
            (λ event _.
              Post->>= safe Answers FilledRequest _ _ t (execute_program-safe program event t)
                (λ u outcome answers.
                  Post-or_else_do safe FilledRequest _ _ _ u (λ _. error-safe _ r u)
                    (λ (res : Result) is.
                      decide-safe res.response res.request r u (answers res is) f))))

  call_viewer_request-safe :
      (fn : Option Function) (r : Request) (vh : Header) (t : S o)
      → Filled r.header
      → Filled vh
      → Post safe FilledRequest
          (call_viewer_request o srv snap out now dist beh request_id fn r vh t)
  call_viewer_request-safe none r vh t f g = Post-return safe FilledRequest _ t f
  call_viewer_request-safe (some fn) r vh t f g = run_viewer_request-safe (some fn) r vh t f g

  attached-Given :
      (ctx : Context) (r : Request) (vh : Header) (resp : OriginResponse)
      → Filled r.header
      → Filled vh
      → Filled resp.header
      → Given
          (attached o.net o.eng out snap.funcs dist request_id (new_request_event ctx r vh) resp)
  attached-Given ctx r vh resp f g k =
      let (event, e) = new_request_event-Given ctx r vh f g in
      rw e (attach_response-Given event resp.status_code resp.header k)

  run_viewer_response-safe :
      (fn : Option Function) (r : Request) (vh : Header) (resp : OriginResponse) (t : S o)
      → Filled r.header
      → Filled vh
      → Filled resp.header
      → Post safe Any
          (run_viewer_response o.net o.eng out snap.funcs dist request_id fn r vh resp t)
  unfolding run_viewer_response
  run_viewer_response-safe fn r vh resp t f g k =
      Post-or_else_do safe Any _ _ _ t (λ _. error-safe _ r t)
        (λ program _.
          Post-or_else_do safe Any _ _ _ t
            (λ missing. absurd (Given-ne-none _ (attached-Given _ r vh resp f g k) missing))
            (λ event _.
              Post->>= safe Answers Any _ _ t (execute_program-safe program event t) (λ u outcome _.
                Post-or_else_do safe Any _ _ _ u (λ _. error-safe _ r u)
                  (λ (res : Result) _. Post-return safe Any _ u tt))))

  call_viewer_response-safe :
      (fn : Option Function) (runs : Bool) (r : Request) (vh : Header) (resp : OriginResponse)
      (t : S o)
      → Filled r.header
      → Filled vh
      → Filled resp.header
      → Post safe Any
          (call_viewer_response o srv snap out now dist beh request_id fn runs r vh resp t)
  call_viewer_response-safe none runs r vh resp t f g k = Post-return safe Any resp t tt
  call_viewer_response-safe (some fn) false r vh resp t f g k = Post-return safe Any resp t tt
  call_viewer_response-safe (some fn) true r vh resp t f g k =
      run_viewer_response-safe (some fn) r vh resp t f g k

  abbrev FilledFetched : S o → OriginResponse → Type 0
  FilledFetched _ resp = Filled resp.header

  Filled-applied :
      (resp : OriginResponse) (done : o.net.World × Option OriginResponse)
      → Filled resp.header
      → FilledResponse done.1
      → Filled (applied o srv snap out now dist beh request_id resp done).1.header
  Filled-applied resp (w, none) f g = f
  Filled-applied resp (w, some page) f g = g

  after_fetch-safe :
      (r : Request) (vh : Header) (t : S o) (fetched : o.net.World × Option OriginResponse)
      → FilledResponse fetched.1
      → Post safe FilledFetched (after_fetch o srv snap out now dist beh request_id r vh t fetched)
  unfolding Post
  after_fetch-safe r vh t (w, none) f =
      fail-safe {A = OriginResponse} FilledFetched out r (pos 502) request_id _ _
  after_fetch-safe r vh t (w, some resp) f =
      Filled-applied resp _ f (
        FilledResponse-apply_error_response o.net sends srv.has_store w r dist resp vh request_id f)

  from_origin-safe :
      (r : Request) (vh : Header) (t : S o)
      → Post safe FilledFetched (from_origin o srv snap out now dist beh request_id r vh t)
  unfolding from_origin
  from_origin-safe r vh t =
      after_fetch-safe r vh t _
        (FilledResponse-fetch_origin o.net sends srv.has_store t.world r dist beh _ request_id)

  -- Writing a response, or the panic of one that cannot be written.
  bad_status-safe :
      (r : Request) (resp : OriginResponse) (t : S o)
      → write_response o.compressor out r dist beh resp request_id ≡ none
      → Post
          (safe {S = S o})
          (λ (_ : S o) (_ : ViewerResponse). ⊥)
          (panic {A = ViewerResponse} (invalid_status resp.status_code) t)
  unfolding Post
  bad_status-safe r resp t missing =
      write_response-none o.compressor out r dist beh resp request_id missing

  fetched-safe :
      (vh : Header) (r : Request) (t : S o)
      → Filled r.header
      → Filled vh
      → Post safe Any (serve_decision o srv snap out now dist beh request_id vh (r, none) t)
  unfolding serve_decision
  fetched-safe vh r t f g =
      Post->>= safe FilledFetched Any _ _ t (from_origin-safe r vh t) (λ u fetched k.
        Post->>= safe Any Any _ _ u
          (call_viewer_response-safe beh.viewer_response _ r vh _ u f g
            (Filled-apply_response_headers beh _ _ k))
          (λ v resp _.
            Post-or_else_do safe Any _ _ _ v (bad_status-safe r resp v)
              (λ written _. Post-return safe Any _ v tt)))

  answered-safe :
      (vh : Header) (r : Request) (resp : OriginResponse) (t : S o)
      → Post safe Any (serve_decision o srv snap out now dist beh request_id vh (r, some resp) t)
  unfolding serve_decision
  answered-safe vh r resp t =
      Post->>= safe Any Any _ _ t (Post-return safe Any resp t tt) (λ u page _.
        Post->>= safe Any Any _ _ u
          (subst (Post safe Any)
            (sym (not_run o srv snap out now dist beh request_id t r beh.viewer_response r vh _ u))
            (Post-return safe Any _ u tt))
          (λ v policed _.
            Post-or_else_do safe Any _ _ _ v (bad_status-safe r policed v)
              (λ written _. Post-return safe Any _ v tt)))

  serve_decision-safe :
      (vh : Header) (d : Decision o.net o.eng) (t : S o)
      → FilledRequest t d
      → Filled vh
      → Post safe Any (serve_decision o srv snap out now dist beh request_id vh d t)
  serve_decision-safe vh (r, none) t f g = fetched-safe vh r t f g
  serve_decision-safe vh (r, some resp) t f g = answered-safe vh r resp t

  -- A request with a value for each header does not panic.
  pub serve-safe :
      (r : Request) (s : S o)
      → Filled r.header
      → Post safe Any (serve o srv snap out now dist beh request_id r s)
  unfolding serve
  serve-safe r s f =
      let g = Filled-synthesize_viewer_headers r f in
      Post->> safe Any Any _ _ s (check_signed-safe beh.trusted_key_groups r s) (λ t _.
        Post->>= safe FilledRequest Any _ _ t
          (call_viewer_request-safe beh.viewer_request r _ t f g)
          (λ u d k. serve_decision-safe _ d u k g))
