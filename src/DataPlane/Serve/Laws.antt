-- ===== src/DataPlane/Serve/Laws.antt =====
-- Responses that a viewer-request function makes itself.
use localfront.Base.{
  List, [], ◌∷◌, ◌≡◌, refl, ◌∙◌, sym, ap, subst, Bool, true, false, Option, none, some,
}
use localfront.Text.{Bytes, codes}
use localfront.Num.{ℤ, pos}
use localfront.Http.{Header}
use localfront.Http.Request.{Request}
use localfront.Config.{Distribution, Behavior, KeyGroup, Function}
use localfront.Sign.{Verdict, grant, deny}
use localfront.Sign.Verify.{Instant}
use localfront.Cffunc.{EventRequest, EventResponse, Event, Result}
use localfront.Cffunc.Asked.{new_request_event}
use localfront.Cffunc.Execution.{execute}
use localfront.Behavior.Viewer.{synthesize_viewer_headers}
use localfront.DataPlane.Origin.{OriginResponse}
use localfront.DataPlane.Write.{write_response}
use localfront.DataPlane.Action.{next, Cause, Reply, fail, panic}
use localfront.DataPlane.Action.Laws.{Ends, Post, Post->>=, Post->>, Post-or_else_do, Post-return}
use localfront.DataPlane.Functions.{
  lookup_program, func_context, Decision, function_response, run_viewer_request,
  run_viewer_response, decide, execute_program, function_error,
}
use localfront.DataPlane.Serve.{
  Outside, S, Snapshot, Server, serve, serve_decision, check_signed, call_viewer_request,
  with_policy, on_verdict, from_origin, call_viewer_response, after_fetch,
}
use localfront.DataPlane.Serve.Answer.{StandsFor, function_response-StandsFor}

module _ (o : Outside) (srv : Server) (snap : Snapshot o) (out : Header) (now : Instant)
    (dist : Distribution) (beh : Behavior) (request_id : Bytes) where
  -- The viewer-request function of the behavior was run on the event of the request, in the state
  -- of the engine that the request found, and it returned `answer`.
  pub record Returned (s : S o) (r : Request) (answer : EventResponse) : Type 0 where
    pub fn : Function
    pub program : o.eng.Program
    pub event : Event
    pub result : Result
    pub is_associated : beh.viewer_request ≡ some fn
    pub is_compiled : lookup_program o.net o.eng snap.funcs (some fn) ≡ some program
    pub is_event :
        new_request_event
          (func_context dist request_id (codes "viewer-request"))
          r
          (synthesize_viewer_headers r)
        ≡ some event
    pub is_result : (execute o.eng s.engine program event).1 ≡ some result
    pub is_answer : result.response ≡ some answer

  -- The response headers policy is applied to what the function returned, and it is written.
  unfoldable pub IsFunctionResponse : S o → Request → Reply → Type 0
  IsFunctionResponse s r reply =
      (answer : EventResponse) × Returned s r answer
      × ((page : OriginResponse) × StandsFor answer page
          × (write_response o.compressor out r dist beh
                (with_policy o srv snap out now dist beh request_id r page) request_id
              ≡ some reply.response))

  -- What a reply of a function's says of the state behind it.
  abbrev pub Made : S o → Request → S o → Reply → Type 0
  Made s r t reply =
      reply.function_generated ≡ true → (t.world ≡ s.world) × IsFunctionResponse s r reply

  module _ (s : S o) (r : Request) where
    abbrev pub made : Ends (S o)
    made = record { on_reply = Made s r; on_panic = λ _. Unit }

    pub fail-Made :
        {A : Type 0} (P : S o → A → Type 0) (q : Request) (status : ℤ) (message : Bytes) (t : S o)
        → Post made P (fail out q status request_id message t)
    unfolding Post fail
    fail-Made P q status message t h = absurd (cc)

    abbrev Kept : {A : Type 0} → S o → A → Type 0
    Kept t _ = t ≡ s

    on_verdict-Made :
        (v : Verdict (Unit {0}))
        → Post made Kept (on_verdict o srv snap out now dist beh request_id r v s)
    unfolding Post
    on_verdict-Made (grant _) = refl
    on_verdict-Made (deny d) = fail-Made Kept r (pos 403) _ s

    check_signed-Made :
        (kgs : List KeyGroup)
        → Post made Kept (check_signed o srv snap out now dist beh request_id kgs r s)
    unfolding Post
    check_signed-Made [] = refl
    check_signed-Made (kg ∷ kgs) = on_verdict-Made _

    -- a response that is a function's, if there is one
    unfoldable OfFunction : Decision o.net o.eng → Type 0
    OfFunction (q, none) = Unit
    OfFunction (q, some resp) =
        (q ≡ r)
        × ((answer : EventResponse) × Returned s r answer × (resp ≡ function_response answer))

    abbrev Decided : S o → Decision o.net o.eng → Type 0
    Decided t d = (t.world ≡ s.world) × OfFunction d

    function_error-Made :
        {A : Type 0} (P : S o → A → Type 0) (q : Request) (t : S o)
        → Post made P (function_error o.net o.eng out snap.funcs dist request_id q t)
    function_error-Made P q t = fail-Made P q (pos 503) _ t

    panic-Made :
        {A : Type 0} (P : S o → A → Type 0) (cause : Cause) (t : S o) → Post made P (panic cause t)
    unfolding Post
    panic-Made P cause t = tt

    execute_program-Made :
        (program : o.eng.Program) (event : Event) (t : S o)
        → Post made
            (λ u res. (u.world ≡ t.world) × ((execute o.eng t.engine program event).1 ≡ res))
            (execute_program o.net o.eng program event t)
    unfolding Post execute_program
    execute_program-Made program event t = (refl, refl)

    decide-Made :
        (answer : Option EventResponse) (req : Option EventRequest) (t : S o)
        → t.world ≡ s.world
        → ((resp : EventResponse) → answer ≡ some resp → Returned s r resp)
        → Post made Decided (decide o.net o.eng answer req r t)
    unfolding Post OfFunction
    decide-Made (some answer) req t h k = (h, (refl, (answer, k answer refl, refl)))
    decide-Made none (some req) t h k = (h, tt)
    decide-Made none none t h k = tt

    run_viewer_request-Made :
        (fn : Function)
        → beh.viewer_request ≡ some fn
        → Post made Decided (
            run_viewer_request o.net o.eng out snap.funcs dist request_id
              (some fn)
              r
              (synthesize_viewer_headers r)
              s)
    unfolding run_viewer_request
    run_viewer_request-Made fn associated =
        Post-or_else_do made Decided _ _ _ s (λ _. function_error-Made _ r s)
          (λ program compiled.
            Post-or_else_do made Decided _ _ _ s (λ _. panic-Made _ _ s)
              (λ event is_event.
                Post->>= made
                  (λ (u : S o) res.
                    (u.world ≡ s.world) × ((execute o.eng s.engine program event).1 ≡ res))
                  Decided _ _ s (execute_program-Made program event s)
                  (λ u res (k, is_result).
                    Post-or_else_do made Decided _ _ _ u (λ _. function_error-Made _ r u)
                      (λ (result : Result) there.
                        decide-Made result.response result.request u k (λ answer is_answer. record {
                          fn = fn;
                          program = program;
                          event = event;
                          result = result;
                          is_associated = associated;
                          is_compiled = compiled;
                          is_event = is_event;
                          is_result = is_result ∙ there;
                          is_answer = is_answer;
                        })))))

    call_viewer_request-Made :
        (fn : Option Function)
        → beh.viewer_request ≡ fn
        → Post made Decided (
            call_viewer_request o srv snap out now dist beh request_id fn r
              (synthesize_viewer_headers r)
              s)
    unfolding Post OfFunction
    call_viewer_request-Made none e = (refl, tt)
    call_viewer_request-Made (some fn) e = run_viewer_request-Made fn e

    abbrev Any : {A : Type 0} → S o → A → Type 0
    Any _ _ = Unit

    after_fetch-Made :
        (q : Request) (vh : Header) (t : S o) (fetched : o.net.World × Option OriginResponse)
        → Post made Any (after_fetch o srv snap out now dist beh request_id q vh t fetched)
    unfolding Post
    after_fetch-Made q vh t (w, none) = fail-Made Any q (pos 502) _ _
    after_fetch-Made q vh t (w, some resp) = tt

    from_origin-Made :
        (q : Request) (vh : Header) (t : S o)
        → Post made Any (from_origin o srv snap out now dist beh request_id q vh t)
    unfolding from_origin
    from_origin-Made q vh t = after_fetch-Made q vh t _

    run_viewer_response-Made :
        (fn : Option Function) (q : Request) (vh : Header) (resp : OriginResponse) (t : S o)
        → Post made Any
            (run_viewer_response o.net o.eng out snap.funcs dist request_id fn q vh resp t)
    unfolding run_viewer_response
    run_viewer_response-Made fn q vh resp t =
        Post-or_else_do made Any _ _ _ t (λ _. function_error-Made _ q t)
          (λ program _.
            Post-or_else_do made Any _ _ _ t (λ _. panic-Made _ _ t)
              (λ event _.
                Post->>= made
                  (λ (u : S o) res.
                    (u.world ≡ t.world) × ((execute o.eng t.engine program event).1 ≡ res))
                  Any _ _ t (execute_program-Made program event t)
                  (λ u outcome _.
                    Post-or_else_do made Any _ _ _ u (λ _. function_error-Made _ q u)
                      (λ (res : Result) _. Post-return made Any _ u tt))))

    call_viewer_response-Made :
        (fn : Option Function) (runs : Bool) (q : Request) (vh : Header) (resp : OriginResponse)
        (t : S o)
        → Post made Any
            (call_viewer_response o srv snap out now dist beh request_id fn runs q vh resp t)
    call_viewer_response-Made none runs q vh resp t = Post-return made Any resp t tt
    call_viewer_response-Made (some fn) false q vh resp t = Post-return made Any resp t tt
    call_viewer_response-Made (some fn) true q vh resp t =
        run_viewer_response-Made (some fn) q vh resp t

    pub not_run :
        (fn : Option Function) (q : Request) (vh : Header) (resp : OriginResponse) (t : S o)
        → call_viewer_response o srv snap out now dist beh request_id fn false q vh resp t
          ≡ (t, next resp)
    not_run none q vh resp t = refl
    not_run (some fn) q vh resp t = refl

    fetched-Made :
        (vh : Header) (q : Request) (t : S o)
        → Post made
            (Made s r)
            (serve_decision o srv snap out now dist beh request_id vh (q, none) t)
    unfolding serve_decision
    fetched-Made vh q t =
        Post->>= made Any (Made s r) _ _ t (from_origin-Made q vh t) (λ u fetched _.
          Post->>= made Any (Made s r) _ _ u
            (call_viewer_response-Made beh.viewer_response _ q vh _ u)
            (λ v resp _.
              Post-or_else_do made (Made s r) _ _ _ v (λ _. panic-Made _ _ v)
                (λ written _. Post-return made (Made s r) _ v (λ b. absurd (cc)))))

    answered-Made :
        (vh : Header) (resp : OriginResponse) (t : S o)
        → t.world ≡ s.world
        → (answer : EventResponse) × Returned s r answer × (resp ≡ function_response answer)
        → Post made
            (Made s r)
            (serve_decision o srv snap out now dist beh request_id vh (r, some resp) t)
    unfolding serve_decision IsFunctionResponse
    answered-Made vh resp t h (answer, returned, e) =
        Post->>= made (λ u page. (u.world ≡ s.world) × StandsFor answer page) (Made s r) _ _ t
          (Post-return made _ resp t
            (h, subst (StandsFor answer) (sym e) (function_response-StandsFor answer)))
          (λ u page (k, stands).
            Post->>= made
              (λ v policed.
                (v.world ≡ s.world)
                × (policed ≡ with_policy o srv snap out now dist beh request_id r page))
              (Made s r) _ _ u
              (subst (Post made _) (sym (not_run beh.viewer_response r vh _ u))
                (Post-return made _ _ u (k, refl)))
              (λ v policed (l, same).
                Post-or_else_do made (Made s r) _ _ _ v (λ _. panic-Made _ _ v)
                  (λ written is_written. Post-return made (Made s r) _ v (λ _. (
                    l,
                    (
                      answer,
                      returned,
                      (
                        page,
                        stands,
                        ap (λ p. write_response o.compressor out r dist beh p request_id) (sym same)
                            ∙ is_written,
                      ),
                    ),
                  )))))

    serve_decision-Made :
        (vh : Header) (d : Decision o.net o.eng) (t : S o)
        → Decided t d
        → Post made (Made s r) (serve_decision o srv snap out now dist beh request_id vh d t)
    unfolding OfFunction
    serve_decision-Made vh (q, none) t (h, _) = fetched-Made vh q t
    serve_decision-Made vh (q, some resp) t (h, (same, of_function)) =
        subst
          (λ p.
            Post made (Made s r)
              (serve_decision o srv snap out now dist beh request_id vh (p, some resp) t))
          (sym same) (answered-Made vh resp t h of_function)

    pub serve-Made : Post made (Made s r) (serve o srv snap out now dist beh request_id r s)
    unfolding serve
    serve-Made =
        Post->> made Kept (Made s r) _ _ s (check_signed-Made beh.trusted_key_groups) (λ t h.
          Post->>= made Decided (Made s r) _ _ t
            (subst
              (λ u. Post made Decided (
                call_viewer_request o srv snap out now dist beh request_id beh.viewer_request r
                  (synthesize_viewer_headers r) u))
              (sym h) (call_viewer_request-Made beh.viewer_request refl))
            (λ u d k. serve_decision-Made _ d u k))
