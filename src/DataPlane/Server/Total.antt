-- ===== src/DataPlane/Server/Total.antt =====
-- Every request gets an answer.
use localfront.Base.{◌≡◌, refl, ◌⊎◌, ◌&&◌, false, Option, none, some, Bool-cases, inl, inr}
use localfront.Text.{Bytes}
use localfront.Net.{host_only}
use localfront.Num.{ℤ, pos, le_ℤ}
use localfront.DataPlane.Write.{is_sendable}
use localfront.Http.{Header}
use localfront.Http.Filled.{Filled}
use localfront.Http.Request.{Request}
use localfront.Config.{Distribution}
use localfront.Behavior.Select.{select}
use localfront.Sign.Verify.{Instant}
use localfront.DataPlane.Routes.{match_host}
use localfront.DataPlane.Fetch.Values.{SendsValues}
use localfront.DataPlane.Action.{
  Stage, next, replied, panicked, missing_part, invalid_status, Reply,
}
use localfront.DataPlane.Action.Laws.{Post}
use localfront.DataPlane.Serve.{Outside, S, Snapshot, Server}
use localfront.DataPlane.Serve.Total.{safe, Any, fail-safe, serve-safe}
use localfront.DataPlane.Server.{
  Outcome, answered, crashed, allows_method, serve_distribution, serve_matched, serve_http, ended,
  barred_method, unknown_host,
}

-- An answer, or the panic of `WriteHeader` at a status that is not between 100 and 999.
abbrev pub Answers : Outcome → Type 0
Answers out =
    ((reply : Reply) × (out ≡ answered reply))
    ⊎ ((status : ℤ) × (out ≡ crashed (invalid_status status))
        × (le_ℤ (pos 100) status && le_ℤ status (pos 999) ≡ false))

ended-Answers :
    {S : Type 0} (done : S × Stage Reply) → Post (safe {S = S}) Any done → Answers (ended done).1
unfolding Post
ended-Answers (s, next reply) h = inl (reply, refl)
ended-Answers (s, replied reply) h = inl (reply, refl)
ended-Answers (s, panicked missing_part) h = absurd h
ended-Answers (s, panicked (invalid_status status)) h = inr (status, refl, unfold is_sendable in h)

module _ (o : Outside) (sends : SendsValues o.net) (srv : Server) (snap : Snapshot o) (out : Header)
    (now : Instant) (request_id : Bytes) where
  serve_distribution-safe :
      (dist : Distribution) (r : Request) (s : S o)
      → Filled r.header
      → Post safe Any (serve_distribution o srv snap out now request_id dist r s)
  unfolding serve_distribution
  serve_distribution-safe dist r s f =
      elim (Bool-cases (allows_method (select dist r.path).allowed_methods r.method)) [
        | inl allowed ↦
            rw allowed
              (serve-safe o sends srv snap out now dist (select dist r.path) request_id r s f)
        | inr barred ↦ rw barred (fail-safe Any out r (pos 403) request_id barred_method s)
      ]

  serve_matched-safe :
      (m : Option Distribution) (r : Request) (s : S o)
      → Filled r.header
      → Post safe Any (serve_matched o srv snap out now request_id m r s)
  serve_matched-safe none r s f = fail-safe Any out r (pos 403) request_id unknown_host s
  serve_matched-safe (some dist) r s f = serve_distribution-safe dist r s f

  -- Where every header of the request and of what the network sends has a value, ServeHTTP
  -- answers, or WriteHeader panics at a status that is not between 100 and 999: no index is
  -- out of range and no missing half of a function's result is used, whatever the functions
  -- return.
  pub serve_http-Answers :
      (r : Request) (s : S o)
      → Filled r.header
      → Answers (serve_http o srv snap out now request_id r s).1
  unfolding serve_http
  serve_http-Answers r s f =
      ended-Answers _ (serve_matched-safe (match_host snap.routes (host_only r.host)) r s f)
