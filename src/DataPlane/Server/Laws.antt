-- ===== src/DataPlane/Server/Laws.antt =====
-- Which requests reach a distribution at all.
use localfront.Base.{
  ◌≡◌, refl, sym, ap, ◌∙◌, ◌++◌, ◌⊎◌, inl, inr, true, false, List, [], ◌∷◌, some, Bool-cases,
  Option-cases,
}
use localfront.Text.{Bytes, codes}
use localfront.Num.{pos}
use localfront.Net.{host_only}
use localfront.Http.{Header}
use localfront.Http.Request.{Request}
use localfront.Config.{Distribution, Behavior, KeyGroup}
use localfront.Behavior.Select.{select}
use localfront.Sign.{Denial, Verdict, grant, deny}
use localfront.Sign.Message.{denial_message}
use localfront.Sign.Verify.{Instant, verify}
use localfront.DataPlane.Routes.{match_host}
use localfront.DataPlane.Action.{Stage, Reply, fail, write_cf_error, ◌>>=◌, ◌>>◌, after}
use localfront.DataPlane.Serve.{Outside, S, Snapshot, Server, serve, trusted_keys}
use localfront.DataPlane.Server.{
  Outcome, answered, allows_method, serve_distribution, serve_http, ended, barred_method,
  unknown_host,
}

List-cases {ℓ} : {A : Type ℓ} (xs : List A) → (xs ≡ []) ⊎ ((x : A) × (ys : List A) × (xs ≡ x ∷ ys))
List-cases [] = inl refl
List-cases (x ∷ xs) = inr (x, xs, refl)

Verdict-cases : (v : Verdict (Unit {0})) → (v ≡ grant tt) ⊎ ((d : Denial) × (v ≡ deny d))
Verdict-cases (grant tt) = inl refl
Verdict-cases (deny d) = inr (d, refl)

module _ (o : Outside) (srv : Server) (snap : Snapshot o) (out : Header) (now : Instant)
    (request_id : Bytes) where
  -- The error page 403, with nothing else done.
  unfoldable pub Refused : Request → S o → S o × Outcome → Type 0
  Refused r s done =
      (message : Bytes) × (done ≡ (
        s,
        answered (record {
          response = write_cf_error out (pos 403) request_id message;
          request = r;
          function_generated = false;
        }),
      ))

  -- The keys of the behavior's trusted key groups grant the request, or there are no groups.
  unfoldable pub Granted : Request → Distribution → Behavior → Type 0
  Granted r dist beh =
      (beh.trusted_key_groups ≡ [])
      ⊎ (verify o.platform r (trusted_keys o snap.pub_keys beh.trusted_key_groups) now
            dist.default_root_object srv.public_host
          ≡ grant tt)

  -- The host has a distribution, the behavior of the path has the method, and the signature holds.
  pub record Admitted (r : Request) : Type 0 where
    pub dist : Distribution
    pub matched : match_host snap.routes (host_only r.host) ≡ some dist
    pub allowed : allows_method (select dist r.path).allowed_methods r.method ≡ true
    pub granted : Granted r dist (select dist r.path)

  -- The error page, as an end of a handler.
  abbrev refusal : Request → S o → Bytes → S o × Stage Reply
  refusal r s message = fail out r (pos 403) request_id message s

  serve-deny :
      (r : Request) (s : S o) (dist : Distribution) (beh : Behavior) (kg : KeyGroup)
      (kgs : List KeyGroup) (d : Denial)
      → beh.trusted_key_groups ≡ kg ∷ kgs
      → verify o.platform r
          (trusted_keys o snap.pub_keys beh.trusted_key_groups)
          now
          dist.default_root_object
          srv.public_host
        ≡ deny d
      → serve o srv snap out now dist beh request_id r s
        ≡ refusal r s (codes "Access denied: " ++ denial_message o.phrases r d)
  unfolding serve fail ◌>>=◌ ◌>>◌ after
  serve-deny r s dist beh kg kgs d e h =
      let g : verify o.platform r (trusted_keys o snap.pub_keys (kg ∷ kgs)) now
            dist.default_root_object srv.public_host
          ≡ deny d =
        sym (
          ap
            (λ ks.
              verify o.platform r (trusted_keys o snap.pub_keys ks) now dist.default_root_object
                srv.public_host)
            e)
        ∙ h in
      rw (e, g)

  serve-Granted :
      (r : Request) (s : S o) (dist : Distribution) (beh : Behavior)
      → Granted r dist beh
        ⊎ (message : Bytes) × (serve o srv snap out now dist beh request_id r s
            ≡ refusal r s message)
  unfolding Granted
  serve-Granted r s dist beh = elim (List-cases beh.trusted_key_groups) [
    | inl e ↦ inl (inl e)
    | inr (kg, kgs, e) ↦
        elim (Verdict-cases (
          verify o.platform r (trusted_keys o snap.pub_keys beh.trusted_key_groups) now
            dist.default_root_object srv.public_host)) [
              | inl g ↦ inl (inr g)
              | inr (d, h) ↦ inr (_, serve-deny r s dist beh kg kgs d e h)
            ]
  ]

  refused :
      (r : Request) (s : S o) (message : Bytes) (done : S o × Stage Reply)
      → done ≡ refusal r s message
      → Refused r s (ended done)
  unfolding Refused fail
  refused r s message done h = (message, ap ended h)

  serve_distribution-Admitted :
      (r : Request) (s : S o) (dist : Distribution)
      → (allows_method (select dist r.path).allowed_methods r.method ≡ true)
          × Granted r dist (select dist r.path)
        ⊎ (message : Bytes) × (serve_distribution o srv snap out now request_id dist r s
            ≡ refusal r s message)
  unfolding serve_distribution
  serve_distribution-Admitted r s dist =
      elim (Bool-cases (allows_method (select dist r.path).allowed_methods r.method)) [
        | inl allowed ↦ elim (serve-Granted r s dist (select dist r.path)) [
          | inl granted ↦ inl (allowed, granted)
          | inr (message, h) ↦ inr (message, rw allowed h)
        ]
        | inr barred ↦ inr (barred_method, rw barred)
      ]

  -- For every request to ServeHTTP, either the host matches a distribution, the behavior that
  -- Select gives for the path allows the method, and that behavior has no trusted key groups
  -- or Verify grants the request under their keys; or the answer is the error page with status
  -- 403, and neither an origin nor a function is called.
  pub serve_http-Admitted :
      (r : Request) (s : S o)
      → Admitted r ⊎ Refused r s (serve_http o srv snap out now request_id r s)
  unfolding serve_http
  serve_http-Admitted r s = elim (Option-cases (match_host snap.routes (host_only r.host))) [
    | inl unknown ↦ inr (refused r s unknown_host _ (rw unknown))
    | inr (dist, matched) ↦ elim (serve_distribution-Admitted r s dist) [
      | inl (allowed, granted) ↦
          inl (record { dist = dist; matched = matched; allowed = allowed; granted = granted })
      | inr (message, h) ↦ inr (refused r s message _ (rw matched h))
    ]
  ]
