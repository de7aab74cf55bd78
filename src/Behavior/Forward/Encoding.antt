-- ===== src/Behavior/Forward/Encoding.antt =====
-- `normalizeAcceptEncoding` (internal/behavior/forward.go) against the encodings that a value accepts.
use localfront.Base.{
  ◌≡◌, ◌≢◌, ap, ◌∙◌, List, [], ◌∷◌, any, refl, true, false, Bool, not, ◌&&◌, ◌||◌, ◌++◌, Option,
  arith, if◌then◌else◌,
}
use localfront.Text.{Bytes, codes, join, split, str_eq, to_lower, text_ops}
use localfront.Config.{CachePolicy, OriginRequestPolicy}
use localfront.Behavior.Forward.{on, when, accepts, encoding_token, normalize_accept_encoding}

abbrev enabled : Bool → Bool → Bytes
enabled g b = join (when g (codes "gzip") ++ when b (codes "br")) (codes ", ")

-- The value that offers gzip, Brotli, both or nothing.
abbrev pub offer : Bool → Bool → Bytes
offer true true = codes "gzip, br"
offer true false = codes "gzip"
offer false true = codes "br"
offer false false = []

enabled-offer : (g b : Bool) → enabled g b ≡ offer g b
unfolding join
enabled-offer true true = refl
enabled-offer true false = refl
enabled-offer false true = refl
enabled-offer false false = refl

not-empty : (name : Bytes) → name ≢ [] → str_eq [] name ≡ false
unfolding str_eq
not-empty [] n = absurd (n refl)
not-empty (c ∷ s) n = refl

-- the names that a value of Accept-Encoding has
abbrev names : List Bytes → List Bytes
names [] = []
names (token ∷ tokens) = to_lower (encoding_token token) ∷ names tokens

abbrev offered : Bool → Bool → List Bytes
offered true true = codes "gzip" ∷ codes "br" ∷ []
offered true false = codes "gzip" ∷ []
offered false true = codes "br" ∷ []
offered false false = [] ∷ []

names-offer : (g b : Bool) → names (split (offer g b) b',') ≡ offered g b
unfolding encoding_token text_ops
names-offer true true = refl
names-offer true false = refl
names-offer false true = refl
names-offer false false = refl

any-names :
    (name : Bytes) (tokens : List Bytes)
    → any (λ t. str_eq (to_lower (encoding_token t)) name) tokens
      ≡ any (λ t. str_eq t name) (names tokens)
any-names name [] = refl
any-names name (token ∷ tokens) = ground (arith, any-names name tokens)

any-offered :
    (g b : Bool) (name : Bytes)
    → name ≢ []
    → any (λ t. str_eq t name) (offered g b)
      ≡ (str_eq (codes "gzip") name && g || str_eq (codes "br") name && b)
any-offered true true name n = ground arith
any-offered true false name n = ground arith
any-offered false true name n = ground arith
any-offered false false name n = ground (arith, not-empty name n)

accepts-enabled :
    (g b : Bool) (name : Bytes)
    → name ≢ []
    → accepts (enabled g b) name
      ≡ (str_eq (codes "gzip") name && g || str_eq (codes "br") name && b)
unfolding accepts
accepts-enabled g b name n =
    ap (λ v. accepts v name) (enabled-offer g b)
    ∙ any-names name (split (offer g b) b',')
    ∙ ap (any (λ t. str_eq t name)) (names-offer g b)
    ∙ any-offered g b name n

pick_second : (g b : Bool) (x y : Bytes) → (g || b) ≡ true → (if not g && not b then x else y) ≡ y
pick_second g b x y h = ground arith

module _ (cache : Option CachePolicy) (orp : Option OriginRequestPolicy) (viewer : Bytes) where
  normalize_enabled :
      (on cache (λ p. p.gzip) || on cache (λ p. p.brotli)) ≡ true
      → normalize_accept_encoding cache orp viewer
        ≡ enabled
            (on cache (λ p. p.gzip) && accepts viewer (codes "gzip"))
            (on cache (λ p. p.brotli) && accepts viewer (codes "br"))
  unfolding normalize_accept_encoding
  normalize_enabled h = pick_second (on cache (λ p. p.gzip)) (on cache (λ p. p.brotli)) _ _ h

  -- Where the cache policy enables gzip or Brotli, the origin is offered "gzip, br", "gzip",
  -- "br" or nothing, with the encodings that are enabled and that the viewer accepts, and
  -- accepting the offer means to accept these and no other.
  pub accepts-normalize_accept_encoding :
      (on cache (λ p. p.gzip) || on cache (λ p. p.brotli)) ≡ true
      → (name : Bytes) → name ≢ []
      → (normalize_accept_encoding cache orp viewer
          ≡ offer
              (on cache (λ p. p.gzip) && accepts viewer (codes "gzip"))
              (on cache (λ p. p.brotli) && accepts viewer (codes "br")))
        × (accepts (normalize_accept_encoding cache orp viewer) name ≡ (
            str_eq (codes "gzip") name && (on cache (λ p. p.gzip) && accepts viewer (codes "gzip"))
            || str_eq (codes "br") name
              && (on cache (λ p. p.brotli) && accepts viewer (codes "br"))))
  accepts-normalize_accept_encoding h name n = (
    normalize_enabled h ∙ enabled-offer _ _,
    ap (λ v. accepts v name) (normalize_enabled h) ∙ accepts-enabled _ _ name n,
  )
