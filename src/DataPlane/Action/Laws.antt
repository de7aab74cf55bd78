-- ===== src/DataPlane/Action/Laws.antt =====
-- What holds when a handler ends, in each of its three ways.
use localfront.Base.{◌≡◌, refl, Option, none, some}
use localfront.DataPlane.Action.{
  Cause, Stage, next, replied, panicked, Reply, Action, ◌>>=◌, ◌>>◌, after, or_else_do, return,
}

-- What is asked of a handler that has written its response, and of one that panics.
pub record Ends (S : Type 0) : Type 1 where
  pub on_reply : S → Reply → Type 0
  pub on_panic : Cause → Type 0

module _ {S : Type 0} (e : Ends S) where
  open e use {on_reply, on_panic}

  -- The value and the state of a handler that goes on are in `P`, and its other ends are as asked.
  unfoldable pub Post {ℓ} : {A : Type ℓ} → (S → A → Type 0) → S × Stage A → Type 0
  Post P (s, next a) = P s a
  Post P (s, replied reply) = on_reply s reply
  Post P (s, panicked cause) = on_panic cause

  Post-after {ℓ κ} :
      {A : Type ℓ} {B : Type κ} (P : S → A → Type 0) (Q : S → B → Type 0) (done : S × Stage A)
      (f : A → Action S B)
      → Post P done
      → ((u : S) (a : A) → P u a → Post Q (f a u))
      → Post Q (after done.0 done.1 f)
  unfolding Post after
  Post-after P Q (s, next a) f h k = k s a h
  Post-after P Q (s, replied reply) f h k = h
  Post-after P Q (s, panicked cause) f h k = h

  pub Post->>= {ℓ κ} :
      {A : Type ℓ} {B : Type κ} (P : S → A → Type 0) (Q : S → B → Type 0) (m : Action S A)
      (f : A → Action S B) (s : S)
      → Post P (m s)
      → ((u : S) (a : A) → P u a → Post Q (f a u))
      → Post Q ((m >>= f) s)
  unfolding ◌>>=◌
  Post->>= P Q m f s h k = Post-after P Q (m s) f h k

  pub Post->> {ℓ} :
      {B : Type ℓ} (P : S → Unit {0} → Type 0) (Q : S → B → Type 0) (m : Action S (Unit {0}))
      (k : Action S B) (s : S)
      → Post P (m s)
      → ((u : S) → P u tt → Post Q (k u))
      → Post Q ((m >> k) s)
  unfolding ◌>>◌
  Post->> P Q m k s h g = Post->>= P Q m (λ _. k) s h (λ u _ p. g u p)

  -- A handler that does not go on.
  abbrev pub Halts {ℓ} : {A : Type ℓ} → S × Stage A → Type 0
  Halts done = Post (λ _ _. ⊥) done

  -- A value that may be missing is there, or the handler halts.
  pub Post-or_else_do {ℓ κ} :
      {A : Type ℓ} {B : Type κ} (P : S → B → Type 0) (v : Option A) (otherwise : Action S A)
      (f : A → Action S B) (s : S)
      → (v ≡ none → Halts (otherwise s))
      → ((a : A) → v ≡ some a → Post P (f a s))
      → Post P ((or_else_do v otherwise >>= f) s)
  unfolding or_else_do ◌>>=◌ after
  Post-or_else_do P none otherwise f s h k =
      Post->>= (λ _ _. ⊥) P otherwise f s (h refl) (λ _ _ e. absurd e)
  Post-or_else_do P (some a) otherwise f s h k = k a refl

  pub Post-return {ℓ} :
      {A : Type ℓ} (P : S → A → Type 0) (a : A) (s : S) → P s a → Post P (return a s)
  unfolding Post
  Post-return P a s h = h
