-- ===== src/Config/Build/Ensures.antt =====
-- What a step of the builder ensures of its value, if it has one.
use localfront.Base.{◌≡◌, refl, subst, Bool, true, false, Option, none, some}
use localfront.Config.Build.{Fault, Checked, ok, failed, ◌>>=◌, ◌>>◌, refuse, or_fault, wrap}

unfoldable pub Ensures {ℓ} : {A : Type ℓ} → (A → Type 0) → Checked A → Type 0
Ensures P (ok a) = P a
Ensures P (failed e) = Unit

pub Ensures-ok {ℓ} : {A : Type ℓ} (P : A → Type 0) (a : A) → P a → Ensures P (ok a)
unfolding Ensures
Ensures-ok P a h = h

pub Ensures-failed {ℓ} : {A : Type ℓ} (P : A → Type 0) (e : Fault) → Ensures P (failed e)
unfolding Ensures
Ensures-failed P e = tt

pub Ensures-eq {ℓ} :
    {A : Type ℓ} (P : A → Type 0) (m : Checked A) (a : A) → Ensures P m → m ≡ ok a → P a
unfolding Ensures
Ensures-eq P m a h e = subst (Ensures P) e h

-- A value that is known only to be there.
pub Ensures-any {ℓ} : {A : Type ℓ} (m : Checked A) → Ensures (λ _. Unit) m
unfolding Ensures
Ensures-any (ok a) = tt
Ensures-any (failed e) = tt

pub Ensures-const {ℓ} : {A : Type ℓ} (P : Type 0) (m : Checked A) → P → Ensures (λ _. P) m
unfolding Ensures
Ensures-const P (ok a) p = p
Ensures-const P (failed e) p = tt

pub Ensures->>= {ℓ κ} :
    {A : Type ℓ} {B : Type κ} (P : A → Type 0) (Q : B → Type 0) (m : Checked A) (f : A → Checked B)
    → Ensures P m
    → ((a : A) → P a → Ensures Q (f a))
    → Ensures Q (m >>= f)
unfolding Ensures ◌>>=◌
Ensures->>= P Q (ok a) f h k = k a h
Ensures->>= P Q (failed e) f h k = tt

pub Ensures->> {ℓ} :
    {B : Type ℓ} (P : Unit {0} → Type 0) (Q : B → Type 0) (m : Checked (Unit {0})) (k : Checked B)
    → Ensures P m
    → (P tt → Ensures Q k)
    → Ensures Q (m >> k)
unfolding Ensures ◌>>◌
Ensures->> P Q (ok tt) k h g = g h
Ensures->> P Q (failed e) k h g = tt

pub Ensures-refuse {ℓ} :
    {B : Type ℓ} (Q : B → Type 0) (b : Bool) (e : Fault) (k : Checked B)
    → (b ≡ false → Ensures Q k)
    → Ensures Q (refuse b e >> k)
unfolding Ensures ◌>>◌ refuse
Ensures-refuse Q true e k h = tt
Ensures-refuse Q false e k h = h refl

pub Ensures-or_fault {ℓ κ} :
    {A : Type ℓ} {B : Type κ} (Q : B → Type 0) (o : Option A) (e : Fault) (f : A → Checked B)
    → ((a : A) → o ≡ some a → Ensures Q (f a))
    → Ensures Q (or_fault o e >>= f)
unfolding Ensures ◌>>=◌ or_fault
Ensures-or_fault Q none e f h = tt
Ensures-or_fault Q (some a) e f h = h a refl

pub Ensures-wrap {ℓ} :
    {A : Type ℓ} (P : A → Type 0) (g : Fault → Fault) (m : Checked A)
    → Ensures P m
    → Ensures P (wrap g m)
unfolding Ensures wrap
Ensures-wrap P g (ok a) h = h
Ensures-wrap P g (failed e) h = tt

-- What follows from two properties of the value.
pub Ensures-both {ℓ} :
    {A : Type ℓ} (P Q R : A → Type 0) (m : Checked A)
    → Ensures P m
    → Ensures Q m
    → ((a : A) → P a → Q a → R a)
    → Ensures R m
unfolding Ensures
Ensures-both P Q R (ok a) h k f = f a h k
Ensures-both P Q R (failed e) h k f = tt
