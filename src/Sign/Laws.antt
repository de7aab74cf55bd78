-- ===== src/Sign/Laws.antt =====
-- Inversion of the steps of a verification.
use localfront.Base.{◌≡◌, refl, true, false, Bool, Option, none, some}
use localfront.Sign.{Verdict, grant, deny, Denial, ◌>>=◌, ◌>>◌, require, or_deny}

pub >>=-eq-grant {ℓ κ} :
    {A : Type ℓ} {B : Type κ} (m : Verdict A) (f : A → Verdict B) {b : B}
    → (m >>= f) ≡ grant b
    → (a : A) × (m ≡ grant a) × (f a ≡ grant b)
>>=-eq-grant (grant a) f h = (a, refl, h)
>>=-eq-grant (deny d) f h = cc

pub or_deny-eq-grant {ℓ} :
    {A : Type ℓ} (o : Option A) (d : Denial) {a : A} → or_deny o d ≡ grant a → o ≡ some a
or_deny-eq-grant none d h = cc
or_deny-eq-grant (some x) d h = cc

pub require-eq-grant : (b : Bool) (d : Denial) {t : Unit {0}} → require b d ≡ grant t → b ≡ true
require-eq-grant true d h = refl
require-eq-grant false d h = cc

-- A required test and the rest behind it.
pub require->> {ℓ} :
    {B : Type ℓ} (t : Bool) (d : Denial) (k : Verdict B) {b : B}
    → (require t d >> k) ≡ grant b
    → (t ≡ true) × (k ≡ grant b)
require->> true d k h = (refl, h)
require->> false d k h = cc
