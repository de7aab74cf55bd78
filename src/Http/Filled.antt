-- ===== src/Http/Filled.antt =====
-- Header maps in which every name has a value.
use localfront.Base.{◌≢◌, Bool, true, false, List, [], ◌∷◌, ◌++◌, All, if◌then◌else◌}
use localfront.Text.{Bytes, str_eq}
use localfront.Http.{Header, put, remove, values, set, add, del, canonical_key}

abbrev pub Filled : Header → Type 0
Filled = All (λ (e : Bytes × List Bytes). e.1 ≢ [])

pub Filled-if : (b : Bool) (h k : Header) → Filled h → Filled k → Filled (if b then h else k)
Filled-if true h k f g = f
Filled-if false h k f g = g

pub Filled-put :
    (name : Bytes) (vs : List Bytes) (h : Header) → vs ≢ [] → Filled h → Filled (put name vs h)
unfolding put
Filled-put name vs [] n f = (n, tt)
Filled-put name vs ((j, ws) ∷ h) n (m, f) =
    Filled-if (str_eq j name) _ _ (n, f) (m, Filled-put name vs h n f)

Filled-remove : (name : Bytes) (h : Header) → Filled h → Filled (remove name h)
unfolding remove
Filled-remove name [] f = tt
Filled-remove name ((j, ws) ∷ h) (m, f) =
    Filled-if (str_eq j name) _ _ (Filled-remove name h f) (m, Filled-remove name h f)

pub Filled-set : (h : Header) (name value : Bytes) → Filled h → Filled (set h name value)
unfolding set
Filled-set h name value f = Filled-put (canonical_key name) (value ∷ []) h (cc) f

snoc-ne-nil : (vs : List Bytes) (v : Bytes) → vs ++ v ∷ [] ≢ []
snoc-ne-nil [] v = cc
snoc-ne-nil (w ∷ vs) v = cc

pub Filled-add : (h : Header) (name value : Bytes) → Filled h → Filled (add h name value)
unfolding add
Filled-add h name value f =
    Filled-put (canonical_key name) (values h name ++ value ∷ []) h
      (snoc-ne-nil (values h name) value) f

pub Filled-del : (h : Header) (name : Bytes) → Filled h → Filled (del h name)
unfolding del
Filled-del h name f = Filled-remove (canonical_key name) h f
