-- ===== src/Http/Laws.antt =====
-- The laws of header maps, in the form of a test on the names.
use localfront.Base.{
  ℕ, ◌≡◌, refl, ap₂, ◌↔◌, Bool, true, false, List, [], ◌∷◌, ◌++◌, none, some, arith, ◌==◌,
  if◌then◌else◌, Bool-cases, inl, inr, all,
}
use localfront.Text.{Bytes, str_eq, lower_byte, upper_byte}
use localfront.Text.Laws.{str_eq_iff, str_eq_refl}
use localfront.Http.{
  Header, is_token_byte, canonical_from, canonical_key, lookup, put, remove, values, get, set, add,
  del,
}

pub lookup-put :
    (k j : Bytes) (vs : List Bytes) (h : Header)
    → lookup j (put k vs h) ≡ (if str_eq k j then some vs else lookup j h)
unfolding lookup put
lookup-put k j vs [] = refl
lookup-put k j vs ((i, ws) ∷ h) =
    ground (arith, str_eq_iff k j, str_eq_iff i k, str_eq_iff i j, lookup-put k j vs h)

pub lookup-remove :
    (k j : Bytes) (h : Header) → lookup j (remove k h) ≡ (if str_eq k j then none else lookup j h)
unfolding lookup remove
lookup-remove k j [] = ground arith
lookup-remove k j ((i, ws) ∷ h) =
    ground (arith, str_eq_iff k j, str_eq_iff i k, str_eq_iff i j, lookup-remove k j h)

-- Two names are the same header if their canonical forms agree.
abbrev pub same_name : Bytes → Bytes → Bool
same_name a b = str_eq (canonical_key a) (canonical_key b)

pub values-set :
    (h : Header) (a b v : Bytes)
    → values (set h a v) b ≡ (if same_name a b then v ∷ [] else values h b)
unfolding values set
values-set h a b v = ground (arith, lookup-put (canonical_key a) (canonical_key b) (v ∷ []) h)

pub values-del :
    (h : Header) (a b : Bytes) → values (del h a) b ≡ (if same_name a b then [] else values h b)
unfolding values del
values-del h a b = ground (arith, lookup-remove (canonical_key a) (canonical_key b) h)

pub values-add :
    (h : Header) (a b v : Bytes)
    → values (add h a v) b ≡ (if same_name a b then values h a ++ v ∷ [] else values h b)
unfolding values add
values-add h a b v =
    ground (arith, lookup-put (canonical_key a) (canonical_key b) (values h a ++ v ∷ []) h)

pub get-set :
    (h : Header) (a b v : Bytes) → get (set h a v) b ≡ (if same_name a b then v else get h b)
unfolding get
get-set h a b v = ground (arith, values-set h a b v)

pub get-del : (h : Header) (a b : Bytes) → get (del h a) b ≡ (if same_name a b then [] else get h b)
unfolding get
get-del h a b = ground (arith, values-del h a b)

pub same_name_refl : (a : Bytes) → same_name a a ≡ true
same_name_refl a = str_eq_refl (canonical_key a)

pub same_name_iff : (a b : Bytes) → (same_name a b ≡ true) ↔ (canonical_key a ≡ canonical_key b)
same_name_iff a b = str_eq_iff (canonical_key a) (canonical_key b)

case_byte : Bool → ℕ → ℕ
case_byte up c = if up then upper_byte c else lower_byte c

case_byte_idem : (up : Bool) (c : ℕ) → case_byte up (case_byte up c) ≡ case_byte up c
unfolding case_byte lower_byte upper_byte
case_byte_idem true c = ground arith
case_byte_idem false c = ground arith

case_byte_dash : (up : Bool) (c : ℕ) → (case_byte up c == b'-') ≡ (c == b'-')
unfolding case_byte lower_byte upper_byte
case_byte_dash true c = ground arith
case_byte_dash false c = ground arith

is_token_byte-case_byte :
    (up : Bool) (c : ℕ) → is_token_byte c ≡ true → is_token_byte (case_byte up c) ≡ true
unfolding case_byte lower_byte upper_byte is_token_byte
is_token_byte-case_byte true c h = ground arith
is_token_byte-case_byte false c h = ground arith

canonical_from_idem :
    (up : Bool) (s : Bytes) → canonical_from up (canonical_from up s) ≡ canonical_from up s
unfolding canonical_from case_byte
canonical_from_idem up [] = refl
canonical_from_idem up (c ∷ s) =
    ap₂ ◌∷◌ (case_byte_idem up c) (rw (case_byte_dash up c) (canonical_from_idem (c == b'-') s))

all-canonical_from :
    (up : Bool) (s : Bytes)
    → all is_token_byte s ≡ true
    → all is_token_byte (canonical_from up s) ≡ true
unfolding canonical_from case_byte
all-canonical_from up [] h = refl
all-canonical_from up (c ∷ s) h =
    ground (arith, is_token_byte-case_byte up c, all-canonical_from (c == b'-') s)

-- Canonical names stay as they are.
pub canonical_key_idem : (s : Bytes) → canonical_key (canonical_key s) ≡ canonical_key s
unfolding canonical_key
canonical_key_idem s = elim (Bool-cases (all is_token_byte s)) [
  | inl e ↦ rw e (rw (all-canonical_from true s e) (canonical_from_idem true s))
  | inr e ↦ rw e (rw e)
]
