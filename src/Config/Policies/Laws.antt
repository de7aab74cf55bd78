-- ===== src/Config/Policies/Laws.antt =====
-- The policy of a legacy `ForwardedValues` block (internal/config/policies.go) at work in
-- internal/behavior/forward.go.
use localfront.Base.{
  ◌≡◌, refl, true, false, Bool, ◌||◌, ◌&&◌, List, [], ◌∷◌, Option, none, some, arith, if◌then◌else◌,
  any,
}
use localfront.Text.{Bytes, codes, str_eq, equal_fold, text_ops}
use localfront.Config.{selection_contains, selection_contains_fold}
use localfront.Config.Props.{
  FloatOps, value_or, ForwardedCookiesProps, ForwardedValuesProps, BehaviorProps,
}
use localfront.Config.Policies.{cache_policy_from_forwarded_values}
use localfront.Config.Policies.Forwarded.{
  nothing_selected, key_selection, forwarded_headers, forwarded_cookies, forwarded_query_strings,
}
use localfront.Behavior.Forward.{
  header_selected, list_selected, forwards_header, cookie_selected, query_selected,
}

-- The cookies of a `ForwardedValues` block: all of them, or the listed ones.
abbrev pub passes_cookie : Option ForwardedCookiesProps → Bytes → Bool
passes_cookie none n = false
passes_cookie (some c) n =
    str_eq c.forward (codes "all")
    || str_eq c.forward (codes "whitelist") && any (λ w. str_eq w n) c.whitelisted_names

-- Its headers: all of them where a `*` is listed, else the listed ones.
abbrev pub passes_header : List Bytes → Bytes → Bool
passes_header hs n = any (λ h. str_eq h (codes "*")) hs || any (λ h. equal_fold h n) hs

abbrev pub names_key : List Bytes → Bytes → Bool
names_key [] n = true
names_key (k ∷ ks) n = any (λ j. str_eq j n) (k ∷ ks)

-- Its query parameters: none without `QueryString`, all without a list of keys, else the listed ones.
abbrev pub passes_param : ForwardedValuesProps → Bytes → Bool
passes_param fv n = value_or fv.query_string false && names_key fv.query_string_cache_keys n

headers_lem :
    (hs : List Bytes) (n : Bytes)
    → header_selected (forwarded_headers hs) n false ≡ passes_header hs n
unfolding forwarded_headers header_selected selection_contains_fold text_ops
headers_lem [] n = refl
headers_lem (h ∷ hs) n = ground arith

cookies_lem :
    (c : Option ForwardedCookiesProps) (n : Bytes)
    → list_selected (forwarded_cookies c) n ≡ passes_cookie c n
unfolding forwarded_cookies list_selected selection_contains text_ops
cookies_lem none n = refl
cookies_lem (some c) n = ground arith

keys_lem : (ks : List Bytes) (n : Bytes) → list_selected (key_selection ks) n ≡ names_key ks n
unfolding list_selected selection_contains text_ops
keys_lem [] n = refl
keys_lem (k ∷ ks) n = refl

switched_lem :
    (on : Bool) (ks : List Bytes) (n : Bytes)
    → list_selected (if on then key_selection ks else nothing_selected) n ≡ (on && names_key ks n)
unfolding list_selected text_ops
switched_lem true ks n = keys_lem ks n
switched_lem false ks n = refl

query_strings_lem :
    (fv : ForwardedValuesProps) (n : Bytes)
    → list_selected (forwarded_query_strings fv) n ≡ passes_param fv n
unfolding forwarded_query_strings
query_strings_lem fv n = switched_lem (value_or fv.query_string false) fv.query_string_cache_keys n

or_none : (a b : Bool) → a ≡ b → (a || false) ≡ b
or_none a b = ground arith

-- Behind the cache policy made of a legacy ForwardedValues block, without an origin request
-- policy, a header passes exactly if a star or its name (in any case) is listed; a cookie
-- exactly if Forward is all, or is whitelist and lists its name; and a query parameter exactly
-- if QueryString is true and its name is listed or no name is.
pub forwarded_values-passes :
    (fl : FloatOps) (name : Bytes) (fv : ForwardedValuesProps) (b : BehaviorProps fl) (n : Bytes)
    → let policy = some (cache_policy_from_forwarded_values fl name fv b) in
      (forwards_header policy none n ≡ passes_header fv.headers n)
      × (cookie_selected policy none n ≡ passes_cookie fv.cookies n)
      × (query_selected policy none n ≡ passes_param fv n)
unfolding cache_policy_from_forwarded_values forwards_header cookie_selected query_selected
forwarded_values-passes fl name fv b n = (
  or_none _ _ (headers_lem fv.headers n),
  or_none _ _ (cookies_lem fv.cookies n),
  or_none _ _ (query_strings_lem fv n),
)
