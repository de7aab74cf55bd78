-- ===== src/Http.antt =====
-- `http.Header` of the Go standard library, as localfront uses it: a map from canonical names to
-- lists of values. The map is an association list; a theorem about it speaks of what `lookup`
-- finds, which is what the program can observe.
pub mod Laws
pub mod Request
pub mod Filled
use localfront.Base.{
  ℕ, zero, suc, ◌+◌, ◌-◌, Bool, true, false, ◌&&◌, ◌||◌, List, [], ◌∷◌, ◌++◌, map, reverse, Option,
  none, some, ltb, leb, ◌==◌, if◌then◌else◌, take, any, all,
}
use localfront.Text.{Bytes, codes, str_eq, lower_byte, upper_byte, text_ops}

abbrev pub Header : Type 0
Header = List (Bytes × List Bytes)

-- `validHeaderFieldByte` of net/textproto
unfoldable pub is_token_byte : ℕ → Bool
is_token_byte c =
    leb b'a' c && leb c b'z'
    || leb b'A' c && leb c b'Z'
    || leb b'0' c && leb c b'9'
    || any (λ d. c == d) (codes "!#$%&'*+-.^_`|~")

canonical_from : Bool → Bytes → Bytes
canonical_from upper [] = []
canonical_from upper (c ∷ s) =
    (if upper then upper_byte c else lower_byte c) ∷ canonical_from (c == b'-') s

-- `http.CanonicalHeaderKey`
unfoldable pub canonical_key : Bytes → Bytes
unfolding canonical_from
canonical_key s = if all is_token_byte s then canonical_from true s else s

-- `h[key]`
unfoldable pub lookup : Bytes → Header → Option (List Bytes)
lookup k [] = none
lookup k ((j, vs) ∷ h) = if str_eq j k then some vs else lookup k h

-- `h[key] = vs`
unfoldable pub put : Bytes → List Bytes → Header → Header
put k vs [] = (k, vs) ∷ []
put k vs ((j, ws) ∷ h) = if str_eq j k then (k, vs) ∷ h else (j, ws) ∷ put k vs h

-- `delete(h, key)`
unfoldable pub remove : Bytes → Header → Header
remove k [] = []
remove k ((j, ws) ∷ h) = if str_eq j k then remove k h else (j, ws) ∷ remove k h

abbrev pub values_of : Option (List Bytes) → List Bytes
values_of none = []
values_of (some vs) = vs

abbrev pub first_of_values : List Bytes → Bytes
first_of_values [] = []
first_of_values (v ∷ _) = v

-- `h.Values(name)`
unfoldable pub values : Header → Bytes → List Bytes
values h name = values_of (lookup (canonical_key name) h)

-- `h.Get(name)`
unfoldable pub get : Header → Bytes → Bytes
get h name = first_of_values (values h name)

-- `h.Set(name, value)`
unfoldable pub set : Header → Bytes → Bytes → Header
set h name value = put (canonical_key name) (value ∷ []) h

-- `h.Add(name, value)`
unfoldable pub add : Header → Bytes → Bytes → Header
add h name value = put (canonical_key name) (values h name ++ value ∷ []) h

-- `h.Del(name)`
unfoldable pub del : Header → Bytes → Header
del h name = remove (canonical_key name) h

-- Named on the `unfolding` line of a test, it opens the functions above.
unfoldable pub http_ops : Unit {0}
unfolding text_ops is_token_byte canonical_key lookup put remove values get set add del
http_ops = tt
