-- ===== src/Cffunc/Cookies.antt =====
-- The cookies of a response, to an event and back (internal/cffunc/event.go).
use localfront.Base.{
  ◌≡◌, ◌≢◌, refl, sym, ap, ◌∙◌, true, false, List, [], ◌∷◌, ◌++◌, none, some, arith, if◌then◌else◌,
  All, All-append, append_assoc, Option-cases, inl, inr, append-nil,
}
use localfront.Text.{Bytes, codes, is_empty, str_eq, is_space, trim_space, before_byte, after_byte}
use localfront.Text.Map.{StrMap, lookup, put, lookup-put}
use localfront.Text.Laws.{str_eq_iff, str_eq_refl}
use localfront.Text.Sort.{sort_strings, keys_of, or_zero, has, has-sort_strings, has-keys_of}
use localfront.Text.Split.{Lacks, before_byte-append, before_byte-Lacks}
use localfront.Text.Trim.{
  is_solid, Solid, trim_space-Solid, trim_space-space, after_byte-append, after_byte-Lacks,
}
use localfront.Http.{Header, values, add}
use localfront.Http.Laws.{values-add, same_name_refl}
use localfront.Cffunc.{ResponseCookie, EventResponse}
use localfront.Cffunc.Asked.{fields_to_header}
use localfront.Cffunc.Answered.{
  add_set_cookie, add_set_cookies, set_cookies_to_map, with_attributes, set_cookie_line,
  empty_response_cookie, cookie_lines, add_lines, http_headers,
}

-- A cookie that a `Set-Cookie` line can carry: a name and a value in ASCII without white space or a
-- semicolon, a name that is not empty and has no equals sign, and trimmed attributes.
pub record IsCookie (name : Bytes) (c : ResponseCookie) : Type 0 where
  pub nonempty : is_empty name ≡ false
  pub name_solid : Solid name
  pub name_whole : Lacks b'=' name
  pub name_plain : Lacks b';' name
  pub value_solid : Solid c.value
  pub value_plain : Lacks b';' c.value
  pub trimmed : trim_space c.attributes ≡ c.attributes

-- `name=value`
abbrev pair : Bytes → Bytes → Bytes
pair name value = name ++ (b'=' ∷ value)

pair-Lacks :
    (name value : Bytes) → Lacks b';' name → Lacks b';' value → Lacks b';' (pair name value)
pair-Lacks name value h k = All-append (λ c. c ≢ b';') name _ h ((λ e. ground arith), k)

pair-Solid : (name value : Bytes) → Solid name → Solid value → Solid (pair name value)
unfolding is_space
pair-Solid name value h k = All-append (λ c. is_solid c ≡ true) name _ h (refl, k)

All-of_has :
    (P : Bytes → Type 0) (names : List Bytes)
    → ((k : Bytes) → has k names ≡ true → P k)
    → All P names
All-of_has P [] h = tt
All-of_has P (name ∷ names) h =
    (h name (rw (str_eq_refl name)), All-of_has P names (λ k e. h k (ground arith)))

module _ (name : Bytes) (c : ResponseCookie) (h : IsCookie name c) where
  line_parts :
      (attributes : Bytes)
      → trim_space attributes ≡ attributes
      → (before_byte (pair name c.value ++ with_attributes attributes) b';' ≡ pair name c.value)
        × (trim_space (after_byte (pair name c.value ++ with_attributes attributes) b';')
            ≡ attributes)
  line_parts [] t = rw (append-nil (pair name c.value)) (
    before_byte-Lacks _ b';' (pair-Lacks name c.value h.name_plain h.value_plain),
    ap trim_space (after_byte-Lacks _ b';' (pair-Lacks name c.value h.name_plain h.value_plain))
        ∙ t,
  )
  line_parts (d ∷ s) t = (
    before_byte-append _ b';' _ (pair-Lacks name c.value h.name_plain h.value_plain),
    ap trim_space (after_byte-append _ b';' _ (pair-Lacks name c.value h.name_plain h.value_plain))
        ∙ trim_space-space (d ∷ s)
        ∙ t,
  )

  line_is : set_cookie_line name c ≡ pair name c.value ++ with_attributes c.attributes
  unfolding set_cookie_line
  line_is = sym (append_assoc name (b'=' ∷ c.value) (with_attributes c.attributes))

  -- The line of a cookie is read as that cookie.
  add_set_cookie-set_cookie_line :
      (m : StrMap ResponseCookie) → add_set_cookie (set_cookie_line name c) m ≡ put name c m
  unfolding add_set_cookie
  add_set_cookie-set_cookie_line m = rw (
    line_is,
    (line_parts c.attributes h.trimmed).0,
    (line_parts c.attributes h.trimmed).1,
    trim_space-Solid (pair name c.value) (pair-Solid name c.value h.name_solid h.value_solid),
    before_byte-append name b'=' c.value h.name_whole,
    after_byte-append name b'=' c.value h.name_whole,
    trim_space-Solid name h.name_solid,
    trim_space-Solid c.value h.value_solid,
    h.nonempty,
  )

module _ (m : StrMap ResponseCookie) where
  -- the cookie that the map has for a name
  abbrev cookie_of : Bytes → ResponseCookie
  cookie_of name = or_zero empty_response_cookie (lookup name m)

  same_cookie : (a b : Bytes) → str_eq a b ≡ true → cookie_of a ≡ cookie_of b
  same_cookie a b e = ap cookie_of ((str_eq_iff a b).0 e)

  lookup-add_set_cookies :
      (k : Bytes) (names : List Bytes) (acc : StrMap ResponseCookie)
      → All (λ name. IsCookie name (cookie_of name)) names
      → lookup k (add_set_cookies (cookie_lines m names) acc)
        ≡ (if has k names then some (cookie_of k) else lookup k acc)
  unfolding add_set_cookies cookie_lines
  lookup-add_set_cookies k [] acc _ = refl
  lookup-add_set_cookies k (name ∷ names) acc (h, hs) =
      ap (λ a. lookup k (add_set_cookies (cookie_lines m names) a))
        (add_set_cookie-set_cookie_line name (cookie_of name) h acc)
      ∙ lookup-add_set_cookies k names (put name (cookie_of name) acc) hs
      ∙ ground (arith, lookup-put name k (cookie_of name) acc, same_cookie name k)

  -- The names of the map, in order, have exactly the cookies of the map.
  has-sorted :
      (k : Bytes)
      → has k (sort_strings (keys_of m)) ≡ elim (lookup k m) [ none ↦ false | some _ ↦ true ]
  has-sorted k = has-sort_strings k (keys_of m) ∙ has-keys_of k m

  All-sorted :
      ((k : Bytes) (c : ResponseCookie) → lookup k m ≡ some c → IsCookie k c)
      → All (λ name. IsCookie name (cookie_of name)) (sort_strings (keys_of m))
  All-sorted h =
      All-of_has (λ name. IsCookie name (cookie_of name)) (sort_strings (keys_of m))
        (λ k e. elim (Option-cases (lookup k m)) [
          | inl missing ↦ absurd (ground (arith, has-sorted k))
          | inr (c, found) ↦ rw found (h k c found)
        ])

  pub lookup-set_cookies_to_map :
      (k : Bytes)
      → ((k : Bytes) (c : ResponseCookie) → lookup k m ≡ some c → IsCookie k c)
      → lookup k (set_cookies_to_map (cookie_lines m (sort_strings (keys_of m)))) ≡ lookup k m
  unfolding set_cookies_to_map lookup
  lookup-set_cookies_to_map k h =
      lookup-add_set_cookies k (sort_strings (keys_of m)) [] (All-sorted h)
      ∙ elim (Option-cases (lookup k m)) [
        | inl missing ↦ rw (has-sorted k, missing)
        | inr (c, found) ↦ rw (has-sorted k, found)
      ]

values-add_lines :
    (lines : List Bytes) (h : Header)
    → values (add_lines lines h) (codes "Set-Cookie") ≡ values h (codes "Set-Cookie") ++ lines
unfolding add_lines
values-add_lines [] h = sym (append-nil _)
values-add_lines (line ∷ lines) h =
    values-add_lines lines (add h (codes "Set-Cookie") line)
    ∙ ap (λ vs. vs ++ lines)
        (values-add h (codes "Set-Cookie") (codes "Set-Cookie") line
          ∙ rw (same_name_refl (codes "Set-Cookie")))
    ∙ append_assoc (values h (codes "Set-Cookie")) (line ∷ []) lines

-- Where every cookie of a function's response has a non-empty name without an equals sign, a
-- name and a value in ASCII without semicolons or white space, and trimmed attributes, and no
-- header field of it is Set-Cookie, reading the Set-Cookie headers of HTTPHeaders gives the
-- same cookies back.
pub set_cookies_to_map-http_headers :
    (r : EventResponse) (k : Bytes)
    → ((k : Bytes) (c : ResponseCookie) → lookup k r.cookies ≡ some c → IsCookie k c)
    → values (fields_to_header r.headers []) (codes "Set-Cookie") ≡ []
    → lookup k (set_cookies_to_map (values (http_headers r) (codes "Set-Cookie")))
      ≡ lookup k r.cookies
unfolding http_headers
set_cookies_to_map-http_headers r k h no_other =
    rw
      (
        values-add_lines (cookie_lines r.cookies (sort_strings (keys_of r.cookies)))
            (fields_to_header r.headers []),
        no_other,
      )
      (lookup-set_cookies_to_map r.cookies k h)
