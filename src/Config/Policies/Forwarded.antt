-- ===== src/Config/Policies/Forwarded.antt =====
-- internal/config/policies.go: what a legacy `ForwardedValues` block selects, as
-- `cachePolicyFromForwardedValues` computes it.
use localfront.Base.{false, List, [], ◌∷◌, Option, none, some, if◌then◌else◌, any}
use localfront.Text.{Bytes, codes, str_eq}
use localfront.Config.{ListSelection}
use localfront.Config.Props.{value_or, ForwardedCookiesProps, ForwardedValuesProps}

-- `ListSelection{Behavior: "none"}`
abbrev pub nothing_selected : ListSelection
nothing_selected = record { behavior = codes "none"; items = [] }

-- The three assignments of `cachePolicyFromForwardedValues`
unfoldable pub forwarded_headers : List Bytes → ListSelection
forwarded_headers [] = nothing_selected
forwarded_headers (h ∷ hs) =
    if any (λ n. str_eq n (codes "*")) (h ∷ hs)
    then record { behavior = codes "all"; items = [] }
    else record { behavior = codes "whitelist"; items = h ∷ hs }

unfoldable pub forwarded_cookies : Option ForwardedCookiesProps → ListSelection
forwarded_cookies none = nothing_selected
forwarded_cookies (some c) =
    if str_eq c.forward (codes "all")
    then record { behavior = codes "all"; items = [] }
    else if str_eq c.forward (codes "whitelist")
    then record { behavior = codes "whitelist"; items = c.whitelisted_names }
    else nothing_selected

abbrev pub key_selection : List Bytes → ListSelection
key_selection [] = record { behavior = codes "all"; items = [] }
key_selection (k ∷ ks) = record { behavior = codes "whitelist"; items = k ∷ ks }

unfoldable pub forwarded_query_strings : ForwardedValuesProps → ListSelection
forwarded_query_strings fv =
    if value_or fv.query_string false
    then key_selection fv.query_string_cache_keys
    else nothing_selected
