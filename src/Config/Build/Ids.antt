-- ===== src/Config/Build/Ids.antt =====
-- internal/config/ids.go: identifiers from logical IDs. The hash is the argument `sum`, which stands
-- for `sha256.Sum256`.
use localfront.Base.{ℕ, ◌+◌, ◌/◌, ◌%◌, [], ◌∷◌, ◌++◌, map, ltb, if◌then◌else◌, take, drop}
use localfront.Text.{Bytes, codes, to_lower}
use localfront.Config.Build.{account_id}

-- `b[i]` of a byte string, 0 behind the end
abbrev byte_at : ℕ → Bytes → ℕ
byte_at i s = elim (drop i s) [ [] ↦ 0 | c ∷ _ ↦ c ]

abbrev id_alphabet : Bytes
id_alphabet = codes "ABCDEFGHIJKLMNOPQRSTUVWXYZ0123456789"

abbrev hex_lower : ℕ → ℕ
hex_lower n = if ltb n 10 then 48 + n else 87 + n

-- `hex.EncodeToString`
unfoldable pub encode_hex : Bytes → Bytes
encode_hex [] = []
encode_hex (c ∷ s) = hex_lower (c / 16) ∷ hex_lower (c % 16) ∷ encode_hex s

module _ (sum : Bytes → Bytes) where
  -- `idSuffix`
  unfoldable pub id_suffix : Bytes → Bytes → Bytes
  id_suffix salt logical_id =
      map (λ c. byte_at (c % 36) id_alphabet) (take 13 (sum (salt ++ (codes ":" ++ logical_id))))

  -- `distributionID`
  unfoldable pub distribution_id : Bytes → Bytes
  distribution_id logical_id = b'E' ∷ id_suffix (codes "distribution") logical_id

  -- `publicKeyID`
  unfoldable pub public_key_id : Bytes → Bytes
  public_key_id logical_id = b'K' ∷ id_suffix (codes "public-key") logical_id

  -- `oacID`
  unfoldable pub oac_id : Bytes → Bytes
  oac_id logical_id = b'E' ∷ id_suffix (codes "origin-access-control") logical_id

  abbrev grouped : Bytes → Bytes
  grouped h =
      take 8 h
      ++ (codes "-"
          ++ (take 4 (drop 8 h)
              ++ (codes "-"
                  ++ (take 4 (drop 12 h)
                      ++ (codes "-"
                          ++ (take 4 (drop 16 h) ++ (codes "-" ++ take 12 (drop 20 h))))))))

  -- `uuidID`
  unfoldable pub uuid_id : Bytes → Bytes → Bytes
  uuid_id salt logical_id = grouped (encode_hex (take 16 (sum (salt ++ (codes ":" ++ logical_id)))))

-- `distributionARN`
unfoldable pub distribution_arn : Bytes → Bytes
distribution_arn id = codes "arn:aws:cloudfront::" ++ (account_id ++ (codes ":distribution/" ++ id))

-- `functionARN`
unfoldable pub function_arn_of : Bytes → Bytes
function_arn_of name = codes "arn:aws:cloudfront::" ++ (account_id ++ (codes ":function/" ++ name))

-- `keyValueStoreARN`
unfoldable pub key_value_store_arn_of : Bytes → Bytes
key_value_store_arn_of id =
    codes "arn:aws:cloudfront::" ++ (account_id ++ (codes ":key-value-store/" ++ id))

-- `distributionDomain` of internal/config/refs.go
unfoldable pub distribution_domain : Bytes → Bytes
distribution_domain id = to_lower id ++ codes ".cloudfront.localhost"
