-- ===== src/Config/Build/Origins/Laws.antt =====
-- What an origin that was built is like.
use localfront.Base.{◌≡◌, ◌≢◌, refl, ◌⊎◌, inl, inr, Option, none, some}
use localfront.Text.{Bytes}
use localfront.Config.{Origin}
use localfront.Config.Props.{OriginProps, CustomOriginConfigProps, S3OriginConfigProps}
use localfront.Config.Build.Ensures.{
  Ensures, Ensures-ok, Ensures-failed, Ensures-any, Ensures->>, Ensures-refuse,
}
use localfront.Config.Build.Origins.{
  base_origin, s3_origin, custom_origin, origin_kind, build_origin,
}

-- An origin is a custom origin or an S3 bucket, and not both.
abbrev pub OneKind : Origin → Type 0
OneKind o = (o.custom ≢ none) × (o.s3 ≡ none) ⊎ (o.custom ≡ none) × (o.s3 ≢ none)

s3_origin-OneKind :
    (op : OriginProps) (found : Option (Bytes × Bytes)) (domain : Bytes)
    → Ensures OneKind (s3_origin (base_origin op) found domain)
unfolding base_origin
s3_origin-OneKind op none domain = Ensures-failed _ _
s3_origin-OneKind op (some (bucket, region)) domain = Ensures-ok _ _ (inr (refl, cc))

custom_origin-OneKind :
    (op : OriginProps) (c : CustomOriginConfigProps) → OneKind (custom_origin op c)
unfolding base_origin
custom_origin-OneKind op c = inl (cc, refl)

origin_kind-OneKind :
    (op : OriginProps) (s3 : Option S3OriginConfigProps) (co : Option CustomOriginConfigProps)
    → Ensures OneKind (origin_kind op s3 co)
unfolding origin_kind
origin_kind-OneKind op (some _) (some _) = Ensures-failed _ _
origin_kind-OneKind op (some _) none = Ensures-refuse _ _ _ _ (λ _. s3_origin-OneKind op _ _)
origin_kind-OneKind op none (some c) =
    Ensures->> (λ _. Unit) _ _ _ (Ensures-any _) (λ _. Ensures-ok _ _ (custom_origin-OneKind op c))
origin_kind-OneKind op none none = Ensures-failed _ _

pub build_origin-OneKind : (op : OriginProps) → Ensures OneKind (build_origin op)
unfolding build_origin
build_origin-OneKind op = Ensures-refuse _ _ _ _ (λ _. Ensures-refuse _ _ _ _ (λ _.
    Ensures-refuse _ _ _ _ (λ _. Ensures-refuse _ _ _ _ (λ _.
      Ensures-refuse _ _ _ _
        (λ _. origin_kind-OneKind op op.s3_origin_config op.custom_origin_config)))))
