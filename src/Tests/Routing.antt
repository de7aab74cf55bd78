-- ===== src/Tests/Routing.antt =====
-- Host routing.
use localfront.Base.{◌≡◌, refl, [], none, some}
use localfront.Text.{codes, text_ops}
use localfront.Net.{split_host_port, host_only}
use localfront.DataPlane.Routes.{build_routes, match_host, route_ops}
use localfront.DataPlane.Routes.Exact.{claims, names_host, match_host-claims}
use localfront.DataPlane.Routes.Sound.{Routed, match_host-Routed}
use localfront.Tests.Samples.{shop, config}

host_only_tests :
    (host_only (codes "Example.COM:8080") ≡ codes "example.com")
    × (host_only (codes "example.com") ≡ codes "example.com")
    × (host_only (codes "[::1]:80") ≡ codes "::1")
    × (host_only (codes "::1") ≡ codes "::1")
unfolding host_only split_host_port text_ops
host_only_tests = (refl, refl, refl, refl)

match_host_tests :
    (match_host (build_routes config) (codes "shop.test") ≡ some shop)
    × (match_host (build_routes config) (codes "eu.shop.test") ≡ some shop)
    × (match_host (build_routes config) (codes "a.eu.shop.test") ≡ none)
    × (match_host (build_routes config) (codes "other.test") ≡ none)
unfolding route_ops text_ops
match_host_tests = (refl, refl, refl, refl)

match_host-claims_example : match_host (build_routes config) (codes "shop.test") ≡ some shop
match_host-claims_example =
    match_host-claims config [] [] shop (codes "shop.test") refl
      (unfold claims names_host text_ops in refl) tt

match_host-Routed_example : Routed config (codes "eu.shop.test") shop
match_host-Routed_example =
    match_host-Routed config (codes "eu.shop.test") shop (unfold route_ops text_ops in refl)
