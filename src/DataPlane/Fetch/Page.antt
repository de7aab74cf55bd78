-- ===== src/DataPlane/Fetch/Page.antt =====
-- The request of `applyErrorResponse` for an error page (internal/dataplane/pipeline.go).
use localfront.Base.{Bool, List, Option, none}
use localfront.Text.{Bytes}
use localfront.Http.{values_of}
use localfront.Http.Request.{Request}
use localfront.Config.{Behavior}
use localfront.Behavior.Forward.Headers.{when_kept}

abbrev values_if_kept : Bool → Option (List Bytes) → List Bytes
values_if_kept keep o = values_of (when_kept keep o none)
