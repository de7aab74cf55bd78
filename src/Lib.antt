-- ===== src/Lib.antt =====
-- localfront is a local emulator of Amazon CloudFront: a CloudFormation template is loaded into
-- a configuration, and an HTTP server answers requests the way the distributions of the
-- configuration say. A request is routed to a distribution by its host and to a cache behavior
-- by its path; where the behavior has trusted key groups, the signature of the request is
-- verified; the behavior's functions may change the request or answer it; its policies decide
-- which headers, cookies and query parameters the origin sees; custom error responses, the
-- response headers policy and compression are applied to what the origin answers; and a line
-- goes to the access log.
--
-- The files and the code that they model:
--   Base, Text, Net, Num, Http  what the Go standard library does for the code: strings, numbers,
--                               `net.SplitHostPort`, header maps, requests; `hostOnly` is in Net
--   Glob                        `matchGlob` (internal/behavior/behavior.go), and what a pattern means
--   Config                      internal/config/model.go
--   Config/Props, Policies      internal/config/props.go, internal/config/policies.go
--   Config/Build                internal/config/build.go: Origins, Behaviors and Distributions have the
--                               checks of each, Resources the other resource types, Passes `Build` with
--                               the managed policies of managed.go; Ids is ids.go, References refs.go
--   Behavior/Select             `Select`, `MatchPath` (internal/behavior/behavior.go)
--   Behavior/Forward            internal/behavior/forward.go
--   Behavior/Response           internal/behavior/response.go
--   Behavior/Compress, Viewer   internal/behavior/compress.go, internal/behavior/viewer.go
--   Sign                        internal/sign/sign.go: Codec has the credentials and base64, Resource
--                               the signed resource, Verify the verification
--   AccessLog                   internal/accesslog/accesslog.go
--   DataPlane/Routes            `buildRoutes`, `routeTable.match` (internal/dataplane/dataplane.go)
--   DataPlane/Headers           the header helpers of internal/dataplane/headers.go and proxy.go
--   DataPlane/ErrorPage         `cfErrorPage` (internal/dataplane/headers.go)
--   DataPlane/Origin            the requests of `fetchCustomOrigin` and `fetchS3Origin`
--                               (internal/dataplane/proxy.go, internal/dataplane/s3.go)
--   DataPlane/Write             internal/dataplane/write.go; a response has the status that `WriteHeader`
--                               is given, and none at one where it panics
--   DataPlane/Access            internal/dataplane/access.go
--   Cffunc                      internal/cffunc/event.go, and the results of runtime.go: Asked has the
--                               request half of an event, Answered the response half
--   DataPlane/Action            early returns and panics of handlers; `writeCFError`
--   DataPlane/Functions         internal/dataplane/functions.go
--   DataPlane/Serve             `serve` (internal/dataplane/pipeline.go)
--   DataPlane/Server            `ServeHTTP`, `Swap` (internal/dataplane/dataplane.go)
--   DataPlane/Fetch             the fetches, and `applyErrorResponse` (internal/dataplane/pipeline.go)
--   Tests                       runs on concrete inputs
-- A function keeps its name in snake_case, and a struct has a record of its name. A function that
-- changes a header map returns the new map. A nil pointer is `none`, an error value is `none`, a `Denial`
-- for a `*DenyError`, or a `Fault` in the builder of the configuration.
--
-- Bounds. Strings are lists of bytes, and letters are folded in ASCII, which covers host names,
-- header names, encodings and media types; `strings.TrimSpace` knows the white space of Unicode.
-- `int` and `int64` are integers; the places where a value
-- can leave the range (`strconv.ParseInt`, the sum in `time.Unix`) have the range written out. The
-- loop of `matchGlob` runs on fuel: a byte of the text begins at most one round over the pattern,
-- so `glob_fuel` allows one round for each and one more. Header maps and route maps are association
-- lists; the theorems speak of what a lookup finds, since Go leaves the order of a map open.
--
-- Parameters. `Platform` (in Sign) has the RSA check, JSON, IP networks and the escaping of
-- paths; `TimeFormat` and `Sink` (in AccessLog) have the formats of times and the destination of
-- the log; `Network` (in DataPlane/Origin) is the HTTP transport and the object store, with a
-- state that every call may change; `Engine` (in Cffunc/Execution) runs functions and decodes
-- JSON, with a state of its own; `Phrases` (in Sign/Message) has what package fmt prints;
-- `Compressor` (in DataPlane/Write) has the encoders, `Std` (in DataPlane/Access) has status
-- texts and differences of times; `FloatOps` (in Config/Props) has the arithmetic of `float64`;
-- `Decoder` (in Config/Build/Passes) decodes the properties of resources, and the argument `sum` of
-- the builder stands for SHA-256.
-- What a theorem needs of them is a hypothesis: that formats of times print no white space
-- (`IsPrintable`), that headers which come in from the network have a value (`SendsValues`), and
-- that a destination appends what it is given and reports an error if that is not all of it
-- (`Appends`).
--
-- Not modelled: the template reader with its intrinsic functions, the JavaScript engine
-- of CloudFront Functions with its pool, the S3 client, file watching, and the command line.
pub mod Base
pub mod Text
pub mod Glob
pub mod Http
pub mod Num
pub mod Cffunc
pub mod Config
pub mod Behavior
pub mod Net
pub mod Sign
pub mod AccessLog
pub mod DataPlane
pub mod Tests
