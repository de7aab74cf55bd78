-- ===== src/DataPlane/Access.antt =====
-- Access log recording of internal/dataplane/access.go: the recorder around a response writer, and
-- the entry of a finished request. A time is a `Time` of the clock's, and `Clock` has what the
-- standard library does with it.
pub mod Laws
use localfront.Base.{
  ℕ, Bool, true, false, not, ◌||◌, ◌&&◌, List, [], ◌∷◌, ◌++◌, Option, none, some, ◌==◌,
  if◌then◌else◌, length, take, drop, ◌+◌, ltb,
}
use localfront.Text.{
  Bytes, codes, is_empty, has_prefix, trim_prefix, trim_space, before_byte, index_byte, to_lower,
}
use localfront.Num.{ℤ, pos, negsuc, eq_ℤ, lt_ℤ, le_ℤ, format_int, format_ℕ, atoi_value}
use localfront.Http.{Header, get}
use localfront.Http.Request.{Request}
use localfront.Net.{split_host_port, host_only}
use localfront.AccessLog.{TimeFormat, Entry}

-- `protoOrDefault`
unfoldable pub proto_or_default : Bytes → Bytes
proto_or_default p = if is_empty p then codes "HTTP/1.1" else p

-- `edgeResultType`
unfoldable pub edge_result_type : ℤ → Bool → Bytes
edge_result_type status function_generated =
    if function_generated
    then codes "FunctionGeneratedResponse"
    else if le_ℤ (pos 400) status
    then codes "Error"
    else codes "Miss"

-- `splitRemote`
unfoldable pub split_remote : Bytes → Bytes × ℤ
split_remote addr = elim (split_host_port addr) [
  | none ↦ (addr, pos 0)
  | some (host, port) ↦ (host, atoi_value port)
]

-- the offsets around the dash of a range
abbrev split_range : Bytes → Option ℕ → Bytes × Bytes
split_range v none = ([], [])
split_range v (some dash) =
    if dash == 0 || dash + 1 == length v then ([], []) else (take dash v, drop (dash + 1) v)

-- `parseContentRange`
unfoldable pub parse_content_range : Bytes → Bytes × Bytes
parse_content_range v =
    let trimmed = trim_space v in
    let range = before_byte (trim_prefix trimmed (codes "bytes ")) b'/' in
    if not (has_prefix trimmed (codes "bytes "))
    then ([], [])
    else split_range range (index_byte range b'-')

-- the sum over a header map of the lengths of its lines
header_line_bytes : Bytes → List Bytes → ℕ
header_line_bytes name [] = 0
header_line_bytes name (v ∷ vs) = length name + 2 + length v + 2 + header_line_bytes name vs

unfoldable pub header_block_bytes : Header → ℕ
unfolding header_line_bytes
header_block_bytes [] = 0
header_block_bytes ((name, vs) ∷ h) = header_line_bytes name vs + header_block_bytes h

-- What the standard library is asked for: `http.StatusText`, `r.URL.RequestURI()`, `t.UTC()` and
-- `t.Sub(u)`.
pub record Std (fmt : TimeFormat) : Type 0 where
  pub status_text : ℤ → Bytes
  pub url_request_uri : Request → Bytes
  pub utc : fmt.Time → fmt.Time
  pub sub : fmt.Time → fmt.Time → ℤ

module _ (fmt : TimeFormat) (std : Std fmt) where
  open fmt use {Time}
  open std use {status_text, url_request_uri, utc, sub}

  -- `estimateResponseHeaderBytes`
  unfoldable pub estimate_response_header_bytes : ℤ → Bytes → Header → ℕ
  estimate_response_header_bytes status proto_version h =
      let text = if is_empty (status_text status) then codes "Status" else status_text status in
      let line =
        proto_or_default proto_version
        ++ (codes " " ++ (format_int status ++ (codes " " ++ (text ++ codes "\r\n")))) in
      length line + header_block_bytes h + 2

  -- `estimateRequestHeaderBytes`
  unfoldable pub estimate_request_header_bytes : Request → ℕ
  estimate_request_header_bytes r =
      let uri = if is_empty r.request_uri then url_request_uri r else r.request_uri in
      let line =
        r.method
        ++ (codes " " ++ (uri ++ (codes " " ++ (proto_or_default r.proto ++ codes "\r\n")))) in
      let host = if is_empty r.host then 0 else length (codes "Host: ") + length r.host + 2 in
      length line + host + header_block_bytes r.header + 2

  -- `accessRecorder`. `header` stands for the header map of the writer that it wraps, and
  -- `request_bytes` for the count of the wrapped request body; the clock is read by the caller.
  pub record AccessRecorder : Type 0 where
    pub header : Header
    pub status : ℤ
    pub wrote_header : Bool
    pub header_bytes : ℕ
    pub body_bytes : ℕ
    pub first_byte_at : Option Time
    pub request_start : Time
    pub proto_version : Bytes
    pub request_bytes : Option ℕ
    pub function_generated : Bool

  -- `newAccessRecorder` and `wrapRequestBody`: `first_byte_at` is a value exactly where
  -- `wroteFirstAt` is set.
  unfoldable pub new_access_recorder : Header → Time → Request → AccessRecorder
  new_access_recorder header start r = record {
    header = header;
    status = pos 0;
    wrote_header = false;
    header_bytes = 0;
    body_bytes = 0;
    first_byte_at = none;
    request_start = start;
    proto_version = r.proto;
    request_bytes = if is_empty r.body then none else some 0;
    function_generated = false;
  }

  -- `markFunctionGenerated`
  unfoldable pub mark_function_generated : AccessRecorder → AccessRecorder
  mark_function_generated rec = record rec { function_generated = true }

  abbrev pub first_at : Option Time → Time → Option Time
  first_at none now = some now
  first_at (some t) now = some t

  -- `countingReadCloser.Read`, where `n` bytes of the request body are read
  unfoldable pub count_read : AccessRecorder → ℕ → AccessRecorder
  count_read rec n = record rec {
    request_bytes = elim rec.request_bytes [ none ↦ none | some read ↦ some (read + n) ];
  }

  -- `WriteHeader`
  unfoldable pub write_header : AccessRecorder → ℤ → Time → AccessRecorder
  write_header rec status now = if rec.wrote_header then rec else record rec {
    wrote_header = true;
    status = status;
    header_bytes = estimate_response_header_bytes status rec.proto_version rec.header;
    first_byte_at = first_at rec.first_byte_at now;
  }

  -- `Write`, where the wrapped writer takes `n` bytes
  unfoldable pub write_body : AccessRecorder → ℕ → Time → AccessRecorder
  write_body rec n now =
      let begun = write_header rec (pos 200) now in
      record begun {
        first_byte_at = first_at begun.first_byte_at now;
        body_bytes = begun.body_bytes + n;
      }

  -- `observedStatus`
  unfoldable pub observed_status : AccessRecorder → ℤ
  observed_status rec = if eq_ℤ rec.status (pos 0) then pos 200 else rec.status

  abbrev request_size : Option ℕ → ℤ → ℕ
  request_size (some read) content_length = read
  request_size none (pos n) = n
  request_size none (negsuc _) = 0

  abbrev time_to_first_byte_of : Option Time → Time → Time → ℤ
  time_to_first_byte_of none start end = sub end start
  time_to_first_byte_of (some t) start end = sub t start

  -- `buildAccessEntry`
  unfoldable pub build_access_entry : Request → AccessRecorder → Bytes → Time → Entry fmt
  build_access_entry r rec request_id end =
      let result_type = edge_result_type (observed_status rec) rec.function_generated in
      let content_len = get rec.header (codes "Content-Length") in
      let range = parse_content_range (get rec.header (codes "Content-Range")) in
      record {
        time = utc end;
        edge_location = codes "LOCAL50-C1";
        sc_bytes = pos (rec.header_bytes + rec.body_bytes);
        c_ip = (split_remote r.remote_addr).0;
        cs_method = r.method;
        cs_host = to_lower (host_only r.host);
        cs_uri_stem = if is_empty r.raw_path then r.path else r.raw_path;
        sc_status = observed_status rec;
        cs_referer = get r.header (codes "Referer");
        cs_user_agent = get r.header (codes "User-Agent");
        cs_uri_query = r.raw_query;
        cs_cookie = get r.header (codes "Cookie");
        edge_result_type = result_type;
        edge_request_id = request_id;
        x_host_header = r.host;
        cs_protocol = codes "http";
        cs_bytes =
            pos (estimate_request_header_bytes r + request_size rec.request_bytes r.content_length);
        time_taken = sub end rec.request_start;
        x_forwarded_for = get r.header (codes "X-Forwarded-For");
        ssl_protocol = [];
        ssl_cipher = [];
        edge_response_result_type = result_type;
        cs_protocol_version = proto_or_default r.proto;
        fle_status = [];
        fle_encrypted_fields = [];
        c_port = (split_remote r.remote_addr).1;
        time_to_first_byte = time_to_first_byte_of rec.first_byte_at rec.request_start end;
        edge_detailed_result_type = result_type;
        sc_content_type = get rec.header (codes "Content-Type");
        sc_content_len =
            if is_empty content_len && ltb 0 rec.body_bytes
            then format_ℕ rec.body_bytes
            else content_len;
        sc_range_start = range.0;
        sc_range_end = range.1;
      }
