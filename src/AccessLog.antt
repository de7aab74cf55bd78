-- ===== src/AccessLog.antt =====
-- internal/accesslog/accesslog.go: access logs in CloudFront's Standard format. The formats of
-- dates, clock times and seconds are the standard library's, and come in as a `TimeFormat`; so does
-- the destination of a writer, as a `Sink`.
pub mod Encode
pub mod Line
pub mod Stream
pub mod Entries
use localfront.Base.{
  ℕ, zero, suc, ◌+◌, ◌-◌, ◌/◌, ◌%◌, true, false, Bool, not, ◌&&◌, ◌||◌, List, [], ◌∷◌, ◌++◌, Option,
  none, some, ltb, leb, ◌==◌, if◌then◌else◌, any,
}
use localfront.Text.{Bytes, codes, is_empty, join}
use localfront.Num.{ℤ, pos, negsuc, lt_ℤ, le_ℤ, format_int}

pub record TimeFormat : Type 1 where
  pub Time : Type 0
  -- `t.UTC().Format("2006-01-02")` and `t.UTC().Format("15:04:05")`
  pub format_date : Time → Bytes
  pub format_clock : Time → Bytes
  -- `fmt.Sprintf("%.3f", d.Seconds())`, for a duration in nanoseconds
  pub format_seconds : ℤ → Bytes

-- `mustEscape`
unfoldable pub must_escape : ℕ → Bool
must_escape c = if leb c 0x20 || c == 0x7f then true else if c == b'%' then true else false

-- `hexDigit`
unfoldable pub hex_digit : ℕ → ℕ
hex_digit n = if ltb n 10 then b'0' + n else b'A' + (n - 10)

-- the second loop of `encodeField`
unfoldable pub escape_bytes : Bytes → Bytes
escape_bytes [] = []
escape_bytes (c ∷ s) =
    let rest = escape_bytes s in
    if must_escape c then b'%' ∷ hex_digit (c / 16) ∷ hex_digit (c % 16) ∷ rest else c ∷ rest

-- `encodeField`
unfoldable pub encode_field : Bytes → Bytes
encode_field s = if not (any must_escape s) then s else escape_bytes s

-- `fieldOrDash`
unfoldable pub field_or_dash : Bytes → Bytes
field_or_dash s = if is_empty s then codes "-" else encode_field s

-- `statusField`
unfoldable pub status_field : ℤ → Bytes
status_field status = if le_ℤ status (pos 0) then codes "000" else format_int status

-- `intField`
unfoldable pub int_field : ℤ → Bytes
int_field n = if lt_ℤ n (pos 0) then codes "0" else format_int n

module _ (fmt : TimeFormat) where
  open fmt use {Time, format_date, format_clock, format_seconds}

  pub record Entry : Type 0 where
    pub time : Time
    pub edge_location : Bytes
    pub sc_bytes : ℤ
    pub c_ip : Bytes
    pub cs_method : Bytes
    pub cs_host : Bytes
    pub cs_uri_stem : Bytes
    pub sc_status : ℤ
    pub cs_referer : Bytes
    pub cs_user_agent : Bytes
    pub cs_uri_query : Bytes
    pub cs_cookie : Bytes
    pub edge_result_type : Bytes
    pub edge_request_id : Bytes
    pub x_host_header : Bytes
    pub cs_protocol : Bytes
    pub cs_bytes : ℤ
    pub time_taken : ℤ
    pub x_forwarded_for : Bytes
    pub ssl_protocol : Bytes
    pub ssl_cipher : Bytes
    pub edge_response_result_type : Bytes
    pub cs_protocol_version : Bytes
    pub fle_status : Bytes
    pub fle_encrypted_fields : Bytes
    pub c_port : ℤ
    pub time_to_first_byte : ℤ
    pub edge_detailed_result_type : Bytes
    pub sc_content_type : Bytes
    pub sc_content_len : Bytes
    pub sc_range_start : Bytes
    pub sc_range_end : Bytes

  -- `durationField`
  unfoldable pub duration_field : ℤ → Bytes
  duration_field d = if lt_ℤ d (pos 0) then format_seconds (pos 0) else format_seconds d

  -- the list `fields` of `renderEntry`
  unfoldable pub entry_fields : Entry → List Bytes
  entry_fields e =
      format_date e.time
      ∷ format_clock e.time
      ∷ field_or_dash e.edge_location
      ∷ int_field e.sc_bytes
      ∷ field_or_dash e.c_ip
      ∷ field_or_dash e.cs_method
      ∷ field_or_dash e.cs_host
      ∷ field_or_dash e.cs_uri_stem
      ∷ status_field e.sc_status
      ∷ field_or_dash e.cs_referer
      ∷ field_or_dash e.cs_user_agent
      ∷ field_or_dash e.cs_uri_query
      ∷ field_or_dash e.cs_cookie
      ∷ field_or_dash e.edge_result_type
      ∷ field_or_dash e.edge_request_id
      ∷ field_or_dash e.x_host_header
      ∷ field_or_dash e.cs_protocol
      ∷ int_field e.cs_bytes
      ∷ duration_field e.time_taken
      ∷ field_or_dash e.x_forwarded_for
      ∷ field_or_dash e.ssl_protocol
      ∷ field_or_dash e.ssl_cipher
      ∷ field_or_dash e.edge_response_result_type
      ∷ field_or_dash e.cs_protocol_version
      ∷ field_or_dash e.fle_status
      ∷ field_or_dash e.fle_encrypted_fields
      ∷ int_field e.c_port
      ∷ duration_field e.time_to_first_byte
      ∷ field_or_dash e.edge_detailed_result_type
      ∷ field_or_dash e.sc_content_type
      ∷ field_or_dash e.sc_content_len
      ∷ field_or_dash e.sc_range_start
      ∷ field_or_dash e.sc_range_end
      ∷ []

  -- `renderEntry`
  unfoldable pub render_entry : Entry → Bytes
  render_entry e = join (entry_fields e) (codes "\t") ++ codes "\n"

-- the constant `Header`
abbrev pub preamble : Bytes
preamble =
    codes "#Version: 1.0\n"
    ++ (codes "#Fields: date time x-edge-location sc-bytes c-ip cs-method cs(Host) "
        ++ (codes "cs-uri-stem sc-status cs(Referer) cs(User-Agent) cs-uri-query cs(Cookie) "
            ++ (codes "x-edge-result-type x-edge-request-id x-host-header cs-protocol cs-bytes "
                ++ (codes
                      "time-taken x-forwarded-for ssl-protocol ssl-cipher x-edge-response-result-type "
                    ++ (codes
                          "cs-protocol-version fle-status fle-encrypted-fields c-port time-to-first-byte "
                        ++ (codes
                              "x-edge-detailed-result-type sc-content-type sc-content-len sc-range-start "
                            ++ codes "sc-range-end\n"))))))

-- An `io.Writer` with its error values: `none` is success.
pub record Sink : Type 1 where
  pub Dst : Type 0
  pub Fault : Type 0
  pub write_string : Dst → Bytes → Dst × Option Fault

module _ (sink : Sink) where
  open sink use {Dst, Fault, write_string}

  -- `Writer`; the mutex makes the operations a sequence.
  pub record Writer : Type 0 where
    pub w : Dst
    pub err : Option Fault

  -- `NewWriter`: the destination, and the writer or the error.
  unfoldable pub new_writer : Dst → Dst × Option Writer
  new_writer dst =
      let (d, fault) = write_string dst preamble in
      elim fault [ none ↦ (d, some (record { w = d; err = none })) | some e ↦ (d, none) ]

  -- `io.WriteString` unless an error is remembered
  unfoldable pub write_line : Writer → Bytes → Writer
  write_line writer line = elim writer.err [
    | some e ↦ writer
    | none ↦ record { w = (write_string writer.w line).0; err = (write_string writer.w line).1 }
  ]

  -- `Writer.Write`; `none` is the nil writer.
  unfoldable pub write : (fmt : TimeFormat) → Option Writer → Entry fmt → Option Writer
  write fmt none e = none
  write fmt (some writer) e = some (write_line writer (render_entry fmt e))
