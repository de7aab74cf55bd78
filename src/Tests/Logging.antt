-- ===== src/Tests/Logging.antt =====
-- Access log lines.
use localfront.Base.{some, map, ◌≡◌, refl, [], ◌∷◌, ◌++◌, none, length, append-nil}
use localfront.Text.{Bytes, codes, split}
use localfront.Text.Split.{Lacks}
use localfront.Num.{pos}
use localfront.AccessLog.{
  TimeFormat, Entry, Sink, Writer, must_escape, hex_digit, escape_bytes, encode_field,
  field_or_dash, render_entry, entry_fields,
}
use localfront.AccessLog.Encode.{decode_field, decode_field-encode_field}
use localfront.AccessLog.Line.{IsPrintable, split-render_entry}
use localfront.Tests.Samples.{All-below, All-above}
use localfront.AccessLog.Entries.{write_all, write_all-Outcome}
use localfront.AccessLog.Stream.{Appends, Outcome}

encode_field_tests :
    (encode_field (codes "a b\t%") ≡ codes "a%20b%09%25")
    × (field_or_dash [] ≡ codes "-")
    × (field_or_dash (codes "GET") ≡ codes "GET")
unfolding encode_field field_or_dash escape_bytes must_escape hex_digit
encode_field_tests = (refl, refl, refl)

decode_field-encode_field_example : decode_field (encode_field (codes "a b%")) ≡ codes "a b%"
decode_field-encode_field_example =
    decode_field-encode_field (codes "a b%") (All-below 256 (codes "a b%") refl)

abbrev clock : TimeFormat
clock = record {
  Time = Unit {0};
  format_date = λ t. codes "2025-01-02";
  format_clock = λ t. codes "03:04:05";
  format_seconds = λ d. codes "0.250";
}

clock-IsPrintable : IsPrintable clock
clock-IsPrintable = record {
  date = λ t. All-above 0x20 (codes "2025-01-02") refl;
  clock = λ t. All-above 0x20 (codes "03:04:05") refl;
  seconds = λ d. All-above 0x20 (codes "0.250") refl;
}

abbrev entry : Entry clock
entry = record {
  time = tt;
  edge_location = codes "LOCAL50-C1";
  sc_bytes = pos 512;
  c_ip = codes "192.0.2.7";
  cs_method = codes "GET";
  cs_host = codes "d1.local";
  cs_uri_stem = codes "/a b";
  sc_status = pos 200;
  cs_referer = [];
  cs_user_agent = codes "curl/8\tx";
  cs_uri_query = [];
  cs_cookie = [];
  edge_result_type = codes "Miss";
  edge_request_id = codes "id";
  x_host_header = codes "shop.test";
  cs_protocol = codes "http";
  cs_bytes = pos 40;
  time_taken = pos 250000000;
  x_forwarded_for = [];
  ssl_protocol = [];
  ssl_cipher = [];
  edge_response_result_type = codes "Miss";
  cs_protocol_version = codes "HTTP/1.1";
  fle_status = [];
  fle_encrypted_fields = [];
  c_port = pos 4711;
  time_to_first_byte = pos 250000000;
  edge_detailed_result_type = codes "Miss";
  sc_content_type = codes "text/html";
  sc_content_len = codes "512";
  sc_range_start = [];
  sc_range_end = [];
}

split-render_entry_example :
    (line : Bytes) × (render_entry clock entry ≡ line ++ codes "\n")
    × (split line b'\t' ≡ entry_fields clock entry)
    × Lacks b'\n' line
    × (length (split line b'\t') ≡ 33)
split-render_entry_example = split-render_entry clock clock-IsPrintable entry

-- A destination that takes every text whole.
abbrev buffer : Sink
buffer = record { Dst = Bytes; Fault = Bytes; write_string = λ d s. (d ++ s, none) }

buffer-Appends : Appends buffer
buffer-Appends = record {
  content = λ d. d;
  written = λ d s. s;
  left = λ d s. [];
  appended = λ d s. refl;
  is_part = λ d s. append-nil s;
  whole = λ d s h. refl;
}

abbrev writer : Writer buffer
writer = record { w = []; err = none }

write_all-Outcome_example :
    (w' : Writer buffer) × (added : Bytes) × (write_all clock buffer
        (some writer)
        (entry ∷ entry ∷ [])
      ≡ some w')
    × (w'.w ≡ writer.w ++ added)
    × Outcome buffer (map (render_entry clock) (entry ∷ entry ∷ [])) added w'.err
unfolding buffer-Appends
write_all-Outcome_example =
    write_all-Outcome clock buffer buffer-Appends writer (entry ∷ entry ∷ []) refl
