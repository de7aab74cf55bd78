-- ===== src/Tests/Recording.antt =====
-- Access log recording, with numbers for times.
use localfront.Base.{ℕ, ◌-◌, ◌≡◌, refl, true, false, List, [], ◌∷◌}
use localfront.Text.{codes, text_ops}
use localfront.Net.{split_host_port}
use localfront.Num.{pos, num_ops}
use localfront.AccessLog.{TimeFormat}
use localfront.DataPlane.Access.{
  Std, new_access_recorder, estimate_response_header_bytes, parse_content_range, split_remote,
  edge_result_type,
}
use localfront.DataPlane.Access.Laws.{
  Call, header_call, body_call, record_calls, Recorded, new_access_recorder-Recorded,
}
use localfront.Tests.Samples.{request_for}

abbrev pub ticks : TimeFormat
ticks = record { Time = ℕ; format_date = λ t. []; format_clock = λ t. []; format_seconds = λ d. [] }

abbrev pub std : Std ticks
std = record {
  status_text = λ s. codes "OK";
  url_request_uri = λ r. r.path;
  utc = λ t. t;
  sub = λ t u. pos (t - u);
}

parse_content_range_tests :
    (parse_content_range (codes "bytes 0-99/200") ≡ (codes "0", codes "99"))
    × (parse_content_range (codes "bytes */200") ≡ ([], []))
    × (parse_content_range (codes "items 0-1/2") ≡ ([], []))
unfolding parse_content_range text_ops
parse_content_range_tests = (refl, refl, refl)

split_remote_tests :
    (split_remote (codes "192.0.2.7:4711") ≡ (codes "192.0.2.7", pos 4711))
    × (split_remote (codes "unix") ≡ (codes "unix", pos 0))
unfolding split_remote split_host_port text_ops num_ops
split_remote_tests = (refl, refl)

edge_result_type_tests :
    (edge_result_type (pos 404) false ≡ codes "Error")
    × (edge_result_type (pos 302) false ≡ codes "Miss")
    × (edge_result_type (pos 404) true ≡ codes "FunctionGeneratedResponse")
unfolding edge_result_type
edge_result_type_tests = (refl, refl, refl)

abbrev calls : List (Call ticks std)
calls = body_call 4 12 ∷ header_call (pos 500) 13 ∷ body_call 6 14 ∷ []

new_access_recorder-Recorded_example :
    Recorded ticks std
      (record_calls ticks std
        (new_access_recorder ticks std [] 10 (request_for (codes "/") []))
        calls)
      (pos 200)
      (estimate_response_header_bytes ticks std (pos 200) (codes "HTTP/1.1") [])
      12
      10
new_access_recorder-Recorded_example =
    new_access_recorder-Recorded ticks std [] 10 (request_for (codes "/") []) (body_call 4 12)
      (header_call (pos 500) 13 ∷ body_call 6 14 ∷ [])
