-- ===== src/Tests/Parser.antt =====
-- Tests of ResponseParser.
use bkk_api.Common.{
  ℕ, ◌≡◌, refl, ◌⊎◌, ◌↔◌, Bytes, bytes, [], ◌∷◌, ◌++◌, replicate, cell, pos, str_eq, strncpy,
}
use bkk_api.Types.{Arrival, tram, vehicle_type_to_string}
use bkk_api.ResponseParser.{
  vehicle_type_of_string, parse_arrivals_response, success_with_warnings, copy_field, put_time,
  find_route_id_for_trip, find_route_name_for_route_id, find_type_for_route_id, line_of,
  departure_time_of, destination_of, departs_in_min_of, departure_time_str_of, make_arrival,
  arrival_of, stop_times_loop, api_time_of, context_of, parse_stop_times, parse_root,
}
use bkk_api.ResponseParser.Status
use bkk_api.ResponseParser.Origin
use bkk_api.ResponseParser.Fields.{vehicle_type_of_string-vehicle_type_to_string}
use bkk_api.Tests.Sample.{sample_json, sample_platform, body, field_of}

-- All that the parser computes with.
abbrev pub padded : ℕ → Bytes → Bytes
padded n s = s ++ replicate n 0

abbrev pub first_arrival : Arrival
first_arrival = record {
  line_id = padded 6 (bytes "47");
  vehicle_type = tram;
  destination = padded 57 (bytes "Astoria");
  departure_time = padded 11 (bytes "10:05");
  departs_in_min = pos 5;
  timestamp = pos 36300;
}

unfoldable pub program : Unit {0}
unfolding str_eq strncpy field_of vehicle_type_of_string copy_field put_time find_route_id_for_trip
    find_route_name_for_route_id find_type_for_route_id line_of departure_time_of destination_of
    departs_in_min_of departure_time_str_of make_arrival arrival_of stop_times_loop api_time_of
    context_of parse_stop_times parse_root parse_arrivals_response
program = tt

parse_sample_document :
    parse_arrivals_response sample_json sample_platform body (cell []) ≡ record {
      status = success_with_warnings;
      output_arrivals = cell (first_arrival ∷ []);
      deletes = 1;
    }
unfolding program
parse_sample_document = refl

parse_arrivals_response-Outcome_example :
    Status.Outcome sample_json sample_platform body
      (parse_arrivals_response sample_json sample_platform body (cell []))
parse_arrivals_response-Outcome_example =
    Status.parse_arrivals_response-Outcome sample_json sample_platform body []

parse_arrivals_response-IsSuccess_example :
    Status.IsSuccess (parse_arrivals_response sample_json sample_platform body (cell [])).status
    ↔ Status.IsFull
        (parse_arrivals_response sample_json sample_platform body (cell [])).output_arrivals
parse_arrivals_response-IsSuccess_example =
    Status.parse_arrivals_response-IsSuccess sample_json sample_platform body (cell [])

deletes-trees_example :
    (parse_arrivals_response sample_json sample_platform body (cell [])).deletes ≡ 1
unfolding str_eq
deletes-trees_example = Status.deletes-trees sample_json sample_platform body []

parse_arrivals_response-AreFilled_example :
    (first_arrival ∷ [] ≡ [])
    ⊎ Origin.AreFilled sample_json sample_platform body (first_arrival ∷ [])
unfolding program
parse_arrivals_response-AreFilled_example =
    Origin.parse_arrivals_response-AreFilled sample_json sample_platform body []
      (first_arrival ∷ []) refl

vehicle_type_of_string-vehicle_type_to_string_example :
    vehicle_type_of_string (vehicle_type_to_string tram) ≡ tram
vehicle_type_of_string-vehicle_type_to_string_example =
    vehicle_type_of_string-vehicle_type_to_string tram
