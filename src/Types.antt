-- ===== src/Types.antt =====
-- The types that the parts exchange: bkk_uds/bkk_api_types.h, bkk_uds/bkk_api_arrival.h.
use bkk_api.Common.{ℕ, ℤ, pos, Bytes, bytes, replicate}

pub data BkkApiStatus : Type 0 where
  ok missing_api_key curl_init_failed curl_perform_failed invalid_api_key : BkkApiStatus
  http_error fetch_arrivals_failed arrivals_parse_failed unexpected_exception : BkkApiStatus

unfoldable pub error_code_to_string : BkkApiStatus → Bytes
error_code_to_string ok = bytes "Ok"
error_code_to_string missing_api_key = bytes "MissingApiKey"
error_code_to_string curl_init_failed = bytes "CurlInitFailed"
error_code_to_string curl_perform_failed = bytes "CurlPerformFailed"
error_code_to_string invalid_api_key = bytes "InvalidApiKey"
error_code_to_string http_error = bytes "HttpError"
error_code_to_string fetch_arrivals_failed = bytes "FetchArrivalsFailed"
error_code_to_string arrivals_parse_failed = bytes "ArrivalsParseFailed"
error_code_to_string unexpected_exception = bytes "UnexpectedException"

pub data VehicleType : Type 0 where
  unknown bus tram trolleybus metro suburb_rail rail ferry cable_car : VehicleType
  funicular gondola coach bicycle car walk local transit : VehicleType

unfoldable pub vehicle_type_to_string : VehicleType → Bytes
vehicle_type_to_string bus = bytes "BUS"
vehicle_type_to_string tram = bytes "TRAM"
vehicle_type_to_string trolleybus = bytes "TROLLEYBUS"
vehicle_type_to_string metro = bytes "SUBWAY"
vehicle_type_to_string suburb_rail = bytes "SUBURBAN_RAILWAY"
vehicle_type_to_string rail = bytes "RAIL"
vehicle_type_to_string ferry = bytes "FERRY"
vehicle_type_to_string cable_car = bytes "CABLE_CAR"
vehicle_type_to_string funicular = bytes "FUNICULAR"
vehicle_type_to_string gondola = bytes "GONDOLA"
vehicle_type_to_string coach = bytes "COACH"
vehicle_type_to_string bicycle = bytes "BICYCLE"
vehicle_type_to_string car = bytes "CAR"
vehicle_type_to_string walk = bytes "WALK"
vehicle_type_to_string local = bytes "LOCAL"
vehicle_type_to_string transit = bytes "TRANSIT"
vehicle_type_to_string unknown = bytes "UNKNOWN"

abbrev pub arrival_line_max_len : ℕ
arrival_line_max_len = 8

abbrev pub arrival_destination_max_len : ℕ
arrival_destination_max_len = 64

abbrev pub arrival_departure_time_max_len : ℕ
arrival_departure_time_max_len = 16

-- The three arrays are lists of all their bytes.
pub record Arrival : Type 0 where
  pub line_id : Bytes
  pub vehicle_type : VehicleType
  pub destination : Bytes
  pub departure_time : Bytes
  pub departs_in_min : ℤ
  pub timestamp : ℤ

-- `Arrival {}`.
abbrev pub zero_arrival : Arrival
zero_arrival = record {
  line_id = replicate arrival_line_max_len 0;
  vehicle_type = unknown;
  destination = replicate arrival_destination_max_len 0;
  departure_time = replicate arrival_departure_time_max_len 0;
  departs_in_min = pos 0;
  timestamp = pos 0;
}
