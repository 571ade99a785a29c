-- ===== src/ResponseParser.antt =====
-- The parser of the server's answers (bkk_uds_server/bkk_response_parser.cpp and .hpp).
-- cJSON, the doubles and the local time are parameters (`ResponseParser/External.antt`).
pub mod External
pub mod Loop
pub mod Fields
pub mod Status
pub mod Origin
use bkk_api.Common.{
  ℕ, zero, suc, ◌+◌, ◌/◌, ◌%◌, ℤ, pos, Bytes, bytes, str_eq, ltb, ◌==◌, if◌then◌else◌, Bool, true,
  false, ◌&&◌, not, Option, none, some, List, [], ◌∷◌, ◌++◌, set, Ptr, null, cell, strncpy_into,
}
use bkk_api.Types.{
  VehicleType, unknown, bus, tram, trolleybus, metro, suburb_rail, rail, ferry, cable_car,
  funicular, gondola, coach, bicycle, car, walk, local, transit, Arrival, zero_arrival,
  arrival_line_max_len, arrival_destination_max_len, arrival_departure_time_max_len,
}
use External.{Json, Platform}

pub data ArrivalsParseStatus : Type 0 where
  success success_with_warnings invalid_json root_not_object missing_data_object :
      ArrivalsParseStatus
  missing_entry_object stop_times_not_array empty_stop_times no_valid_stop_times :
      ArrivalsParseStatus

-- The chain of `strcmp` tests of `find_type_for_route_id`.
unfoldable pub vehicle_type_of_string : Bytes → VehicleType
vehicle_type_of_string s =
    if str_eq s (bytes "BUS")
    then bus
    else if str_eq s (bytes "TRAM")
    then tram
    else if str_eq s (bytes "TROLLEYBUS")
    then trolleybus
    else if str_eq s (bytes "SUBWAY")
    then metro
    else if str_eq s (bytes "SUBURBAN_RAILWAY")
    then suburb_rail
    else if str_eq s (bytes "RAIL")
    then rail
    else if str_eq s (bytes "FERRY")
    then ferry
    else if str_eq s (bytes "CABLE_CAR")
    then cable_car
    else if str_eq s (bytes "FUNICULAR")
    then funicular
    else if str_eq s (bytes "GONDOLA")
    then gondola
    else if str_eq s (bytes "COACH")
    then coach
    else if str_eq s (bytes "BICYCLE")
    then bicycle
    else if str_eq s (bytes "CAR")
    then car
    else if str_eq s (bytes "WALK")
    then walk
    else if str_eq s (bytes "LOCAL")
    then local
    else if str_eq s (bytes "TRANSIT")
    then transit
    else unknown

-- `s.empty()`.
abbrev pub is_empty {ℓ} : {A : Type ℓ} → List A → Bool
is_empty [] = true
is_empty (c ∷ s) = false

-- `strncpy(dst, s, sizeof(dst) - 1); dst[sizeof(dst) - 1] = '\0'` on the zeroed array `dst`.
unfoldable pub copy_field : Bytes → ℕ → Bytes → Bytes
copy_field dst last s = set (strncpy_into dst s last) last 0

-- `%H:%M` of `std::put_time`.
unfoldable pub put_time : ℕ × ℕ → Bytes
put_time (h, m) = (48 + h / 10) ∷ (48 + h % 10) ∷ b':' ∷ (48 + m / 10) ∷ (48 + m % 10) ∷ []

module _ (j : Json) (pl : Platform j) where
  open j use {Node, Double}

  -- The calls of cJSON on a pointer that may be NULL.
  abbrev pub get_item : Option Node → Bytes → Option Node
  get_item none key = none
  get_item (some n) key = j.get_object_item n key

  abbrev pub is_object : Option Node → Bool
  is_object none = false
  is_object (some n) = j.is_object n

  abbrev pub is_array : Option Node → Bool
  is_array none = false
  is_array (some n) = j.is_array n

  -- The number of an item, if `cJSON_IsNumber` holds of it.
  abbrev pub number : Option Node → Option Double
  number none = none
  number (some n) = if j.is_number n then some (j.number_value n) else none

  -- `cJSON_IsString(item) && item->valuestring != nullptr`, with the string.
  abbrev pub string : Option Node → Option Bytes
  string none = none
  string (some n) = if j.is_string n then j.valuestring n else none

  abbrev pub string_or : Option Node → Bytes → Bytes
  string_or item default = elim (string item) [ none ↦ default | some s ↦ s ]

  unfoldable pub find_route_id_for_trip : Bytes → Option Node → Bytes
  find_route_id_for_trip trip_id references =
      let trips = get_item references (bytes "trips") in
      let trip = get_item trips trip_id in
      if not (is_object trips)
      then []
      else if not (is_object trip)
      then []
      else string_or (get_item trip (bytes "routeId")) []

  unfoldable pub find_route_name_for_route_id : Bytes → Option Node → Bytes
  find_route_name_for_route_id route_id references =
      let routes = get_item references (bytes "routes") in
      let route = get_item routes route_id in
      if is_empty route_id
      then []
      else if not (is_object routes)
      then []
      else if not (is_object route)
      then []
      else string_or (get_item route (bytes "shortName")) []

  unfoldable pub find_type_for_route_id : Bytes → Option Node → VehicleType
  unfolding vehicle_type_of_string
  find_type_for_route_id route_id references =
      let routes = get_item references (bytes "routes") in
      let route = get_item routes route_id in
      if is_empty route_id
      then unknown
      else if not (is_object routes)
      then unknown
      else if not (is_object route)
      then unknown
      else elim (string (get_item route (bytes "type"))) [
        | none ↦ unknown
        | some s ↦ vehicle_type_of_string s
      ]

  -- The line that is shown: the route's short name, else its id, else "n.a.".
  unfoldable pub line_of : Bytes → Option Node → Bytes
  line_of route_id references =
      let line = find_route_name_for_route_id route_id references in
      if is_empty line then (if not (is_empty route_id) then route_id else bytes "n.a.") else line

  -- The predicted time, else the scheduled one; `none` where the entry is skipped.
  unfoldable pub departure_time_of : Option Node → Option ℤ
  departure_time_of stop_time = elim (number (get_item stop_time (bytes "predictedArrivalTime"))) [
    | some d ↦ some (pl.to_long_long d)
    | none ↦ elim (number (get_item stop_time (bytes "arrivalTime"))) [
      | some d ↦ some (pl.to_long_long d)
      | none ↦ none
    ]
  ]

  unfoldable pub destination_of : Bytes → Option Node → Bytes
  destination_of trip_id trips =
      let trip = get_item trips trip_id in
      if is_object trips && not (is_empty trip_id)
      then (if is_object trip
          then string_or (get_item trip (bytes "tripHeadsign")) (bytes "?")
          else bytes "?")
      else bytes "?"

  unfoldable pub departs_in_min_of : ℤ → Double → ℤ
  departs_in_min_of departure_time api_time_s =
      pl.to_int
        (pl.round (pl.div (pl.sub (pl.from_int departure_time) api_time_s) (pl.from_int (pos 60))))

  unfoldable pub departure_time_str_of : ℤ → Bytes
  unfolding put_time
  departure_time_str_of departure_time = elim (pl.localtime departure_time) [
    | some hm ↦ put_time hm
    | none ↦ bytes "00:00"
  ]

  -- What the loop keeps of the response while it runs.
  pub record Context : Type 0 where
    pub api_time_s : Double
    pub references : Option Node
    pub trips : Option Node

  -- `tripId` of a stop time, the empty string if it has none.
  abbrev pub trip_id_of : Option Node → Bytes
  trip_id_of stop_time = string_or (get_item stop_time (bytes "tripId")) []

  -- The arrival of a stop time whose departure is known.
  unfoldable pub make_arrival : Context → Option Node → ℤ → Arrival
  make_arrival c stop_time departure_time =
      let trip_id = trip_id_of stop_time in
      let route_id = find_route_id_for_trip trip_id c.references in
      record {
        line_id = copy_field zero_arrival.line_id 7 (line_of route_id c.references);
        vehicle_type = find_type_for_route_id route_id c.references;
        destination = copy_field zero_arrival.destination 63 (destination_of trip_id c.trips);
        departure_time =
            copy_field zero_arrival.departure_time 15 (departure_time_str_of departure_time);
        departs_in_min = departs_in_min_of departure_time c.api_time_s;
        timestamp = departure_time;
      }

  -- The body of the loop on one stop time; `none` where it counts the entry as skipped.
  unfoldable pub arrival_of : Context → Option Node → Option Arrival
  arrival_of c stop_time =
      if not (is_object stop_time) then none else elim (departure_time_of stop_time) [
        | none ↦ none
        | some departure_time ↦ some (make_arrival c stop_time departure_time)
      ]

  -- The loop over the indices from `i`, `left` of them: the output so far and the skipped entries.
  unfoldable pub stop_times_loop : Context → Node → ℕ → ℕ → List Arrival → ℕ → List Arrival × ℕ
  stop_times_loop c stop_times zero i out skipped = (out, skipped)
  stop_times_loop c stop_times (suc left) i out skipped =
      elim (arrival_of c (j.array_item stop_times i)) [
        | none ↦ stop_times_loop c stop_times left (suc i) out (skipped + 1)
        | some a ↦ stop_times_loop c stop_times left (suc i) (out ++ a ∷ []) skipped
      ]

  -- The status, the caller's vector, and how often `cJSON_Delete(response)` was called.
  pub record Parsed : Type 0 where
    pub status : ArrivalsParseStatus
    pub output_arrivals : Ptr (List Arrival)
    pub deletes : ℕ

  -- An early return behind `output_arrivals->clear()`.
  abbrev pub rejected : ArrivalsParseStatus → ℕ → Parsed
  rejected status deletes = record { status = status; output_arrivals = cell []; deletes = deletes }

  unfoldable pub api_time_of : Node → Double
  api_time_of response = elim (number (j.get_object_item response (bytes "currentTime"))) [
    | none ↦ pl.from_int (pos 0)
    | some ms ↦ pl.div ms (pl.from_int (pos 1000))
  ]

  unfoldable pub context_of : Node → Option Node → Context
  unfolding api_time_of
  context_of response data' =
      let references = if is_object data' then get_item data' (bytes "references") else none in
      record {
        api_time_s = api_time_of response;
        references = references;
        trips = if is_object references then get_item references (bytes "trips") else none;
      }

  unfoldable pub final_status : List Arrival → ℕ → ArrivalsParseStatus
  final_status out skipped =
      if is_empty out
      then no_valid_stop_times
      else if ltb 0 skipped
      then success_with_warnings
      else success

  -- From the size of `stopTimes` on, an array here.
  unfoldable pub parse_stop_times : Context → Node → Parsed
  unfolding final_status
  parse_stop_times c stop_times =
      let count = j.array_size stop_times in
      let (out, skipped) = stop_times_loop c stop_times count 0 [] 0 in
      if count == 0
      then rejected empty_stop_times 1
      else record { status = final_status out skipped; output_arrivals = cell out; deletes = 1 }

  -- From the test of the root on.
  unfoldable pub parse_root : Node → Parsed
  parse_root response =
      let data' = j.get_object_item response (bytes "data") in
      let entry = if is_object data' then get_item data' (bytes "entry") else none in
      let stop_times = get_item entry (bytes "stopTimes") in
      if not (j.is_object response)
      then rejected root_not_object 1
      else if not (is_object data')
      then rejected missing_data_object 1
      else if not (is_object entry)
      then rejected missing_entry_object 1
      else if not (is_array stop_times)
      then rejected stop_times_not_array 1
      else elim stop_times [
        | none ↦ rejected stop_times_not_array 1
        | some array ↦ parse_stop_times (context_of response data') array
      ]

  unfoldable pub parse_arrivals_response : Bytes → Ptr (List Arrival) → Parsed
  parse_arrivals_response body null = record {
    status = no_valid_stop_times;
    output_arrivals = null;
    deletes = 0;
  }
  parse_arrivals_response body (cell old) = elim (j.parse body) [
    | none ↦ rejected invalid_json 0
    | some response ↦ parse_root response
  ]
