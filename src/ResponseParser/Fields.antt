-- ===== src/ResponseParser/Fields.antt =====
-- The arrays of an arrival, and the names of the vehicle types
-- (bkk_uds_server/bkk_response_parser.cpp, bkk_uds/bkk_api_arrival.h).
use bkk_api.Common.{
  ℕ, zero, suc, ◌+◌, ◌≤◌, ◌<◌, ℤ, Bytes, str_eq, Bool-cases, true, Option, some, Option-cases, [],
  ◌∷◌, ◌++◌, length, take, drop, set, replicate, strncpy, c_str, until_zero, length-strncpy,
  c_str-strncpy, length-append, All, ◌≡◌, refl, ap, inl, inr, arith, subst,
}
use bkk_api.Types.{VehicleType, vehicle_type_to_string, Arrival, bus}
use bkk_api.ResponseParser.{
  copy_field, vehicle_type_of_string, Context, is_object, line_of, find_route_id_for_trip,
  destination_of, departure_time_of, departure_time_str_of, departs_in_min_of, arrival_of,
  trip_id_of, make_arrival, find_type_for_route_id,
}
use bkk_api.ResponseParser.External.{Json, Platform}
use bkk_api.ResponseParser.Loop.{items, kept}

-- Every type but the unknown one is read back from the name that the client prints for it, and the
-- name of the unknown one is read as unknown.
pub vehicle_type_of_string-vehicle_type_to_string :
    (v : VehicleType) → vehicle_type_of_string (vehicle_type_to_string v) ≡ v
unfolding vehicle_type_of_string vehicle_type_to_string str_eq
vehicle_type_of_string-vehicle_type_to_string bus = refl
vehicle_type_of_string-vehicle_type_to_string _ = refl

set-append : (xs : Bytes) (v w : ℕ) (n : ℕ) → length xs ≡ n → set (xs ++ v ∷ []) n w ≡ xs ++ w ∷ []
set-append [] v w zero e = refl
set-append [] v w (suc n) e = absurd (omega arith)
set-append (x ∷ xs) v w zero e = absurd (omega arith)
set-append (x ∷ xs) v w (suc n) e = ap (◌∷◌ x) (set-append xs v w n (omega arith))

drop-replicate : (n : ℕ) → drop {A = ℕ} n (replicate (suc n) 0) ≡ 0 ∷ []
drop-replicate zero = refl
drop-replicate (suc n) = drop-replicate n

-- What the two lines of a copy leave in a zeroed array of `n + 1` bytes.
copy_field_lem : (n : ℕ) (s : Bytes) → copy_field (replicate (suc n) 0) n s ≡ strncpy n s ++ 0 ∷ []
unfolding copy_field
copy_field_lem n s = rw (drop-replicate n) (set-append (strncpy n s) 0 0 n (length-strncpy n s))

-- An array of `n + 1` bytes that holds as much of a string as leaves room for the terminator.
pub record Holds (n : ℕ) (s : Bytes) (array : Bytes) : Type 0 where
  pub size : length array ≡ suc n
  pub text : c_str array ≡ some (take n (until_zero s))

copy_field-Holds : (n : ℕ) (s : Bytes) → Holds n s (copy_field (replicate (suc n) 0) n s)
copy_field-Holds n s = record {
  size =
      rw (copy_field_lem n s)
        (omega (arith, length-append (strncpy n s) (0 ∷ []), length-strncpy n s));
  text = rw (copy_field_lem n s) (c_str-strncpy n s []);
}

module _ (j : Json) (pl : Platform j) (c : Context j pl) where
  -- The arrays of an arrival made from a stop time: each has its declared size and is terminated,
  -- and holds the line, the destination and the time of departure, cut to what fits.
  pub record IsFilled (item : Option j.Node) (a : Arrival) : Type 0 where
    pub object : is_object j pl item ≡ true
    pub time : departure_time_of j pl item ≡ some a.timestamp
    pub line :
        Holds 7
          (line_of j pl
            (find_route_id_for_trip j pl (trip_id_of j pl item) c.references)
            c.references)
          a.line_id
    pub destination : Holds 63 (destination_of j pl (trip_id_of j pl item) c.trips) a.destination
    pub vehicle :
        a.vehicle_type
        ≡ find_type_for_route_id j pl
            (find_route_id_for_trip j pl (trip_id_of j pl item) c.references)
            c.references
    pub departure : Holds 15 (departure_time_str_of j pl a.timestamp) a.departure_time
    pub minutes : a.departs_in_min ≡ departs_in_min_of j pl a.timestamp c.api_time_s

  make_arrival-IsFilled :
      (item : Option j.Node) (time : ℤ)
      → is_object j pl item ≡ true
      → departure_time_of j pl item ≡ some time
      → IsFilled item (make_arrival j pl c item time)
  unfolding make_arrival
  make_arrival-IsFilled item time h t = record {
    object = h;
    time = t;
    line = copy_field-Holds 7 _;
    destination = copy_field-Holds 63 _;
    vehicle = refl;
    departure = copy_field-Holds 15 _;
    minutes = refl;
  }

  pub arrival_of-IsFilled :
      (item : Option j.Node) {a : Arrival} → arrival_of j pl c item ≡ some a → IsFilled item a
  unfolding arrival_of
  arrival_of-IsFilled item {a} e = elim (Bool-cases (is_object j pl item)) [
    | inr h ↦ cc (rw h at e)
    | inl h ↦ elim (Option-cases (departure_time_of j pl item)) [
      | inl t ↦ cc (rw (h, t) at e)
      | inr (time, t) ↦
          let made : make_arrival j pl c item time ≡ a = cc (rw (h, t) at e) in
          subst (λ b. IsFilled item b) made (make_arrival-IsFilled item time h t)
    ]
  ]

  module _ (stop_times : j.Node) (count : ℕ) where
    -- Made from one of the items of the array.
    abbrev pub IsFromItem : Arrival → Type 0
    IsFromItem a = (i : ℕ) × (i < count) × IsFilled (j.array_item stop_times i) a

    pub kept-IsFromItem :
        (left i : ℕ)
        → i + left ≤ count
        → All IsFromItem (kept j pl c stop_times (items j pl c stop_times left i))
    unfolding kept items
    kept-IsFromItem zero i h = tt
    kept-IsFromItem (suc left) i h =
        let ih = kept-IsFromItem left (suc i) (omega (arith, h)) in
        elim (Option-cases (arrival_of j pl c (j.array_item stop_times i))) [
          | inl e ↦ rw (e, kept) ih
          | inr (a, e) ↦ rw (e, kept) ((i, omega (arith, h), arrival_of-IsFilled _ e), ih)
        ]
