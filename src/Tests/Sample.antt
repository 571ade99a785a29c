-- ===== src/Tests/Sample.antt =====
-- A small tree in place of cJSON's, whole numbers in place of doubles, and a server that answers with
-- one document.
use bkk_api.Common.{
  ℕ, zero, suc, ◌-◌, ◌/◌, ◌%◌, ℤ, pos, negsuc, Bytes, bytes, str_eq, if◌then◌else◌, Bool, true,
  false, Option, none, some, [], ◌∷◌, String,
}
use bkk_api.ResponseParser.External.{Json, Platform}
use bkk_api.Api.{Curl}

mutual
  pub data Value : Type 0 where
    num : ℕ → Value
    str : Bytes → Value
    arr : Items → Value
    obj : Fields → Value

  pub data Items : Type 0 where
    nil : Items
    cons : Value → Items → Items

  pub data Fields : Type 0 where
    end : Fields
    field : Bytes → Value → Fields → Fields

abbrev pub item_at : Items → ℕ → Option Value
item_at nil i = none
item_at (cons v vs) zero = some v
item_at (cons v vs) (suc i) = item_at vs i

abbrev pub size_of : Items → ℕ
size_of nil = 0
size_of (cons v vs) = suc (size_of vs)

unfoldable pub field_of : Fields → Bytes → Option Value
field_of end k = none
field_of (field j v fs) k = if str_eq j k then some v else field_of fs k

abbrev pub is_obj : Value → Bool
is_obj (obj fs) = true
is_obj _ = false

abbrev pub is_arr : Value → Bool
is_arr (arr vs) = true
is_arr _ = false

abbrev pub is_str : Value → Bool
is_str (str s) = true
is_str _ = false

abbrev pub is_num : Value → Bool
is_num (num n) = true
is_num _ = false

abbrev pub get_field : Value → Bytes → Option Value
get_field (obj fs) k = field_of fs k
get_field _ k = none

abbrev pub text_of : Value → Option Bytes
text_of (str s) = some s
text_of _ = none

abbrev pub number_of : Value → ℕ
number_of (num n) = n
number_of _ = 0

abbrev pub count_of : Value → ℕ
count_of (arr vs) = size_of vs
count_of _ = 0

abbrev pub nth_of : Value → ℕ → Option Value
nth_of (arr vs) i = item_at vs i
nth_of _ i = none

abbrev pub one : String → Value → Fields → Fields
one k v fs = field (bytes k) v fs

-- Two stop times: one with a predicted time, one without any.
abbrev pub document : Value
document = obj (
    one "currentTime" (num 36000000) (
      one "data"
        (obj (
          one "entry"
            (obj (
              one "stopTimes"
                (arr (
                  cons
                    (obj (
                      one "tripId" (str (bytes "T1")) (one "predictedArrivalTime" (num 36300) end)))
                    (cons (obj (one "tripId" (str (bytes "T1")) end)) nil)))
                end))
            (one "references"
              (obj (
                one "trips"
                  (obj (
                    one "T1"
                      (obj (
                        one "routeId" (str (bytes "R1"))
                          (one "tripHeadsign" (str (bytes "Astoria")) end)))
                      end))
                  (one "routes"
                    (obj (
                      one "R1"
                        (obj (
                          one "shortName" (str (bytes "47")) (one "type" (str (bytes "TRAM")) end)))
                        end))
                    end)))
              end)))
        end))

abbrev pub body : Bytes
body = bytes "{}"

abbrev pub parse_sample : Bytes → Option Value
parse_sample s = if str_eq s body then some document else none

abbrev pub sample_json : Json
sample_json = record {
  Node = Value;
  Double = ℕ;
  parse = parse_sample;
  is_object = is_obj;
  is_array = is_arr;
  is_string = is_str;
  is_number = is_num;
  get_object_item = get_field;
  valuestring = text_of;
  number_value = number_of;
  array_size = count_of;
  array_item = nth_of;
}

abbrev pub to_whole : ℤ → ℕ
to_whole (pos n) = n
to_whole (negsuc n) = 0

abbrev pub sample_platform : Platform sample_json
sample_platform = record {
  from_int = to_whole;
  sub = λ a b. a - b;
  div = λ a b. a / b;
  round = λ a. a;
  to_int = λ a. pos a;
  to_long_long = λ a. pos a;
  localtime = λ t. some (to_whole t / 3600 % 24, to_whole t / 60 % 60);
}

-- A server that sends the document in two pieces.
abbrev pub sample_curl : Curl
sample_curl = record {
  init = true;
  perform = λ url. record { chunks = bytes "{" ∷ bytes "}" ∷ []; is_ok = true; http_code = 200 };
}

-- A server that does not answer.
abbrev pub dead_curl : Curl
dead_curl = record {
  init = true;
  perform = λ url. record { chunks = []; is_ok = false; http_code = 0 };
}
