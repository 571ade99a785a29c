-- ===== src/StopList/Row.antt =====
-- The record of one stop (`bkk_stop_t` of bkk_uds/bkk_stop_list.h).
use bkk_api.Common.{ℕ, String, Bytes, bytes}

abbrev pub stop_id_max_len : ℕ
stop_id_max_len = 16

abbrev pub stop_name_max_len : ℕ
stop_name_max_len = 96

-- The two arrays hold the strings of the initialiser, read up to the terminator. The coordinates
-- are in millionths of a degree, the last digit that the initialisers write.
pub record BkkStop : Type 0 where
  pub stop_id : Bytes
  pub stop_name : Bytes
  pub stop_lat : ℕ
  pub stop_lon : ℕ

-- One initialiser.
abbrev pub row : String → String → ℕ → ℕ → BkkStop
row id name lat lon = record {
  stop_id = bytes id;
  stop_name = bytes name;
  stop_lat = lat;
  stop_lon = lon;
}
