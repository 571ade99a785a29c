-- ===== src/StopList/Order.antt =====
-- The rows of the table: how many there are, that they stand in the order of their ids, and that
-- their strings fit the arrays of `bkk_stop_t` (bkk_uds/bkk_stop_list.h).
use bkk_api.Common.{
  str_lt, ℕ, zero, suc, Bytes, Bool, true, false, List, [], ◌∷◌, ◌≡◌, refl, ◌≢◌, ltb, length, ◌&&◌,
  arith, get_elem?, some,
}
use bkk_api.StopList.{bkk_stop_list, bkk_stop_count}
use bkk_api.StopList.Row.{BkkStop, stop_id_max_len, stop_name_max_len}

str_lt_irrefl : (a : Bytes) → str_lt a a ≡ false
unfolding str_lt
str_lt_irrefl [] = refl
str_lt_irrefl (x ∷ a) = ground (arith, str_lt_irrefl a)

str_lt_trans : (a b c : Bytes) → str_lt a b ≡ true → str_lt b c ≡ true → str_lt a c ≡ true
unfolding str_lt
str_lt_trans [] [] c h k = cc
str_lt_trans [] (y ∷ b) [] h k = cc
str_lt_trans [] (y ∷ b) (z ∷ c) h k = refl
str_lt_trans (x ∷ a) [] c h k = cc
str_lt_trans (x ∷ a) (y ∷ b) [] h k = cc
str_lt_trans (x ∷ a) (y ∷ b) (z ∷ c) h k = ground (arith, str_lt_trans a b c)

pub is_ascending : Bytes → List BkkStop → Bool
is_ascending lo [] = true
is_ascending lo (r ∷ rs) = str_lt lo r.stop_id && is_ascending r.stop_id rs

-- The row at an index behind `lo` has a larger id.
ascending_above :
    (lo : Bytes) (rs : List BkkStop) (i : ℕ) {s : BkkStop}
    → is_ascending lo rs ≡ true
    → get_elem? rs i ≡ some s
    → str_lt lo s.stop_id ≡ true
unfolding is_ascending
ascending_above lo [] i h e = cc
ascending_above lo (r ∷ rs) zero h e = ground arith
ascending_above lo (r ∷ rs) (suc i) {s} h e =
    ground (arith, ascending_above r.stop_id rs i {s = s}, str_lt_trans lo r.stop_id s.stop_id)

pub ascending_ne :
    (r : BkkStop) (rs : List BkkStop) (i : ℕ) {s : BkkStop}
    → is_ascending r.stop_id rs ≡ true
    → get_elem? rs i ≡ some s
    → r.stop_id ≢ s.stop_id
ascending_ne r rs i {s} h e =
    λ q. ground (arith, ascending_above r.stop_id rs i h e, str_lt_irrefl s.stop_id)

pub is_ascending-tail :
    (lo : Bytes) (r : BkkStop) (rs : List BkkStop)
    → is_ascending lo (r ∷ rs) ≡ true
    → is_ascending r.stop_id rs ≡ true
unfolding is_ascending
is_ascending-tail lo r rs h = ground arith

-- Checked by evaluation over all rows.
pub bkk_stop_list-ascending : is_ascending [] bkk_stop_list ≡ true
unfolding is_ascending str_lt bkk_stop_list
bkk_stop_list-ascending = refl

pub length-bkk_stop_list : length bkk_stop_list ≡ bkk_stop_count
unfolding bkk_stop_list
length-bkk_stop_list = refl

-- Both strings leave room for the terminator, and hold no zero byte.
no_zero : Bytes → Bool
no_zero [] = true
no_zero (c ∷ s) = ltb 0 c && no_zero s

pub row_fits : BkkStop → Bool
unfolding no_zero
row_fits s =
    ltb (length s.stop_id) stop_id_max_len
    && (ltb (length s.stop_name) stop_name_max_len && (no_zero s.stop_id && no_zero s.stop_name))

pub all_fit : List BkkStop → Bool
all_fit [] = true
all_fit (r ∷ rs) = row_fits r && all_fit rs

pub bkk_stop_list-fits : all_fit bkk_stop_list ≡ true
unfolding all_fit row_fits bkk_stop_list
bkk_stop_list-fits = refl
