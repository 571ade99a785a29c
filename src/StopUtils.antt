-- ===== src/StopUtils.antt =====
-- The lookups in the table of stops (bkk_uds/bkk_stop_utils.c). Each loop over the table is a
-- function of its own over the rows that are left.
pub mod Find
pub mod Substring
use bkk_api.Common.{
  ℕ, suc, ◌+◌, Bytes, str_eq, strstr, ltb, ◌==◌, if◌then◌else◌, Bool, true, false, ◌||◌, Option,
  none, some, List, [], ◌∷◌, get_elem?, set, replicate, Ptr, store, is_null,
}
use bkk_api.StopList.{bkk_stop_list, bkk_stop_count}
use bkk_api.StopList.Row.{BkkStop}

pub data BkkStopStat : Type 0 where
  not_found found : BkkStopStat

-- The loop of `find_stop_by_id`.
unfoldable pub scan_id : Bytes → Ptr BkkStop → List BkkStop → BkkStopStat × Ptr BkkStop
scan_id id out [] = (not_found, out)
scan_id id out (s ∷ rest) =
    if str_eq s.stop_id id then (found, store out s) else scan_id id out rest

unfoldable pub find_stop_by_id : Option Bytes → Ptr BkkStop → BkkStopStat × Ptr BkkStop
find_stop_by_id none out = (not_found, out)
find_stop_by_id (some id) out = scan_id id out bkk_stop_list

-- The loop of `find_stop_by_name`.
unfoldable pub scan_name : Bytes → Ptr BkkStop → List BkkStop → BkkStopStat × Ptr BkkStop
scan_name name out [] = (not_found, out)
scan_name name out (s ∷ rest) =
    if str_eq s.stop_name name then (found, store out s) else scan_name name out rest

unfoldable pub find_stop_by_name : Option Bytes → Ptr BkkStop → BkkStopStat × Ptr BkkStop
find_stop_by_name none out = (not_found, out)
find_stop_by_name (some name) out = scan_name name out bkk_stop_list

-- `*stop_out = bkk_stop_list[index]`; an index out of the table does not get here.
abbrev pub copy_row : Option BkkStop → Ptr BkkStop → BkkStopStat × Ptr BkkStop
copy_row none out = (found, out)
copy_row (some s) out = (found, store out s)

unfoldable pub find_stop_by_index : ℕ → Ptr BkkStop → BkkStopStat × Ptr BkkStop
find_stop_by_index index out =
    if ltb index bkk_stop_count
    then copy_row (get_elem? bkk_stop_list index) out
    else (not_found, out)

-- The first loop of `find_stops_by_name_substring`: how many names match.
unfoldable pub count_matches : Bytes → ℕ → List BkkStop → ℕ
count_matches p count [] = count
count_matches p count (s ∷ rest) =
    count_matches p (if strstr s.stop_name p then count + 1 else count) rest

-- A write into the allocated array; `none` if the index is past its end.
unfoldable pub write_index : List (Option ℕ) → ℕ → ℕ → Option (List (Option ℕ))
write_index a idx i = elim (get_elem? a idx) [ none ↦ none | some old ↦ some (set a idx (some i)) ]

-- The second loop: `indices[idx++] = i`. Cells that are not written yet hold `none`.
unfoldable pub collect : Bytes → ℕ → ℕ → List (Option ℕ) → List BkkStop → Option (List (Option ℕ))
collect p i idx a [] = some a
collect p i idx a (s ∷ rest) = elim (strstr s.stop_name p) [
  | true ↦ elim (write_index a idx i) [
    | none ↦ none
    | some a' ↦ collect p (suc i) (suc idx) a' rest
  ]
  | false ↦ collect p (suc i) idx a rest
]

pub record SubstringOut : Type 0 where
  pub stat : BkkStopStat
  pub indices_out : Ptr (Option (List (Option ℕ)))
  pub count_out : Ptr ℕ

-- `*indices_out = NULL; *count_out = 0; return BKK_STOP_NOT_FOUND`, each write under its NULL test.
abbrev pub no_match : Ptr (Option (List (Option ℕ))) → Ptr ℕ → SubstringOut
no_match indices_out count_out = record {
  stat = not_found;
  indices_out = store indices_out none;
  count_out = store count_out 0;
}

-- The body behind the test of the arguments, over the rows of the table. `alloc` says whether
-- `malloc` returns memory; the outer `none` is a write out of bounds.
unfoldable pub find_substring_in :
    List BkkStop → Bytes → Ptr (Option (List (Option ℕ))) → Ptr ℕ → Bool → Option SubstringOut
find_substring_in stops p indices_out count_out alloc =
    let count = count_matches p 0 stops in
    if count == 0
    then some (no_match indices_out count_out)
    else if alloc
    then elim (collect p 0 0 (replicate count none) stops) [
      | none ↦ none
      | some a ↦ some (record {
        stat = found;
        indices_out = store indices_out (some a);
        count_out = store count_out count;
      })
    ]
    else some (no_match indices_out count_out)

unfoldable pub find_stops_by_name_substring :
    Option Bytes → Ptr (Option (List (Option ℕ))) → Ptr ℕ → Bool → Option SubstringOut
find_stops_by_name_substring none indices_out count_out alloc =
    some (no_match indices_out count_out)
find_stops_by_name_substring (some p) indices_out count_out alloc =
    if is_null indices_out || is_null count_out
    then some (no_match indices_out count_out)
    else find_substring_in bkk_stop_list p indices_out count_out alloc

-- A printed line: the index, the id and the name.
pub record StopLine : Type 0 where
  pub index : ℕ
  pub id : Bytes
  pub name : Bytes

abbrev pub print_row : ℕ → Option BkkStop → List StopLine → List StopLine
print_row idx none lines = lines
print_row idx (some s) lines = record { index = idx; id = s.stop_id; name = s.stop_name } ∷ lines

-- The loop of `display_stop_list` over the `count` first cells; `none` for a read past the array.
unfoldable pub display_loop : ℕ → List ℕ → Option (List StopLine)
display_loop ℕ.zero indices = some []
display_loop (suc left) [] = none
display_loop (suc left) (idx ∷ rest) = elim (display_loop left rest) [
  | none ↦ none
  | some lines ↦
      some (
        if ltb idx bkk_stop_count then print_row idx (get_elem? bkk_stop_list idx) lines else lines)
]

unfoldable pub display_stop_list : Option (List ℕ) → ℕ → Option (BkkStopStat × List StopLine)
display_stop_list none count = some (not_found, [])
display_stop_list (some indices) count =
    if count == 0
    then some (not_found, [])
    else elim (display_loop count indices) [ none ↦ none | some lines ↦ some (found, lines) ]

unfoldable pub get_stop_list_size : ℕ
get_stop_list_size = bkk_stop_count
