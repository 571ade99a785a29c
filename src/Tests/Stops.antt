-- ===== src/Tests/Stops.antt =====
-- Tests of StopUtils and StopList.
use bkk_api.Common.{
  ◌≤◌, ◌<◌, ◌≡◌, refl, ◌⊎◌, bytes, List, cell, null, true, some, none, get_elem?, str_eq, length,
  ◌==◌, if◌then◌else◌,
}
use bkk_api.StopList.{bkk_stop_list, bkk_stop_count}
use bkk_api.StopList.Row.{BkkStop, row}
use bkk_api.StopUtils.{
  found, not_found, find_stop_by_id, find_stop_by_name, find_stop_by_index,
  find_stops_by_name_substring, display_stop_list, StopLine, scan_id,
}
use bkk_api.StopUtils.Find
use bkk_api.StopUtils.Substring

abbrev last_stop : BkkStop
last_stop = row "MERGED_F03810" "Ferihegy vasútállomás" 47436741 19222565

abbrev other_stop : BkkStop
other_stop = row "" "" 0 0

last_row : get_elem? bkk_stop_list 6136 ≡ some last_stop
unfolding bkk_stop_list
last_row = refl

find_last : find_stop_by_id (some (bytes "MERGED_F03810")) null ≡ (found, null)
unfolding find_stop_by_id scan_id str_eq bkk_stop_list
find_last = refl

find_stop_by_id-stop_id_example :
    find_stop_by_id (some (bytes "MERGED_F03810")) (cell other_stop) ≡ (found, cell last_stop)
find_stop_by_id-stop_id_example =
    Find.find_stop_by_id-stop_id 6136 last_stop (cell other_stop) last_row

find_stop_by_id_first_example :
    Find.FirstOrNone
      (λ s. s.stop_id ≡ bytes "LMXKVD")
      bkk_stop_list
      (cell other_stop)
      (find_stop_by_id (some (bytes "LMXKVD")) (cell other_stop))
find_stop_by_id_first_example = Find.find_stop_by_id_first (bytes "LMXKVD") (cell other_stop)

find_stop_by_name_first_example :
    Find.FirstOrNone
      (λ s. s.stop_name ≡ bytes "Astoria M")
      bkk_stop_list
      (cell other_stop)
      (find_stop_by_name (some (bytes "Astoria M")) (cell other_stop))
find_stop_by_name_first_example = Find.find_stop_by_name_first (bytes "Astoria M") (cell other_stop)

find_stop_by_index_total_example :
    ((6136 < bkk_stop_count)
      × (s : BkkStop) × (get_elem? bkk_stop_list 6136 ≡ some s)
      × (find_stop_by_index 6136 (cell other_stop) ≡ (found, cell s)))
    ⊎ ((bkk_stop_count ≤ 6136)
        × (find_stop_by_index 6136 (cell other_stop) ≡ (not_found, cell other_stop)))
find_stop_by_index_total_example = Find.find_stop_by_index_total 6136 (cell other_stop)

find_stops_by_name_substring-matches_example :
    find_stops_by_name_substring (some (bytes "Astoria")) (cell none) (cell 7) true
    ≡ some (Substring.found_matches none 7 (Substring.matches (bytes "Astoria") 0 bkk_stop_list))
find_stops_by_name_substring-matches_example =
    Substring.find_stops_by_name_substring-matches (bytes "Astoria") none 7

display_stop_list-matches_example :
    (lines : List StopLine) × Substring.AreLines
      (bytes "Astoria")
      (Substring.matches (bytes "Astoria") 0 bkk_stop_list)
      lines
    × (display_stop_list
          (some (Substring.matches (bytes "Astoria") 0 bkk_stop_list))
          (length (Substring.matches (bytes "Astoria") 0 bkk_stop_list))
        ≡ some (
          (if length (Substring.matches (bytes "Astoria") 0 bkk_stop_list) == 0
              then not_found
              else found),
          lines,
        ))
display_stop_list-matches_example = Substring.display_stop_list-matches (bytes "Astoria")
