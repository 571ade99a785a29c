-- ===== src/StopUtils/Substring.antt =====
-- The search by a part of the name, and the listing of its result (bkk_uds/bkk_stop_utils.c).
use bkk_api.Common.{
  ℕ, zero, suc, ◌+◌, ◌<◌, Bytes, strstr, true, false, Bool-cases, Option, none, some, ltb, lt→ltb,
  ◌==◌, if◌then◌else◌, List, [], ◌∷◌, ◌++◌, map, get_elem?, set, replicate, length, length-append,
  All, cell, ◌≡◌, refl, inl, inr, arith, ap, sym, ◌∙◌,
}
use mathlib.Core.List.{append_assoc}
use bkk_api.StopList.{bkk_stop_list, bkk_stop_count}
use bkk_api.StopList.Row.{BkkStop}
use bkk_api.StopList.Order.{length-bkk_stop_list}
use bkk_api.StopUtils.{
  found, not_found, count_matches, collect, write_index, SubstringOut, no_match, find_substring_in,
  find_stops_by_name_substring, StopLine, display_loop, display_stop_list,
}

-- The indices, from `i` on, of the rows whose name contains the text.
pub matches : Bytes → ℕ → List BkkStop → List ℕ
matches p i [] = []
matches p i (s ∷ rest) =
    let later = matches p (suc i) rest in if strstr s.stop_name p then i ∷ later else later

count_matches-length :
    (p : Bytes) (count i : ℕ) (stops : List BkkStop)
    → count_matches p count stops ≡ count + length (matches p i stops)
unfolding count_matches matches
count_matches-length p count i [] = omega arith
count_matches-length p count i (s ∷ rest) = elim (Bool-cases (strstr s.stop_name p)) [
  | inl h ↦ rw h (omega (arith, count_matches-length p (count + 1) (suc i) rest))
  | inr h ↦ rw h (count_matches-length p count (suc i) rest)
]

-- Writing at the first free cell.
get_elem?-front :
    (done : List (Option ℕ)) (free : ℕ)
    → get_elem? (done ++ replicate (suc free) none) (length done) ≡ some none
get_elem?-front [] free = refl
get_elem?-front (d ∷ done) free = get_elem?-front done free

set-front :
    (done : List (Option ℕ)) (free : ℕ) (v : Option ℕ)
    → set (done ++ replicate (suc free) none) (length done) v
      ≡ (done ++ v ∷ []) ++ replicate free none
set-front [] free v = refl
set-front (d ∷ done) free v = ap (◌∷◌ d) (set-front done free v)

write_index-front :
    (done : List (Option ℕ)) (free i : ℕ)
    → write_index (done ++ replicate (suc free) none) (length done) i
      ≡ some ((done ++ some i ∷ []) ++ replicate free none)
unfolding write_index
write_index-front done free i =
    rw (write_index, get_elem?-front done free, set-front done free (some i))

matches-hit :
    (p : Bytes) (i : ℕ) (s : BkkStop) (rest : List BkkStop)
    → strstr s.stop_name p ≡ true
    → matches p i (s ∷ rest) ≡ i ∷ matches p (suc i) rest
unfolding matches
matches-hit p i s rest h = rw h

matches-miss :
    (p : Bytes) (i : ℕ) (s : BkkStop) (rest : List BkkStop)
    → strstr s.stop_name p ≡ false
    → matches p i (s ∷ rest) ≡ matches p (suc i) rest
unfolding matches
matches-miss p i s rest h = rw h

-- With as many free cells as matches are left, the loop stays in the array and fills it.
collect-matches :
    (p : Bytes) (i : ℕ) (done : List (Option ℕ)) (stops : List BkkStop)
    → collect p i (length done) (done ++ replicate (length (matches p i stops)) none) stops
      ≡ some (done ++ map some (matches p i stops))
unfolding collect
collect-matches p i done [] = unfold matches in refl
collect-matches p i done (s ∷ rest) = elim (Bool-cases (strstr s.stop_name p)) [
  | inl h ↦
      let n = length (matches p (suc i) rest) in
      let done' = done ++ some i ∷ [] in
      let grown : suc (length done) ≡ length done' =
        omega (arith, length-append done (some i ∷ [])) in
      let ih = collect-matches p (suc i) done' rest in
      rw (h, collect, matches-hit p i s rest h, write_index-front done n i, grown)
        (ih ∙ ap some (append_assoc done (some i ∷ []) (map some (matches p (suc i) rest))))
  | inr h ↦ rw (h, collect, matches-miss p i s rest h) (collect-matches p (suc i) done rest)
]

-- What the search leaves for the caller, given the indices that match.
pub found_matches : Option (List (Option ℕ)) → ℕ → List ℕ → SubstringOut
found_matches indices_out count_out [] = no_match (cell indices_out) (cell count_out)
found_matches indices_out count_out (i ∷ later) = record {
  stat = found;
  indices_out = cell (some (map some (i ∷ later)));
  count_out = cell (length (i ∷ later));
}

module _ (p : Bytes) (stops : List BkkStop) (indices_out : Option (List (Option ℕ)))
    (count_out : ℕ) where
  find_substring_by :
      (found_at : List ℕ)
      → count_matches p 0 stops ≡ length found_at
      → collect p 0 0 (replicate (length found_at) none) stops ≡ some (map some found_at)
      → find_substring_in stops p (cell indices_out) (cell count_out) true
        ≡ some (found_matches indices_out count_out found_at)
  unfolding find_substring_in found_matches
  find_substring_by [] counted collected = rw counted
  find_substring_by (i ∷ later) counted collected = ground arith

  find_substring_in_lem :
      find_substring_in stops p (cell indices_out) (cell count_out) true
      ≡ some (found_matches indices_out count_out (matches p 0 stops))
  find_substring_in_lem =
      find_substring_by (matches p 0 stops) (omega (arith, count_matches-length p 0 0 stops))
        (collect-matches p 0 [] stops)

-- Given somewhere to put its result and the memory for it, the search never writes outside the array
-- that it allocates, leaves no cell of it unset, and returns exactly the rows whose name contains the
-- text, in the order of the table, with their number; if there is none it says so, with no array.
pub find_stops_by_name_substring-matches :
    (p : Bytes) (indices_out : Option (List (Option ℕ))) (count_out : ℕ)
    → find_stops_by_name_substring (some p) (cell indices_out) (cell count_out) true
      ≡ some (found_matches indices_out count_out (matches p 0 bkk_stop_list))
unfolding find_stops_by_name_substring
find_stops_by_name_substring-matches p indices_out count_out =
    find_substring_in_lem p bkk_stop_list indices_out count_out

-- Each index that matches is the index of a row of the table, whose name contains the text.
abbrev pub IsMatch : Bytes → List BkkStop → ℕ → Type 0
IsMatch p stops i = (s : BkkStop) × (get_elem? stops i ≡ some s) × (strstr s.stop_name p ≡ true)

get_elem?-append :
    (front : List BkkStop) (s : BkkStop) (rest : List BkkStop)
    → get_elem? (front ++ s ∷ rest) (length front) ≡ some s
get_elem?-append [] s rest = refl
get_elem?-append (r ∷ front) s rest = get_elem?-append front s rest

matches-IsMatch :
    (p : Bytes) (all front stops : List BkkStop)
    → all ≡ front ++ stops
    → All (IsMatch p all) (matches p (length front) stops)
unfolding matches
matches-IsMatch p all front [] e = tt
matches-IsMatch p all front (s ∷ rest) e = elim (Bool-cases (strstr s.stop_name p)) [
  | inl h ↦
      let ih =
        matches-IsMatch p all (front ++ s ∷ []) rest (e ∙ sym (append_assoc front (s ∷ []) rest)) in
      let next : length (front ++ s ∷ []) ≡ suc (length front) =
        omega (arith, length-append front (s ∷ [])) in
      rw h ((s, rw e (get_elem?-append front s rest), h), rw next at ih)
  | inr h ↦
      let ih =
        matches-IsMatch p all (front ++ s ∷ []) rest (e ∙ sym (append_assoc front (s ∷ []) rest)) in
      let next : length (front ++ s ∷ []) ≡ suc (length front) =
        omega (arith, length-append front (s ∷ [])) in
      rw h (rw next at ih)
]

-- One line for each index, in order: the index, the id and the name of its row, which matches.
abbrev pub AreLines : Bytes → List ℕ → List StopLine → Type 0
AreLines p [] [] = Unit
AreLines p [] (line ∷ lines) = ⊥
AreLines p (i ∷ later) [] = ⊥
AreLines p (i ∷ later) (line ∷ lines) =
    ((s : BkkStop) × (get_elem? bkk_stop_list i ≡ some s)
      × (strstr s.stop_name p ≡ true)
      × (line ≡ record { index = i; id = s.stop_id; name = s.stop_name }))
    × AreLines p later lines

lt_length-get_elem? :
    (i : ℕ) (stops : List BkkStop) {s : BkkStop} → get_elem? stops i ≡ some s → i < length stops
lt_length-get_elem? i [] e = cc
lt_length-get_elem? zero (r ∷ stops) e = omega arith
lt_length-get_elem? (suc i) (r ∷ stops) {s} e = omega (arith, lt_length-get_elem? i stops {s = s} e)

display_loop_lines :
    (p : Bytes) (found_at : List ℕ)
    → All (IsMatch p bkk_stop_list) found_at
    → (lines : List StopLine) × (display_loop (length found_at) found_at ≡ some lines)
      × AreLines p found_at lines
unfolding display_loop
display_loop_lines p [] h = ([], refl, tt)
display_loop_lines p (i ∷ later) ((s, e, m), rest) =
    let (lines, printed, are) = display_loop_lines p later rest in
    let below : ltb i bkk_stop_count ≡ true =
      lt→ltb i bkk_stop_count
        (omega (arith, lt_length-get_elem? i bkk_stop_list {s = s} e, length-bkk_stop_list)) in
    (
      record { index = i; id = s.stop_id; name = s.stop_name } ∷ lines,
      rw (printed, below, e),
      ((s, e, m, refl), are),
    )

-- Listing what the search found prints a line for each index, in order: the index with the id and the
-- name of its row, a name that contains the text searched for. The listing reads no cell past the
-- array, and it reports that there is nothing exactly when the search found nothing.
pub display_stop_list-matches :
    (p : Bytes)
    → let found_at = matches p 0 bkk_stop_list in
      (lines : List StopLine) × AreLines p found_at lines
      × (display_stop_list (some found_at) (length found_at)
          ≡ some ((if length found_at == 0 then not_found else found), lines))
unfolding display_stop_list
display_stop_list-matches p =
    go (matches p 0 bkk_stop_list) (matches-IsMatch p bkk_stop_list [] bkk_stop_list refl)
  where
    go :
        (found_at : List ℕ)
        → All (IsMatch p bkk_stop_list) found_at
        → (lines : List StopLine) × AreLines p found_at lines
          × (display_stop_list (some found_at) (length found_at)
              ≡ some ((if length found_at == 0 then not_found else found), lines))
    go [] h = ([], tt, refl)
    go (i ∷ later) h =
        let (lines, printed, are) = display_loop_lines p (i ∷ later) h in
        (lines, are, ground (arith, printed))
