-- ===== src/StopUtils/Find.antt =====
-- What the lookups of one stop return: by id, by name and by index (bkk_uds/bkk_stop_utils.c).
use bkk_api.Common.{
  ℕ, zero, suc, ◌<◌, ◌≤◌, Bytes, str_eq, str_eq_refl, str_eq→eq, true, Bool-cases, some, ltb,
  ltb→lt, List, [], ◌∷◌, get_elem?, length, All, take, Ptr, store, ◌≡◌, refl, ◌⊎◌, inl, inr, arith,
}
use bkk_api.StopList.{bkk_stop_list, bkk_stop_count}
use bkk_api.StopList.Row.{BkkStop}
use bkk_api.StopList.Order.{
  is_ascending, is_ascending-tail, ascending_ne, bkk_stop_list-ascending, length-bkk_stop_list,
}
use bkk_api.StopUtils.{
  BkkStopStat, found, not_found, scan_id, find_stop_by_id, scan_name, find_stop_by_name,
  find_stop_by_index,
}

-- The first row that has a property: its index, and none before it has it.
pub record IsFirst (P : BkkStop → Type 0) (stops : List BkkStop) (i : ℕ) (s : BkkStop)
    : Type 0 where
  pub at : get_elem? stops i ≡ some s
  pub holds : P s
  pub earlier : All (λ r. ¬ P r) (take i stops)

-- The two outcomes of a lookup of the first row that has a property.
abbrev pub FirstOrNone :
    (BkkStop → Type 0) → List BkkStop → Ptr BkkStop → BkkStopStat × Ptr BkkStop → Type 0
FirstOrNone P stops out result =
    ((result ≡ (not_found, out)) × All (λ r. ¬ P r) stops)
    ⊎ ((i : ℕ) × (s : BkkStop) × (result ≡ (found, store out s)) × IsFirst P stops i s)

-- One more row in front that has not the property.
FirstOrNone-cons :
    (P : BkkStop → Type 0) (r : BkkStop) (stops : List BkkStop) (out : Ptr BkkStop)
    (result : BkkStopStat × Ptr BkkStop)
    → ¬ P r
    → FirstOrNone P stops out result
    → FirstOrNone P (r ∷ stops) out result
FirstOrNone-cons P r stops out result n (inl (e, all)) = inl (e, (n, all))
FirstOrNone-cons P r stops out result n (inr (i, s, e, first)) =
    inr (suc i, s, e, record { at = first.at; holds = first.holds; earlier = (n, first.earlier) })

scan_id_first :
    (id : Bytes) (out : Ptr BkkStop) (stops : List BkkStop)
    → FirstOrNone (λ s. s.stop_id ≡ id) stops out (scan_id id out stops)
unfolding scan_id
scan_id_first id out [] = inl (refl, tt)
scan_id_first id out (s ∷ rest) = elim (Bool-cases (str_eq s.stop_id id)) [
  | inl hit ↦ inr (
    0,
    s,
    rw (hit, scan_id),
    record { at = refl; holds = str_eq→eq s.stop_id id hit; earlier = tt },
  )
  | inr miss ↦
      rw (miss, scan_id)
        (FirstOrNone-cons (λ r. r.stop_id ≡ id) s rest out _ (λ e. ground (arith, str_eq_refl id))
          (scan_id_first id out rest))
]

scan_name_first :
    (name : Bytes) (out : Ptr BkkStop) (stops : List BkkStop)
    → FirstOrNone (λ s. s.stop_name ≡ name) stops out (scan_name name out stops)
unfolding scan_name
scan_name_first name out [] = inl (refl, tt)
scan_name_first name out (s ∷ rest) = elim (Bool-cases (str_eq s.stop_name name)) [
  | inl hit ↦ inr (
    0,
    s,
    rw (hit, scan_name),
    record { at = refl; holds = str_eq→eq s.stop_name name hit; earlier = tt },
  )
  | inr miss ↦
      rw (miss, scan_name)
        (FirstOrNone-cons (λ r. r.stop_name ≡ name) s rest out _
          (λ e. ground (arith, str_eq_refl name)) (scan_name_first name out rest))
]

-- A lookup by name reports and copies the first row of the table with that name; if no row has it,
-- it reports that and leaves the caller's stop alone.
pub find_stop_by_name_first :
    (name : Bytes) (out : Ptr BkkStop)
    → FirstOrNone (λ s. s.stop_name ≡ name) bkk_stop_list out (find_stop_by_name (some name) out)
unfolding find_stop_by_name
find_stop_by_name_first name out = scan_name_first name out bkk_stop_list

-- A lookup by id reports and copies the first row of the table with that id; if no row has it, it
-- reports that and leaves the caller's stop alone.
pub find_stop_by_id_first :
    (id : Bytes) (out : Ptr BkkStop)
    → FirstOrNone (λ s. s.stop_id ≡ id) bkk_stop_list out (find_stop_by_id (some id) out)
unfolding find_stop_by_id
find_stop_by_id_first id out = scan_id_first id out bkk_stop_list

scan_id-ascending :
    (lo : Bytes) (stops : List BkkStop) (i : ℕ) (s : BkkStop) (out : Ptr BkkStop)
    → is_ascending lo stops ≡ true
    → get_elem? stops i ≡ some s
    → scan_id s.stop_id out stops ≡ (found, store out s)
unfolding scan_id
scan_id-ascending lo [] i s out h e = cc
scan_id-ascending lo (r ∷ rs) zero s out h e = ground (arith, str_eq_refl s.stop_id)
scan_id-ascending lo (r ∷ rs) (suc i) s out h e =
    let below = is_ascending-tail lo r rs h in
    ground (
      arith,
      str_eq→eq r.stop_id s.stop_id,
      ascending_ne r rs i below e,
      scan_id-ascending r.stop_id rs i s out below e,
    )

-- Every row of the table is found under its own id, whichever row it is: the ids are distinct, so no
-- earlier row hides it.
pub find_stop_by_id-stop_id :
    (i : ℕ) (s : BkkStop) (out : Ptr BkkStop)
    → get_elem? bkk_stop_list i ≡ some s
    → find_stop_by_id (some s.stop_id) out ≡ (found, store out s)
unfolding find_stop_by_id
find_stop_by_id-stop_id i s out e =
    scan_id-ascending [] bkk_stop_list i s out bkk_stop_list-ascending e

get_elem?-lt_length :
    (i : ℕ) (stops : List BkkStop) → i < length stops → (s : BkkStop) × (get_elem? stops i ≡ some s)
get_elem?-lt_length i [] h = elim h [ ]
get_elem?-lt_length zero (s ∷ stops) h = (s, refl)
get_elem?-lt_length (suc i) (s ∷ stops) h = get_elem?-lt_length i stops (omega arith)

-- An index below the count copies that row, and any other is refused with the caller's stop left alone:
-- the table holds as many rows as it declares.
pub find_stop_by_index_total :
    (i : ℕ) (out : Ptr BkkStop)
    → ((i < bkk_stop_count)
        × (s : BkkStop) × (get_elem? bkk_stop_list i ≡ some s)
        × (find_stop_by_index i out ≡ (found, store out s)))
      ⊎ ((bkk_stop_count ≤ i) × (find_stop_by_index i out ≡ (not_found, out)))
unfolding find_stop_by_index
find_stop_by_index_total i out = elim (Bool-cases (ltb i bkk_stop_count)) [
  | inl h ↦
      let (s, e) =
        get_elem?-lt_length i bkk_stop_list
          (omega (arith, ltb→lt i bkk_stop_count h, length-bkk_stop_list)) in
      inl (ltb→lt i bkk_stop_count h, s, e, rw (h, e))
  | inr h ↦ inr (ground arith, rw h)
]
