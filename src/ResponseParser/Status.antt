-- ===== src/ResponseParser/Status.antt =====
-- The outcomes of a parse: which answer gives which status, what the vector holds, and that the tree
-- is freed (bkk_uds_server/bkk_response_parser.cpp).
use bkk_api.Common.{
  ℕ, ◌+◌, ◌-◌, ◌<◌, Bytes, bytes, Bool-cases, true, false, ltb, ◌==◌, if◌then◌else◌, Option, none,
  some, Option-cases, List, [], ◌∷◌, length, ◌≡◌, ◌↔◌, ◌⊎◌, refl, inl, inr, arith, null, cell, Ptr,
}
use bkk_api.Types.{Arrival}
use bkk_api.ResponseParser.{
  ArrivalsParseStatus, success, success_with_warnings, invalid_json, root_not_object,
  missing_data_object, missing_entry_object, stop_times_not_array, empty_stop_times,
  no_valid_stop_times, is_object, is_array, Context, context_of, final_status, Parsed, rejected,
  parse_stop_times, parse_root, parse_arrivals_response,
}
use bkk_api.ResponseParser.External.{Json, Platform}
use bkk_api.ResponseParser.Loop.{items, kept, stop_times_loop-kept}

-- The status for `count` entries of which some are kept.
abbrev pub status_of : List Arrival → ℕ → ArrivalsParseStatus
status_of [] count = no_valid_stop_times
status_of (a ∷ rest) count =
    if ltb (length (a ∷ rest)) count then success_with_warnings else success

-- The status of a result says that arrivals were read.
abbrev pub IsSuccess : ArrivalsParseStatus → Type 0
IsSuccess s = (s ≡ success) ⊎ (s ≡ success_with_warnings)

abbrev pub IsFull : Ptr (List Arrival) → Type 0
IsFull out = (a : Arrival) × (rest : List Arrival) × (out ≡ cell (a ∷ rest))

status_of-IsSuccess :
    (l : List Arrival) (count : ℕ) → IsSuccess (status_of l count) ↔ IsFull (cell l)
status_of-IsSuccess [] count = ((λ h. ground arith), λ (a, rest, e). absurd (ground arith))
status_of-IsSuccess (a ∷ rest) count = ((λ h. (a, rest, refl)), λ h. ground arith)

module _ (j : Json) (pl : Platform j) where
  -- The arrivals of all items of an array, in order.
  abbrev pub arrivals_of : Context j pl → j.Node → List Arrival
  arrivals_of c array = kept j pl c array (items j pl c array (j.array_size array) 0)

  parse_stop_times_lem :
      (c : Context j pl) (array : j.Node)
      → 0 < j.array_size array
      → parse_stop_times j pl c array ≡ record {
        status = status_of (arrivals_of c array) (j.array_size array);
        output_arrivals = cell (arrivals_of c array);
        deletes = 1;
      }
  unfolding parse_stop_times final_status
  parse_stop_times_lem c array h =
      rw (stop_times_loop-kept j pl c array (j.array_size array) 0 [] 0) (go (arrivals_of c array))
    where
      go :
          (l : List Arrival)
          → (if j.array_size array == 0 then rejected j pl empty_stop_times 1 else record {
            status = final_status j pl l (0 + (j.array_size array - length l));
            output_arrivals = cell l;
            deletes = 1;
          })
            ≡ record {
              status = status_of l (j.array_size array);
              output_arrivals = cell l;
              deletes = 1;
            }
      go [] = ground arith
      go (a ∷ l) = ground arith

  -- The rules of the answer, read from the structure of a body: for each outcome its condition.
  pub data Outcome (body : Bytes) (p : Parsed j pl) : Type 0 where
    not_json : j.parse body ≡ none → p ≡ rejected j pl invalid_json 0 → Outcome body p
    no_root :
        (r : j.Node)
        → j.parse body ≡ some r
        → j.is_object r ≡ false
        → p ≡ rejected j pl root_not_object 1
        → Outcome body p
    no_data :
        (r : j.Node)
        → j.parse body ≡ some r
        → j.is_object r ≡ true
        → is_object j pl (j.get_object_item r (bytes "data")) ≡ false
        → p ≡ rejected j pl missing_data_object 1
        → Outcome body p
    no_entry :
        (r d : j.Node)
        → j.parse body ≡ some r
        → j.is_object r ≡ true
        → j.get_object_item r (bytes "data") ≡ some d
        → j.is_object d ≡ true
        → is_object j pl (j.get_object_item d (bytes "entry")) ≡ false
        → p ≡ rejected j pl missing_entry_object 1
        → Outcome body p
    no_array :
        (r d e : j.Node)
        → j.parse body ≡ some r
        → j.is_object r ≡ true
        → j.get_object_item r (bytes "data") ≡ some d
        → j.is_object d ≡ true
        → j.get_object_item d (bytes "entry") ≡ some e
        → j.is_object e ≡ true
        → is_array j pl (j.get_object_item e (bytes "stopTimes")) ≡ false
        → p ≡ rejected j pl stop_times_not_array 1
        → Outcome body p
    empty :
        (r d e a : j.Node)
        → j.parse body ≡ some r
        → j.is_object r ≡ true
        → j.get_object_item r (bytes "data") ≡ some d
        → j.is_object d ≡ true
        → j.get_object_item d (bytes "entry") ≡ some e
        → j.is_object e ≡ true
        → j.get_object_item e (bytes "stopTimes") ≡ some a
        → j.is_array a ≡ true
        → j.array_size a ≡ 0
        → p ≡ rejected j pl empty_stop_times 1
        → Outcome body p
    read :
        (r d e a : j.Node)
        → j.parse body ≡ some r
        → j.is_object r ≡ true
        → j.get_object_item r (bytes "data") ≡ some d
        → j.is_object d ≡ true
        → j.get_object_item d (bytes "entry") ≡ some e
        → j.is_object e ≡ true
        → j.get_object_item e (bytes "stopTimes") ≡ some a
        → j.is_array a ≡ true
        → 0 < j.array_size a
        → p ≡ record {
          status = status_of (arrivals_of (context_of j pl r (some d)) a) (j.array_size a);
          output_arrivals = cell (arrivals_of (context_of j pl r (some d)) a);
          deletes = 1;
        }
        → Outcome body p

  -- An optional node is an object, or it is not.
  pub is_object-cases :
      (n : Option j.Node)
      → (is_object j pl n ≡ false) ⊎ ((m : j.Node) × (n ≡ some m) × (j.is_object m ≡ true))
  is_object-cases none = inl refl
  is_object-cases (some m) = elim (Bool-cases (j.is_object m)) [
    | inl h ↦ inr (m, refl, h)
    | inr h ↦ inl h
  ]

  is_array-cases :
      (n : Option j.Node)
      → (is_array j pl n ≡ false) ⊎ ((m : j.Node) × (n ≡ some m) × (j.is_array m ≡ true))
  is_array-cases none = inl refl
  is_array-cases (some m) = elim (Bool-cases (j.is_array m)) [
    | inl h ↦ inr (m, refl, h)
    | inr h ↦ inl h
  ]

  array_outcome :
      (body : Bytes) (r d e a : j.Node)
      → j.parse body ≡ some r
      → j.is_object r ≡ true
      → j.get_object_item r (bytes "data") ≡ some d
      → j.is_object d ≡ true
      → j.get_object_item d (bytes "entry") ≡ some e
      → j.is_object e ≡ true
      → j.get_object_item e (bytes "stopTimes") ≡ some a
      → j.is_array a ≡ true
      → Outcome body (parse_stop_times j pl (context_of j pl r (some d)) a)
  unfolding parse_stop_times
  array_outcome body r d e a h1 h2 h3 h4 h5 h6 h7 h8 = elim (Bool-cases (j.array_size a == 0)) [
    | inl z ↦ empty r d e a h1 h2 h3 h4 h5 h6 h7 h8 (ground arith) (rw z)
    | inr z ↦
        read r d e a h1 h2 h3 h4 h5 h6 h7 h8 (ground arith)
          (parse_stop_times_lem _ a (ground arith))
  ]

  root_outcome :
      (body : Bytes) (r : j.Node) → j.parse body ≡ some r → Outcome body (parse_root j pl r)
  unfolding parse_root
  root_outcome body r h1 = elim (Bool-cases (j.is_object r)) [
    | inr n ↦ no_root r h1 n (rw n)
    | inl h2 ↦ elim (is_object-cases (j.get_object_item r (bytes "data"))) [
      | inl n ↦ no_data r h1 h2 n (rw (h2, n))
      | inr (d, h3, h4) ↦ elim (is_object-cases (j.get_object_item d (bytes "entry"))) [
        | inl n ↦ no_entry r d h1 h2 h3 h4 n (rw (h2, h3, h4, n))
        | inr (e, h5, h6) ↦ elim (is_array-cases (j.get_object_item e (bytes "stopTimes"))) [
          | inl n ↦ no_array r d e h1 h2 h3 h4 h5 h6 n (rw (h2, h3, h4, h5, h6, n))
          | inr (a, h7, h8) ↦
              rw (h2, h3, h4, h5, h6, h7, h8, h3)
                (array_outcome body r d e a h1 h2 h3 h4 h5 h6 h7 h8)
        ]
      ]
    ]
  ]

  -- With a vector to fill, each of the seven outcomes is the one whose condition the body meets:
  -- the text is no JSON, the root is no object, `data` or `entry` is missing or no object,
  -- `stopTimes` is no array, or empty, each with an empty vector; or else the vector holds the kept
  -- arrivals of the items, in order, and the status says whether none, some or all were kept. What
  -- the vector held before plays no part.
  pub parse_arrivals_response-Outcome :
      (body : Bytes) (old : List Arrival)
      → Outcome body (parse_arrivals_response j pl body (cell old))
  unfolding parse_arrivals_response
  parse_arrivals_response-Outcome body old = elim (Option-cases (j.parse body)) [
    | inl h ↦ not_json h (rw (h, parse_arrivals_response))
    | inr (r, h) ↦ rw (h, parse_arrivals_response) (root_outcome body r h)
  ]

  rejected-IsSuccess : (s : ArrivalsParseStatus) → ¬ IsSuccess s → IsSuccess s ↔ IsFull (cell [])
  rejected-IsSuccess s n = ((λ h. absurd (n h)), λ (a, rest, e). absurd (ground arith))

  Outcome-IsSuccess :
      (body : Bytes) (p : Parsed j pl)
      → Outcome body p
      → IsSuccess p.status ↔ IsFull p.output_arrivals
  Outcome-IsSuccess body p (not_json _ e) = rw e (rejected-IsSuccess _ (ground arith))
  Outcome-IsSuccess body p (no_root _ _ _ e) = rw e (rejected-IsSuccess _ (ground arith))
  Outcome-IsSuccess body p (no_data _ _ _ _ e) = rw e (rejected-IsSuccess _ (ground arith))
  Outcome-IsSuccess body p (no_entry _ _ _ _ _ _ _ e) = rw e (rejected-IsSuccess _ (ground arith))
  Outcome-IsSuccess body p (no_array _ _ _ _ _ _ _ _ _ _ e) =
      rw e (rejected-IsSuccess _ (ground arith))
  Outcome-IsSuccess body p (empty _ _ _ _ _ _ _ _ _ _ _ _ _ e) =
      rw e (rejected-IsSuccess _ (ground arith))
  Outcome-IsSuccess body p (read _ _ _ a _ _ _ _ _ _ _ _ _ e) =
      rw e (status_of-IsSuccess _ (j.array_size a))

  -- A parse reports success, with or without warnings, exactly when it leaves at least one arrival in
  -- the caller's vector.
  pub parse_arrivals_response-IsSuccess :
      (body : Bytes) (out : Ptr (List Arrival))
      → let p = parse_arrivals_response j pl body out in
        IsSuccess p.status ↔ IsFull p.output_arrivals
  parse_arrivals_response-IsSuccess body null =
      unfold parse_arrivals_response in
      ((λ h. absurd (ground arith)), λ (a, rest, e). absurd (ground arith))
  parse_arrivals_response-IsSuccess body (cell old) =
      Outcome-IsSuccess body _ (parse_arrivals_response-Outcome body old)

  -- A vector stays a vector.
  pub parse_arrivals_response_cell :
      (body : Bytes) (old : List Arrival)
      → (l : List Arrival) × ((parse_arrivals_response j pl body (cell old)).output_arrivals
          ≡ cell l)
  parse_arrivals_response_cell body old = go (parse_arrivals_response-Outcome body old)
    where
      go : {p : Parsed j pl} → Outcome body p → (l : List Arrival) × (p.output_arrivals ≡ cell l)
      go (not_json _ e) = ([], rw e)
      go (no_root _ _ _ e) = ([], rw e)
      go (no_data _ _ _ _ e) = ([], rw e)
      go (no_entry _ _ _ _ _ _ _ e) = ([], rw e)
      go (no_array _ _ _ _ _ _ _ _ _ _ e) = ([], rw e)
      go (empty _ _ _ _ _ _ _ _ _ _ _ _ _ e) = ([], rw e)
      go (read r d _ a _ _ _ _ _ _ _ _ _ e) = (arrivals_of (context_of j pl r (some d)) a, rw e)

  -- How many trees cJSON has allocated for the caller.
  abbrev pub trees : Option j.Node → ℕ
  trees none = 0
  trees (some r) = 1

  -- The tree of a parsed body is freed exactly once, on every path; where there is none, because the
  -- text is no JSON, nothing is freed.
  pub deletes-trees :
      (body : Bytes) (old : List Arrival)
      → (parse_arrivals_response j pl body (cell old)).deletes ≡ trees (j.parse body)
  deletes-trees body old = go (parse_arrivals_response-Outcome body old)
    where
      go : {p : Parsed j pl} → Outcome body p → p.deletes ≡ trees (j.parse body)
      go (not_json h e) = rw (e, h)
      go (no_root _ h _ e) = rw (e, h)
      go (no_data _ h _ _ e) = rw (e, h)
      go (no_entry _ _ h _ _ _ _ e) = rw (e, h)
      go (no_array _ _ _ h _ _ _ _ _ _ e) = rw (e, h)
      go (empty _ _ _ _ h _ _ _ _ _ _ _ _ e) = rw (e, h)
      go (read _ _ _ _ h _ _ _ _ _ _ _ _ e) = rw (e, h)
