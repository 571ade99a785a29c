-- ===== src/ResponseParser/Origin.antt =====
-- Where the arrivals of a parse come from, and what their arrays hold
-- (bkk_uds_server/bkk_response_parser.cpp).
use bkk_api.Common.{
  Bytes, bytes, true, false, none, some, Option-cases, List, [], All, ◌≡◌, ◌⊎◌, refl, inl, inr,
  arith, cell, pos, subst,
}
use bkk_api.Types.{Arrival}
use bkk_api.ResponseParser.{
  is_object, number, api_time_of, Context, context_of, Parsed, parse_arrivals_response,
}
use bkk_api.ResponseParser.External.{Json, Platform}
use bkk_api.ResponseParser.Fields.{IsFromItem, kept-IsFromItem}
use bkk_api.ResponseParser.Status.{
  Outcome, not_json, no_root, no_data, no_entry, no_array, empty, read, arrivals_of,
  is_object-cases, parse_arrivals_response-Outcome,
}

module _ (j : Json) (pl : Platform j) where
  -- What the loop may know of a response with the root `r` and the data `d`: the time of the server, in
  -- seconds, the references of the data, and the trips of the references.
  pub record IsContext (r d : j.Node) (c : Context j pl) : Type 0 where
    pub time :
        ((number j pl (j.get_object_item r (bytes "currentTime")) ≡ none)
          × (c.api_time_s ≡ pl.from_int (pos 0)))
        ⊎ ((ms : j.Double) × (number j pl (j.get_object_item r (bytes "currentTime")) ≡ some ms)
            × (c.api_time_s ≡ pl.div ms (pl.from_int (pos 1000))))
    pub references : c.references ≡ j.get_object_item d (bytes "references")
    pub trips :
        ((is_object j pl c.references ≡ false) × (c.trips ≡ none))
        ⊎ ((f : j.Node) × (c.references ≡ some f)
            × (j.is_object f ≡ true)
            × (c.trips ≡ j.get_object_item f (bytes "trips")))

  api_time_of-cases :
      (r : j.Node)
      → ((number j pl (j.get_object_item r (bytes "currentTime")) ≡ none)
          × (api_time_of j pl r ≡ pl.from_int (pos 0)))
        ⊎ ((ms : j.Double) × (number j pl (j.get_object_item r (bytes "currentTime")) ≡ some ms)
            × (api_time_of j pl r ≡ pl.div ms (pl.from_int (pos 1000))))
  unfolding api_time_of
  api_time_of-cases r =
      elim (Option-cases (number j pl (j.get_object_item r (bytes "currentTime")))) [
        | inl e ↦ inl (e, rw (e, api_time_of))
        | inr (ms, e) ↦ inr (ms, e, rw (e, api_time_of))
      ]

  context_of-IsContext :
      (r d : j.Node) → j.is_object d ≡ true → IsContext r d (context_of j pl r (some d))
  unfolding context_of
  context_of-IsContext r d h = record {
    time = api_time_of-cases r;
    references = rw h refl;
    trips = rw h (elim (is_object-cases j pl (j.get_object_item d (bytes "references"))) [
      | inl n ↦ inl (n, rw n refl)
      | inr (f, e, o) ↦ inr (f, e, o, rw (e, o) refl)
    ]);
  }

  -- Arrivals read from a body: from items of the array `stopTimes` of its entry, with the references and
  -- the time of the same body.
  pub data AreFilled (body : Bytes) (out : List Arrival) : Type 0 where
    are_filled :
        (r d e a : j.Node) (c : Context j pl)
        → j.parse body ≡ some r
        → j.get_object_item r (bytes "data") ≡ some d
        → j.get_object_item d (bytes "entry") ≡ some e
        → j.get_object_item e (bytes "stopTimes") ≡ some a
        → IsContext r d c
        → All (IsFromItem j pl c a (j.array_size a)) out
        → AreFilled body out

  -- Whatever the body, each arrival that a parse leaves in the vector comes from an item within the bounds
  -- of the array `stopTimes` of the body's entry, an item that has a time. Its three texts stand in
  -- arrays of 8, 64 and 16 bytes, terminated, and are the line, the destination and the clock time of
  -- that item, looked up in the references and trips of the same body and cut to what fits; its
  -- minutes count from the time of the same body.
  pub parse_arrivals_response-AreFilled :
      (body : Bytes) (old out : List Arrival)
      → (parse_arrivals_response j pl body (cell old)).output_arrivals ≡ cell out
      → (out ≡ []) ⊎ AreFilled body out
  parse_arrivals_response-AreFilled body old out h =
      go (parse_arrivals_response-Outcome j pl body old) h
    where
      go :
          {p : Parsed j pl}
          → Outcome j pl body p
          → p.output_arrivals ≡ cell out
          → (out ≡ []) ⊎ AreFilled body out
      go (not_json _ e) h = inl (ground arith)
      go (no_root _ _ _ e) h = inl (ground arith)
      go (no_data _ _ _ _ e) h = inl (ground arith)
      go (no_entry _ _ _ _ _ _ _ e) h = inl (ground arith)
      go (no_array _ _ _ _ _ _ _ _ _ _ e) h = inl (ground arith)
      go (empty _ _ _ _ _ _ _ _ _ _ _ _ _ e) h = inl (ground arith)
      go (read r d n a h1 _ h3 h4 h5 _ h7 _ _ e) h =
          let c = context_of j pl r (some d) in
          let same : arrivals_of j pl c a ≡ out = ground arith in
          inr (
            are_filled r d n a c h1 h3 h5 h7 (context_of-IsContext r d h4) (
              subst (All (IsFromItem j pl c a (j.array_size a))) same
                (kept-IsFromItem j pl c a (j.array_size a) (j.array_size a) 0 (omega arith))))
