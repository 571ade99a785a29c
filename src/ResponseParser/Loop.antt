-- ===== src/ResponseParser/Loop.antt =====
-- The loop over the stop times, against the plain list of what its body keeps
-- (bkk_uds_server/bkk_response_parser.cpp).
use bkk_api.Common.{
  ℕ, zero, suc, ◌+◌, ◌-◌, ◌≤◌, Option, none, some, List, [], ◌∷◌, ◌++◌, length, Option-cases, inl,
  inr, ◌≡◌, arith,
}
use mathlib.Core.List.{append_assoc, append-nil}
use bkk_api.Types.{Arrival}
use bkk_api.ResponseParser.{Context, arrival_of, stop_times_loop}
use bkk_api.ResponseParser.External.{Json, Platform}

module _ (j : Json) (pl : Platform j) (c : Context j pl) (stop_times : j.Node) where
  -- The items from index `i` on, `left` of them.
  unfoldable pub items : ℕ → ℕ → List (Option j.Node)
  items zero i = []
  items (suc left) i = j.array_item stop_times i ∷ items left (suc i)

  -- What the body of the loop keeps of some items.
  unfoldable pub kept : List (Option j.Node) → List Arrival
  kept [] = []
  kept (item ∷ rest) = elim (arrival_of j pl c item) [ none ↦ kept rest | some a ↦ a ∷ kept rest ]

  length-kept-le : (left i : ℕ) → length (kept (items left i)) ≤ left
  unfolding kept items
  length-kept-le zero i = omega arith
  length-kept-le (suc left) i = ground (arith, length-kept-le left (suc i))

  -- The vector grows by the kept arrivals in the order of the array, and every other entry counts as
  -- skipped.
  pub stop_times_loop-kept :
      (left i : ℕ) (out : List Arrival) (skipped : ℕ)
      → stop_times_loop j pl c stop_times left i out skipped
        ≡ (out ++ kept (items left i), skipped + (left - length (kept (items left i))))
  unfolding stop_times_loop kept items
  stop_times_loop-kept zero i out skipped = ground (arith, append-nil out)
  stop_times_loop-kept (suc left) i out skipped =
      elim (Option-cases (arrival_of j pl c (j.array_item stop_times i))) [
        | inl e ↦
            rw (e, stop_times_loop, kept, stop_times_loop-kept left (suc i) out (skipped + 1))
              (ground (arith, length-kept-le left (suc i)))
        | inr (a, e) ↦
            rw (e, stop_times_loop, kept, stop_times_loop-kept left (suc i) (out ++ a ∷ []) skipped)
              (ground (
                arith,
                length-kept-le left (suc i),
                append_assoc out (a ∷ []) (kept (items left (suc i))),
              ))
      ]
