-- ===== src/Common/Assoc.antt =====
-- A table of `std::string` keys as an association list with distinct keys.
use Prim.Native.Nat.{suc}
use mathlib.Core.Path.{subst, ◌≡◌, refl}
use mathlib.Core.Logic.{inl, inr}
use mathlib.Core.Bool.{Bool, false}
use mathlib.Core.Option.{Option, none, some}
use mathlib.Core.List.{List, [], ◌∷◌}
use native.Mathlib.Omega.{arith}
use bkk_api.Common.Decide.{if◌then◌else◌, Bool-cases}
use bkk_api.Common.Lists.{length, All}
use bkk_api.Common.Text.{Bytes, str_eq, str_eq→eq, str_eq_iff}

module _ {ℓ} {V : Type ℓ} where
  -- `find(k)`, and what it points to.
  unfoldable pub lookup : Bytes → List (Bytes × V) → Option V
  lookup k [] = none
  lookup k ((j, v) ∷ m) = if str_eq j k then some v else lookup k m

  -- `m[k] = v`.
  unfoldable pub insert : Bytes → V → List (Bytes × V) → List (Bytes × V)
  insert k v [] = (k, v) ∷ []
  insert k v ((j, w) ∷ m) = if str_eq j k then (j, v) ∷ m else (j, w) ∷ insert k v m

  -- The loop that erases the entries of which a test holds.
  unfoldable pub erase_if : (V → Bool) → List (Bytes × V) → List (Bytes × V)
  erase_if test [] = []
  erase_if test ((j, v) ∷ m) = let rest = erase_if test m in if test v then rest else (j, v) ∷ rest

  -- No key stands twice.
  abbrev pub Distinct : List (Bytes × V) → Type ℓ
  Distinct [] = Unit
  Distinct ((j, v) ∷ m) = (lookup j m ≡ none) × Distinct m

  pub lookup-insert :
      (k q : Bytes) (v : V) (m : List (Bytes × V))
      → lookup q (insert k v m) ≡ (if str_eq k q then some v else lookup q m)
  unfolding lookup insert
  lookup-insert k q v [] = refl
  lookup-insert k q v ((j, w) ∷ m) =
      ground (arith, str_eq_iff k q, str_eq_iff j k, str_eq_iff j q, lookup-insert k q v m)

  pub insert-Distinct :
      (k : Bytes) (v : V) (m : List (Bytes × V)) → Distinct m → Distinct (insert k v m)
  unfolding insert lookup
  insert-Distinct k v [] d = (refl, tt)
  insert-Distinct k v ((j, w) ∷ m) (new, d) = elim (Bool-cases (str_eq j k)) [
    | inl h ↦ rw h (new, d)
    | inr h ↦ rw h (
      ground (arith, lookup-insert k j v m, str_eq_iff k j, str_eq_iff j k, new),
      insert-Distinct k v m d,
    )
  ]

  pub lookup-erase_if-none :
      (test : V → Bool) (q : Bytes) (m : List (Bytes × V))
      → lookup q m ≡ none
      → lookup q (erase_if test m) ≡ none
  unfolding lookup erase_if
  lookup-erase_if-none test q [] e = refl
  lookup-erase_if-none test q ((j, v) ∷ m) e = ground (arith, lookup-erase_if-none test q m)

  -- What a lookup finds after the entries that fail a test are gone.
  abbrev pub unless : (V → Bool) → Option V → Option V
  unless test none = none
  unless test (some v) = if test v then none else some v

  pub lookup-erase_if :
      (test : V → Bool) (q : Bytes) (m : List (Bytes × V))
      → Distinct m
      → lookup q (erase_if test m) ≡ unless test (lookup q m)
  unfolding lookup erase_if
  lookup-erase_if test q [] d = refl
  lookup-erase_if test q ((j, v) ∷ m) (new, d) = ground (
    arith,
    str_eq_iff j q,
    lookup-erase_if test q m d,
    lookup-erase_if-none test j m new,
    lookup-erase_if-none test q m,
  )

  pub erase_if-Distinct :
      (test : V → Bool) (m : List (Bytes × V)) → Distinct m → Distinct (erase_if test m)
  unfolding erase_if
  erase_if-Distinct test [] d = tt
  erase_if-Distinct test ((j, v) ∷ m) (new, d) = elim (Bool-cases (test v)) [
    | inl h ↦ rw h (erase_if-Distinct test m d)
    | inr h ↦ rw h (lookup-erase_if-none test j m new, erase_if-Distinct test m d)
  ]

  -- Every entry that stays fails the test.
  pub erase_if-All :
      (test : V → Bool) (m : List (Bytes × V)) → All (λ e. test e.1 ≡ false) (erase_if test m)
  unfolding erase_if
  erase_if-All test [] = tt
  erase_if-All test ((j, v) ∷ m) = elim (Bool-cases (test v)) [
    | inl h ↦ rw h (erase_if-All test m)
    | inr h ↦ rw h (h, erase_if-All test m)
  ]

  -- Where the test holds of nothing, nothing is erased.
  pub erase_if_none :
      (test : V → Bool) (m : List (Bytes × V)) → All (λ e. test e.1 ≡ false) m → erase_if test m ≡ m
  unfolding erase_if
  erase_if_none test [] h = refl
  erase_if_none test ((j, v) ∷ m) (h, rest) = rw (h, erase_if_none test m rest)

  pub length-insert_new :
      (k : Bytes) (v : V) (m : List (Bytes × V))
      → lookup k m ≡ none
      → length (insert k v m) ≡ suc (length m)
  unfolding insert lookup
  length-insert_new k v [] e = refl
  length-insert_new k v ((j, w) ∷ m) e = ground (arith, length-insert_new k v m)

  pub insert-All {κ} :
      (P : Bytes × V → Type κ) (k : Bytes) (v : V) (m : List (Bytes × V))
      → P (k, v)
      → All P m
      → All P (insert k v m)
  unfolding insert
  insert-All P k v [] p h = (p, tt)
  insert-All P k v ((j, w) ∷ m) p (q, h) = elim (Bool-cases (str_eq j k)) [
    | inl e ↦ rw (e, str_eq→eq j k e) (p, h)
    | inr e ↦ rw e (q, insert-All P k v m p h)
  ]

  -- Erasing keeps what holds of every entry.
  pub erase_if-All_of {κ} :
      (P : Bytes × V → Type κ) (test : V → Bool) (m : List (Bytes × V))
      → All P m
      → All P (erase_if test m)
  unfolding erase_if
  erase_if-All_of P test [] h = tt
  erase_if-All_of P test ((j, v) ∷ m) (p, h) = elim (Bool-cases (test v)) [
    | inl e ↦ rw e (erase_if-All_of P test m h)
    | inr e ↦ rw e (p, erase_if-All_of P test m h)
  ]

  -- What holds of every entry holds of one that is found.
  pub All-lookup {κ} :
      (P : V → Type κ) (q : Bytes) (m : List (Bytes × V)) {v : V}
      → All (λ e. P e.1) m
      → lookup q m ≡ some v
      → P v
  unfolding lookup
  All-lookup P q [] h e = cc
  All-lookup P q ((j, w) ∷ m) {v} (p, h) e = elim (Bool-cases (str_eq j q)) [
    | inl s ↦ let same : w ≡ v = cc (rw s at e) in subst P same p
    | inr s ↦ All-lookup P q m h (rw s at e)
  ]
