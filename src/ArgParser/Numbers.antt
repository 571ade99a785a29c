-- ===== src/ArgParser/Numbers.antt =====
-- The numbers of the command line, read back from their decimal text
-- (bkk_uds_server/bkk_arg_parser.cpp).
use bkk_api.Common.{
  ℕ, zero, suc, ◌+◌, ◌-◌, ◌*◌, ◌/◌, ◌%◌, ◌<◌, Bytes, Bool-cases, ltb, leb, ◌==◌, if◌then◌else◌,
  true, false, ◌&&◌, none, some, [], ◌∷◌, ◌≡◌, inl, inr, sym, ◌∙◌, ap, arith,
}
use bkk_api.Common.Libc.{strtol, strtol_sign, strtol_digits, isspace, isdigit}
use bkk_api.ArgParser.{int_max, parse_positive_int}

-- The decimal digits of a number in front of a text; the fuel `n + 1` is enough for `n`.
decimal_onto : ℕ → ℕ → Bytes → Bytes
decimal_onto zero n s = s
decimal_onto (suc f) n s =
    let more = decimal_onto f (n / 10) ((48 + n % 10) ∷ s) in
    if ltb n 10 then (48 + n) ∷ s else more

unfoldable pub decimal : ℕ → Bytes
unfolding decimal_onto
decimal n = decimal_onto (suc n) n []

digit-read :
    (converted negative : _) (acc d : ℕ) (s : Bytes)
    → d < 10
    → strtol_digits converted negative acc ((48 + d) ∷ s)
      ≡ strtol_digits true negative (acc * 10 + d) s
unfolding strtol_digits isdigit
digit-read converted negative acc d s h =
    let in_range : isdigit (48 + d) ≡ true = ground arith in
    let value : 48 + d - 48 ≡ d = omega arith in rw (in_range, value)

-- Reading the digits of `n` leaves `n`.
decimal_onto-read :
    (f n : ℕ) (s : Bytes)
    → n < f
    → strtol_digits false false 0 (decimal_onto f n s) ≡ strtol_digits true false n s
unfolding decimal_onto
decimal_onto-read zero n s h = absurd (omega arith)
decimal_onto-read (suc f) n s h = elim (Bool-cases (ltb n 10)) [
  | inl small ↦
      rw (small, digit-read false false 0 n s (ground arith))
        (ap (λ m. strtol_digits true false m s) (omega arith))
  | inr large ↦
      rw
        (
          large,
          decimal_onto-read f (n / 10) ((48 + n % 10) ∷ s) (ground arith),
          digit-read true false (n / 10) (n % 10) s (omega arith),
        )
        (ap (λ m. strtol_digits true false m s) (omega arith))
]

decimal_onto-head :
    (f n : ℕ) (s : Bytes)
    → n < f
    → (d : ℕ) × (t : Bytes) × (d < 10) × (decimal_onto f n s ≡ (48 + d) ∷ t)
unfolding decimal_onto
decimal_onto-head zero n s h = absurd (omega arith)
decimal_onto-head (suc f) n s h = elim (Bool-cases (ltb n 10)) [
  | inl small ↦ (n, s, ground arith, rw small)
  | inr large ↦
      let (d, t, lt, e) = decimal_onto-head f (n / 10) ((48 + n % 10) ∷ s) (ground arith) in
      (d, t, lt, rw large e)
]

-- A text that begins with a digit has no space and no sign to pass over.
strtol-digit :
    (d : ℕ) (t : Bytes)
    → d < 10
    → strtol ((48 + d) ∷ t) ≡ strtol_digits false false 0 ((48 + d) ∷ t)
unfolding strtol strtol_sign isspace
strtol-digit d t h =
    let no_space : isspace (48 + d) ≡ false = ground arith in
    let no_minus : (48 + d == b'-') ≡ false = ground arith in
    let no_plus : (48 + d == b'+') ≡ false = ground arith in rw (no_space, no_minus, no_plus)

strtol-decimal :
    (n : ℕ)
    → strtol (decimal n) ≡ record { converted = true; negative = false; magnitude = n; rest = [] }
unfolding decimal strtol_digits
strtol-decimal n =
    let (d, t, lt, e) = decimal_onto-head (suc n) n [] (omega arith) in
    ap strtol e
    ∙ strtol-digit d t lt
    ∙ ap (strtol_digits false false 0) (sym e)
    ∙ decimal_onto-read (suc n) n [] (omega arith)

-- Every number from 1 to `INT_MAX` is read back from its decimal text, and every larger one, as well
-- as zero, is refused.
pub parse_positive_int-decimal :
    (n : ℕ)
    → parse_positive_int (some (decimal n)) ≡ (if leb 1 n && leb n int_max then some n else none)
unfolding parse_positive_int
parse_positive_int-decimal n = rw (strtol-decimal n) (ground arith)
