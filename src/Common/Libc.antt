-- ===== src/Common/Libc.antt =====
-- The functions of the C library that the program calls, as POSIX and GNU describe them: `isspace` and
-- `strtol` in the C locale, and `getopt` with the options that an option string lists.
use Prim.Native.Nat.{ℕ, ◌+◌, ◌*◌, ◌-◌, ◌^◌}
use mathlib.Core.Bool.{Bool, true, false, not, ◌&&◌, ◌||◌}
use mathlib.Core.Option.{Option, none, some}
use mathlib.Core.List.{List, [], ◌∷◌}
use bkk_api.Common.Decide.{ltb, leb, ◌==◌, if◌then◌else◌}
use bkk_api.Common.Text.{Bytes}

unfoldable pub isspace : ℕ → Bool
isspace c = c == 32 || leb 9 c && leb c 13

unfoldable pub isdigit : ℕ → Bool
isdigit c = leb 48 c && leb c 57

-- What `strtol(s, &endptr, 10)` finds: whether there are digits, their value and its sign, and the
-- text at `endptr`.
pub record Strtol : Type 0 where
  pub converted : Bool
  pub negative : Bool
  pub magnitude : ℕ
  pub rest : Bytes

-- The digits, after some with the value `acc`.
unfoldable pub strtol_digits : Bool → Bool → ℕ → Bytes → Strtol
strtol_digits converted negative acc [] = record {
  converted = converted;
  negative = negative;
  magnitude = acc;
  rest = [];
}
strtol_digits converted negative acc (c ∷ s) =
    let later = strtol_digits true negative (acc * 10 + (c - 48)) s in
    let here : Strtol = record {
      converted = converted;
      negative = negative;
      magnitude = acc;
      rest = c ∷ s;
    } in
    if isdigit c then later else here

unfoldable pub strtol_sign : Bytes → Strtol
unfolding strtol_digits isdigit
strtol_sign [] = strtol_digits false false 0 []
strtol_sign (c ∷ s) =
    if c == b'-'
    then strtol_digits false true 0 s
    else if c == b'+'
    then strtol_digits false false 0 s
    else strtol_digits false false 0 (c ∷ s)

unfoldable pub strtol : Bytes → Strtol
unfolding strtol_sign isspace
strtol [] = strtol_sign []
strtol (c ∷ s) = let rest = strtol s in if isspace c then rest else strtol_sign (c ∷ s)

-- `errno == ERANGE`: the value does not fit a `long` of 64 bits.
abbrev pub is_out_of_range : Strtol → Bool
is_out_of_range r = if r.negative then ltb (2 ^ 63) r.magnitude else leb (2 ^ 63) r.magnitude

abbrev pub is_nil {ℓ} : {A : Type ℓ} → List A → Bool
is_nil [] = true
is_nil (x ∷ xs) = false

-- What `getopt` returns: an option character (`?` for a failure), and `optarg`.
pub record Opt : Type 0 where
  pub option : ℕ
  pub optarg : Option Bytes

-- An option string: `none` for a character that it does not list, else whether an argument follows.
abbrev pub OptString : Type 0
OptString = ℕ → Option Bool

abbrev pub unknown_opt : Opt
unknown_opt = record { option = b'?'; optarg = none }

-- The options of one argument, from the rest of its letters: `next` is the argument behind it,
-- `after` what the calls return for the arguments behind it, and `after_next` for those behind `next`.
unfoldable pub cluster_opts : OptString → Bytes → Option Bytes → List Opt → List Opt → List Opt
cluster_opts spec [] next after after_next = after
cluster_opts spec (c ∷ cluster) next after after_next =
    let later = cluster_opts spec cluster next after after_next in
    let flag : Opt = record { option = c; optarg = none } in
    let own : List Opt = elim cluster [
      | d ∷ ds ↦ record { option = c; optarg = some (d ∷ ds) } ∷ after
      | [] ↦ elim next [
        | none ↦ unknown_opt ∷ []
        | some a ↦ record { option = c; optarg = some a } ∷ after_next
      ]
    ] in
    elim (spec c) [ none ↦ unknown_opt ∷ later | some takes ↦ if takes then own else flag ∷ later ]

-- An argument that is no option is passed over, and `--` ends the options.
unfoldable pub arg_opts : OptString → Bytes → Option Bytes → List Opt → List Opt → List Opt
unfolding cluster_opts
arg_opts spec [] next after after_next = after
arg_opts spec (c ∷ []) next after after_next = after
arg_opts spec (c ∷ d ∷ cluster) next after after_next =
    let options = cluster_opts spec (d ∷ cluster) next after after_next in
    if not (c == b'-') then after else if d == b'-' && is_nil cluster then [] else options

-- All that the calls of `getopt` return up to -1, for the arguments behind the program's name.
unfoldable pub getopt : OptString → List Bytes → List Opt
unfolding arg_opts
getopt spec [] = []
getopt spec (arg ∷ []) = arg_opts spec arg none [] []
getopt spec (arg ∷ a ∷ args) =
    let after = getopt spec (a ∷ args) in
    let after_next = getopt spec args in arg_opts spec arg (some a) after after_next
