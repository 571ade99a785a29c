-- ===== src/ArgParser/Config.antt =====
-- What a command line that is accepted configures (bkk_uds_server/bkk_arg_parser.cpp).
use bkk_api.Common.{
  ℕ, ◌≤◌, Bytes, bytes, Bool-cases, Option-cases, ltb, Option, none, some, List, [], ◌∷◌, ◌++◌, ◌≡◌,
  ◌≢◌, ◌⊎◌, inl, inr, refl, arith,
}
use bkk_api.Common.Libc.{Opt, getopt}
use bkk_api.ArgParser.{
  ArgConfig, ParseStatus, ok, error, Next, continues, stops, option_step, int_max,
  parse_positive_int, server_options, options_loop, default_config, check_config, parse_arguments,
}

-- A number that is accepted is positive and fits an `int`.
pub parse_positive_int_bounds :
    (arg : Option Bytes) {n : ℕ} → parse_positive_int arg ≡ some n → (1 ≤ n) × (n ≤ int_max)
unfolding parse_positive_int
parse_positive_int_bounds none e = absurd (ground arith)
parse_positive_int_bounds (some arg) e = ground arith

abbrev pub InRange : ℕ → Type 0
InRange n = (1 ≤ n) × (n ≤ int_max)

pub record IsInRange (c : ArgConfig) : Type 0 where
  pub freshness : InRange c.freshness_seconds
  pub staleness : InRange c.staleness_seconds
  pub size : InRange c.max_cache_size

option_step-IsInRange :
    (o : Opt) (c : ArgConfig) {d : ArgConfig}
    → IsInRange c
    → option_step o c ≡ continues d
    → IsInRange d
unfolding option_step
option_step-IsInRange o c {d} v e = elim (Option-cases (parse_positive_int o.optarg)) [
  | inl h ↦ ground (arith, h)
  | inr (n, h) ↦ ground (arith, h, parse_positive_int_bounds o.optarg h)
]

Next-cases :
    (n : Next) → ((d : ArgConfig) × (n ≡ continues d)) ⊎ ((s : ParseStatus) × (n ≡ stops s))
Next-cases (continues d) = inl (d, refl)
Next-cases (stops s) = inr (s, refl)

options_loop-IsInRange :
    (opts : List Opt) (c : ArgConfig) → IsInRange c → IsInRange (options_loop opts c).1
unfolding options_loop
options_loop-IsInRange [] c v = v
options_loop-IsInRange (o ∷ rest) c v = elim (Next-cases (option_step o c)) [
  | inl (d, e) ↦
      rw (e, options_loop) (options_loop-IsInRange rest d (option_step-IsInRange o c v e))
  | inr (s, e) ↦ rw (e, options_loop) v
]

-- What the parser tells its caller: an accepted configuration, or nothing new.
pub data Accepted (old : ArgConfig) (r : ParseStatus × ArgConfig) : Type 0 where
  accepted :
      (c : ArgConfig)
      → IsInRange c
      → c.freshness_seconds ≤ c.staleness_seconds
      → r ≡ (ok, c)
      → Accepted old r
  unchanged : r.0 ≢ ok → r.1 ≡ old → Accepted old r

check_config-Accepted :
    (r : ParseStatus × ArgConfig) (old : ArgConfig)
    → IsInRange r.1
    → Accepted old (check_config r old)
unfolding check_config
check_config-Accepted (ok, c) old v =
    elim (Bool-cases (ltb c.staleness_seconds c.freshness_seconds)) [
      | inl h ↦ unchanged (rw h (λ x. ground arith)) (rw h)
      | inr h ↦ accepted c v (ground arith) (rw h)
    ]
check_config-Accepted (status, c) old v = unchanged (λ x. ground arith) refl

-- Whatever the arguments are, either they are accepted, and then each of the three numbers is positive
-- and fits an `int`, and the staleness window is no shorter than the freshness window; or they are
-- not, and then the caller's configuration stays as it was.
pub parse_arguments-Accepted :
    (args : List Bytes) (old : ArgConfig) → Accepted old (parse_arguments args old)
unfolding parse_arguments
parse_arguments-Accepted args old =
    check_config-Accepted (options_loop (getopt server_options args) default_config) old
      (options_loop-IsInRange (getopt server_options args) default_config (omega arith))

-- The option for a key file that the usage text and the README name is not known to the parser: a command
-- line that begins with it is refused, with whatever comes behind it.
pub parse_arguments_key_file :
    (file : Bytes) (args : List Bytes) (old : ArgConfig)
    → parse_arguments ((bytes "-k" ++ file) ∷ args) old ≡ (error, old)
unfolding parse_arguments getopt server_options
parse_arguments_key_file file [] old = refl
parse_arguments_key_file file (a ∷ args) old = refl
