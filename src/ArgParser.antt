-- ===== src/ArgParser.antt =====
-- The command line of the server (bkk_uds_server/bkk_arg_parser.hpp and bkk_arg_parser.cpp).
pub mod Numbers
pub mod Config
use bkk_api.Common.{
  ℕ, ◌^◌, ◌-◌, Bytes, ltb, ◌==◌, if◌then◌else◌, Bool, true, false, ◌&&◌, ◌||◌, not, Option, none,
  some, List, [], ◌∷◌,
}
use bkk_api.Common.Libc.{Strtol, strtol, is_out_of_range, Opt, OptString, getopt, is_nil}

pub record ArgConfig : Type 0 where
  pub freshness_seconds : ℕ
  pub staleness_seconds : ℕ
  pub max_cache_size : ℕ

pub data ParseStatus : Type 0 where
  ok error help : ParseStatus

-- `INT_MAX`.
abbrev pub int_max : ℕ
int_max = 2 ^ 31 - 1

-- `parse_positive_int`: the value that is stored, `none` where nothing is and the result is false.
unfoldable pub parse_positive_int : Option Bytes → Option ℕ
parse_positive_int none = none
parse_positive_int (some arg) =
    let r = strtol arg in
    if is_out_of_range r || (not r.converted || not (is_nil r.rest))
    then none
    else if (r.negative || r.magnitude == 0) || ltb int_max r.magnitude
    then none
    else some r.magnitude

-- "f:s:l:h".
unfoldable pub server_options : OptString
server_options c =
    if c == b'f' || (c == b's' || c == b'l')
    then some true
    else if c == b'h'
    then some false
    else none

-- How the loop goes on after an option: with new values of the local variables, or not.
pub data Next : Type 0 where
  continues : ArgConfig → Next
  stops : ParseStatus → Next

-- A value for one of the variables.
abbrev pub assign : Option ℕ → (ℕ → ArgConfig) → Next
assign none f = stops error
assign (some n) f = continues (f n)

-- The body of the loop, on the three local variables.
unfoldable pub option_step : Opt → ArgConfig → Next
option_step o c =
    let value = parse_positive_int o.optarg in
    if o.option == b'f'
    then assign value (λ n. record c { freshness_seconds = n })
    else if o.option == b's'
    then assign value (λ n. record c { staleness_seconds = n })
    else if o.option == b'l'
    then assign value (λ n. record c { max_cache_size = n })
    else if o.option == b'h'
    then stops help
    else stops error

unfoldable pub options_loop : List Opt → ArgConfig → ParseStatus × ArgConfig
unfolding option_step
options_loop [] c = (ok, c)
options_loop (o ∷ rest) c = elim (option_step o c) [
  | continues d ↦ options_loop rest d
  | stops status ↦ (status, c)
]

abbrev pub default_config : ArgConfig
default_config = record { freshness_seconds = 10; staleness_seconds = 20; max_cache_size = 100 }

-- The tests behind the loop: `config_out` is written only where they pass.
unfoldable pub check_config : ParseStatus × ArgConfig → ArgConfig → ParseStatus × ArgConfig
check_config (ok, c) config_out =
    if ltb c.staleness_seconds c.freshness_seconds then (error, config_out) else (ok, c)
check_config (status, c) config_out = (status, config_out)

-- The arguments behind the program's name, and the caller's configuration.
unfoldable pub parse_arguments : List Bytes → ArgConfig → ParseStatus × ArgConfig
unfolding check_config options_loop
parse_arguments args config_out =
    check_config (options_loop (getopt server_options args) default_config) config_out
