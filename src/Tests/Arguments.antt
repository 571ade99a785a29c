-- ===== src/Tests/Arguments.antt =====
-- Tests of ArgParser.
use bkk_api.Common.{◌≡◌, refl, bytes, [], ◌∷◌, some, none}
use bkk_api.Common.Libc.{getopt, strtol}
use bkk_api.ArgParser.{
  ok, error, help, parse_positive_int, server_options, parse_arguments, default_config,
}
use bkk_api.ArgParser.Numbers
use bkk_api.ArgParser.Config

-- Clusters, separate arguments, words that are no options, and a missing argument.
parse_examples :
    (parse_arguments (bytes "-f15" ∷ bytes "word" ∷ bytes "-s" ∷ bytes " 45" ∷ []) default_config
      ≡ (ok, record { freshness_seconds = 15; staleness_seconds = 45; max_cache_size = 100 }))
    × (parse_arguments (bytes "-h" ∷ []) default_config ≡ (help, default_config))
    × (parse_arguments (bytes "-f" ∷ bytes "30" ∷ []) default_config ≡ (error, default_config))
    × (parse_arguments (bytes "-l" ∷ []) default_config ≡ (error, default_config))
    × (parse_arguments (bytes "-l" ∷ bytes "5x" ∷ []) default_config ≡ (error, default_config))
    × (parse_arguments (bytes "--" ∷ bytes "-h" ∷ []) default_config ≡ (ok, default_config))
unfolding parse_arguments getopt server_options parse_positive_int strtol
parse_examples = (refl, refl, refl, refl, refl, refl)

parse_arguments-Accepted_example :
    Config.Accepted default_config (parse_arguments (bytes "-f15" ∷ []) default_config)
parse_arguments-Accepted_example =
    Config.parse_arguments-Accepted (bytes "-f15" ∷ []) default_config

parse_arguments_key_file_example :
    parse_arguments (bytes "-k" ∷ bytes "key.txt" ∷ []) default_config ≡ (error, default_config)
parse_arguments_key_file_example =
    Config.parse_arguments_key_file [] (bytes "key.txt" ∷ []) default_config

parse_positive_int-decimal_example : parse_positive_int (some (Numbers.decimal 2147483648)) ≡ none
parse_positive_int-decimal_example = Numbers.parse_positive_int-decimal 2147483648
