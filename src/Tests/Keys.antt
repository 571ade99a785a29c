-- ===== src/Tests/Keys.antt =====
-- A key file that begins with a blank and ends in a line feed.
use bkk_api.Common.{Bytes, bytes, true, none, some, [], ◌∷◌, ◌++◌, ◌≡◌, refl, cell, length}
use bkk_api.ApiKey.{File, api_key_read_ok, read_api_key_from_file}
use bkk_api.ApiKey.Trim
use bkk_api.ApiKey.Trim.{trim_front, trim_back, all_space}

abbrev content : Bytes
content = 32 ∷ b'k' ∷ b' ' ∷ b'1' ∷ 13 ∷ 10 ∷ []

abbrev key_file : File
key_file = record { told = some (length content); text = content }

read_api_key-trimmed_example :
    read_api_key_from_file (λ path. some key_file) true true (some (bytes "key.txt")) (cell none)
    ≡ record {
      status = api_key_read_ok;
      key_out = cell (some (bytes "k 1" ++ 0 ∷ []));
      opened = 1;
      closed = 1;
      allocated = 2;
      freed = 1;
    }
unfolding trim_front trim_back all_space
read_api_key-trimmed_example =
    Trim.read_api_key-trimmed (λ path. some key_file) (bytes "key.txt") content none refl

read_api_key-IsClean_example :
    Trim.IsClean
      (λ path. some key_file)
      (read_api_key_from_file
        (λ path. some key_file)
        true
        true
        (some (bytes "key.txt"))
        (cell none))
      (some (bytes "key.txt"))
      (cell none)
read_api_key-IsClean_example =
    Trim.read_api_key-IsClean (λ path. some key_file) true true (some (bytes "key.txt")) (cell none)
